-- ===== src/Core/Config/Valid.antt =====
-- The ranges of the configurations that src/core/config.cpp loads.
use native.Mathlib.Nat.{le-div_iff_mul-le, div-le_self}
use hw_agent.Prelude.{
  not, ◌⊎◌, ℕ, ◌/◌, ◌^◌, ◌≤◌, ◌<◌, ◌≡◌, ◌≢◌, refl, Bool, false, Text, Option, none, some, List, [],
  ◌∷◌, arith, text_eq, Option-cases, inl, inr,
}
use hw_agent.Float.{Float, IsFloat}
use hw_agent.Core.Text.{split_at, trim, before, indent}
use hw_agent.Core.Numbers.{Parsed, invalid, out_of_range, number, stoi}
use hw_agent.Core.Config.{
  AgentConfig, RedisConfig, Outcome, returns, >>=-eq-returns, defaults, apply_key_value,
  apply_tick_rate, apply_window, apply_device, apply_sensor, tcp_address, redis_address,
}
use hw_agent.Core.Config.Load.{full_key, cut, enter, read_line, read_lines, load_agent_config}

-- An address in range: a port that fits, and no host beside a socket.
pub record IsAddress (r : RedisConfig) : Type 0 where
  pub port_le : r.port ≤ 65535
  pub one_kind : r.unix_socket ≢ [] → (r.host ≡ []) × (r.port ≡ 0)

pub record IsValid {F : Type 0} ⦃f : Float F⦄ (c : AgentConfig F) : Type 0 where
  pub tick_ge : 1 ≤ c.tick_interval
  pub tick_le : c.tick_interval ≤ 1000
  pub window : f.le c.thermal_pressure_warning_window_c (f.lit 0 1) ≡ false
  pub device_lt : c.gpu_device_index < 2 ^ 32
  pub address : IsAddress c.redis

tcp_address-IsAddress :
    (r s : RedisConfig) (value : Text)
    → IsAddress r
    → r.unix_socket ≡ []
    → tcp_address r value ≡ returns s
    → IsAddress s
unfolding tcp_address
tcp_address-IsAddress r s value h n e = ground arith

redis_address-IsAddress :
    (r s : RedisConfig) (value : Text)
    → IsAddress r
    → redis_address r value ≡ returns s
    → IsAddress s
unfolding redis_address
redis_address-IsAddress r s value h e =
    let cleared = record r { enabled = not (text_eq value []); unix_socket = [] } in
    ground (arith, tcp_address-IsAddress cleared s value)

-- 1000 / hz for a rate from 1 to 1000
interval_range : (hz : ℕ) → 1 ≤ hz → hz ≤ 1000 → (1 ≤ 1000 / hz) × (1000 / hz ≤ 1000)
interval_range hz h k = ((le-div_iff_mul-le h).1 (omega arith), div-le_self 1000 hz)

Parsed-cases :
    (p : Parsed) → ((n : Bool) × (m : ℕ) × (p ≡ number n m)) ⊎ ((p ≡ invalid) ⊎ (p ≡ out_of_range))
Parsed-cases invalid = inr (inl refl)
Parsed-cases out_of_range = inr (inr refl)
Parsed-cases (number n m) = inl (n, m, refl)

module _ {F : Type 0} ⦃f : Float F⦄ (stof : Text → Outcome F) where
  apply_tick_rate-IsValid :
      (c c' : AgentConfig F) (value : Text)
      → IsValid c
      → apply_tick_rate stof c value ≡ returns c'
      → IsValid c'
  unfolding apply_tick_rate
  apply_tick_rate-IsValid c c' value h e = elim (Parsed-cases (stoi value)) [
    | inl (n, hz, p) ↦ ground (arith, p, interval_range hz)
    | inr bad ↦ ground (arith, bad)
  ]

  apply_window-IsValid :
      (c c' : AgentConfig F) (value : Text)
      → IsValid c
      → apply_window stof c value ≡ returns c'
      → IsValid c'
  unfolding apply_window
  apply_window-IsValid c c' value h e = ground arith

  apply_device-IsValid :
      (c c' : AgentConfig F) (value : Text)
      → IsValid c
      → apply_device stof c value ≡ returns c'
      → IsValid c'
  unfolding apply_device
  apply_device-IsValid c c' value h e = ground arith

  apply_sensor-IsValid :
      (c c' : AgentConfig F) (key value : Text)
      → IsValid c
      → apply_sensor stof c key value ≡ returns c'
      → IsValid c'
  unfolding apply_sensor
  apply_sensor-IsValid c c' key value h e = ground arith

  -- One key and its value, if accepted, keep a configuration in range.
  pub apply_key_value-IsValid :
      (c c' : AgentConfig F) (key value : Text)
      → IsValid c
      → apply_key_value stof c key value ≡ returns c'
      → IsValid c'
  unfolding apply_key_value
  apply_key_value-IsValid c c' key value h e = ground (
    arith,
    apply_tick_rate-IsValid c c' value h,
    apply_window-IsValid c c' value h,
    apply_device-IsValid c c' value h,
    apply_sensor-IsValid c c' key value h,
    redis_address-IsAddress c.redis c'.redis value h.address,
  )

  enter-IsValid :
      (ss : List Text) (c : AgentConfig F) (depth : ℕ) (key value : Text) (ss' : List Text)
      (c' : AgentConfig F)
      → IsValid c
      → enter stof ss c depth key value ≡ returns (ss', c')
      → IsValid c'
  unfolding enter
  enter-IsValid ss c depth key value ss' c' h e =
      ground (arith, apply_key_value-IsValid c c' (full_key (cut ss depth) key) value h)

  read_line-IsValid :
      (ss : List Text) (c : AgentConfig F) (line : Text) (ss' : List Text) (c' : AgentConfig F)
      → IsValid c
      → read_line stof ss c line ≡ returns (ss', c')
      → IsValid c'
  unfolding read_line
  read_line-IsValid ss c line ss' c' h e =
      elim (Option-cases (split_at b':' (trim (before b'#' line)))) [
        | inl plain ↦ ground (arith, plain)
        | inr ((k, v), found) ↦ ground (
          arith,
          found,
          enter-IsValid ss c (indent (before b'#' line) / 2) (trim k) (trim v) ss' c' h,
        )
      ]

  read_lines-IsValid :
      (lines : List Text) (ss : List Text) (c c' : AgentConfig F)
      → IsValid c
      → read_lines stof ss c lines ≡ returns c'
      → IsValid c'
  unfolding read_lines
  read_lines-IsValid [] ss c c' h e = ground arith
  read_lines-IsValid (l ∷ ls) ss c c' h e =
      let (s, p, q) = >>=-eq-returns (read_line stof ss c l) _ e in
      read_lines-IsValid ls s.0 s.1 c' (read_line-IsValid ss c l s.0 s.1 h p) q

  defaults-IsValid : IsFloat F → IsValid (defaults stof)
  unfolding defaults
  defaults-IsValid laws = ground (
    arith,
    laws.lit_pos 30 1 (omega arith) (omega arith) (omega arith) (omega arith),
    laws.lt-eq-not-le (f.lit 0 1) (f.lit 30 1),
    laws.lt_num (f.lit 0 1) (f.lit 30 1),
  )

  -- A file that loads gives a tick interval of 1 to 1000 ms, a window that is not at most 0, a device
  -- index of 32 bits, a port of 16 bits, and no host or port beside a socket.
  pub load_agent_config-IsValid :
      (laws : IsFloat F) (file : Option (List Text)) (c : AgentConfig F)
      → load_agent_config stof file ≡ returns c
      → IsValid c
  unfolding load_agent_config
  load_agent_config-IsValid laws none c e = cc
  load_agent_config-IsValid laws (some lines) c e =
      read_lines-IsValid lines [] (defaults stof) c (defaults-IsValid laws) e
