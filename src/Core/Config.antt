-- ===== src/Core/Config.antt =====
-- src/core/config.cpp and include/core/config.hpp: the configuration file.
pub mod Load
pub mod Valid
use hw_agent.Prelude.{
  ℕ, ◌+◌, ◌-◌, ◌*◌, ◌/◌, ◌%◌, ◌^◌, ◌≡◌, refl, Bool, true, false, not, ◌||◌, ◌&&◌, Text, String,
  codes, text_eq, Option, none, some, List, [], ◌∷◌, ◌++◌, map, ◌==◌, leb, ltb, if◌then◌else◌,
}
use hw_agent.Float.{Float}
use hw_agent.Core.Text.{to_lower, strip_prefix, split_at}
use hw_agent.Core.Numbers.{Parsed, invalid, out_of_range, number, stoi, stoll}

pub record RedisConfig : Type 0 where
  pub host : Text
  pub port : ℕ
  pub unix_socket : Text
  pub enabled : Bool

pub record AgentConfig (F : Type 0) : Type 0 where
  -- in milliseconds
  pub tick_interval : ℕ
  pub thermal_throttle_temp_c : F
  pub thermal_pressure_warning_window_c : F
  pub gpu_device_index : ℕ
  pub publish_health : Bool
  pub stdout_debug : Bool
  pub redis : RedisConfig
  pub sensor_enabled : List (Text × Bool)

-- The exceptions of the loader, and the one access out of bounds.
pub data Failure : Type 0 where
  cannot_open bad_number number_range tick_rate_low tick_rate_high window_low device_low port_range
        out_of_bounds :
      Failure

-- How a function that can throw ends.
pub data Outcome {ℓ} (Value : Type ℓ) : Type ℓ where
  throws : Failure → Outcome Value
  returns : Value → Outcome Value

-- An exception skips what follows it.
infixl 5 ◌>>=◌
abbrev pub ◌>>=◌ {ℓ κ} :
    {Value : Type ℓ} {Next : Type κ} → Outcome Value → (Value → Outcome Next) → Outcome Next
throws failure >>= next = throws failure
returns value >>= next = next value

-- What a chain that succeeds went through.
pub >>=-eq-returns {ℓ κ} :
    {A : Type ℓ} {B : Type κ} (m : Outcome A) (f : A → Outcome B) {b : B}
    → (m >>= f) ≡ returns b
    → (a : A) × (m ≡ returns a) × (f a ≡ returns b)
>>=-eq-returns (returns a) f h = (a, refl, h)
>>=-eq-returns (throws e) f h = cc

-- A number, or the exception that the C++ conversion throws.
abbrev pub require_number : Parsed → Outcome (Bool × ℕ)
require_number invalid = throws bad_number
require_number out_of_range = throws number_range
require_number (number negative value) = returns (negative, value)

-- `parse_bool`
unfoldable pub parse_bool : Text → Bool
unfolding to_lower
parse_bool value =
    let lower = map to_lower value in
    text_eq lower (codes "true")
    || (text_eq lower (codes "yes") || (text_eq lower (codes "on") || text_eq lower (codes "1")))

-- `config.sensor_enabled[name] = b`
unfoldable pub put : Text → Bool → List (Text × Bool) → List (Text × Bool)
put name b [] = (name, b) ∷ []
put name b ((k, v) ∷ rest) = if text_eq k name then (name, b) ∷ rest else (k, v) ∷ put name b rest

-- `config.sensor_enabled.find(name)`
unfoldable pub find : Text → List (Text × Bool) → Option Bool
find name [] = none
find name ((k, v) ∷ rest) = if text_eq k name then some v else find name rest

abbrev starts_with_slash : Text → Bool
starts_with_slash [] = false
starts_with_slash (c ∷ cs) = c == b'/'

-- host:port, or a host alone, which keeps the port
unfoldable pub tcp_address : RedisConfig → Text → Outcome RedisConfig
tcp_address r value = elim (split_at b':' value) [
  | none ↦ returns (record r { host = value })
  | some (host, digits) ↦
      (require_number (stoi digits) >>= λ parsed.
      let (negative, port) = parsed in
      if negative || (port == 0 || ltb 65535 port)
      then throws port_range
      else returns (record r { host = host; port = port }))
]

-- The branch of `apply_key_value` for redis.address.
unfoldable pub redis_address : RedisConfig → Text → Outcome RedisConfig
redis_address r value =
    let r' = record r { enabled = not (text_eq value []) } in
    elim (strip_prefix (codes "unix://") value) [
      | some path ↦ returns (record r' { unix_socket = path; host = []; port = 0 })
      | none ↦
          if starts_with_slash value
          then returns (record r' { unix_socket = value; host = []; port = 0 })
          else tcp_address (record r' { unix_socket = [] }) value
    ]

-- key == name
unfoldable pub key_is : Text → String → Bool
key_is key name = text_eq key (codes name)

module _ {F : Type 0} ⦃f : Float F⦄ (stof : Text → Outcome F) where
  -- The member initialisers of `AgentConfig` and `RedisConfig`.
  unfoldable pub defaults : AgentConfig F
  defaults = record {
    tick_interval = 100;
    thermal_throttle_temp_c = f.lit 85 1;
    thermal_pressure_warning_window_c = f.lit 30 1;
    gpu_device_index = 0;
    publish_health = true;
    stdout_debug = true;
    redis = record { host = codes "127.0.0.1"; port = 6379; unix_socket = []; enabled = false };
    sensor_enabled = [];
  }

  unfoldable pub apply_tick_rate : AgentConfig F → Text → Outcome (AgentConfig F)
  apply_tick_rate config value = require_number (stoi value) >>= λ parsed.
      let (negative, hz) = parsed in
      if negative || hz == 0
      then throws tick_rate_low
      else if ltb 1000 hz
      then throws tick_rate_high
      else returns (record config { tick_interval = 1000 / hz })

  unfoldable pub apply_window : AgentConfig F → Text → Outcome (AgentConfig F)
  apply_window config value = stof value >>= λ window.
      if f.le window (f.lit 0 1)
      then throws window_low
      else returns (record config { thermal_pressure_warning_window_c = window })

  unfoldable pub apply_device : AgentConfig F → Text → Outcome (AgentConfig F)
  apply_device config value = require_number (stoll value) >>= λ parsed.
      let (negative, index) = parsed in
      if negative && not (index == 0)
      then throws device_low
      else returns (record config { gpu_device_index = index % 2 ^ 32 })

  unfoldable pub apply_sensor : AgentConfig F → Text → Text → Outcome (AgentConfig F)
  apply_sensor config key value = elim (strip_prefix (codes "sensors.") key) [
    | none ↦ returns config
    | some name ↦
        returns
          (record config { sensor_enabled = put name (parse_bool value) config.sensor_enabled })
  ]

  -- `apply_key_value`
  unfoldable pub apply_key_value : AgentConfig F → Text → Text → Outcome (AgentConfig F)
  apply_key_value config key value =
      if key_is key "tick_rate_hz"
      then apply_tick_rate config value
      else if key_is key "thermal_throttle_temp_c"
      then (stof value >>= λ t. returns (record config { thermal_throttle_temp_c = t }))
      else if key_is key "thermal_pressure_warning_window_c"
      then apply_window config value
      else if key_is key "gpu.device_index"
      then apply_device config value
      else if key_is key "agent.publish_health"
      then returns (record config { publish_health = parse_bool value })
      else if key_is key "agent.stdout_debug"
      then returns (record config { stdout_debug = parse_bool value })
      else if key_is key "redis.address"
      then (redis_address config.redis value >>= λ r. returns (record config { redis = r }))
      else apply_sensor config key value
