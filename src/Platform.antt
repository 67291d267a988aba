-- ===== src/Platform.antt =====
-- What the program calls and does not implement: clocks, hiredis and the conversions of `double`.
-- Each is a record of operations over a type `W` of states of the world, which the definitions take
-- as an argument; the operations return the next state.
use hw_agent.Prelude.{ℕ, Bool, String, Text, List, Option}

-- std::chrono: nanoseconds since the epoch of each clock.
pub record Clock (W : Type 0) : Type 0 where
  pub unix_now_ns : W → ℕ × W
  pub steady_now_ns : W → ℕ × W
  -- std::this_thread::sleep_until
  pub sleep_until : ℕ → W → W

-- `redisReply`: its type is REDIS_REPLY_ERROR or not, and `str` may be null.
pub record Reply : Type 0 where
  pub is_error : Bool
  pub str : Option String

-- `timeval`
pub record Timeout : Type 0 where
  pub seconds : ℕ
  pub microseconds : ℕ

-- A connection attempt returns a null pointer, or a context with its `err != REDIS_OK`; a command
-- returns a null pointer or a reply, and the `err` flag that it leaves in the context.
pub record Hiredis (W : Type 0) : Type 0 where
  pub connect : Text → ℕ → Timeout → W → Option Bool × W
  pub connect_unix : Text → Timeout → W → Option Bool × W
  pub command : List String → W → (Option Reply × Bool) × W

-- `double`, reached from `float` and from unsigned integers, its arithmetic, std::to_string, and the
-- conversion back to `float`.
pub record Double (F D : Type 0) : Type 0 where
  pub of_float : F → D
  pub of_nat : ℕ → D
  pub add : D → D → D
  pub div : D → D → D
  pub to_float : D → F
  pub to_string : D → String
