-- ===== src/Mcp/Redis.antt =====
-- `RedisConfig` and `RedisConnection` of tools/hw-agent-mcp/src/tools/metrics_summary.cpp.
use hw_agent.Prelude.{
  ℕ, ◌-◌, ◌*◌, ◌/◌, ◌%◌, ◌^◌, Bool, true, false, String, Text, codes, to_decimal, Option, none,
  some, List, [], ◌∷◌, ◌++◌, ◌==◌, if◌then◌else◌,
}
use hw_agent.Platform.{Timeout}
use hw_agent.Core.Numbers.{stoi}
use hw_agent.Mcp.Json.{Signed}
use hw_agent.Mcp.Attempt.{Attempt, raises, gives, other_exception}
use hw_agent.Mcp.Attempt
use hw_agent.Mcp.Action.{Action, ◌>>=◌, ◌>>◌, attempt}
use hw_agent.Mcp.Window.{parsed_number}

-- The types of redisReply that the code tells apart.
pub data ReplyType : Type 0 where
  error_reply : ReplyType
  array_reply : ReplyType
  string_reply : ReplyType
  other_reply : ReplyType

-- redisReply. The code looks at `str` of an element of an element, and no deeper; a pointer that may
-- be null is an Option.
pub record Element : Type 0 where
  pub type : ReplyType
  pub str : Option Text
  pub elements : List (Option (Option Text))

pub record Reply : Type 0 where
  pub type : ReplyType
  pub elements : List (Option Element)

-- hiredis. A connection attempt gives a null pointer, or a context with `errstr` if its err is not
-- REDIS_OK. A command is the list of its arguments.
pub record Redis (W : Type 0) : Type 0 where
  pub connect : Text → ℕ → Timeout → W → Option (Option Text) × W
  pub connect_unix : Text → Timeout → W → Option (Option Text) × W
  pub command : List Text → W → Option Reply × W

pub record RedisConfig : Type 0 where
  pub host : Text
  pub port : ℕ
  pub unix_socket : Text
  pub password : Text
  pub db : Signed
  pub key_prefix : Text
  pub connect_timeout_ms : ℕ

unfoldable pub shown : Signed → Text
unfolding to_decimal
shown n = if n.negative then codes "-" ++ codes (to_decimal n.size) else codes (to_decimal n.size)

-- static_cast of a signed integer to the unsigned one of that many bits
unfoldable pub to_unsigned : ℕ → Signed → ℕ
to_unsigned bits n =
    if n.negative then (2 ^ bits - n.size % 2 ^ bits) % 2 ^ bits else n.size % 2 ^ bits

module _ (getenv : String → Option Text) where
  unfoldable pub getenv_or : String → Text → Text
  getenv_or name fallback = elim (getenv name) [ none ↦ fallback | some value ↦ value ]

  unfoldable pub getenv_or_int : String → ℕ → Attempt Signed
  unfolding stoi parsed_number
  getenv_or_int name fallback = elim (getenv name) [
    | none ↦ gives (record { negative = false; size = fallback })
    | some value ↦ parsed_number "stoi" (stoi value)
  ]

  unfoldable pub load_redis_config : Attempt RedisConfig
  unfolding getenv_or getenv_or_int to_unsigned
  load_redis_config = Attempt.◌>>=◌ (getenv_or_int "HW_AGENT_REDIS_PORT" 6379) (λ port.
      Attempt.◌>>=◌ (getenv_or_int "HW_AGENT_REDIS_DB" 0) (λ db.
        Attempt.◌>>=◌ (getenv_or_int "HW_AGENT_REDIS_CONNECT_TIMEOUT_MS" 1000) (λ timeout.
          gives (record {
            host = getenv_or "HW_AGENT_REDIS_HOST" (codes "127.0.0.1");
            port = to_unsigned 16 port;
            unix_socket = getenv_or "HW_AGENT_REDIS_UNIX_SOCKET" [];
            password = getenv_or "HW_AGENT_REDIS_PASSWORD" [];
            db = db;
            key_prefix = getenv_or "HW_AGENT_REDIS_PREFIX" (codes "edge:node");
            connect_timeout_ms = to_unsigned 32 timeout;
          }))))

abbrev is_nonempty : Text → Bool
is_nonempty [] = false
is_nonempty (c ∷ cs) = true

abbrev pub failure {ℓ} : {Value : Type ℓ} → String → Attempt Value
failure message = raises (other_exception (codes message))

-- std::runtime_error on a reply of type REDIS_REPLY_ERROR
abbrev pub accepted : Reply → String → Attempt (Unit {0})
accepted reply message = elim reply.type [
  | error_reply ↦ failure message
  | array_reply ↦ gives tt
  | string_reply ↦ gives tt
  | other_reply ↦ gives tt
]

module _ {W : Type 0} (redis : Redis W) where
  unfoldable pub command : List Text → Action W Reply
  command args w =
      let (reply, w') = redis.command args w in
      elim reply [ none ↦ (failure "redis command failed", w') | some r ↦ (gives r, w') ]

  -- The context, or std::runtime_error.
  unfoldable pub open_context : RedisConfig → Action W (Unit {0})
  open_context config w =
      let timeout : Timeout = record {
        seconds = config.connect_timeout_ms / 1000;
        microseconds = config.connect_timeout_ms % 1000 * 1000;
      } in
      let (context, w') =
        if is_nonempty config.unix_socket
        then redis.connect_unix config.unix_socket timeout w
        else redis.connect config.host config.port timeout w in
      elim context [
        | none ↦ (failure "redis connection failed: out of memory", w')
        | some (some errstr) ↦
            (raises (other_exception (codes "redis connection failed: " ++ errstr)), w')
        | some none ↦ (gives tt, w')
      ]

  unfoldable pub authenticate : RedisConfig → Action W (Unit {0})
  unfolding command
  authenticate config =
      if is_nonempty config.password
      then (command (codes "AUTH" ∷ config.password ∷ []) >>= λ reply.
          attempt (accepted reply "redis AUTH failed"))
      else attempt (gives tt)

  unfoldable pub select_db : RedisConfig → Action W (Unit {0})
  unfolding command shown
  select_db config =
      if config.db.size == 0
      then attempt (gives tt)
      else (command (codes "SELECT" ∷ shown config.db ∷ []) >>= λ reply.
          attempt (accepted reply "redis SELECT failed"))

  -- `RedisConnection::connect`
  unfoldable pub connect : RedisConfig → Action W (Unit {0})
  unfolding open_context authenticate select_db
  connect config = do open_context config; authenticate config; select_db config
