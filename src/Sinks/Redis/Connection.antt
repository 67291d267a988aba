-- ===== src/Sinks/Redis/Connection.antt =====
-- Connecting: `ensure_connected`, `reconnect`, `authenticate`, `select_db` and `ensure_schema`.
pub mod Laws
use hw_agent.Prelude.{
  ℕ, ◌*◌, ◌/◌, ◌%◌, Bool, true, false, not, ◌&&◌, ◌||◌, String, Option, none, some, List, [], ◌∷◌,
  str_eq, str_append, find?, text_eq, ◌==◌, if◌then◌else◌, to_decimal,
}
use hw_agent.Platform.{Reply, Timeout, Hiredis}
use hw_agent.Sinks.Redis.{RedisTsSink, RedisTsOptions}

-- strstr(reply->str, text) != nullptr, for a string that is there
abbrev pub mentions : Option String → String → Bool
mentions none text = false
mentions (some s) text = elim (find? s text) [ none ↦ false | some i ↦ true ]

-- `context_ != nullptr && context_->err == REDIS_OK`
abbrev pub has_good_context : Option Bool → Bool
has_good_context none = false
has_good_context (some err) = not err

-- What one reply to TS.CREATE means for the loop: stop for good, stop, or go on.
pub data Created : Type 0 where
  no_module failed exists : Created

-- a null reply fails, and so does an error reply
abbrev pub accepted : Option Reply → Bool
accepted none = false
accepted (some r) = not r.is_error

module _ {W : Type 0} (redis : Hiredis W) where
  -- A command through the context; the context keeps the `err` that the command left.
  unfoldable pub run : List String → RedisTsSink → W → Option Reply × RedisTsSink × W
  run args sink w =
      let ((reply, err), w') = redis.command args w in
      (reply, record sink { context = some err }, w')

  unfoldable pub authenticate : RedisTsSink → W → Bool × RedisTsSink × W
  unfolding run
  authenticate sink w =
      if str_eq sink.options.password ""
      then (true, sink, w)
      else (let (reply, sink', w') = run ("AUTH" ∷ sink.options.password ∷ []) sink w in
          (accepted reply, sink', w'))

  unfoldable pub select_db : RedisTsSink → W → Bool × RedisTsSink × W
  unfolding run
  select_db sink w =
      if sink.options.db == 0
      then (true, sink, w)
      else (let (reply, sink', w') = run ("SELECT" ∷ to_decimal sink.options.db ∷ []) sink w in
          (accepted reply, sink', w'))

  -- The body of the loop of `ensure_schema`, on one reply to TS.CREATE.
  unfoldable pub created : Option Reply → Created
  created none = failed
  created (some r) =
      if r.is_error && mentions r.str "unknown command"
      then no_module
      else if not r.is_error || (r.is_error && mentions r.str "already exists")
      then exists
      else failed

  -- the loop over `enabled_metrics_`
  unfoldable pub create_all : List String → RedisTsSink → W → Bool × RedisTsSink × W
  unfolding run
  create_all [] sink w = (true, record sink { schema_ready = true }, w)
  create_all (suffix ∷ rest) sink w =
      let key = str_append (str_append sink.options.key_prefix ":") suffix in
      let (reply, sink', w') = run ("TS.CREATE" ∷ key ∷ "DUPLICATE_POLICY" ∷ "LAST" ∷ []) sink w in
      elim (created reply) [
        | no_module ↦ (false, record sink' { timeseries_available = false }, w')
        | failed ↦ (false, sink', w')
        | exists ↦ create_all rest sink' w'
      ]

  unfoldable pub ensure_schema : RedisTsSink → W → Bool × RedisTsSink × W
  unfolding create_all
  ensure_schema sink w =
      if sink.schema_ready then (true, sink, w) else create_all sink.enabled_metrics sink w

  -- `if (!step()) { context_.reset(); return false; }`, and then the rest
  unfoldable pub or_reset :
      Bool × RedisTsSink × W → (RedisTsSink → W → Bool × RedisTsSink × W) → Bool × RedisTsSink × W
  or_reset (true, sink, w) rest = rest sink w
  or_reset (false, sink, w) rest = (false, record sink { context = none }, w)

  -- what follows a successful connection
  unfoldable pub set_up : RedisTsSink → W → Bool × RedisTsSink × W
  unfolding or_reset
  set_up sink w = or_reset (authenticate sink w) λ s v.
      or_reset (select_db s v) λ s' v'. or_reset (ensure_schema s' v') λ s'' v''. (true, s'', v'')

  timeout_of : RedisTsOptions → Timeout
  timeout_of o = record {
    seconds = o.connect_timeout_ms / 1000;
    microseconds = (o.connect_timeout_ms % 1000) * 1000;
  }

  unfoldable pub open_context : RedisTsOptions → W → Option Bool × W
  unfolding timeout_of
  open_context o w =
      if not (text_eq o.unix_socket [])
      then redis.connect_unix o.unix_socket (timeout_of o) w
      else redis.connect o.host o.port (timeout_of o) w

  unfoldable pub reconnect : RedisTsSink → W → Bool × RedisTsSink × W
  reconnect sink w =
      let closed = record sink { context = none } in
      let (raw, w') = open_context sink.options w in
      elim raw [
        | none ↦ (false, closed, w')
        | some err ↦
            if err then (false, closed, w') else set_up (record sink { context = some false }) w'
      ]

  unfoldable pub ensure_connected : RedisTsSink → W → Bool × RedisTsSink × W
  ensure_connected sink w =
      if not sink.timeseries_available
      then (false, sink, w)
      else if has_good_context sink.context
      then (true, sink, w)
      else reconnect sink w

  -- `check_connectivity()`
  unfoldable pub check_connectivity : RedisTsSink → W → Bool × RedisTsSink × W
  check_connectivity = ensure_connected
