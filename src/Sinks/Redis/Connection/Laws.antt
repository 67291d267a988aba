-- ===== src/Sinks/Redis/Connection/Laws.antt =====
-- What `reconnect` and `ensure_connected` of src/sinks/redis_ts.cpp leave behind.
use hw_agent.Prelude.{
  ◌≡◌, ◌≢◌, ◌⊎◌, Bool, true, false, String, none, some, List, [], ◌∷◌, arith, str_append,
}
use hw_agent.Platform.{Hiredis}
use hw_agent.Sinks.Redis.{RedisTsSink}
use hw_agent.Sinks.Redis.Connection.{
  authenticate, select_db, create_all, ensure_schema, or_reset, set_up, reconnect, open_context,
}

-- Two sinks that were configured alike.
pub record SameSetup (s t : RedisTsSink) : Type 0 where
  pub options : s.options ≡ t.options
  pub enabled_metrics : s.enabled_metrics ≡ t.enabled_metrics

-- A held context comes with the flag of the schema, and that flag with a server that has the module.
pub record IsOpen (s : RedisTsSink) : Type 0 where
  pub ready : (s.context ≡ none) ⊎ (s.schema_ready ≡ true)
  pub available : (s.schema_ready ≡ false) ⊎ (s.timeseries_available ≡ true)

-- A command of the set-up keeps the context and the flags.
record Keeps (s t : RedisTsSink) : Type 0 where
  setup : SameSetup t s
  held : s.context ≢ none → t.context ≢ none
  schema_ready : t.schema_ready ≡ s.schema_ready
  timeseries_available : t.timeseries_available ≡ s.timeseries_available

-- How the set-up of the schema ends.
record IsSchema (s : RedisTsSink) (ok : Bool) (t : RedisTsSink) : Type 0 where
  setup : SameSetup t s
  held : s.context ≢ none → t.context ≢ none
  ready : ok ≡ true → t.schema_ready ≡ true
  available : t.schema_ready ≡ true → t.timeseries_available ≡ true

-- How `reconnect` ends: with a context and the flag of the schema, or with no context.
pub record IsReconnected (s : RedisTsSink) (ok : Bool) (t : RedisTsSink) : Type 0 where
  pub setup : SameSetup t s
  pub connected : (ok ≡ false) ⊎ ((t.context ≢ none) × (t.schema_ready ≡ true))
  pub closed : (ok ≡ true) ⊎ (t.context ≡ none)
  pub available : (t.schema_ready ≡ false) ⊎ (t.timeseries_available ≡ true)

module _ {W : Type 0} (redis : Hiredis W) where
  authenticate-Keeps : (s : RedisTsSink) (w : W) → Keeps s (authenticate redis s w).1
  unfolding authenticate
  authenticate-Keeps s w = ground arith

  select_db-Keeps : (s : RedisTsSink) (w : W) → Keeps s (select_db redis s w).1
  unfolding select_db
  select_db-Keeps s w = ground arith

  create_all-IsSchema :
      (l : List String) (s : RedisTsSink) (w : W)
      → s.timeseries_available ≡ true
      → s.schema_ready ≡ false
      → IsSchema s (create_all redis l s w).0 (create_all redis l s w).1
  unfolding create_all
  create_all-IsSchema [] s w a h = ground arith
  create_all-IsSchema (m ∷ l) s w a h =
      let key = str_append (str_append s.options.key_prefix ":") m in
      let answer = redis.command ("TS.CREATE" ∷ key ∷ "DUPLICATE_POLICY" ∷ "LAST" ∷ []) w in
      ground (arith, create_all-IsSchema l (record s { context = some answer.0.1 }) answer.1 a h)

  ensure_schema-IsSchema :
      (s : RedisTsSink) (w : W)
      → s.timeseries_available ≡ true
      → IsSchema s (ensure_schema redis s w).0 (ensure_schema redis s w).1
  unfolding ensure_schema
  ensure_schema-IsSchema s w a = ground (arith, create_all-IsSchema s.enabled_metrics s w a)

  set_up-IsReconnected :
      (s : RedisTsSink) (w : W)
      → s.timeseries_available ≡ true
      → s.context ≢ none
      → IsReconnected s (set_up redis s w).0 (set_up redis s w).1
  unfolding set_up or_reset
  set_up-IsReconnected s w a c =
      let (_, s₁, w₁) = authenticate redis s w in
      let (_, s₂, w₂) = select_db redis s₁ w₁ in
      ground (arith, authenticate-Keeps s w, select_db-Keeps s₁ w₁, ensure_schema-IsSchema s₂ w₂)

  -- From a server that is not known to lack the module, `reconnect` succeeds with a context and the
  -- flag of the schema, or fails with no context.
  pub reconnect-IsReconnected :
      (s : RedisTsSink) (w : W)
      → s.timeseries_available ≡ true
      → IsReconnected s (reconnect redis s w).0 (reconnect redis s w).1
  unfolding reconnect
  reconnect-IsReconnected s w a = ground (
    arith,
    set_up-IsReconnected (record s { context = some false }) (open_context redis s.options w).1 a,
  )
