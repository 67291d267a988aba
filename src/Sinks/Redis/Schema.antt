-- ===== src/Sinks/Redis/Schema.antt =====
-- The commands that src/sinks/redis_ts.cpp sends, with their replies, and the keys that they create.
pub mod Moves
pub mod Laws
use hw_agent.Prelude.{
  ◌≡◌, ◌⊎◌, Bool, true, false, String, Option, none, some, List, [], ◌∷◌, All, str_append,
}
use hw_agent.Platform.{Clock, Hiredis, Reply}
use hw_agent.Sinks.Redis.{RedisTsSink}
use hw_agent.Sinks.Redis.Connection.{mentions}

-- The commands so far, the last one first.
abbrev pub Log : Type 0
Log = List (List String × Option Reply)

module _ {W : Type 0} where
  -- The same server, with a log beside its world.
  abbrev pub logging : Hiredis W → Hiredis (W × Log)
  logging redis = record {
    connect = λ host port timeout x.
        let (context, w) = redis.connect host port timeout x.0 in (context, (w, x.1));
    connect_unix = λ path timeout x.
        let (context, w) = redis.connect_unix path timeout x.0 in (context, (w, x.1));
    command =
        λ args x. let (answer, w) = redis.command args x.0 in (answer, (w, (args, answer.0) ∷ x.1));
  }

  abbrev pub beside : Clock W → Clock (W × Log)
  beside clock = record {
    unix_now_ns = λ x. let (now, w) = clock.unix_now_ns x.0 in (now, (w, x.1));
    steady_now_ns = λ x. let (now, w) = clock.steady_now_ns x.0 in (now, (w, x.1));
    sleep_until = λ t x. (clock.sleep_until t x.0, x.1);
  }

-- The reply says that the key is there.
abbrev pub IsThere : Option Reply → Type 0
IsThere none = ⊥
IsThere (some reply) = (reply.is_error ≡ false) ⊎ (mentions reply.str "already exists" ≡ true)

-- The key of the metric was created, or was there before.
abbrev pub WasCreated : String → String → Log → Type 0
WasCreated key_prefix suffix [] = ⊥
WasCreated key_prefix suffix ((args, reply) ∷ log) =
    ((args
        ≡ "TS.CREATE"
          ∷ str_append (str_append key_prefix ":") suffix
          ∷ "DUPLICATE_POLICY"
          ∷ "LAST"
          ∷ [])
      × IsThere reply)
    ⊎ WasCreated key_prefix suffix log

-- The flag of the schema is set only after each enabled metric had its key.
abbrev pub IsBacked : RedisTsSink → Log → Type 0
IsBacked s log =
    s.schema_ready ≡ true → All (λ m. WasCreated s.options.key_prefix m log) s.enabled_metrics
