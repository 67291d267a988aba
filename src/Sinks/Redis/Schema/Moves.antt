-- ===== src/Sinks/Redis/Schema/Moves.antt =====
-- What the calls of src/sinks/redis_ts.cpp do to the schema and the log of commands.
use hw_agent.Prelude.{
  ◌≡◌, ◌⊎◌, ◌∙◌, inl, inr, refl, sym, subst, Bool, true, false, Bool-cases, String, Option, none,
  some, List, [], ◌∷◌, All, arith, str_append, to_decimal,
}
use hw_agent.Platform.{Hiredis, Reply}
use hw_agent.Sinks.Redis.{RedisTsSink}
use hw_agent.Sinks.Redis.Connection.{
  Created, run, authenticate, select_db, created, no_module, failed, exists, create_all,
  ensure_schema, or_reset, set_up, open_context, reconnect, ensure_connected,
}
use hw_agent.Sinks.Redis.Connection.Laws.{SameSetup}
use hw_agent.Sinks.Redis.Schema.{Log, logging, IsThere, WasCreated, IsBacked}

-- From one sink and log to others: nothing that was created is forgotten.
pub record Moves (s : RedisTsSink) (log : Log) (t : RedisTsSink) (log' : Log) : Type 0 where
  pub setup : SameSetup t s
  pub grown : (p m : String) → WasCreated p m log → WasCreated p m log'
  pub backed : IsBacked s log → IsBacked t log'

All-grown :
    (p : String) (log log' : Log) (l : List String)
    → ((m : String) → WasCreated p m log → WasCreated p m log')
    → All (λ m. WasCreated p m log) l
    → All (λ m. WasCreated p m log') l
All-grown p log log' [] g h = tt
All-grown p log log' (m ∷ ms) g (h, hs) = (g m h, All-grown p log log' ms g hs)

Moves-refl : (s : RedisTsSink) (log : Log) → Moves s log s log
Moves-refl s log = record {
  setup = record { options = refl; enabled_metrics = refl };
  grown = λ p m h. h;
  backed = λ h. h;
}

pub Moves-trans :
    {s t u : RedisTsSink} {k l m : Log} → Moves s k t l → Moves t l u m → Moves s k u m
Moves-trans a b = record {
  setup = record {
    options = b.setup.options ∙ a.setup.options;
    enabled_metrics = b.setup.enabled_metrics ∙ a.setup.enabled_metrics;
  };
  grown = λ p m h. b.grown p m (a.grown p m h);
  backed = λ h. b.backed (a.backed h);
}

Moves-context :
    {s t : RedisTsSink} {k l : Log} (context : Option Bool)
    → Moves s k t l
    → Moves s k (record t { context = context }) l
Moves-context context a = record {
  setup = record { options = a.setup.options; enabled_metrics = a.setup.enabled_metrics };
  grown = a.grown;
  backed = a.backed;
}

-- What the loop over the metrics leaves.
record Creates (l : List String) (s : RedisTsSink) (log : Log) (ok : Bool) (t : RedisTsSink)
    (log' : Log) : Type 0 where
  setup : SameSetup t s
  grown : (p m : String) → WasCreated p m log → WasCreated p m log'
  done : ok ≡ true → All (λ m. WasCreated s.options.key_prefix m log') l
  undone : ok ≡ false → t.schema_ready ≡ false

Created-cases : (c : Created) → (c ≡ no_module) ⊎ ((c ≡ failed) ⊎ (c ≡ exists))
Created-cases no_module = inl refl
Created-cases failed = inr (inl refl)
Created-cases exists = inr (inr refl)

created-IsThere :
    {W : Type 0} (redis : Hiredis W) (reply : Option Reply)
    → created redis reply ≡ exists
    → IsThere reply
unfolding created
created-IsThere redis none h = cc
created-IsThere redis (some reply) h = ground (arith, h)

created-Moves :
    (s : RedisTsSink) (log : Log) (ok : Bool) (t : RedisTsSink) (log' : Log)
    → s.schema_ready ≡ false
    → Creates s.enabled_metrics s log ok t log'
    → Moves s log t log'
created-Moves s log ok t log' h c = record {
  setup = c.setup;
  grown = c.grown;
  backed = λ _ ready. elim (Bool-cases ok) [
    | inl good ↦ rw (c.setup.options, c.setup.enabled_metrics) (c.done good)
    | inr bad ↦ absurd (ground (arith, ready, c.undone bad))
  ];
}

module _ {W : Type 0} (redis : Hiredis W) where
  pub run-Moves :
      (args : List String) (s : RedisTsSink) (x : W × Log)
      → let (reply, t, y) = run (logging redis) args s x in Moves s x.1 t y.1
  unfolding run
  run-Moves args s x = record {
    setup = record { options = refl; enabled_metrics = refl };
    grown = λ p m h. inr h;
    backed = λ h ready.
        All-grown s.options.key_prefix x.1 (run (logging redis) args s x).2.1 s.enabled_metrics
          (λ m there. inr there) (h ready);
  }

  authenticate-Moves :
      (s : RedisTsSink) (x : W × Log)
      → let (ok, t, y) = authenticate (logging redis) s x in Moves s x.1 t y.1
  unfolding authenticate
  authenticate-Moves s x =
      ground (arith, Moves-refl s x.1, run-Moves ("AUTH" ∷ s.options.password ∷ []) s x)

  select_db-Moves :
      (s : RedisTsSink) (x : W × Log)
      → let (ok, t, y) = select_db (logging redis) s x in Moves s x.1 t y.1
  unfolding select_db
  select_db-Moves s x =
      ground (arith, Moves-refl s x.1, run-Moves ("SELECT" ∷ to_decimal s.options.db ∷ []) s x)

  create_all-Creates :
      (l : List String) (s : RedisTsSink) (x : W × Log)
      → s.schema_ready ≡ false
      → let (ok, t, y) = create_all (logging redis) l s x in Creates l s x.1 ok t y.1
  unfolding create_all
  create_all-Creates [] s x h = record {
    setup = record { options = refl; enabled_metrics = refl };
    grown = λ p m there. there;
    done = λ _. tt;
    undone = λ e. cc;
  }
  create_all-Creates (m ∷ l) s x h =
      let args =
        "TS.CREATE"
        ∷ str_append (str_append s.options.key_prefix ":") m
        ∷ "DUPLICATE_POLICY"
        ∷ "LAST"
        ∷ [] in
      let (reply, t, y) = run (logging redis) args s x in
      elim (Created-cases (created (logging redis) reply)) [
        | inl missing ↦
            rw (missing, create_all)
              (record {
                setup = record { options = refl; enabled_metrics = refl };
                grown = λ p n q. inr q;
                done = λ e. cc;
                undone = λ _. h;
              })
        | inr (inl bad) ↦
            rw (bad, create_all)
              (record {
                setup = record { options = refl; enabled_metrics = refl };
                grown = λ p n q. inr q;
                done = λ e. cc;
                undone = λ _. h;
              })
        | inr (inr there) ↦
            let rest = create_all-Creates l t y h in
            rw (there, create_all)
              (record {
                setup = record {
                  options = rest.setup.options;
                  enabled_metrics = rest.setup.enabled_metrics;
                };
                grown = λ p n q. rest.grown p n (inr q);
                done = λ e. (
                  rest.grown s.options.key_prefix m
                      (inl (refl, created-IsThere (logging redis) reply there)),
                  rest.done e,
                );
                undone = rest.undone;
              })
      ]

  ensure_schema-Moves :
      (s : RedisTsSink) (x : W × Log)
      → let (ok, t, y) = ensure_schema (logging redis) s x in Moves s x.1 t y.1
  unfolding ensure_schema
  ensure_schema-Moves s x =
      let (ok, t, y) = create_all (logging redis) s.enabled_metrics s x in
      let made : s.schema_ready ≡ false → Moves s x.1 t y.1 =
        λ h. created-Moves s x.1 ok t y.1 h (create_all-Creates s.enabled_metrics s x h) in
      ground (arith, Moves-refl s x.1, made)

  -- A step and, unless it failed, the rest.
  or_reset-Moves :
      (s : RedisTsSink) (log : Log) (step : Bool × RedisTsSink × (W × Log))
      (rest : RedisTsSink → W × Log → Bool × RedisTsSink × (W × Log))
      → (let (ok, t, y) = step in Moves s log t y.1)
      → ((t : RedisTsSink) (y : W × Log)
          → Moves s log t y.1
          → let (ok, u, z) = rest t y in Moves s log u z.1)
      → let (ok, u, z) = or_reset (logging redis) step rest in Moves s log u z.1
  unfolding or_reset
  or_reset-Moves s log (true, t, y) rest m k = k t y m
  or_reset-Moves s log (false, t, y) rest m k = Moves-context none m

  set_up-Moves :
      (s : RedisTsSink) (x : W × Log)
      → let (ok, t, y) = set_up (logging redis) s x in Moves s x.1 t y.1
  unfolding set_up
  set_up-Moves s x =
      let checked : RedisTsSink → W × Log → Bool × RedisTsSink × (W × Log) =
        λ t y. or_reset (logging redis) (ensure_schema (logging redis) t y) λ u z. (true, u, z) in
      let chosen : RedisTsSink → W × Log → Bool × RedisTsSink × (W × Log) =
        λ t y. or_reset (logging redis) (select_db (logging redis) t y) checked in
      or_reset-Moves s x.1 (authenticate (logging redis) s x) chosen (authenticate-Moves s x)
        λ t y a.
          (or_reset-Moves s x.1 (select_db (logging redis) t y) checked
            (Moves-trans a (select_db-Moves t y))
            λ t' y' b.
              (or_reset-Moves s x.1 (ensure_schema (logging redis) t' y') (λ u z. (true, u, z))
                (Moves-trans b (ensure_schema-Moves t' y')) λ u z c. c))

  open_context-log :
      (s : RedisTsSink) (x : W × Log) → (open_context (logging redis) s.options x).1.1 ≡ x.1
  unfolding open_context
  open_context-log s x = ground arith

  pub reconnect-Moves :
      (s : RedisTsSink) (x : W × Log)
      → let (ok, t, y) = reconnect (logging redis) s x in Moves s x.1 t y.1
  unfolding reconnect
  reconnect-Moves s x =
      let (raw, y) = open_context (logging redis) s.options x in
      let opened = record s { context = some false } in
      let same : Moves s x.1 s y.1 =
        subst (λ l. Moves s x.1 s l) (sym (open_context-log s x)) (Moves-refl s x.1) in
      ground (
        arith,
        Moves-context none same,
        Moves-trans (Moves-context (some false) same) (set_up-Moves opened y),
      )

  pub ensure_connected-Moves :
      (s : RedisTsSink) (x : W × Log)
      → let (ok, t, y) = ensure_connected (logging redis) s x in Moves s x.1 t y.1
  unfolding ensure_connected
  ensure_connected-Moves s x = ground (arith, Moves-refl s x.1, reconnect-Moves s x)
