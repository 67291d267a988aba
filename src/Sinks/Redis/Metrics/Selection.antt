-- ===== src/Sinks/Redis/Metrics/Selection.antt =====
-- Which metrics of src/sinks/redis_ts.cpp are sent.
use hw_agent.Prelude.{
  ◌⊎◌, eq_iff, str_eq, str_append, to_decimal, ℕ, ◌+◌, ◌*◌, ◌/◌, ◌≤◌, ◌≡◌, refl, ap, Bool, true,
  false, String, List, [], ◌∷◌, ◌++◌, map, arith, length, if◌then◌else◌, append_assoc, append-nil,
  Bool-cases, inl, inr, ◌∙◌,
}
use hw_agent.Float.{Float}
use hw_agent.Frame.{SignalFrame}
use hw_agent.Platform.{Double}
use hw_agent.Sinks.Redis.{
  RedisTsSink, is_enabled, metric_args, default_metric_suffixes, raw_suffixes, derived_suffixes,
}
use hw_agent.Sinks.Redis.Metrics.{append_metrics, metrics, madd_args}
use hw_agent.Sinks.Redis.Metrics.Contents.{suffix_of}

abbrev pub IsIn : String → List String → Type 0
IsIn suffix [] = ⊥
IsIn suffix (m ∷ ms) = (m ≡ suffix) ⊎ IsIn suffix ms

pub is_enabled-IsIn :
    (enabled : List String) (suffix : String)
    → is_enabled enabled suffix ≡ true
    → IsIn suffix enabled
unfolding is_enabled
is_enabled-IsIn [] suffix h = absurd (ground (arith, h))
is_enabled-IsIn (m ∷ ms) suffix h = elim (Bool-cases (str_eq m suffix)) [
  | inl same ↦ inl ((eq_iff m suffix).0 same)
  | inr other ↦ inr (is_enabled-IsIn ms suffix (ground (arith, h, other)))
]

module _ {D : Type 0} where
  -- the metrics whose suffix is enabled, in their order
  unfoldable pub selected : List String → List (String × D) → List (String × D)
  selected enabled [] = []
  selected enabled (m ∷ ms) =
      let rest = selected enabled ms in if is_enabled enabled m.0 then m ∷ rest else rest

  -- key, timestamp and value of each metric
  unfoldable pub triples : (D → String) → String → ℕ → List (String × D) → List String
  triples show key_prefix timestamp_ms [] = []
  triples show key_prefix timestamp_ms (m ∷ ms) =
      str_append (str_append key_prefix ":") m.0
      ∷ to_decimal timestamp_ms
      ∷ show m.1
      ∷ triples show key_prefix timestamp_ms ms

  -- The metrics whose suffix is one of those enabled, in their order.
  pub data Sent (enabled : List String) : List (String × D) → List (String × D) → Type 0 where
    no_metrics : Sent enabled [] []
    sends :
        {m : String × D} {ms sent : List (String × D)}
        → IsIn m.0 enabled
        → Sent enabled ms sent
        → Sent enabled (m ∷ ms) (m ∷ sent)
    omits :
        {m : String × D} {ms sent : List (String × D)}
        → ¬ IsIn m.0 enabled
        → Sent enabled ms sent
        → Sent enabled (m ∷ ms) sent

  append_metrics-selected :
      (show : D → String) (p : String) (t : ℕ) (enabled args : List String) (ms : List (String × D))
      → append_metrics show p t enabled args ms ≡ args ++ triples show p t (selected enabled ms)
  unfolding append_metrics selected triples metric_args
  append_metrics-selected show p t enabled args [] = rw append-nil
  append_metrics-selected show p t enabled args ((s, v) ∷ ms) =
      elim (Bool-cases (is_enabled enabled s)) [
        | inl on ↦ rw on (
            append_metrics-selected show p t enabled (args ++ metric_args show p t s v) ms
            ∙ append_assoc args _ _)
        | inr off ↦ rw off (append_metrics-selected show p t enabled args ms)
      ]

  length-triples :
      (show : D → String) (p : String) (t : ℕ) (ms : List (String × D))
      → length (triples show p t ms) ≡ 3 * length ms
  unfolding triples metric_args
  length-triples show p t [] = refl
  length-triples show p t (m ∷ ms) = omega (arith, length-triples show p t ms)

  length-selected :
      (enabled : List String) (ms : List (String × D)) → length (selected enabled ms) ≤ length ms
  unfolding selected
  length-selected enabled [] = omega arith
  length-selected enabled (m ∷ ms) = ground (arith, length-selected enabled ms)

module _ {F D : Type 0} ⦃f : Float F⦄ (d : Double F D) where
  madd_args-triples :
      (sink : RedisTsSink) (now_ns : ℕ) (frame : SignalFrame F)
      → madd_args d sink now_ns frame
        ≡ "TS.MADD"
          ∷ triples d.to_string sink.options.key_prefix
              (now_ns / 1_000_000)
              (selected sink.enabled_metrics (metrics d sink.options.publish_health frame))
  unfolding madd_args
  madd_args-triples sink now_ns frame =
      append_metrics-selected d.to_string sink.options.key_prefix (now_ns / 1_000_000)
        sink.enabled_metrics ("TS.MADD" ∷ []) (metrics d sink.options.publish_health frame)

  length-metrics : (b : Bool) (frame : SignalFrame F) → length (metrics d b frame) ≤ 36
  unfolding metrics
  length-metrics true frame = omega arith
  length-metrics false frame = omega arith

  -- Whatever is enabled, the command fits the buffers that the constructor reserves
  -- (`kMaxCommandArgCount`), and beside its name it has three arguments for each metric sent.
  pub length-madd_args :
      (sink : RedisTsSink) (now_ns : ℕ) (frame : SignalFrame F)
      → (length (madd_args d sink now_ns frame)
          ≡ 1
            + 3
              * length
                  (selected sink.enabled_metrics (metrics d sink.options.publish_health frame)))
        × (length (madd_args d sink now_ns frame) ≤ 1 + 36 * 3)
  length-madd_args sink now_ns frame =
      let ms = metrics d sink.options.publish_health frame in
      let sent = selected sink.enabled_metrics ms in
      omega (
        arith,
        ap length (madd_args-triples sink now_ns frame),
        length-triples d.to_string sink.options.key_prefix (now_ns / 1_000_000) sent,
        length-selected sink.enabled_metrics ms,
        length-metrics sink.options.publish_health frame,
      )

  -- A sink that was given no list of metrics sends all that the frame has: with health metrics, those
  -- for which the default schema has a key, in its order, and without them the ones before.
  pub selected_default :
      (frame : SignalFrame F)
      → (selected default_metric_suffixes (metrics d true frame) ≡ metrics d true frame)
        × (map suffix_of (metrics d true frame) ≡ default_metric_suffixes)
        × (selected default_metric_suffixes (metrics d false frame) ≡ metrics d false frame)
        × (map suffix_of (metrics d false frame) ≡ raw_suffixes ++ derived_suffixes)
  unfolding selected metrics is_enabled
  selected_default frame = (refl, refl, refl, refl)
