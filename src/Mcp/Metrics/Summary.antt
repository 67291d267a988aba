-- ===== src/Mcp/Metrics/Summary.antt =====
-- The shape of an answer of `handle_metrics_summary` in tools/hw-agent-mcp/src/tools/metrics_summary.cpp.
use hw_agent.Prelude.{
  ℕ, ◌≡◌, refl, Text, codes, Option, none, some, List, [], ◌∷◌, map, length, foldl, add64,
  Option-cases, inl, inr,
}
use hw_agent.Mcp.Json.{Json, IsJson, Signed}
use hw_agent.Mcp.Attempt.{Attempt, raises, undefined, gives}
use hw_agent.Mcp.Action.{Action, proceed, ◌>>=◌}
use hw_agent.Mcp.Metrics.{total_samples}
use hw_agent.Mcp.Metrics.Tools.{summary_of}
use hw_agent.Mcp.Keys.{select_keys}
use hw_agent.Mcp.Metrics.Series.{of_size}

-- Of a result, if there is one.
abbrev pub IsGood : {A : Type 0} → (A → Type 0) → Attempt A → Type 0
IsGood holds (gives a) = holds a
IsGood holds (raises exception) = Unit
IsGood holds undefined = Unit

pub bind-IsGood :
    {W A B : Type 0} (holds : B → Type 0) (action : Action W A) (next : A → Action W B) (w : W)
    → ((value : A) (w' : W) → (action w).0 ≡ gives value → IsGood holds (next value w').0)
    → IsGood holds ((action >>= next) w).0
bind-IsGood {W} {A} {B} holds action next w h = from_result (action w) h
  where
    from_result :
        (a : Attempt A × W)
        → ((value : A) (w' : W) → a.0 ≡ gives value → IsGood holds (next value w').0)
        → IsGood holds (proceed a next).0
    from_result (raises exception, w') h = tt
    from_result (undefined, w') h = tt
    from_result (gives value, w') h = h value w' refl

module _ {J : Type 0} ⦃j : Json J⦄ where
  unfoldable pub sample_count : J → Option ℕ
  sample_count item = elim (j.find (codes "sample_count") item) [
    | none ↦ none
    | some count ↦ j.as_size count
  ]

  -- The series carry numbers of samples, and the total is their sum in 64 bits.
  abbrev pub IsTotal : List J → ℕ → ℕ → Type 0
  IsTotal series from total =
      (counts : List ℕ) × (map sample_count series ≡ map some counts)
      × (total ≡ foldl add64 from counts)

  pub total_samples-IsTotal :
      (series : List J) (from : ℕ) → IsGood (IsTotal series from) (total_samples series from)
  unfolding total_samples sample_count
  total_samples-IsTotal [] from = ([], refl, refl)
  total_samples-IsTotal (item ∷ series) from =
      elim (Option-cases (j.find (codes "sample_count") item)) [
        | inl e ↦ rw (e, total_samples) tt
        | inr (count, e) ↦ elim (Option-cases (j.as_size count)) [
          | inl bad ↦ rw (e, bad, total_samples) tt
          | inr (n, good) ↦
              rw (e, good, total_samples)
                (later-IsTotal item n series from (rw (e, good, sample_count) refl)
                  (total_samples series (add64 from n))
                  (total_samples-IsTotal series (add64 from n)))
        ]
      ]
    where
      later-IsTotal :
          (item : J) (n : ℕ) (series : List J) (from : ℕ)
          → sample_count item ≡ some n
          → (total : Attempt ℕ) → IsGood (IsTotal series (add64 from n)) total
          → IsGood (IsTotal (item ∷ series) from) total
      later-IsTotal item n series from e (raises exception) h = tt
      later-IsTotal item n series from e undefined h = tt
      later-IsTotal item n series from e (gives total) (counts, same, added) =
          (n ∷ counts, rw (e, same) refl, added)

  -- An answer for these filters, if Redis has these keys: the keys that the filters select, a series
  -- for each of them, in their order, and two numbers, that of the series and the sum of their
  -- samples in 64 bits.
  pub record IsSummary (filters all_keys : List Text) (answer : J) : Type 0 where
    pub series : List J
    pub counts : List ℕ
    pub summary : J
    pub tool : j.find (codes "tool") answer ≡ some (j.of_text (codes "metrics.summary"))
    pub shown_filters : j.find (codes "filters") answer ≡ some (j.of_list (map j.of_text filters))
    pub matched_keys :
        j.find (codes "matched_keys") answer
        ≡ some (j.of_list (map j.of_text (select_keys all_keys filters)))
    pub listed : j.find (codes "series") answer ≡ some (j.of_list series)
    pub per_key :
        map (j.find (codes "key")) series
        ≡ map (λ key. some (j.of_text key)) (select_keys all_keys filters)
    pub summarized : j.find (codes "summary") answer ≡ some summary
    pub series_count :
        j.find (codes "series_count") summary ≡ some (j.of_integer (of_size (length series)))
    pub counted : map sample_count series ≡ map some counts
    pub total :
        j.find (codes "sample_count") summary ≡ some (j.of_integer (of_size (foldl add64 0 counts)))

  pub summary_of-IsSummary :
      (laws : IsJson J) (window : J) (from_ms : Signed) (to_ms : ℕ) (filters all_keys : List Text)
      (series : List J) (total : ℕ)
      → map (j.find (codes "key")) series
        ≡ map (λ key. some (j.of_text key)) (select_keys all_keys filters)
      → IsTotal series 0 total
      → IsSummary filters all_keys
          (summary_of window from_ms to_ms filters (select_keys all_keys filters) series total)
  unfolding summary_of
  summary_of-IsSummary laws window from_ms to_ms filters all_keys series total keys
        (counts, same, sum) =
      record {
        series = series;
        counts = counts;
        summary = _;
        tool = laws.find-object (codes "tool") _;
        shown_filters = laws.find-object (codes "filters") _;
        matched_keys = laws.find-object (codes "matched_keys") _;
        listed = laws.find-object (codes "series") _;
        per_key = keys;
        summarized = laws.find-object (codes "summary") _;
        series_count = laws.find-object (codes "series_count") _;
        counted = same;
        total = rw (← sum) (laws.find-object (codes "sample_count") _);
      }
