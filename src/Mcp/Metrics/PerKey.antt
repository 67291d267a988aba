-- ===== src/Mcp/Metrics/PerKey.antt =====
-- The series of `query_timeseries` in tools/hw-agent-mcp/src/tools/metrics_summary.cpp and its keys.
use hw_agent.Prelude.{◌≡◌, refl, subst, Text, codes, some, List, [], ◌∷◌, map, arith}
use hw_agent.Platform.{Double}
use hw_agent.Mcp.Json.{Json, IsJson, Signed}
use hw_agent.Mcp.Attempt.{Attempt, raises, undefined, gives}
use hw_agent.Mcp.Action.{proceed}
use hw_agent.Mcp.Redis.{Redis, Reply, command, shown}
use hw_agent.Mcp.Metrics.Series.{
  add_points, Samples, no_samples, describe_series, series_of, query_timeseries,
}

module _ {J : Type 0} ⦃j : Json J⦄ where
  abbrev IsSeriesOf : Text → Attempt J → Type 0
  IsSeriesOf key (gives item) = j.find (codes "key") item ≡ some (j.of_text key)
  IsSeriesOf key (raises exception) = Unit
  IsSeriesOf key undefined = Unit

  -- If there is a result, it has one series for each key, in their order, each with its key.
  abbrev pub IsPerKey : List Text → Attempt (List J) → Type 0
  IsPerKey keys (gives series) =
      map (j.find (codes "key")) series ≡ map (λ key. some (j.of_text key)) keys
  IsPerKey keys (raises exception) = Unit
  IsPerKey keys undefined = Unit

module _ {F D J : Type 0} ⦃j : Json J⦄ (laws : IsJson J) (d : Double F D) (stod : Text → Attempt D)
    (of_double : D → J) where
  describe_series-key :
      (key : Text) (samples : Samples D J)
      → IsSeriesOf key (gives (describe_series d stod of_double key samples))
  unfolding describe_series
  describe_series-key key samples = laws.find-object (codes "key") _

  -- The series that an array gives.
  abbrev described : Text → Attempt (Samples D J) → Attempt J
  described key (raises exception) = raises exception
  described key undefined = undefined
  described key (gives samples) = gives (describe_series d stod of_double key samples)

  described-IsSeriesOf :
      (key : Text) (samples : Attempt (Samples D J)) → IsSeriesOf key (described key samples)
  described-IsSeriesOf key (raises exception) = tt
  described-IsSeriesOf key undefined = tt
  described-IsSeriesOf key (gives samples) = describe_series-key key samples

  series_of-IsSeriesOf :
      (key : Text) (reply : Reply) → IsSeriesOf key (series_of d stod of_double key reply)
  unfolding series_of
  series_of-IsSeriesOf key reply = ground (
    arith,
    described-IsSeriesOf key
        (add_points d stod of_double reply.elements (no_samples d stod of_double)),
  )

  -- One more series in front.
  joined-IsPerKey :
      {W : Type 0} (key : Text) (keys : List Text) (item : J) (rest : Attempt (List J) × W)
      → IsSeriesOf key (gives item)
      → IsPerKey keys rest.0
      → IsPerKey (key ∷ keys) (proceed rest (λ series w. (gives (item ∷ series), w))).0
  joined-IsPerKey key keys item (raises exception, w) h hs = tt
  joined-IsPerKey key keys item (undefined, w) h hs = tt
  joined-IsPerKey key keys item (gives series, w) h hs = rw (h, hs) refl

  item-IsPerKey :
      {W : Type 0} (redis : Redis W) (key : Text) (keys : List Text) (from_ms to_ms : Signed)
      (item : Attempt J) (w : W)
      → IsSeriesOf key item
      → IsPerKey keys (query_timeseries d stod of_double redis keys from_ms to_ms w).0
      → IsPerKey
          (key ∷ keys)
          (proceed
            (item, w)
            (λ one w'.
              proceed
                (query_timeseries d stod of_double redis keys from_ms to_ms w')
                (λ series w''. (gives (one ∷ series), w'')))).0
  item-IsPerKey redis key keys from_ms to_ms (raises exception) w h ih = tt
  item-IsPerKey redis key keys from_ms to_ms undefined w h ih = tt
  item-IsPerKey redis key keys from_ms to_ms (gives one) w h ih =
      joined-IsPerKey key keys one _ h ih

  -- The queries from the reply to the first command.
  replied-IsPerKey :
      {W : Type 0} (redis : Redis W) (key : Text) (keys : List Text) (from_ms to_ms : Signed)
      (replied : Attempt Reply × W)
      → ((w : W) → IsPerKey keys (query_timeseries d stod of_double redis keys from_ms to_ms w).0)
      → IsPerKey
          (key ∷ keys)
          (proceed replied (λ reply w.
            proceed
              (series_of d stod of_double key reply, w)
              (λ item w'.
                proceed
                  (query_timeseries d stod of_double redis keys from_ms to_ms w')
                  (λ series w''. (gives (item ∷ series), w''))))).0
  replied-IsPerKey redis key keys from_ms to_ms (raises exception, w) ih = tt
  replied-IsPerKey redis key keys from_ms to_ms (undefined, w) ih = tt
  replied-IsPerKey redis key keys from_ms to_ms (gives reply, w) ih =
      item-IsPerKey redis key keys from_ms to_ms (series_of d stod of_double key reply) w
        (series_of-IsSeriesOf key reply) (ih w)

  pub query_timeseries-IsPerKey :
      {W : Type 0} (redis : Redis W) (keys : List Text) (from_ms to_ms : Signed) (w : W)
      → IsPerKey keys (query_timeseries d stod of_double redis keys from_ms to_ms w).0
  unfolding query_timeseries
  query_timeseries-IsPerKey redis [] from_ms to_ms w = refl
  query_timeseries-IsPerKey redis (key ∷ keys) from_ms to_ms w =
      let args = codes "TS.RANGE" ∷ key ∷ shown from_ms ∷ shown to_ms ∷ [] in
      replied-IsPerKey redis key keys from_ms to_ms (command redis args w)
        (λ w'. query_timeseries-IsPerKey redis keys from_ms to_ms w')

  -- A query that succeeds has one series for each key, in the order of the keys, and each carries its
  -- key.
  pub query_timeseries-keys :
      {W : Type 0} (redis : Redis W) (keys : List Text) (from_ms to_ms : Signed) (w : W)
      (series : List J)
      → (query_timeseries d stod of_double redis keys from_ms to_ms w).0 ≡ gives series
      → map (j.find (codes "key")) series ≡ map (λ key. some (j.of_text key)) keys
  query_timeseries-keys redis keys from_ms to_ms w series h =
      subst (IsPerKey keys) h (query_timeseries-IsPerKey redis keys from_ms to_ms w)
