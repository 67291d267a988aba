-- ===== src/Mcp/Metrics/Unstamped.antt =====
-- Integer replies in the series of tools/hw-agent-mcp/src/tools/metrics_summary.cpp.
use hw_agent.Prelude.{◌≡◌, refl, Text, codes, Option, none, some, List, [], ◌∷◌, All, map, arith}
use hw_agent.Platform.{Double}
use hw_agent.Mcp.Json.{Json, Signed}
use hw_agent.Mcp.Attempt.{Attempt, gives}
use hw_agent.Mcp.Redis.{Redis, Reply, Element, array_reply, command, shown}
use hw_agent.Mcp.Metrics.Series.{
  point_strings, add_points, Samples, no_samples, describe_series, series_of, query_timeseries,
}

-- A point whose timestamp has no `str`, as hiredis leaves it in a reply that is an integer.
abbrev pub IsUnstamped : Option Element → Type 0
IsUnstamped none = Unit
IsUnstamped (some point) = elim point.elements [ some (some ts) ∷ _ ↦ ⊥ | _ ↦ Unit ]

-- A server that answers each command with an array of such points.
abbrev pub IsUnstampedServer : {W : Type 0} → Redis W → Type 0
IsUnstampedServer {W} redis =
    (args : List Text) (w : W)
    → (reply : Reply) × ((redis.command args w).0 ≡ some reply)
      × (reply.type ≡ array_reply)
      × All IsUnstamped reply.elements

point_strings-none : (point : Option Element) → IsUnstamped point → point_strings point ≡ none
unfolding point_strings
point_strings-none none h = refl
point_strings-none (some point) h = ground arith

command-gives :
    {W : Type 0} (redis : Redis W) (args : List Text) (reply : Reply) (w : W)
    → (redis.command args w).0 ≡ some reply
    → command redis args w ≡ (gives reply, (redis.command args w).1)
unfolding command
command-gives redis args reply w h = rw (command, h) refl

module _ {F D J : Type 0} ⦃j : Json J⦄ (d : Double F D) (stod : Text → Attempt D)
    (of_double : D → J) where
  add_points-unstamped :
      (points : List (Option Element)) (samples : Samples D J)
      → All IsUnstamped points
      → add_points {J = J} d stod of_double points samples ≡ gives samples
  unfolding add_points
  add_points-unstamped [] samples h = refl
  add_points-unstamped (point ∷ rest) samples (h, hs) =
      rw (add_points, point_strings-none point h) (add_points-unstamped rest samples hs)

  series_of-unstamped :
      (key : Text) (reply : Reply)
      → reply.type ≡ array_reply
      → All IsUnstamped reply.elements
      → series_of d stod of_double key reply
        ≡ gives (describe_series d stod of_double key (no_samples d stod of_double))
  unfolding series_of
  series_of-unstamped key reply e h =
      rw (series_of, e, add_points-unstamped reply.elements (no_samples d stod of_double) h) refl

  -- If a server answers with integers as timestamps, which hiredis gives no `str`, then a query
  -- succeeds with no sample for any key, whatever points the server holds.
  pub query_timeseries-unstamped :
      {W : Type 0} (redis : Redis W) (keys : List Text) (from_ms to_ms : Signed) (w : W)
      → IsUnstampedServer redis
      → (query_timeseries d stod of_double redis keys from_ms to_ms w).0
        ≡ gives
            (map (λ key. describe_series d stod of_double key (no_samples d stod of_double)) keys)
  unfolding query_timeseries command
  query_timeseries-unstamped redis [] from_ms to_ms w h = refl
  query_timeseries-unstamped redis (key ∷ keys) from_ms to_ms w h =
      let args = codes "TS.RANGE" ∷ key ∷ shown from_ms ∷ shown to_ms ∷ [] in
      let (reply, answered, array, unstamped) = h args w in
      let later = query_timeseries-unstamped redis keys from_ms to_ms (redis.command args w).1 h in
      rw
        (
          query_timeseries,
          command-gives redis args reply w answered,
          series_of-unstamped key reply array unstamped,
          later,
        )
        refl
