-- ===== src/Mcp/Selection.antt =====
-- `select_keys` of tools/hw-agent-mcp/src/tools/metrics_summary.cpp, and texts within texts.
use hw_agent.Prelude.{
  ◌≡◌, refl, sym, ap, subst, ◌⊎◌, inl, inr, true, ==_iff, Bool-cases, Text, some, List, [], ◌∷◌,
  ◌++◌, Option-cases, arith,
}
use hw_agent.Core.Text.{strip_prefix}
use hw_agent.Mcp.Keys.{contains, is_selected, select_keys}

-- `filter` occurs in `key`.
abbrev pub OccursIn : Text → Text → Type 0
OccursIn filter key = (before : Text) × (after : Text) × (key ≡ before ++ filter ++ after)

strip_prefix-some :
    (prefix text rest : Text) → strip_prefix prefix text ≡ some rest → text ≡ prefix ++ rest
unfolding strip_prefix
strip_prefix-some [] text rest h = ground arith
strip_prefix-some (p ∷ ps) [] rest h = ground arith
strip_prefix-some (p ∷ ps) (c ∷ cs) rest h =
    ground (arith, strip_prefix-some ps cs rest, ==_iff p c)

strip_prefix-append : (prefix rest : Text) → strip_prefix prefix (prefix ++ rest) ≡ some rest
unfolding strip_prefix
strip_prefix-append [] rest = refl
strip_prefix-append (p ∷ ps) rest = ground (arith, strip_prefix-append ps rest)

contains-OccursIn : (filter key : Text) → contains filter key ≡ true → OccursIn filter key
unfolding contains
contains-OccursIn filter [] h = elim (Option-cases (strip_prefix filter [])) [
  | inl absent ↦ absurd (ground arith)
  | inr (rest, found) ↦ ([], rest, strip_prefix-some filter [] rest found)
]
contains-OccursIn filter (c ∷ cs) h = elim (Option-cases (strip_prefix filter (c ∷ cs))) [
  | inl absent ↦
      (let (before, after, e) = contains-OccursIn filter cs (ground arith) in
        (c ∷ before, after, ap (λ l. c ∷ l) e))
  | inr (rest, found) ↦ ([], rest, strip_prefix-some filter (c ∷ cs) rest found)
]

OccursIn-contains :
    (filter before after : Text) → contains filter (before ++ filter ++ after) ≡ true
unfolding contains
OccursIn-contains [] [] [] = refl
OccursIn-contains [] [] (x ∷ after) = refl
OccursIn-contains (p ∷ ps) [] after = ground (arith, strip_prefix-append (p ∷ ps) after)
OccursIn-contains filter (c ∷ before) after = ground (arith, OccursIn-contains filter before after)

-- One of the filters occurs in the key.
abbrev pub IsMatched : List Text → Text → Type 0
IsMatched [] key = ⊥
IsMatched (filter ∷ filters) key = OccursIn filter key ⊎ IsMatched filters key

is_selected-IsMatched :
    (filters : List Text) (key : Text) → is_selected filters key ≡ true → IsMatched filters key
unfolding is_selected
is_selected-IsMatched [] key h = absurd (ground arith)
is_selected-IsMatched (filter ∷ filters) key h = elim (Bool-cases (contains filter key)) [
  | inl here ↦ inl (contains-OccursIn filter key here)
  | inr elsewhere ↦ inr (is_selected-IsMatched filters key (ground arith))
]

IsMatched-is_selected :
    (filters : List Text) (key : Text) → IsMatched filters key → is_selected filters key ≡ true
unfolding is_selected
IsMatched-is_selected [] key h = absurd h
IsMatched-is_selected (filter ∷ filters) key (inl (before, after, e)) =
    let here =
      subst (λ k. contains filter k ≡ true) (sym e) (OccursIn-contains filter before after) in
    rw here refl
IsMatched-is_selected (filter ∷ filters) key (inr h) =
    ground (arith, IsMatched-is_selected filters key h)

-- The keys that one of the filters occurs in, in their order.
pub data Selection (filters : List Text) : List Text → List Text → Type 0 where
  nothing : Selection filters [] []
  keep :
      {key : Text} {keys selected : List Text}
      → IsMatched filters key
      → Selection filters keys selected
      → Selection filters (key ∷ keys) (key ∷ selected)
  leave :
      {key : Text} {keys selected : List Text}
      → ¬ IsMatched filters key
      → Selection filters keys selected
      → Selection filters (key ∷ keys) selected

-- The keys selected are those of which a part is one of the filters, in the order of the keys.
pub select_keys-Selection :
    (keys filters : List Text) → Selection filters keys (select_keys keys filters)
unfolding select_keys
select_keys-Selection [] filters = nothing
select_keys-Selection (key ∷ keys) filters =
    let rest = select_keys-Selection keys filters in
    elim (Bool-cases (is_selected filters key)) [
      | inl chosen ↦ rw (select_keys, chosen) (keep (is_selected-IsMatched filters key chosen) rest)
      | inr skipped ↦
          let unmatched : ¬ IsMatched filters key =
            λ h. absurd (ground (arith, IsMatched-is_selected filters key h)) in
          rw (select_keys, skipped) (leave unmatched rest)
    ]
