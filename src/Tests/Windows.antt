-- ===== src/Tests/Windows.antt =====
-- The ring of intervals.
use hw_agent.Prelude.{ℕ, ◌≡◌, List, [], ◌∷◌}
use hw_agent.Derived.Jitter.{no_intervals}
use hw_agent.Derived.Jitter.Window.{push_all, ordered, push_all-ordered}

abbrev ten : List ℕ
ten = 1 ∷ 2 ∷ 3 ∷ 4 ∷ 5 ∷ 6 ∷ 7 ∷ 8 ∷ 9 ∷ 10 ∷ []

push_all-ordered_example : ordered (push_all ten no_intervals) ≡ 3 ∷ 4 ∷ 5 ∷ 6 ∷ 7 ∷ 8 ∷ 9 ∷ 10 ∷ []
push_all-ordered_example = push_all-ordered ten
