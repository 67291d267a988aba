-- ===== src/Tests/Levels.antt =====
-- Levels of the node's state, averages, baselines and windows.
use hw_agent.Prelude.{ℕ, ◌*◌, ◌≡◌, ◌≤◌, refl, none, some, arith, true}
use hw_agent.Float.Fixed.{Fixed, fixed_float, Fixed-IsFloat}
use hw_agent.Frame.{stable, degraded, critical, code}
use hw_agent.Risk.State.{next_state}
use hw_agent.Risk.State.Levels.{after, next_state_mono, three_up}
use hw_agent.Derived.Ema.{update, IsPoisoned, update-IsPoisoned}

abbrev risk : ℕ → Fixed
risk percent = some (percent * 10_000)

next_state_mono_example : code (next_state stable (risk 46)) ≤ code (next_state degraded (risk 71))
next_state_mono_example =
    next_state_mono Fixed-IsFloat stable degraded (risk 46) (risk 71) (omega arith) refl

three_up_example : after 3 stable (risk 88) ≡ critical
three_up_example = three_up Fixed-IsFloat stable (risk 88) refl

update-IsPoisoned_example :
    IsPoisoned (update (risk 30) (risk 50) (record { value = none; seeded = true }))
update-IsPoisoned_example =
    update-IsPoisoned Fixed-IsFloat (risk 30) (risk 50) (record { value = none; seeded = true })
      (record { seeded = refl; nan = ground arith })
