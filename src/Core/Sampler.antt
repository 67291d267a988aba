-- ===== src/Core/Sampler.antt =====
-- src/core/sampler.cpp: the tick counter that decides which sensors are due.
pub mod Due
use hw_agent.Prelude.{ℕ, ◌%◌, Bool, false, ◌==◌, if◌then◌else◌, add64}

pub record Sampler : Type 0 where
  pub tick_count : ℕ

unfoldable pub should_sample_every : Sampler → ℕ → Bool
should_sample_every s every_n_ticks =
    if every_n_ticks == 0 then false else (s.tick_count % every_n_ticks) == 0

unfoldable pub advance : Sampler → Sampler
unfolding add64
advance s = record { tick_count = add64 s.tick_count 1 }
