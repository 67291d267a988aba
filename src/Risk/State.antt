-- ===== src/Risk/State.antt =====
-- src/risk/system_state.cpp: the node's state, with hysteresis between its levels.
pub mod Levels
use hw_agent.Prelude.{◌≡◌, Bool, if◌then◌else◌}
use hw_agent.Float.{Float}
use hw_agent.Frame.{SignalFrame, SystemState, stable, degraded, unstable, critical}

module _ {F : Type 0} ⦃f : Float F⦄ where
  unfoldable pub max_risk : SignalFrame F → F
  max_risk frame =
      if f.lt frame.saturation_risk frame.realtime_risk
      then frame.realtime_risk
      else frame.saturation_risk

  -- The `switch` of `SystemState::sample`; risk >= t is le t risk.
  unfoldable pub next_state : SystemState → F → SystemState
  next_state stable risk = if f.le (f.lit 45 100) risk then degraded else stable
  next_state degraded risk =
      if f.le (f.lit 70 100) risk
      then unstable
      else if f.le risk (f.lit 30 100)
      then stable
      else degraded
  next_state unstable risk =
      if f.le (f.lit 88 100) risk
      then critical
      else if f.le risk (f.lit 55 100)
      then degraded
      else unstable
  next_state critical risk = if f.le risk (f.lit 78 100) then unstable else critical

  -- `SystemState::sample`: the member `state_` and the frame.
  unfoldable pub sample : SystemState → SignalFrame F → SystemState × SignalFrame F
  unfolding next_state max_risk
  sample state frame =
      let next = next_state state (max_risk frame) in (next, record frame { state = next })
