-- ===== src/Agent/Machine/Run.antt =====
-- The agent of src/core/agent.cpp with the sensors of src/sensors, from its constructor on.
use hw_agent.Prelude.{ℕ, suc, ◌≡◌, some}
use hw_agent.Float.{Float, IsFloat, IsFinite, HasWeights}
use hw_agent.Frame.{SignalFrame}
use hw_agent.Platform.{Clock, Hiredis}
use hw_agent.Core.Config.{AgentConfig}
use hw_agent.Sensors.Interrupts.Rate.{HasRates}
use hw_agent.Sensors.Thermal.Hottest.{IsStored}
use hw_agent.Agent.{Agent, AgentStats}
use hw_agent.Agent.Build.{make_agent}
use hw_agent.Agent.Cycle.{run_for_ticks}
use hw_agent.Agent.Frames.{IsInRange}
use hw_agent.Agent.Range.{run_for_ticks-IsInRange}
use hw_agent.Agent.Signals.{IsMeasured}
use hw_agent.Agent.Start.{make_agent-IsRunning}
use hw_agent.Agent.Machine.{Reads, Calls, Machine, members}
use hw_agent.Agent.Machine.Frames.{IsPressure, ReadsFinite}
use hw_agent.Agent.Machine.Measures.{members-Measure}

module _ {F D H W : Type 0} ⦃f : Float F⦄ (laws : IsFloat F) (weights : HasWeights F)
    (calls : Calls F D H W) (reads : Reads H W)
    (stored : (file : H) (w : W) → IsStored (reads.zone file w).0)
    (pressures : (w : W)
      → let ((cpu, memory, io), _) = reads.pressure w in
        IsPressure cpu × IsPressure memory × IsPressure io)
    (avg10 : ReadsFinite calls.avg10) (rates : HasRates calls.double) where
  -- An agent with the twelve sensors, built by the constructor over any state of the world and of
  -- the sensors (a baseline of softirqs from 0 to 2^64, a finite throttling temperature, fewer than
  -- 2^64 cores), from a frame of finite measurements and with a finite warning window: a call of
  -- `run_for_ticks` for a number of ticks above 0 returns and leaves every pressure and both risks in
  -- [0, 1], whatever the files, the child process, NVML, the clocks and Redis answer, where the files
  -- of /proc/pressure that are read have a digit behind "avg10=", strtof gives a finite number or an
  -- error for a text that starts with a digit, a read of a zone stores 64 bits and a rate of counts is
  -- finite.
  pub run_members-IsInRange :
      (clock : Clock (Machine F H W)) (redis : Hiredis (Machine F H W)) (zeroed : SignalFrame F)
      (config : AgentConfig F) (n : ℕ) (m : Machine F H W)
      → IsMeasured zeroed
      → IsFinite config.thermal_pressure_warning_window_c
      → let sensors = members laws calls reads stored in
        let (agent, m') = make_agent redis sensors zeroed config m in
        (out : AgentStats × Agent F (Machine F H W) × Machine F H W) × (run_for_ticks calls.double
            clock redis
            (suc n)
            agent
            m'
          ≡ some out)
        × IsInRange out.1.frame
  run_members-IsInRange clock redis zeroed config n m measured window =
      let sensors = members laws calls reads stored in
      let (agent, m') = make_agent redis sensors zeroed config m in
      run_for_ticks-IsInRange laws weights calls.double clock redis n agent m' (
        make_agent-IsRunning laws redis sensors zeroed config m
          (members-Measure laws calls reads stored pressures avg10 rates config) measured window)
