-- ===== src/Main.antt =====
-- src/main.cpp: the configuration that is printed, and the loop until a signal.
use hw_agent.Prelude.{
  ◌≡◌, refl, ◌∙◌, ℕ, zero, suc, Bool, true, false, Text, codes, to_decimal, Option, none, some,
  List, [], ◌∷◌, ◌++◌, arith,
}
use hw_agent.Float.{Float}
use hw_agent.Platform.{Clock, Hiredis, Double}
use hw_agent.Frame.{SignalFrame}
use hw_agent.Core.Config.{AgentConfig, Outcome, returns, throws, Failure}
use hw_agent.Core.Config.Load.{load_agent_config}
use hw_agent.Agent.{Agent, AgentStats, Sensors, no_stats}
use hw_agent.Agent.Build.{make_agent}
use hw_agent.Agent.Counters.{cycle-first_tick}
use hw_agent.Agent.Cycle.{
  run_for_ticks, cycles, cycle, first_wakeup, collect_sensors, compute_derived, compute_risk,
  publish_sinks,
}

abbrev truth : Bool → Text
truth true = codes "true"
truth false = codes "false"

module _ {F : Type 0} ⦃f : Float F⦄ (shown : F → Text) where
  -- `shown` is operator<< of float.
  unfoldable pub format_config_settings : AgentConfig F → Text → Text
  unfolding to_decimal
  format_config_settings config config_path =
      let address : Text = elim config.redis.unix_socket [
        | [] ↦ config.redis.host ++ (codes ":" ++ codes (to_decimal config.redis.port))
        | c ∷ socket ↦ codes "unix://" ++ (c ∷ socket)
      ] in
      codes "[agent] loaded config from "
      ++ (config_path
          ++ (codes " | tick_interval_ms="
              ++ (codes (to_decimal config.tick_interval)
                  ++ (codes " | thermal_throttle_temp_c="
                      ++ (shown config.thermal_throttle_temp_c
                          ++ (codes " | thermal_pressure_warning_window_c="
                              ++ (shown config.thermal_pressure_warning_window_c
                                  ++ (codes " | gpu_device_index="
                                      ++ (codes (to_decimal config.gpu_device_index)
                                          ++ (codes " | publish_health="
                                              ++ (truth config.publish_health
                                                  ++ (codes " | stdout_debug="
                                                      ++ (truth config.stdout_debug
                                                          ++ (codes " | redis_enabled="
                                                            ++ (truth config.redis.enabled
                                                            ++ (codes " | redis_address="
                                                            ++ address))))))))))))))))

-- How the program ends: status 1, or status 0 with the line of the configuration that it printed.
pub data Exit (F W : Type 0) : Type 0 where
  config_error : Failure → Exit F W
  shut_down : Text → Agent F W → W → Exit F W

module _ {F D W : Type 0} ⦃f : Float F⦄ (d : Double F D) (clock : Clock W) (redis : Hiredis W) where
  -- The loop, for so many readings of `g_shutdown_requested` that give 0; none where a call does not
  -- return.
  unfoldable pub main_loop : ℕ → Agent F W → W → Option (Agent F W × W)
  unfolding run_for_ticks
  main_loop zero agent w = some (agent, w)
  main_loop (suc n) agent w = elim (run_for_ticks d clock redis 1 agent w) [
    | none ↦ none
    | some (stats, agent', w') ↦ main_loop n agent' w'
  ]

  abbrev pub without_stats : Option (AgentStats × Agent F W × W) → Option (Agent F W × W)
  without_stats none = none
  without_stats (some (stats, agent, w)) = some (agent, w)

  -- `main`, with the sensors that the constructor of the agent makes and the files by their paths; none
  -- where it does not return.
  unfoldable pub main :
      (F → Text)
      → (Text → Outcome F)
      → (Text → Option (List Text))
      → Sensors F W
      → SignalFrame F
      → Option Text
      → ℕ
      → W
      → Option (Exit F W)
  unfolding format_config_settings load_agent_config make_agent main_loop
  main shown stof files sensors zeroed argument running w =
      let config_path : Text = elim argument [
        | none ↦ codes "configs/agent.all.debug.yaml"
        | some path ↦ path
      ] in
      elim (load_agent_config stof (files config_path)) [
        | throws failure ↦ some (config_error failure)
        | returns config ↦
            (let (agent, w') = make_agent redis sensors zeroed config w in
              elim (main_loop running agent w') [
                | none ↦ none
                | some (agent', w'') ↦
                    some (shut_down (format_config_settings shown config config_path) agent' w'')
              ])
      ]

  cycle_stats :
      (s t : AgentStats) (a : Agent F W) (w : W)
      → (cycle d clock redis s a w).1 ≡ (cycle d clock redis t a w).1
  unfolding cycle collect_sensors compute_derived compute_risk publish_sinks
  cycle_stats s t a w = refl

  cycle_world :
      (s t : AgentStats) (a : Agent F W) (w : W)
      → (cycle d clock redis s a w).2 ≡ (cycle d clock redis t a w).2
  unfolding cycle collect_sensors compute_derived compute_risk publish_sinks
  cycle_world s t a w = refl

  first_wakeup_started :
      (a : Agent F W) (w : W) → a.first_tick ≡ false → first_wakeup d clock redis a w ≡ (a, w)
  unfolding first_wakeup
  first_wakeup_started a w h = ground (arith, h)

  first_wakeup-first_tick :
      (a : Agent F W) (w : W) → (first_wakeup d clock redis a w).0.first_tick ≡ false
  unfolding first_wakeup
  first_wakeup-first_tick a w = ground arith

  main_loop-cycles :
      (n : ℕ) (s : AgentStats) (a : Agent F W) (w : W)
      → a.first_tick ≡ false
      → main_loop n a w ≡ some ((cycles d clock redis n s a w).1, (cycles d clock redis n s a w).2)
  unfolding main_loop cycles
  main_loop-cycles zero s a w h = refl
  main_loop-cycles (suc n) s a w h =
      let next = cycle d clock redis no_stats a w in
      let later =
        main_loop-cycles n (cycle d clock redis s a w).0 next.1 next.2
          (cycle-first_tick d clock redis no_stats a w ∙ h) in
      rw
        (
          main_loop,
          first_wakeup_started a w h,
          cycles,
          cycle_stats s no_stats a w,
          cycle_world s no_stats a w,
        )
        later

  -- The loop of `main`, which asks for one tick at a time, leaves after `n` ticks the agent and the world
  -- that one call for `n` ticks leaves, if `n` is above 0.
  pub main_loop-run_for_ticks :
      (n : ℕ) (a : Agent F W) (w : W)
      → main_loop (suc n) a w ≡ without_stats (run_for_ticks d clock redis (suc n) a w)
  unfolding main_loop run_for_ticks cycles
  main_loop-run_for_ticks n a w =
      let (a', w') = first_wakeup d clock redis a w in
      let next = cycle d clock redis no_stats a' w' in
      main_loop-cycles n next.0 next.1 next.2
        (cycle-first_tick d clock redis no_stats a' w' ∙ first_wakeup-first_tick a w)
