-- ===== src/Sensors/Leaks.antt =====
-- The handlers of filesystem_error in the constructors of src/sensors/network.cpp, thermal.cpp and
-- power.cpp, which clear a list of files without closing them.
use hw_agent.Prelude.{refl, Bool, List, arith}
use hw_agent.Float.{Float}
use hw_agent.Sensors.Stdio.{Stdio}
use hw_agent.Sensors.Stdio.Counted.{Counted, counted, Balance}
use hw_agent.Sensors.Discovery.{
  failing, Entry, find_interfaces, add_interfaces, close_interfaces, open_throttle, add_cores,
  close_throttle, find_cores,
}
use hw_agent.Sensors.Discovery.Released.{
  held_interfaces, held_cores, find_interfaces-Balance, close_interfaces-Balance,
  find_cores-Balance, close_throttle-Balance,
}
use hw_agent.Sensors.Thermal
use hw_agent.Sensors.Thermal.{add_zones, make_sensor, destroy, discover_zones}
use hw_agent.Sensors.Thermal.Released.{held_zones, discover_zones-Balance, destroy-Balance}

module _ {F H W : Type 0} ⦃f : Float F⦄ (stdio : Stdio H W) (test : H → Bool) where
  -- If the iteration over its directory ends in a filesystem_error, each of the sensors for networks,
  -- zones and throttling leaves open, after it is destroyed, all files that the loop had stored.
  pub failing-lost :
      (net cores : List Entry) (zones : List Thermal.Entry) (throttle_temp_c : F) (c : Counted W)
      → let calls = counted test stdio in
        let (interfaces, c₁) = find_interfaces calls (failing net) c in
        let (thermal, c₂) = make_sensor calls throttle_temp_c (failing zones) c in
        let (throttle, c₃) = open_throttle calls (failing cores) c in
        Balance 0
          (held_interfaces stdio test (add_interfaces calls net c).0)
          c
          (close_interfaces calls interfaces c₁)
        × Balance 0 (held_zones stdio test (add_zones calls zones c).0) c (destroy calls thermal c₂)
        × Balance 0
            (held_cores stdio test (add_cores calls cores c).0)
            c
            (close_throttle calls throttle c₃)
  unfolding find_interfaces make_sensor open_throttle discover_zones find_cores
  failing-lost net cores zones throttle_temp_c c =
      let calls = counted test stdio in
      let (interfaces, c₁) = find_interfaces calls (failing net) c in
      let (thermal, c₂) = make_sensor calls throttle_temp_c (failing zones) c in
      let (throttle, c₃) = open_throttle calls (failing cores) c in
      (
        omega (
          arith,
          find_interfaces-Balance stdio test (failing net) c,
          close_interfaces-Balance stdio test interfaces c₁,
        ),
        omega (
          arith,
          discover_zones-Balance stdio test (failing zones) c,
          destroy-Balance stdio test thermal c₂ refl,
        ),
        omega (
          arith,
          find_cores-Balance stdio test (failing cores) c,
          close_throttle-Balance stdio test throttle c₃ refl,
        ),
      )
