-- ===== src/Tests/Streams.antt =====
-- The files of the sensors, with handles that are numbers.
use hw_agent.Prelude.{
  arith, All, ◌≡◌, ◌⊎◌, true, false, none, some, zero, suc, codes, List, [], ◌∷◌, ℕ, ◌+◌, ◌==◌,
  if◌then◌else◌,
}
use hw_agent.Float.Fixed.{Fixed, fixed_float, Fixed-IsFloat}
use hw_agent.Sensors.Stdio.{Stdio}
use hw_agent.Sensors.Stdio.Counted.{Counted, counted, Balance}
use hw_agent.Sensors.Discovery.{
  Entry, failing, entries, missing, find_interfaces, add_interfaces, close_interfaces, add_cores,
  open_throttle, close_throttle,
}
use hw_agent.Sensors.Thermal
use hw_agent.Sensors.Thermal.{
  ZoneSource, ThermalSensor, TempFile, holds, not_a_number, sample, make_sensor, destroy, add_zones,
}
use hw_agent.Sensors.Thermal.Hottest.{
  IsStored, readings, IsUnread, IsAtMost, IsOneOf, sample-hottest,
}
use hw_agent.Sensors.Thermal.Released.{scans}
use hw_agent.Sensors.Leaks.{failing-lost}
use hw_agent.Agent.Files.{Found, open_sensors, sample_thermal, close_sensors}
use hw_agent.Agent.Files.Released.{sensors-released}
use hw_agent.Tests.Fixtures.{zeroed}

-- Every file opens, with the next number for its handle.
abbrev stdio : Stdio ℕ ℕ
stdio = record { fopen = λ path w. (some w, w + 1); fclose = λ file w. w }

-- The first file is at 48.5 degrees, the others hold no number.
abbrev scan : ℕ → ℕ → TempFile × ℕ
scan file w = (if file == 0 then holds false 48_500 else not_a_number, w)

-- Two zones, of which one has its file.
abbrev zones : List (ZoneSource ℕ)
zones =
    record {
      name = codes "CPU";
      temp_path = codes "/sys/class/thermal/thermal_zone0/temp";
      file = some 0;
    }
    ∷ record {
      name = codes "GPU";
      temp_path = codes "/sys/class/thermal/thermal_zone1/temp";
      file = none;
    }
    ∷ []

abbrev thermal : ThermalSensor Fixed ℕ
thermal = record {
  zones = zones;
  owns_files = false;
  raw = record {
    hottest_zone = [];
    hottest_temp_c = some 0;
    throttle_temp_c = some 85_000_000;
    headroom_c = some 0;
  };
}

scan-IsStored : (file w : ℕ) → IsStored (scan file w).0
scan-IsStored zero w = omega arith
scan-IsStored (suc file) w = ground arith

sample-hottest_example :
    let l = readings {F = Fixed} stdio scan false zones 1 in
    let (ok, s', frame') = (sample stdio scan thermal zeroed 1).0 in
    let kept = s'.raw in
    ((ok ≡ false) × (frame'.thermal ≡ some 0) × All IsUnread l)
    ⊎ ((ok ≡ true)
        × (frame'.thermal ≡ fixed_float.sub (some 85_000_000) kept.hottest_temp_c)
        × All (IsAtMost kept.hottest_temp_c) l
        × IsOneOf kept.hottest_temp_c kept.hottest_zone l)
sample-hottest_example = sample-hottest Fixed-IsFloat stdio scan scan-IsStored thermal zeroed 1

abbrev zone_entry : Thermal.Entry
zone_entry = record {
  is_directory = true;
  path = codes "/sys/class/thermal/thermal_zone0";
  filename = codes "thermal_zone0";
  type = none;
}

abbrev found : Found
found = record {
  net = entries (record { is_directory = true; filename = codes "eth0" } ∷ []);
  zones = entries (zone_entry ∷ []);
  cores = missing;
  matches = some (codes "/sys/devices/system/cpu/cpu0/cpufreq/scaling_cur_freq" ∷ []);
}

abbrev start : Counted ℕ
start = record { world = 0; opened = 0; closed = 0 }

sensors-released_example :
    let (s, c₁) =
      open_sensors {F = Fixed} (counted (λ file. true) stdio) (some 85_000_000) found start in
    let (s', c₂) =
      sample_thermal
        (counted (λ file. true) stdio)
        (scans stdio (λ file. true) scan)
        (zeroed ∷ zeroed ∷ [])
        s
        c₁ in
    let c₃ = close_sensors (counted (λ file. true) stdio) s' c₂ in c₃.opened + 0 ≡ c₃.closed + 0
sensors-released_example =
    sensors-released stdio (λ file. true) scan (some 85_000_000) found (zeroed ∷ zeroed ∷ []) start
      tt tt tt

-- A filesystem_error after one interface.
failing-lost_example :
    let calls = counted (λ file. true) stdio in
    let net : List Entry = record { is_directory = true; filename = codes "eth0" } ∷ [] in
    let cores : List Entry = record { is_directory = true; filename = codes "cpu0" } ∷ [] in
    let (interfaces, c₁) = find_interfaces calls (failing net) start in
    let (thermal, c₂) =
      make_sensor {F = Fixed} calls (some 85_000_000) (failing (zone_entry ∷ [])) start in
    let (throttle, c₃) = open_throttle calls (failing cores) start in
    Balance 0 4 start (close_interfaces calls interfaces c₁)
    × Balance 0 1 start (destroy calls thermal c₂)
    × Balance 0 2 start (close_throttle calls throttle c₃)
unfolding add_interfaces add_cores add_zones make_sensor destroy open_throttle close_throttle
    find_interfaces close_interfaces
failing-lost_example =
    let net : List Entry = record { is_directory = true; filename = codes "eth0" } ∷ [] in
    let cores : List Entry = record { is_directory = true; filename = codes "cpu0" } ∷ [] in
    failing-lost {F = Fixed} stdio (λ file. true) net cores (zone_entry ∷ []) (some 85_000_000)
      start
