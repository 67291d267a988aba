-- ===== src/Agent/Files/Released.antt =====
-- The files of the sensors of Agent, include/core/agent.hpp, from its constructor to its destructor.
use hw_agent.Prelude.{ℕ, ◌∙◌, ◌+◌, ◌≡◌, refl, Bool, true, false, List, [], ◌∷◌, arith}
use hw_agent.Float.{Float}
use hw_agent.Frame.{SignalFrame}
use hw_agent.Sensors.Stdio.{Stdio}
use hw_agent.Sensors.Stdio.Counted.{Counted, counted, held, held_files, Balance}
use hw_agent.Sensors.Discovery.{
  Listing, missing, entries, failing, Entry, find_interfaces, close_interfaces, open_throttle,
  close_throttle, find_cores,
}
use hw_agent.Sensors.Discovery.Released.{
  held_interfaces, held_cores, lost_interfaces, lost_cores, find_interfaces-Balance,
  close_interfaces-Balance, find_cores-Balance, close_throttle-Balance,
}
use hw_agent.Sensors.Streams.{
  open_cpufreq, close_cpu, close_interrupts, close_softirqs, close_memory, close_disk,
  close_cpufreq,
}
use hw_agent.Sensors.Streams.Released.{
  held_psi, held_memory, open_cpufreq-Balance, close_cpufreq-Balance, close_stream-Balance,
  close_memory-Balance, close_psi-Balance,
}
use hw_agent.Sensors.Thermal
use hw_agent.Sensors.Thermal.{TempFile}
use hw_agent.Sensors.Thermal.Released.{
  held_zones, lost_zones, scans, discover_zones-Balance, destroy-Balance, sample-Balance,
  sample_owns,
}
use hw_agent.Agent.Files.{SensorFiles, Found, open_sensors, close_sensors, sample_thermal}

-- No filesystem_error ends the iteration.
abbrev pub IsWhole : {E : Type 0} → Listing E → Type 0
IsWhole missing = Unit
IsWhole (entries l) = Unit
IsWhole (failing l) = true ≡ false

module _ {F H : Type 0} where
  -- Each sensor closes its files.
  abbrev IsOwning : SensorFiles F H → Type 0
  IsOwning s =
      (s.psi_sensor.owns_files ≡ true)
      × (s.cpu_sensor.owns_file ≡ true)
      × (s.interrupts_sensor.owns_file ≡ true)
      × (s.softirqs_sensor.owns_file ≡ true)
      × (s.memory_sensor.owns_files ≡ true)
      × (s.disk_sensor.owns_file ≡ true)
      × (s.thermal_sensor.owns_files ≡ true)
      × (s.cpu_throttle_sensor.owns_files ≡ true)
      × (s.cpufreq_sensor.owns_files ≡ true)

module _ {H W : Type 0} (stdio : Stdio H W) (test : H → Bool) where
  abbrev calls : Stdio H (Counted W)
  calls = counted test stdio

  -- Those of fixed paths, and those that were looked for.
  abbrev held_fixed : {F : Type 0} → SensorFiles F H → ℕ
  held_fixed s =
      held_psi stdio test s.psi_sensor
      + (held test s.cpu_sensor.file
          + (held test s.interrupts_sensor.file
              + (held test s.softirqs_sensor.file
                  + (held_memory stdio test s.memory_sensor + held test s.disk_sensor.file))))

  abbrev held_found : {F : Type 0} → SensorFiles F H → ℕ
  held_found s =
      held_interfaces stdio test s.network_sensor
      + (held_zones stdio test s.thermal_sensor.zones
          + (held_cores stdio test s.cpu_throttle_sensor.cores
              + held_files test s.cpufreq_sensor.files))

  lost_interfaces_whole :
      (listing : Listing Entry) (c : Counted W)
      → IsWhole listing
      → lost_interfaces stdio test listing c ≡ 0
  lost_interfaces_whole missing c h = refl
  lost_interfaces_whole (entries l) c h = refl
  lost_interfaces_whole (failing l) c h = cc

  lost_cores_whole :
      (listing : Listing Entry) (c : Counted W)
      → IsWhole listing
      → lost_cores stdio test listing c ≡ 0
  lost_cores_whole missing c h = refl
  lost_cores_whole (entries l) c h = refl
  lost_cores_whole (failing l) c h = cc

  lost_zones_whole :
      (listing : Listing Thermal.Entry) (c : Counted W)
      → IsWhole listing
      → lost_zones stdio test listing c ≡ 0
  lost_zones_whole missing c h = refl
  lost_zones_whole (entries l) c h = refl
  lost_zones_whole (failing l) c h = cc

module _ {F H W : Type 0} ⦃f : Float F⦄ (stdio : Stdio H W) (test : H → Bool) where
  -- The constructors of the sensors that look for files, each in its turn.
  open_found-Balance :
      (throttle_temp_c : F) (found : Found) (c : Counted W)
      → IsWhole found.net
      → IsWhole found.zones
      → IsWhole found.cores
      → let (network, c₁) = find_interfaces (calls stdio test) found.net c in
        let (thermal, c₂) = Thermal.make_sensor (calls stdio test) throttle_temp_c found.zones c₁ in
        let (throttle, c₃) = open_throttle (calls stdio test) found.cores c₂ in
        let (cpufreq, c₄) = open_cpufreq (calls stdio test) found.matches c₃ in
        Balance 0
          (held_interfaces stdio test network
            + (held_zones stdio test thermal.zones
                + (held_cores stdio test throttle.cores + held_files test cpufreq.files)))
          c
          c₄
  unfolding Thermal.make_sensor open_throttle
  open_found-Balance throttle_temp_c found c hn hz hc =
      let c₁ = (find_interfaces (calls stdio test) found.net c).1 in
      let c₂ = (Thermal.discover_zones (calls stdio test) found.zones c₁).1 in
      let c₃ = (find_cores (calls stdio test) found.cores c₂).1 in
      omega (
        arith,
        find_interfaces-Balance stdio test found.net c,
        lost_interfaces_whole stdio test found.net c hn,
        discover_zones-Balance stdio test found.zones c₁,
        lost_zones_whole stdio test found.zones c₁ hz,
        find_cores-Balance stdio test found.cores c₂,
        lost_cores_whole stdio test found.cores c₂ hc,
        (open_cpufreq-Balance stdio test found.matches c₃).0,
      )

  open_sensors-Balance :
      (throttle_temp_c : F) (found : Found) (c : Counted W)
      → IsWhole found.net
      → IsWhole found.zones
      → IsWhole found.cores
      → let (s, c') = open_sensors (calls stdio test) throttle_temp_c found c in
        Balance 0 (held_fixed stdio test s + held_found stdio test s) c c'
  unfolding open_sensors
  open_sensors-Balance throttle_temp_c found c hn hz hc =
      omega (arith, open_found-Balance throttle_temp_c found _ hn hz hc)

  open_sensors-IsOwning :
      (throttle_temp_c : F) (found : Found) (c : Counted W)
      → IsOwning (open_sensors (calls stdio test) throttle_temp_c found c).0
  unfolding open_sensors Thermal.make_sensor open_throttle
  open_sensors-IsOwning throttle_temp_c found c =
      let owns = open_cpufreq-Balance stdio test found.matches in
      (refl, refl, refl, refl, refl, refl, refl, refl, (owns _).1)

  sample_thermal-Balance :
      (scan : H → W → TempFile × W) (frames : List (SignalFrame F)) (s : SensorFiles F H)
      (c : Counted W)
      → IsOwning s
      → let (s', c') = sample_thermal (calls stdio test) (scans stdio test scan) frames s c in
        Balance
          (held_fixed stdio test s + held_found stdio test s)
          (held_fixed stdio test s' + held_found stdio test s')
          c
          c'
        × IsOwning s'
  unfolding sample_thermal
  sample_thermal-Balance scan [] s c h = (omega arith, h)
  sample_thermal-Balance scan (frame ∷ rest) s c h =
      let ((ok, thermal, frame'), c') =
        Thermal.sample (calls stdio test) (scans stdio test scan) s.thermal_sensor frame c in
      let s' : SensorFiles F H = record s { thermal_sensor = thermal } in
      let kept : IsOwning s' = (
        h.0,
        h.1,
        h.2,
        h.3,
        h.4,
        h.5,
        sample_owns stdio test F scan s.thermal_sensor frame c ∙ h.6,
        h.7,
        h.8,
      ) in
      let later = sample_thermal-Balance scan rest s' c' kept in
      (omega (arith, sample-Balance stdio test F scan s.thermal_sensor frame c, later.0), later.1)

  close_sensors-Balance :
      (s : SensorFiles F H) (c : Counted W)
      → IsOwning s
      → Balance
          (held_fixed stdio test s + held_found stdio test s)
          0
          c
          (close_sensors (calls stdio test) s c)
  unfolding close_sensors
  close_sensors-Balance s c
        (psi, cpu, interrupts, softirqs, memory, disk, thermal, throttle, freq) =
      let c₁ = close_cpufreq (calls stdio test) s.cpufreq_sensor c in
      let c₂ = close_throttle (calls stdio test) s.cpu_throttle_sensor c₁ in
      let c₃ = Thermal.destroy (calls stdio test) s.thermal_sensor c₂ in
      let c₄ = close_interfaces (calls stdio test) s.network_sensor c₃ in
      let c₅ = close_disk (calls stdio test) s.disk_sensor c₄ in
      let c₆ = close_memory (calls stdio test) s.memory_sensor c₅ in
      let c₇ = close_softirqs (calls stdio test) s.softirqs_sensor c₆ in
      let c₈ = close_interrupts (calls stdio test) s.interrupts_sensor c₇ in
      let c₉ = close_cpu (calls stdio test) s.cpu_sensor c₈ in
      omega (
        arith,
        close_cpufreq-Balance stdio test s.cpufreq_sensor c freq,
        close_throttle-Balance stdio test s.cpu_throttle_sensor c₁ throttle,
        destroy-Balance stdio test s.thermal_sensor c₂ thermal,
        close_interfaces-Balance stdio test s.network_sensor c₃,
        close_stream-Balance stdio test s.disk_sensor c₄ disk,
        close_memory-Balance stdio test s.memory_sensor c₅ memory,
        close_stream-Balance stdio test s.softirqs_sensor c₆ softirqs,
        close_stream-Balance stdio test s.interrupts_sensor c₇ interrupts,
        close_stream-Balance stdio test s.cpu_sensor c₈ cpu,
        close_psi-Balance stdio test s.psi_sensor c₉ psi,
      )

  -- If no iteration over a directory ends in a filesystem_error, each file that the sensors of an
  -- agent open, when they are made or in any number of samples, is closed as often as it was opened
  -- once they are destroyed.
  pub sensors-released :
      (scan : H → W → TempFile × W) (throttle_temp_c : F) (found : Found)
      (frames : List (SignalFrame F)) (c : Counted W)
      → IsWhole found.net
      → IsWhole found.zones
      → IsWhole found.cores
      → let (s, c₁) = open_sensors (counted test stdio) throttle_temp_c found c in
        let (s', c₂) = sample_thermal (counted test stdio) (scans stdio test scan) frames s c₁ in
        let c₃ = close_sensors (counted test stdio) s' c₂ in
        c₃.opened + c.closed ≡ c₃.closed + c.opened
  sensors-released scan throttle_temp_c found frames c hn hz hc =
      let (s, c₁) = open_sensors (calls stdio test) throttle_temp_c found c in
      let owning = open_sensors-IsOwning throttle_temp_c found c in
      let (s', c₂) = sample_thermal (calls stdio test) (scans stdio test scan) frames s c₁ in
      let sampled = sample_thermal-Balance scan frames s c₁ owning in
      omega (
        arith,
        open_sensors-Balance throttle_temp_c found c hn hz hc,
        sampled.0,
        close_sensors-Balance s' c₂ sampled.1,
      )
