-- ===== src/Agent/Files.antt =====
-- The files of the sensors that are members of Agent, include/core/agent.hpp.
pub mod Released
use hw_agent.Prelude.{Text, Option, List, [], ◌∷◌}
use hw_agent.Float.{Float}
use hw_agent.Frame.{SignalFrame}
use hw_agent.Sensors.Stdio.{Stdio}
use hw_agent.Sensors.Streams.{
  Stream, MemoryFiles, PsiFiles, FreqFiles, open_cpu, close_cpu, open_interrupts, close_interrupts,
  open_softirqs, close_softirqs, open_disk, close_disk, open_memory, close_memory, open_psi,
  close_psi, open_cpufreq, close_cpufreq,
}
use hw_agent.Sensors.Discovery.{
  Listing, Entry, InterfaceFiles, ThrottleFiles, find_interfaces, close_interfaces, open_throttle,
  close_throttle,
}
use hw_agent.Sensors.Thermal
use hw_agent.Sensors.Thermal.{ThermalSensor, TempFile}

-- The members that hold files.
pub record SensorFiles (F H : Type 0) : Type 0 where
  pub psi_sensor : PsiFiles H
  pub cpu_sensor : Stream H
  pub interrupts_sensor : Stream H
  pub softirqs_sensor : Stream H
  pub memory_sensor : MemoryFiles H
  pub disk_sensor : Stream H
  pub network_sensor : List (InterfaceFiles H)
  pub thermal_sensor : ThermalSensor F H
  pub cpu_throttle_sensor : ThrottleFiles H
  pub cpufreq_sensor : FreqFiles H

-- What the constructors find: the directories of the interfaces, the zones and the cores, and the
-- matches of glob.
pub record Found : Type 0 where
  pub net : Listing Entry
  pub zones : Listing Thermal.Entry
  pub cores : Listing Entry
  pub matches : Option (List Text)

module _ {F H W : Type 0} ⦃f : Float F⦄ (stdio : Stdio H W) where
  -- The members are constructed in the order of their declarations.
  unfoldable pub open_sensors : F → Found → W → SensorFiles F H × W
  unfolding open_psi open_cpu open_interrupts open_softirqs open_memory open_disk
  open_sensors throttle_temp_c found w =
      let (psi, w₁) = open_psi stdio w in
      let (cpu, w₂) = open_cpu stdio w₁ in
      let (interrupts, w₃) = open_interrupts stdio w₂ in
      let (softirqs, w₄) = open_softirqs stdio w₃ in
      let (memory, w₅) = open_memory stdio w₄ in
      let (disk, w₆) = open_disk stdio w₅ in
      let (network, w₇) = find_interfaces stdio found.net w₆ in
      let (thermal, w₈) = Thermal.make_sensor stdio throttle_temp_c found.zones w₇ in
      let (cpu_throttle, w₉) = open_throttle stdio found.cores w₈ in
      let (cpufreq, w₁₀) = open_cpufreq stdio found.matches w₉ in
      (
        record {
          psi_sensor = psi;
          cpu_sensor = cpu;
          interrupts_sensor = interrupts;
          softirqs_sensor = softirqs;
          memory_sensor = memory;
          disk_sensor = disk;
          network_sensor = network;
          thermal_sensor = thermal;
          cpu_throttle_sensor = cpu_throttle;
          cpufreq_sensor = cpufreq;
        },
        w₁₀,
      )

  -- They are destroyed in the opposite order.
  unfoldable pub close_sensors : SensorFiles F H → W → W
  unfolding close_psi close_cpu close_interrupts close_softirqs close_memory close_disk
  close_sensors s w =
      let w₁ = close_cpufreq stdio s.cpufreq_sensor w in
      let w₂ = close_throttle stdio s.cpu_throttle_sensor w₁ in
      let w₃ = Thermal.destroy stdio s.thermal_sensor w₂ in
      let w₄ = close_interfaces stdio s.network_sensor w₃ in
      let w₅ = close_disk stdio s.disk_sensor w₄ in
      let w₆ = close_memory stdio s.memory_sensor w₅ in
      let w₇ = close_softirqs stdio s.softirqs_sensor w₆ in
      let w₈ = close_interrupts stdio s.interrupts_sensor w₇ in
      let w₉ = close_cpu stdio s.cpu_sensor w₈ in close_psi stdio s.psi_sensor w₉

  -- Samples of the one sensor that opens files in them, each on a frame.
  unfoldable pub sample_thermal :
      (H → W → TempFile × W) → List (SignalFrame F) → SensorFiles F H → W → SensorFiles F H × W
  sample_thermal scan [] s w = (s, w)
  sample_thermal scan (frame ∷ rest) s w =
      let ((ok, thermal, frame'), w') = Thermal.sample stdio scan s.thermal_sensor frame w in
      sample_thermal scan rest (record s { thermal_sensor = thermal }) w'
