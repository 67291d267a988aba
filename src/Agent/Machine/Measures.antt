-- ===== src/Agent/Machine/Measures.antt =====
-- The samples of the sensors of src/sensors leave the measurements of a frame finite.
use hw_agent.Prelude.{sym, subst, All, arith}
use hw_agent.Float.{Float, IsFloat}
use hw_agent.Frame.{SignalFrame}
use hw_agent.Sensors.Psi
use hw_agent.Sensors.Softirqs
use hw_agent.Sensors.Softirqs.Burst
use hw_agent.Sensors.Softirqs.Burst.{unit-IsFinite}
use hw_agent.Sensors.Interrupts
use hw_agent.Sensors.Interrupts.{read_total}
use hw_agent.Sensors.Interrupts.Rate
use hw_agent.Sensors.Interrupts.Rate.{HasRates}
use hw_agent.Sensors.Thermal
use hw_agent.Sensors.Thermal.Headroom
use hw_agent.Sensors.Thermal.Hottest.{IsStored}
use hw_agent.Sensors.Measured.{
  throttle_sample-IsMeasured, network_sample-IsMeasured, disk_sample-IsMeasured,
  cpu_sample-IsMeasured, memory_sample-IsMeasured,
}
use hw_agent.Agent.{Sample, register_sensors}
use hw_agent.Agent.Signals.{IsMeasured}
use hw_agent.Agent.Range.{Measures}
use hw_agent.Agent.Machine.{
  Reads, Calls, Machine, with_files, members, sample_psi, sample_cpu, sample_interrupts,
  sample_softirqs, sample_memory, sample_disk, sample_network, sample_tegrastats, sample_thermal,
  sample_cpu_throttle, sample_cpufreq, sample_gpu, length-with_files,
}
use hw_agent.Sensors.Gpu.{collect_none}
use hw_agent.Sensors.CpuFreq
use hw_agent.Core.Config.{AgentConfig}
use hw_agent.Sensors.Thermal.{set_headroom, read_zones}
use hw_agent.Agent.Machine.Frames.{
  IsPressure, ReadsFinite, softirqs-IsMeasured, irq-IsMeasured, thermal-IsMeasured, psi-IsMeasured,
  softirqs_frame, irq_frame, thermal_frame, pressure-IsFinite, gpu-IsMeasured,
  tegrastats-IsMeasured,
}

module _ {F D H W : Type 0} ⦃f : Float F⦄ (laws : IsFloat F) (calls : Calls F D H W)
    (reads : Reads H W) (stored : (file : H) (w : W) → IsStored (reads.zone file w).0)
    (pressures : (w : W)
      → let ((cpu, memory, io), _) = reads.pressure w in
        IsPressure cpu × IsPressure memory × IsPressure io)
    (avg10 : ReadsFinite calls.avg10) (rates : HasRates calls.double) where
  -- A sample that measures.
  abbrev Keeps : Sample F (Machine F H W) → Type 0
  Keeps sample =
      (frame : SignalFrame F) (m : Machine F H W) → IsMeasured frame → IsMeasured (sample frame m).1

  sample_cpu-Keeps : Keeps (sample_cpu laws calls reads stored)
  unfolding sample_cpu
  sample_cpu-Keeps frame m h =
      cpu_sample-IsMeasured laws (reads.stat m.outer).0 m.cpu_sensor frame h

  sample_memory-Keeps : Keeps (sample_memory laws calls reads stored)
  unfolding sample_memory
  sample_memory-Keeps frame m h =
      let ((meminfo, vmstat), w) = reads.memory m.outer in
      memory_sample-IsMeasured laws meminfo vmstat m.memory_sensor frame h

  sample_disk-Keeps : Keeps (sample_disk laws calls reads stored)
  unfolding sample_disk
  sample_disk-Keeps frame m h =
      disk_sample-IsMeasured laws (reads.diskstats m.outer).0 m.disk_sensor frame h

  sample_network-Keeps : Keeps (sample_network laws calls reads stored)
  unfolding sample_network
  sample_network-Keeps frame m h =
      network_sample-IsMeasured laws (reads.interfaces m.outer).0 m.network_sensor frame h

  sample_cpu_throttle-Keeps : Keeps (sample_cpu_throttle laws calls reads stored)
  unfolding sample_cpu_throttle
  sample_cpu_throttle-Keeps frame m h =
      let old = m.cpu_throttle_sensor in
      let files = (reads.core m.outer).0 in
      throttle_sample-IsMeasured laws (with_files 0 files old.cores) frame
        (rw (length-with_files 0 files old.cores) old.word) h

  sample_softirqs-Keeps : Keeps (sample_softirqs laws calls reads stored)
  unfolding sample_softirqs
  sample_softirqs-Keeps frame m h =
      let buffers = (reads.softirqs m.outer).0 in
      let old = m.softirqs_sensor in
      let unit = (Softirqs.Burst.sample-InUnit laws buffers old.state frame old.bounded).1 in
      subst IsMeasured (sym (softirqs_frame buffers old.state frame))
        (softirqs-IsMeasured frame _ h (unit-IsFinite laws _ unit))

  sample_interrupts-Keeps : Keeps (sample_interrupts laws calls reads stored)
  unfolding sample_interrupts
  sample_interrupts-Keeps frame m h =
      let file = (reads.intr m.outer).0 in
      subst IsMeasured (sym (irq_frame calls.double file m.interrupts_sensor frame)) (
        irq-IsMeasured frame _ h
          (Interrupts.Rate.sample-IsFinite laws calls.double rates file m.interrupts_sensor frame))

  sample_tegrastats-Keeps : Keeps (sample_tegrastats laws calls reads stored)
  unfolding sample_tegrastats
  sample_tegrastats-Keeps frame m h =
      let ((chunks, ending), w) = reads.tegrastats m.outer in
      tegrastats-IsMeasured calls.posix calls.celsius calls.regexes chunks ending
        m.tegrastats_sensor frame w h

  sample_gpu-Keeps : Keeps (sample_gpu laws calls reads stored)
  unfolding sample_gpu collect_none
  sample_gpu-Keeps frame m h =
      ground (arith, gpu-IsMeasured calls.nvml m.gpu_sensor frame m.outer h)

  sample_cpufreq-Keeps : Keeps (sample_cpufreq laws calls reads stored)
  unfolding sample_cpufreq CpuFreq.sample
  sample_cpufreq-Keeps frame m h = ground (arith, h)

  sample_thermal-Keeps : Keeps (sample_thermal laws calls reads stored)
  unfolding sample_thermal
  sample_thermal-Keeps frame m h =
      let old = m.thermal_sensor in
      let read =
        (Thermal.Headroom.sample-IsFinite laws calls.stdio reads.zone stored old.state frame m.outer
          old.finite).0 in
      subst IsMeasured (sym (thermal_frame calls.stdio reads.zone old.state frame m.outer))
        (thermal-IsMeasured frame _ h read)

  sample_psi-Keeps : Keeps (sample_psi laws calls reads stored)
  unfolding sample_psi Psi.sample
  sample_psi-Keeps frame m h =
      let ((cpu, memory, io), w) = reads.pressure m.outer in
      let (cpu_form, memory_form, io_form) = pressures m.outer in
      psi-IsMeasured frame _ _ _ h (pressure-IsFinite laws calls.avg10 cpu avg10 cpu_form)
        (pressure-IsFinite laws calls.avg10 memory avg10 memory_form)
        (pressure-IsFinite laws calls.avg10 io avg10 io_form)

  pub members-Measure :
      (config : AgentConfig F)
      → All Measures (register_sensors (members laws calls reads stored) config)
  unfolding register_sensors members
  members-Measure config = (
    sample_psi-Keeps,
    (
      sample_cpu-Keeps,
      (
        sample_interrupts-Keeps,
        (
          sample_softirqs-Keeps,
          (
            sample_memory-Keeps,
            (
              sample_disk-Keeps,
              (
                sample_network-Keeps,
                (
                  sample_tegrastats-Keeps,
                  (
                    sample_thermal-Keeps,
                    (sample_cpu_throttle-Keeps, (sample_cpufreq-Keeps, (sample_gpu-Keeps, tt))),
                  ),
                ),
              ),
            ),
          ),
        ),
      ),
    ),
  )
