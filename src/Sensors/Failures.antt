-- ===== src/Sensors/Failures.antt =====
-- The samples of src/sensors that fail, and what the sensors remember.
use hw_agent.Prelude.{
  ℕ, ◌≡◌, refl, ◌⊎◌, inl, inr, Bool, true, false, codes, List, Option-cases, arith,
}
use hw_agent.Float.{Float}
use hw_agent.Frame.{SignalFrame}
use hw_agent.Platform.{Double}
use hw_agent.Core.Text.{strip_prefix}
use hw_agent.Derived.Ema.{Ema}
use hw_agent.Sensors.Cpu
use hw_agent.Sensors.Cpu.{read_values}
use hw_agent.Sensors.Disk
use hw_agent.Sensors.Softirqs
use hw_agent.Sensors.Interrupts
use hw_agent.Sensors.Interrupts.{read_total}
use hw_agent.Sensors.CpuFreq
use hw_agent.Sensors.CpuFreq.{add_files}

module _ {F : Type 0} ⦃f : Float F⦄ where
  -- A sample succeeds, or it keeps what the sensor remembers and sets the signal to 0.
  abbrev pub KeepsOrZero : {S : Type 0} → S → Bool → S → F → Type 0
  KeepsOrZero s ok s' signal = (ok ≡ true) ⊎ ((s' ≡ s) × (signal ≡ f.lit 0 1))

  -- What the next sample of the disks compares with; the totals in `raw_` are read anew each time.
  abbrev pub counts : Disk.Disk F → ℕ × ℕ × Bool
  counts s = (s.prev_completed, s.prev_weighted_io_ms, s.has_prev)

  cpu-KeepsOrZero :
      (l : Cpu.Line) (s : Cpu.Cpu) (frame : SignalFrame F)
      → let (ok, s', frame') = Cpu.sample l s frame in KeepsOrZero s ok s' frame'.cpu
  unfolding Cpu.sample strip_prefix
  cpu-KeepsOrZero Cpu.not_opened s frame = inr (refl, refl)
  cpu-KeepsOrZero Cpu.not_seekable s frame = inr (refl, refl)
  cpu-KeepsOrZero Cpu.no_line s frame = inr (refl, refl)
  cpu-KeepsOrZero (Cpu.line buffer) s frame =
      elim (Option-cases (strip_prefix (codes "cpu ") buffer)) [
        | inl other ↦ rw other (inr (refl, refl))
        | inr (cursor, found) ↦ elim (Option-cases (read_values 10 cursor)) [
          | inl bad ↦ rw (found, bad) (inr (refl, refl))
          | inr (values, read) ↦ rw (found, read) (inl refl)
        ]
      ]

  disk-KeepsOrZero :
      (l : Disk.Lines) (s : Disk.Disk F) (frame : SignalFrame F)
      → let (ok, s', frame') = Disk.sample l s frame in
        KeepsOrZero (counts s) ok (counts s') frame'.disk
  unfolding Disk.sample
  disk-KeepsOrZero Disk.not_opened s frame = inr (refl, refl)
  disk-KeepsOrZero Disk.not_seekable s frame = inr (refl, refl)
  disk-KeepsOrZero (Disk.lines stats true) s frame = inr (refl, refl)
  disk-KeepsOrZero (Disk.lines stats false) s frame = inl refl

  softirqs-KeepsOrZero :
      (l : Softirqs.Buffers) (s : Softirqs.Softirqs F) (frame : SignalFrame F)
      → let (ok, s', frame') = Softirqs.sample l s frame in KeepsOrZero s ok s' frame'.softirqs
  unfolding Softirqs.sample
  softirqs-KeepsOrZero Softirqs.not_opened s frame = inr (refl, refl)
  softirqs-KeepsOrZero Softirqs.not_seekable s frame = inr (refl, refl)
  softirqs-KeepsOrZero (Softirqs.filled buffers) s frame = ground arith

  module _ {D : Type 0} (d : Double F D) where
    interrupts-KeepsOrZero :
        (l : Interrupts.Lines) (s : Interrupts.Interrupts) (frame : SignalFrame F)
        → let (ok, s', frame') = Interrupts.sample d l s frame in KeepsOrZero s ok s' frame'.irq
    unfolding Interrupts.sample
    interrupts-KeepsOrZero l s frame = elim (Option-cases (read_total l)) [
      | inl bad ↦ rw (Interrupts.sample, bad) (inr (refl, refl))
      | inr (total, read) ↦ rw (Interrupts.sample, read) (inl refl)
    ]

    cpufreq-KeepsOrZero :
        (files : List CpuFreq.Line) (ema : Ema F) (frame : SignalFrame F)
        → let (ok, ema', frame') = CpuFreq.sample d files ema frame in
          KeepsOrZero ema ok ema' frame'.cpufreq
    unfolding CpuFreq.sample
    cpufreq-KeepsOrZero files ema frame = ground arith

    -- A sample of the sensors for CPU, disks, softirqs, interrupts and frequencies succeeds, or it
    -- sets the signal to 0 and keeps what the sensor remembers: of the disks, the two counts and the
    -- flag that the next sample compares with, since the totals in `raw_` are read anew each time.
    pub samples-KeepsOrZero :
        (stat : Cpu.Line) (cpu : Cpu.Cpu) (disks : Disk.Lines) (disk : Disk.Disk F)
        (buffers : Softirqs.Buffers) (softirqs : Softirqs.Softirqs F) (table : Interrupts.Lines)
        (interrupts : Interrupts.Interrupts) (files : List CpuFreq.Line) (ema : Ema F)
        (frame : SignalFrame F)
        → let (ok₁, cpu', frame₁) = Cpu.sample stat cpu frame in
          let (ok₂, disk', frame₂) = Disk.sample disks disk frame in
          let (ok₃, softirqs', frame₃) = Softirqs.sample buffers softirqs frame in
          let (ok₄, interrupts', frame₄) = Interrupts.sample d table interrupts frame in
          let (ok₅, ema', frame₅) = CpuFreq.sample d files ema frame in
          KeepsOrZero cpu ok₁ cpu' frame₁.cpu
          × KeepsOrZero (counts disk) ok₂ (counts disk') frame₂.disk
          × KeepsOrZero softirqs ok₃ softirqs' frame₃.softirqs
          × KeepsOrZero interrupts ok₄ interrupts' frame₄.irq
          × KeepsOrZero ema ok₅ ema' frame₅.cpufreq
    samples-KeepsOrZero stat cpu disks disk buffers softirqs table interrupts files ema frame = (
      cpu-KeepsOrZero stat cpu frame,
      disk-KeepsOrZero disks disk frame,
      softirqs-KeepsOrZero buffers softirqs frame,
      interrupts-KeepsOrZero table interrupts frame,
      cpufreq-KeepsOrZero files ema frame,
    )
