-- ===== src/Agent/Machine/Frames.antt =====
-- The fields that the samples of src/sensors change.
use hw_agent.Core.Text.{is_digit}
use hw_agent.Prelude.{
  ℕ, true, [], subst, ◌≡◌, refl, Option-cases, inl, inr, Text, Option, none, some, List, [], ◌∷◌,
  arith,
}
use hw_agent.Float.{Float, IsFloat, IsFinite}
use hw_agent.Frame.{SignalFrame}
use hw_agent.Sensors.Files.{nought-IsFinite}
use hw_agent.Sensors.Psi
use hw_agent.Platform.{Double}
use hw_agent.Sensors.Gpu.Nvml.{Library, NvmlGpu, collect, require, set_defaults}
use hw_agent.Sensors.Tegrastats.{RawFields, TegraStats, Regexes}
use hw_agent.Sensors.Tegrastats.Process
use hw_agent.Sensors.Tegrastats.Process.{Posix, Ending}
use hw_agent.Sensors.Softirqs
use hw_agent.Sensors.Interrupts
use hw_agent.Sensors.Interrupts.{read_total}
use hw_agent.Sensors.Thermal
use hw_agent.Agent.Signals.{IsMeasured}
use hw_agent.Sensors.Stdio.{Stdio}
use hw_agent.Sensors.Thermal.{set_headroom, read_zones}

-- Behind the needle, if it is there, stands a digit.
abbrev HasNumber : Option Text → Type 0
HasNumber none = Unit
HasNumber (some []) = ⊥
HasNumber (some (c ∷ cs)) = is_digit c ≡ true

-- The format of /proc/pressure, if the file is read at all.
abbrev pub IsPressure : Psi.Bytes → Type 0
IsPressure Psi.not_opened = Unit
IsPressure Psi.not_seekable = Unit
IsPressure (Psi.bytes text) = HasNumber (Psi.behind_needle text)

-- std::strtof reads "inf" and "nan" too, but no text that starts with a digit as one of these; where
-- such a number is too large, it sets `errno`.
abbrev pub ReadsFinite : {F : Type 0} ⦃f : Float F⦄ → (Text → Option F) → Type 0
ReadsFinite {F} strtof =
    (c : ℕ) (value : Text) (x : F) → is_digit c ≡ true → strtof (c ∷ value) ≡ some x → IsFinite x

module _ {F : Type 0} ⦃f : Float F⦄ where
  pub softirqs-IsMeasured :
      (frame : SignalFrame F) (x : F)
      → IsMeasured frame
      → IsFinite x
      → IsMeasured (record frame { softirqs = x })
  softirqs-IsMeasured frame x m h = ground (arith, m, h)

  pub irq-IsMeasured :
      (frame : SignalFrame F) (x : F)
      → IsMeasured frame
      → IsFinite x
      → IsMeasured (record frame { irq = x })
  irq-IsMeasured frame x m h = ground (arith, m, h)

  pub thermal-IsMeasured :
      (frame : SignalFrame F) (x : F)
      → IsMeasured frame
      → IsFinite x
      → IsMeasured (record frame { thermal = x })
  thermal-IsMeasured frame x m h = ground (arith, m, h)

  pub psi-IsMeasured :
      (frame : SignalFrame F) (x y z : F)
      → IsMeasured frame
      → IsFinite x
      → IsFinite y
      → IsFinite z
      → IsMeasured (record frame { psi = x; psi_memory = y; psi_io = z })
  psi-IsMeasured frame x y z m hx hy hz = ground (arith, m, hx, hy, hz)

  pub softirqs_frame :
      (b : Softirqs.Buffers) (s : Softirqs.Softirqs F) (frame : SignalFrame F)
      → (Softirqs.sample b s frame).2
        ≡ record frame { softirqs = (Softirqs.sample b s frame).2.softirqs }
  unfolding Softirqs.sample
  softirqs_frame Softirqs.not_opened s frame = refl
  softirqs_frame Softirqs.not_seekable s frame = refl
  softirqs_frame (Softirqs.filled buffers) s frame = ground arith

  pub irq_frame :
      {D : Type 0} (d : Double F D) (file : Interrupts.Lines) (s : Interrupts.Interrupts)
      (frame : SignalFrame F)
      → (Interrupts.sample d file s frame).2
        ≡ record frame { irq = (Interrupts.sample d file s frame).2.irq }
  unfolding Interrupts.sample
  irq_frame d file s frame = elim (Option-cases (read_total file)) [
    | inl e ↦ rw (e, Interrupts.sample) refl
    | inr (total, e) ↦ rw (e, Interrupts.sample) refl
  ]

  set_headroom_frame :
      (hottest : Option (F × Text)) (raw : Thermal.RawFields F) (frame : SignalFrame F)
      → (set_headroom hottest raw frame).2
        ≡ record frame { thermal = (set_headroom hottest raw frame).2.thermal }
  unfolding set_headroom
  set_headroom_frame none raw frame = refl
  set_headroom_frame (some (t, name)) raw frame = refl

  pub thermal_frame :
      {H W : Type 0} (stdio : Stdio H W) (scan : H → W → Thermal.TempFile × W)
      (s : Thermal.ThermalSensor F H) (frame : SignalFrame F) (w : W)
      → (Thermal.sample stdio scan s frame w).0.2
        ≡ record frame { thermal = (Thermal.sample stdio scan s frame w).0.2.thermal }
  unfolding Thermal.sample
  thermal_frame stdio scan s frame w =
      set_headroom_frame (read_zones stdio scan s.owns_files s.zones none w).0.1 s.raw frame

  -- A pressure of the kernel, which prints a number behind "avg10=".
  pub pressure-IsFinite :
      (laws : IsFloat F) (strtof : Text → Option F) (bytes : Psi.Bytes)
      → ReadsFinite strtof
      → IsPressure bytes
      → IsFinite (Psi.read_avg10 strtof bytes).1
  unfolding Psi.read_avg10 Psi.parse_avg10
  pressure-IsFinite laws strtof Psi.not_opened h p = nought-IsFinite laws
  pressure-IsFinite laws strtof Psi.not_seekable h p = nought-IsFinite laws
  pressure-IsFinite laws strtof (Psi.bytes []) h p = nought-IsFinite laws
  pressure-IsFinite laws strtof (Psi.bytes (c ∷ cs)) h p =
      elim (Option-cases (Psi.behind_needle (c ∷ cs))) [
        | inl e ↦ rw (e, Psi.parse_avg10) (nought-IsFinite laws)
        | inr ([], e) ↦ absurd (subst HasNumber e p)
        | inr (d ∷ value, e) ↦ elim (Option-cases (strtof (d ∷ value))) [
          | inl bad ↦ rw (e, bad, Psi.parse_avg10) (nought-IsFinite laws)
          | inr (x, good) ↦ rw (e, good, Psi.parse_avg10) (h d value x (subst HasNumber e p) good)
        ]
      ]

  pub gpu-IsMeasured :
      {W : Type 0} (lib : Library W) (s : NvmlGpu) (frame : SignalFrame F) (w : W)
      → IsMeasured frame
      → IsMeasured (collect lib s frame w).1
  unfolding collect require set_defaults
  gpu-IsMeasured lib s frame w m = ground (arith, m)

  publish-IsMeasured :
      {W : Type 0} (posix : Posix W) (raw : RawFields F) (frame : SignalFrame F)
      → IsMeasured frame
      → IsMeasured (Process.publish posix raw frame)
  unfolding Process.publish
  publish-IsMeasured posix raw frame m = ground (arith, m)

  pub tegrastats-IsMeasured :
      {W : Type 0} (posix : Posix W) (strtof : Text → Option F) (regexes : Regexes)
      (chunks : List Text) (ending : Ending) (s : TegraStats F) (frame : SignalFrame F) (w : W)
      → IsMeasured frame
      → IsMeasured (Process.sample posix strtof regexes chunks ending s frame w).0.2
  unfolding Process.sample Process.finish
  tegrastats-IsMeasured posix strtof regexes chunks ending s frame w m =
      ground (arith, m, publish-IsMeasured posix)
