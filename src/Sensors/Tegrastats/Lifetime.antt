-- ===== src/Sensors/Tegrastats/Lifetime.antt =====
-- The pipe and the child of `TegraStatsSensor`, in src/sensors/tegrastats.cpp.
use hw_agent.Prelude.{
  ◌≡◌, refl, ◌⊎◌, inl, inr, Bool, true, false, Text, Option, List, arith, Option-cases,
}
use hw_agent.Float.{Float}
use hw_agent.Frame.{SignalFrame}
use hw_agent.Sensors.Tegrastats.{TegraStats, Regexes, read_chunks}
use hw_agent.Sensors.Tegrastats.Process.{
  Posix, Ending, end_of_file, would_block, read_error, make_sensor, disable, disable_non_blocking,
  check_child, finish, sample,
}

module _ {F : Type 0} where
  -- The pipe is open if and only if the sensor is enabled, and an enabled sensor has a child.
  abbrev pub IsAttached : TegraStats F → Type 0
  IsAttached s = (s.reading ≡ s.enabled) × ((s.enabled ≡ false) ⊎ (s.has_child ≡ true))

module _ {F W : Type 0} ⦃f : Float F⦄ (posix : Posix W) (strtof : Text → Option F)
    (regexes : Regexes) where
  make_sensor-IsAttached : (w : W) → IsAttached (make_sensor posix {F = F} w).0
  unfolding make_sensor
  make_sensor-IsAttached w = ground arith

  disable-IsAttached :
      (s : TegraStats F) (w : W)
      → IsAttached (disable posix s w).0 × ((disable posix s w).0.enabled ≡ false)
  unfolding disable
  disable-IsAttached s w = ((refl, inl refl), refl)

  disable_non_blocking-IsAttached :
      (s : TegraStats F) (w : W)
      → IsAttached (disable_non_blocking posix s w).0
        × ((disable_non_blocking posix s w).0.enabled ≡ false)
  unfolding disable_non_blocking
  disable_non_blocking-IsAttached s w = ground arith

  -- A sensor and the result of its sample.
  abbrev Outcome : Bool × TegraStats F × SignalFrame F → Type 0
  Outcome (ok, s, frame) = IsAttached s × ((ok ≡ true) ⊎ (s.enabled ≡ false))

  finish-Outcome :
      (ending : Ending) (parsed : Bool) (s : TegraStats F) (frame : SignalFrame F) (w : W)
      → IsAttached s
      → Outcome (finish posix ending parsed s frame w).0
  unfolding finish check_child
  finish-Outcome end_of_file parsed s frame w h = ground (arith, disable-IsAttached s w)
  finish-Outcome read_error parsed s frame w h = ground (arith, disable-IsAttached s w)
  finish-Outcome would_block parsed s frame w h =
      ground (arith, disable-IsAttached s (posix.wait_no_hang w).1)

  -- A sample keeps the pipe open exactly while the sensor is enabled, with a child behind it, and a
  -- sample that fails leaves the sensor disabled.
  pub sample-IsAttached :
      (chunks : List Text) (ending : Ending) (s : TegraStats F) (frame : SignalFrame F) (w : W)
      → IsAttached s
      → let (ok, s', frame') = (sample posix strtof regexes chunks ending s frame w).0 in
        IsAttached s' × ((ok ≡ true) ⊎ (s'.enabled ≡ false))
  unfolding sample
  sample-IsAttached chunks ending s frame w h =
      let (raw, buffer, parsed) = read_chunks strtof regexes chunks s.read_buffer s.raw false in
      let s' : TegraStats F = record s { read_buffer = buffer; raw = raw } in
      elim (Option-cases parsed) [
        | inl thrown ↦ ground (arith, h, thrown, disable_non_blocking-IsAttached s' w)
        | inr (found, given) ↦ ground (arith, h, given, finish-Outcome ending found s' frame w)
      ]
