-- ===== src/Sensors/Tegrastats/Strays.antt =====
-- Signals of src/sensors/tegrastats.cpp to a process that was waited for.
use hw_agent.Prelude.{
  ℕ, zero, suc, ◌<◌, ◌≤◌, ◌≡◌, true, false, Bool-cases, inl, inr, Text, Option, some, List, arith,
}
use hw_agent.Float.{Float}
use hw_agent.Frame.{SignalFrame}
use hw_agent.Sensors.Tegrastats.{TegraStats, Regexes, read_chunks}
use hw_agent.Sensors.Tegrastats.Process.{
  Posix, exited, would_block, poll, terminate_child_process, disable, check_child, finish, sample,
}
use hw_agent.Sensors.Tegrastats.Released.{Tracked, tracked}

module _ {W : Type 0} (posix : Posix W) where
  poll-strays : (attempts : ℕ) (c : Tracked W) → c.strays ≤ (poll (tracked posix) attempts c).strays
  unfolding poll
  poll-strays zero c = ground arith
  poll-strays (suc attempts) c =
      let c' = ((tracked posix).wait_no_hang c).1 in
      ground (arith, poll-strays attempts ((tracked posix).usleep 10_000 c'))

  -- The first signal goes to nobody.
  terminate-strays :
      (c : Tracked W)
      → c.unwaited ≡ false
      → c.strays < (terminate_child_process (tracked posix) c).strays
  unfolding terminate_child_process
  terminate-strays c h = ground (arith, h, poll-strays 20 ((tracked posix).terminate c))

  disable-strays :
      {F : Type 0} ⦃f : Float F⦄ (s : TegraStats F) (c : Tracked W)
      → s.has_child ≡ true
      → c.unwaited ≡ false
      → c.strays < (disable (tracked posix) s c).1.strays
  unfolding disable
  disable-strays s c child h = elim (Bool-cases s.reading) [
    | inl e ↦ rw (e, child) (terminate-strays ((tracked posix).close_read c) h)
    | inr e ↦ rw (e, child) (terminate-strays c h)
  ]

  check_child-strays :
      {F : Type 0} ⦃f : Float F⦄ (s : TegraStats F) (c : Tracked W)
      → s.has_child ≡ true
      → (posix.wait_no_hang c.world).0 ≡ exited
      → c.strays < (check_child (tracked posix) false s c).1.strays
  unfolding check_child
  check_child-strays s c child e =
      let c' = ((tracked posix).wait_no_hang c).1 in ground (arith, child, e, disable-strays s c')

  -- A sample that has parsed no line and learns from waitpid that the child has ended, which frees its
  -- pid, sends a signal to that pid.
  pub sample-strays :
      {F : Type 0} ⦃f : Float F⦄ (strtof : Text → Option F) (regexes : Regexes) (chunks : List Text)
      (s : TegraStats F) (frame : SignalFrame F) (c : Tracked W)
      → s.enabled ≡ true
      → s.has_child ≡ true
      → (read_chunks strtof regexes chunks s.read_buffer s.raw false).2 ≡ some false
      → (posix.wait_no_hang c.world).0 ≡ exited
      → c.strays < (sample (tracked posix) strtof regexes chunks would_block s frame c).1.strays
  unfolding sample finish
  sample-strays strtof regexes chunks s frame c on child nothing e =
      let (raw, buffer, parsed) = read_chunks strtof regexes chunks s.read_buffer s.raw false in
      let s' : TegraStats _ = record s { read_buffer = buffer; raw = raw } in
      rw (on, nothing) (check_child-strays s' c child e)
