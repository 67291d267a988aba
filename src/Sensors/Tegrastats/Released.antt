-- ===== src/Sensors/Tegrastats/Released.antt =====
-- The pipe and the child of src/sensors/tegrastats.cpp, from the constructor to the destructor.
use hw_agent.Prelude.{
  ℕ, zero, suc, ◌+◌, ◌≡◌, ◌⊎◌, inl, inr, refl, Bool, true, false, Text, Option, List, [], ◌∷◌,
  if◌then◌else◌, arith, Option-cases, Bool-cases,
}
use hw_agent.Float.{Float}
use hw_agent.Frame.{SignalFrame}
use hw_agent.Sensors.Tegrastats.{TegraStats, Regexes, read_chunks}
use hw_agent.Sensors.Tegrastats.Process.{
  Posix, Wait, running, exited, failed, Ending, end_of_file, would_block, read_error, poll,
  terminate_child_process, launch, make_sensor, disable, disable_non_blocking, check_child, finish,
  sample,
}

-- A world with the pipes made, the ends closed, whether there is a child for which no waitpid returned
-- its pid or an error, and the signals sent while there was none.
pub record Tracked (W : Type 0) : Type 0 where
  pub world : W
  pub pipes : ℕ
  pub read_closed : ℕ
  pub write_closed : ℕ
  pub unwaited : Bool
  pub strays : ℕ

abbrev one_if : Bool → ℕ
one_if b = if b then 1 else 0

abbrev is_running : Wait → Bool
is_running running = true
is_running exited = false
is_running failed = false

module _ {W : Type 0} where
  -- A signal.
  abbrev signalled : W → Tracked W → Tracked W
  signalled w c = record c { world = w; strays = if c.unwaited then c.strays else c.strays + 1 }

  -- The same calls, tracked.
  abbrev pub tracked : Posix W → Posix (Tracked W)
  tracked posix = record {
    pipe = λ c.
        let (ok, w) = posix.pipe c.world in
        (ok, record c { world = w; pipes = c.pipes + one_if ok });
    fork = λ c.
        let (ok, w) = posix.fork c.world in
        (ok, record c { world = w; unwaited = if ok then true else c.unwaited });
    set_non_blocking =
        λ c. let (ok, w) = posix.set_non_blocking c.world in (ok, record c { world = w });
    close_read =
        λ c. record c { world = posix.close_read c.world; read_closed = c.read_closed + 1 };
    close_write =
        λ c. record c { world = posix.close_write c.world; write_closed = c.write_closed + 1 };
    terminate = λ c. signalled (posix.terminate c.world) c;
    kill = λ c. signalled (posix.kill c.world) c;
    wait_no_hang = λ c.
        let (result, w) = posix.wait_no_hang c.world in
        (
          result,
          record c { world = w; unwaited = if is_running result then c.unwaited else false },
        );
    wait = λ c. record c { world = posix.wait c.world; unwaited = false };
    usleep = λ n c. record c { world = posix.usleep n c.world };
  }

  -- The same pipes and ends.
  abbrev Same : Tracked W → Tracked W → Type 0
  Same c c' =
      (c'.pipes ≡ c.pipes) × (c'.read_closed ≡ c.read_closed) × (c'.write_closed ≡ c.write_closed)

  -- Since `c₀`, the ends of each pipe were closed, but for the one that the sensor reads; a child
  -- without a waitpid is that of the sensor.
  abbrev Holds : {F : Type 0} → Tracked W → TegraStats F → Tracked W → Type 0
  Holds c₀ s c =
      (c.read_closed + c₀.pipes + one_if s.reading ≡ c.pipes + c₀.read_closed)
      × (c.write_closed + c₀.pipes ≡ c.pipes + c₀.write_closed)
      × ((c.unwaited ≡ false) ⊎ (s.has_child ≡ true))

  module _ (posix : Posix W) where
    poll-Same :
        (attempts : ℕ) (c : Tracked W)
        → Same c (poll (tracked posix) attempts c)
          × ((poll (tracked posix) attempts c).unwaited ≡ false)
    unfolding poll
    poll-Same zero c = ((refl, refl, refl), refl)
    poll-Same (suc attempts) c =
        let (result, c') = (tracked posix).wait_no_hang c in
        let later = poll-Same attempts ((tracked posix).usleep 10_000 c') in ground (arith, later)

    terminate-Same :
        (c : Tracked W)
        → Same c (terminate_child_process (tracked posix) c)
          × ((terminate_child_process (tracked posix) c).unwaited ≡ false)
    unfolding terminate_child_process
    terminate-Same c = poll-Same 20 ((tracked posix).terminate c)

    launch-Holds :
        {F : Type 0} (c : Tracked W) (s : TegraStats F)
        → c.unwaited ≡ false
        → let (launched, c') = launch (tracked posix) c in
          s.reading ≡ launched → s.has_child ≡ launched → Holds c s c'
    unfolding launch
    launch-Holds c s h hr hc =
        let c₂ = ((tracked posix).fork ((tracked posix).pipe c).1).1 in
        let c₃ = ((tracked posix).set_non_blocking ((tracked posix).close_write c₂)).1 in
        ground (arith, hr, hc, h, terminate-Same ((tracked posix).close_read c₃))

    -- The two steps of `disable`.
    abbrev closed_if : Bool → Tracked W → Tracked W
    closed_if reading c = if reading then (tracked posix).close_read c else c

    abbrev terminated_if : Bool → Tracked W → Tracked W
    terminated_if has_child c = if has_child then terminate_child_process (tracked posix) c else c

    terminated_if-Same :
        (has_child : Bool) (c : Tracked W)
        → (c.unwaited ≡ false) ⊎ (has_child ≡ true)
        → Same c (terminated_if has_child c) × ((terminated_if has_child c).unwaited ≡ false)
    terminated_if-Same true c h = terminate-Same c
    terminated_if-Same false c (inl e) = ((refl, refl, refl), e)
    terminated_if-Same false c (inr e) = cc

    closed_if-Holds :
        {F : Type 0} (c₀ : Tracked W) (s : TegraStats F) (c : Tracked W)
        → Holds c₀ s c
        → Holds c₀ (record s { reading = false }) (closed_if s.reading c)
    closed_if-Holds c₀ s c (hr, hw, hc) = elim (Bool-cases s.reading) [
      | inl e ↦ rw e (let hr' = rw e at hr in (omega arith, hw, hc))
      | inr e ↦ rw e (let hr' = rw e at hr in (omega arith, hw, hc))
    ]

    disable-Holds :
        {F : Type 0} ⦃f : Float F⦄ (c₀ : Tracked W) (s : TegraStats F) (c : Tracked W)
        → Holds c₀ s c
        → let (s', c') = disable (tracked posix) s c in
          Holds c₀ s' c' × (s'.reading ≡ false) × (s'.has_child ≡ false)
    unfolding disable
    disable-Holds c₀ s c h =
        let c₁ = closed_if s.reading c in
        let (hr, hw, hc) = closed_if-Holds c₀ s c h in
        let ((p, r, w), e) = terminated_if-Same s.has_child c₁ hc in
        ((omega arith, omega arith, inl e), refl, refl)

    disable_non_blocking-Holds :
        {F : Type 0} ⦃f : Float F⦄ (c₀ : Tracked W) (s : TegraStats F) (c : Tracked W)
        → Holds c₀ s c
        → let (s', c') = disable_non_blocking (tracked posix) s c in Holds c₀ s' c'
    unfolding disable_non_blocking
    disable_non_blocking-Holds c₀ s c h = ground (arith, h)

    check_child-Holds :
        {F : Type 0} ⦃f : Float F⦄ (c₀ : Tracked W) (parsed : Bool) (s : TegraStats F)
        (c : Tracked W)
        → Holds c₀ s c
        → let (s', c') = check_child (tracked posix) parsed s c in Holds c₀ s' c'
    unfolding check_child
    check_child-Holds c₀ parsed s c h =
        let c' = ((tracked posix).wait_no_hang c).1 in ground (arith, h, disable-Holds c₀ s c')

    make_sensor-Holds :
        (F : Type 0) ⦃f : Float F⦄ (c : Tracked W)
        → c.unwaited ≡ false
        → let (s, c') = make_sensor (tracked posix) {F = F} c in Holds c s c'
    unfolding make_sensor
    make_sensor-Holds F c h = launch-Holds c (make_sensor (tracked posix) {F = F} c).0 h refl refl

  module _ {F : Type 0} ⦃f : Float F⦄ (posix : Posix W) (strtof : Text → Option F)
      (regexes : Regexes) where
    finish-Holds :
        (c₀ : Tracked W) (ending : Ending) (parsed : Bool) (s : TegraStats F)
        (frame : SignalFrame F) (c : Tracked W)
        → Holds c₀ s c
        → let ((ok, s', frame'), c') = finish (tracked posix) ending parsed s frame c in
          Holds c₀ s' c'
    unfolding finish
    finish-Holds c₀ end_of_file parsed s frame c h = (disable-Holds posix c₀ s c h).0
    finish-Holds c₀ read_error parsed s frame c h = (disable-Holds posix c₀ s c h).0
    finish-Holds c₀ would_block parsed s frame c h = check_child-Holds posix c₀ parsed s c h

    sample-Holds :
        (c₀ : Tracked W) (chunks : List Text) (ending : Ending) (s : TegraStats F)
        (frame : SignalFrame F) (c : Tracked W)
        → Holds c₀ s c
        → let ((ok, s', frame'), c') =
            sample (tracked posix) strtof regexes chunks ending s frame c in
          Holds c₀ s' c'
    unfolding sample
    sample-Holds c₀ chunks ending s frame c h =
        let (raw, buffer, parsed) = read_chunks strtof regexes chunks s.read_buffer s.raw false in
        let s' : TegraStats F = record s { read_buffer = buffer; raw = raw } in
        elim (Bool-cases s.enabled) [
          | inl on ↦ elim (Option-cases parsed) [
            | inl thrown ↦ rw (on, thrown) (disable_non_blocking-Holds posix c₀ s' c h)
            | inr (found, given) ↦ rw (on, given) (finish-Holds c₀ ending found s' frame c h)
          ]
          | inr off ↦ rw off h
        ]

    -- Samples, each with what it reads and the frame that it is given.
    abbrev pub samples :
        List (List Text × Ending × SignalFrame F)
        → TegraStats F
        → Tracked W
        → TegraStats F × Tracked W
    samples [] s c = (s, c)
    samples ((chunks, ending, frame) ∷ rest) s c =
        let ((ok, s', frame'), c') =
          sample (tracked posix) strtof regexes chunks ending s frame c in
        samples rest s' c'

    samples-Holds :
        (c₀ : Tracked W) (inputs : List (List Text × Ending × SignalFrame F)) (s : TegraStats F)
        (c : Tracked W)
        → Holds c₀ s c
        → let (s', c') = samples inputs s c in Holds c₀ s' c'
    samples-Holds c₀ [] s c h = h
    samples-Holds c₀ ((chunks, ending, frame) ∷ rest) s c h =
        let ((ok, s', frame'), c') =
          sample (tracked posix) strtof regexes chunks ending s frame c in
        samples-Holds c₀ rest s' c' (sample-Holds c₀ chunks ending s frame c h)

    -- Whatever fails, when a sensor is made, sampled any number of times and destroyed, both ends of a
    -- pipe that was made are closed once, and no child is left without a waitpid.
    pub disable-released :
        (inputs : List (List Text × Ending × SignalFrame F)) (c : Tracked W)
        → c.unwaited ≡ false
        → let (s, c₁) = make_sensor (tracked posix) {F = F} c in
          let (s', c₂) = samples inputs s c₁ in
          let (s'', c₃) = disable (tracked posix) s' c₂ in
          (c₃.read_closed + c.pipes ≡ c₃.pipes + c.read_closed)
          × (c₃.write_closed + c.pipes ≡ c₃.pipes + c.write_closed)
          × (c₃.unwaited ≡ false)
    disable-released inputs c h =
        let (s, c₁) = make_sensor (tracked posix) {F = F} c in
        let (s', c₂) = samples inputs s c₁ in
        let held = samples-Holds c inputs s c₁ (make_sensor-Holds posix F c h) in
        let ((r, w, e), closed, gone) = disable-Holds posix c s' c₂ held in ground arith
