-- ===== src/Sensors/Tegrastats/Process.antt =====
-- The child process of src/sensors/tegrastats.cpp, and `sample`.
use hw_agent.Prelude.{
  ℕ, zero, suc, Bool, true, false, Text, codes, Option, none, some, List, [], if◌then◌else◌,
}
use hw_agent.Float.{Float}
use hw_agent.Frame.{SignalFrame}
use hw_agent.Sensors.Tegrastats.{RawFields, TegraStats, Regexes, lookup, read_chunks}

-- What waitpid with WNOHANG returns: 0, the child, or a number below 0.
pub data Wait : Type 0 where
  running : Wait
  exited : Wait
  failed : Wait

-- The calls of POSIX, for the one pipe and the one child of the sensor.
pub record Posix (W : Type 0) : Type 0 where
  -- false where they fail; fork in the parent
  pub pipe : W → Bool × W
  pub fork : W → Bool × W
  -- both calls of fcntl
  pub set_non_blocking : W → Bool × W
  pub close_read : W → W
  pub close_write : W → W
  pub terminate : W → W
  pub kill : W → W
  pub wait_no_hang : W → Wait × W
  pub wait : W → W
  pub usleep : ℕ → W → W

-- The results of ::read in a sample: chunks, and then the end of the file, an empty pipe or an error.
pub data Ending : Type 0 where
  end_of_file : Ending
  would_block : Ending
  read_error : Ending

module _ {W : Type 0} (posix : Posix W) where
  -- The loop of terminate_child_process, from so many attempts.
  unfoldable pub poll : ℕ → W → W
  poll zero w = posix.wait (posix.kill w)
  poll (suc attempts) w =
      let (wait_result, w') = posix.wait_no_hang w in
      let later = poll attempts (posix.usleep 10_000 w') in
      elim wait_result [ running ↦ later | exited ↦ w' | failed ↦ w' ]

  unfoldable pub terminate_child_process : W → W
  unfolding poll
  terminate_child_process w = poll 20 (posix.terminate w)

  -- `launch`, in the parent.
  unfoldable pub launch : W → Bool × W
  unfolding terminate_child_process
  launch w =
      let (piped, w₁) = posix.pipe w in
      let (forked, w₂) = posix.fork w₁ in
      let (set, w₃) = posix.set_non_blocking (posix.close_write w₂) in
      if piped
      then if forked
        then if set then (true, w₃) else (false, terminate_child_process (posix.close_read w₃))
        else (false, posix.close_write (posix.close_read w₂))
      else (false, w₁)

  module _ {F : Type 0} ⦃f : Float F⦄ where
    -- The constructor.
    unfoldable pub make_sensor : W → TegraStats F × W
    unfolding launch
    make_sensor w =
        let (launched, w') = launch w in
        (
          record {
            reading = launched;
            has_child = launched;
            enabled = launched;
            read_buffer = [];
            raw = record {
              gpu_util_pct = f.lit 0 1;
              emc_util_pct = f.lit 0 1;
              total_rail_power_mw = f.lit 0 1;
              rail_power_mw = [];
              temperatures_c = [];
            };
          },
          w',
        )

    unfoldable pub disable : TegraStats F → W → TegraStats F × W
    unfolding terminate_child_process
    disable s w =
        let w₁ = if s.reading then posix.close_read w else w in
        let w₂ = if s.has_child then terminate_child_process w₁ else w₁ in
        (record s { reading = false; has_child = false; enabled = false }, w₂)

    unfoldable pub disable_non_blocking : TegraStats F → W → TegraStats F × W
    disable_non_blocking s w =
        let w₁ = if s.reading then posix.close_read w else w in
        let (wait_result, w₂) = posix.wait_no_hang (posix.terminate w₁) in
        let stopped : TegraStats F = record s { reading = false; enabled = false } in
        if s.has_child
        then elim wait_result [
          | running ↦ (stopped, w₂)
          | exited ↦ (record stopped { has_child = false }, w₂)
          | failed ↦ (record stopped { has_child = false }, w₂)
        ]
        else (stopped, w₁)

    -- The end of `sample`.
    unfoldable pub publish : RawFields F → SignalFrame F → SignalFrame F
    unfolding lookup
    publish raw frame =
        let frame₁ : SignalFrame F = record frame {
          gpu_util = raw.gpu_util_pct;
          emc_util = raw.emc_util_pct;
          tegra_gpu_util = raw.gpu_util_pct;
          tegra_emc_util = raw.emc_util_pct;
        } in
        let frame₂ : SignalFrame F = elim (lookup (codes "GPU") raw.temperatures_c) [
          | none ↦ frame₁
          | some temp ↦ record frame₁ { gpu_temp = temp; tegra_gpu_temp = temp }
        ] in
        if f.lt (f.lit 0 1) raw.total_rail_power_mw
        then record frame₂ {
          gpu_power_ratio = raw.total_rail_power_mw;
          tegra_gpu_power_mw = raw.total_rail_power_mw;
        }
        else frame₂

    -- Where no line was parsed, the child may have ended.
    unfoldable pub check_child : Bool → TegraStats F → W → TegraStats F × W
    unfolding disable
    check_child parsed s w =
        let (wait_result, w') = posix.wait_no_hang w in
        let disabled = disable s w' in
        if parsed
        then (s, w)
        else elim wait_result [ running ↦ (s, w') | exited ↦ disabled | failed ↦ (s, w') ]

    -- After the reads, without an exception.
    unfoldable pub finish :
        Ending → Bool → TegraStats F → SignalFrame F → W → (Bool × TegraStats F × SignalFrame F) × W
    unfolding disable check_child publish
    finish end_of_file parsed s frame w = let (s', w') = disable s w in ((false, s', frame), w')
    finish read_error parsed s frame w = let (s', w') = disable s w in ((false, s', frame), w')
    finish would_block parsed s frame w =
        let (s', w') = check_child parsed s w in ((true, s', publish s'.raw frame), w')

    module _ (strtof : Text → Option F) (regexes : Regexes) where
      unfoldable pub sample :
          List Text
          → Ending
          → TegraStats F
          → SignalFrame F
          → W
          → (Bool × TegraStats F × SignalFrame F) × W
      unfolding read_chunks disable_non_blocking finish
      sample chunks ending s frame w =
          let (raw, buffer, parsed) = read_chunks strtof regexes chunks s.read_buffer s.raw false in
          let s' : TegraStats F = record s { read_buffer = buffer; raw = raw } in
          if s.enabled
          then elim parsed [
            | none ↦ (let (s'', w') = disable_non_blocking s' w in ((false, s'', frame), w'))
            | some found ↦ finish ending found s' frame w
          ]
          else ((false, s, frame), w)
