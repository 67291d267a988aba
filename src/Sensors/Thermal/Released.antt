-- ===== src/Sensors/Thermal/Released.antt =====
-- The files that ThermalSensor of src/sensors/thermal.cpp holds, from the constructor over its samples
-- to the destructor.
use hw_agent.Prelude.{
  ℕ, ◌+◌, ◌≡◌, refl, Bool, true, false, Bool-cases, inl, inr, Text, Option, none, some, List, [],
  ◌∷◌, arith,
}
use hw_agent.Float.{Float}
use hw_agent.Frame.{SignalFrame}
use hw_agent.Sensors.Stdio.{Stdio, close_file}
use hw_agent.Sensors.Stdio.Counted.{Counted, counted, held, Balance, close_file-Balance}
use hw_agent.Sensors.Discovery.{Listing, missing, entries, failing}
use hw_agent.Sensors.Thermal.{
  ZoneSource, ThermalSensor, Entry, TempFile, is_zone, open_zone, add_zones, discover_zones,
  close_zones, destroy, read_opened, read_file, read_zone, read_zones, warmer, sample,
}

module _ {H W : Type 0} (stdio : Stdio H W) (test : H → Bool) where
  abbrev calls : Stdio H (Counted W)
  calls = counted test stdio

  abbrev pub held_zones : List (ZoneSource H) → ℕ
  held_zones [] = 0
  held_zones (zone ∷ rest) = held test zone.file + held_zones rest

  open_zone-Balance :
      (entry : Entry) (c : Counted W)
      → let (zone, c') = open_zone calls entry c in Balance 0 (held test zone.file) c c'
  unfolding open_zone
  open_zone-Balance entry c = omega arith

  add_zones-Balance :
      (l : List Entry) (c : Counted W)
      → let (zones, c') = add_zones calls l c in Balance 0 (held_zones zones) c c'
  unfolding add_zones
  add_zones-Balance [] c = omega arith
  add_zones-Balance (entry ∷ rest) c =
      let c' = (open_zone calls entry c).1 in
      elim (Bool-cases (is_zone entry)) [
        | inl e ↦ rw e (omega (arith, open_zone-Balance entry c, add_zones-Balance rest c'))
        | inr e ↦ rw e (add_zones-Balance rest c)
      ]

  -- The files that stay open after a filesystem_error, which clears the list of them.
  abbrev pub lost_zones : Listing Entry → Counted W → ℕ
  lost_zones missing c = 0
  lost_zones (entries l) c = 0
  lost_zones (failing l) c = held_zones (add_zones calls l c).0

  pub discover_zones-Balance :
      (listing : Listing Entry) (c : Counted W)
      → let (zones, c') = discover_zones calls listing c in
        Balance 0 (held_zones zones + lost_zones listing c) c c'
  unfolding discover_zones
  discover_zones-Balance missing c = omega arith
  discover_zones-Balance (entries l) c = omega (arith, add_zones-Balance l c)
  discover_zones-Balance (failing l) c = omega (arith, add_zones-Balance l c)

  pub close_zones-Balance :
      (zones : List (ZoneSource H)) (c : Counted W)
      → Balance (held_zones zones) 0 c (close_zones calls zones c)
  unfolding close_zones
  close_zones-Balance [] c = omega arith
  close_zones-Balance (zone ∷ rest) c = omega (
    arith,
    close_file-Balance stdio test zone.file 0 c,
    close_zones-Balance rest (close_file calls zone.file c),
  )

  pub destroy-Balance :
      {F : Type 0} (s : ThermalSensor F H) (c : Counted W)
      → s.owns_files ≡ true
      → Balance (held_zones s.zones) 0 c (destroy calls s c)
  unfolding destroy
  destroy-Balance s c owns = rw owns (close_zones-Balance s.zones c)

  -- The same reads, which open and close nothing.
  abbrev pub scans : (H → W → TempFile × W) → H → Counted W → TempFile × Counted W
  scans scan file c = let (content, w) = scan file c.world in (content, record c { world = w })

  module _ (F : Type 0) ⦃f : Float F⦄ (scan : H → W → TempFile × W) where
    read_opened-Balance :
        (owns_files : Bool) (zone : ZoneSource H) (file : Option H) (c : Counted W)
        → zone.file ≡ none
        → let ((zone', temp), c') = read_opened {F = F} calls (scans scan) owns_files zone file c in
          Balance (held test file) (held test zone'.file) c c'
    unfolding read_opened
    read_opened-Balance owns_files zone none c e = rw e (omega arith)
    read_opened-Balance true zone (some file) c e = omega arith
    read_opened-Balance false zone (some file) c e = rw e (omega arith)

    read_file-Balance :
        (owns_files : Bool) (zone : ZoneSource H) (file : Option H) (c : Counted W)
        → zone.file ≡ file
        → let ((zone', temp), c') = read_file {F = F} calls (scans scan) owns_files zone file c in
          Balance (held test file) (held test zone'.file) c c'
    unfolding read_file
    read_file-Balance owns_files zone none c e =
        let (file, c') = calls.fopen zone.temp_path c in
        omega (arith, read_opened-Balance owns_files zone file c' e)
    read_file-Balance owns_files zone (some file) c e = rw e (omega arith)

    read_zone-Balance :
        (owns_files : Bool) (zone : ZoneSource H) (c : Counted W)
        → let ((zone', temp), c') = read_zone {F = F} calls (scans scan) owns_files zone c in
          Balance (held test zone.file) (held test zone'.file) c c'
    unfolding read_zone
    read_zone-Balance owns_files zone c = read_file-Balance owns_files zone zone.file c refl

    read_zones-Balance :
        (owns_files : Bool) (zones : List (ZoneSource H)) (best : Option (F × Text)) (c : Counted W)
        → let ((zones', hottest), c') = read_zones calls (scans scan) owns_files zones best c in
          Balance (held_zones zones) (held_zones zones') c c'
    unfolding read_zones
    read_zones-Balance owns_files [] best c = omega arith
    read_zones-Balance owns_files (zone ∷ rest) best c =
        let ((zone', temp), c') = read_zone {F = F} calls (scans scan) owns_files zone c in
        omega (
          arith,
          read_zone-Balance owns_files zone c,
          read_zones-Balance owns_files rest (warmer best zone.name temp) c',
        )

    pub sample-Balance :
        (s : ThermalSensor F H) (frame : SignalFrame F) (c : Counted W)
        → let ((ok, s', frame'), c') = sample calls (scans scan) s frame c in
          Balance (held_zones s.zones) (held_zones s'.zones) c c'
    unfolding sample
    sample-Balance s frame c = read_zones-Balance s.owns_files s.zones none c

    pub sample_owns :
        (s : ThermalSensor F H) (frame : SignalFrame F) (c : Counted W)
        → (sample calls (scans scan) s frame c).0.1.owns_files ≡ s.owns_files
    unfolding sample
    sample_owns s frame c = refl
