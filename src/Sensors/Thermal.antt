-- ===== src/Sensors/Thermal.antt =====
-- `ThermalSensor` of src/sensors/thermal.cpp: the zones, and the hottest of them.
pub mod Hottest
pub mod Released
pub mod Headroom
use hw_agent.Prelude.{
  ℕ, Bool, true, false, not, ◌&&◌, ◌++◌, Text, String, codes, Option, none, some, List, [], ◌∷◌,
  if◌then◌else◌,
}
use hw_agent.Float.{Float}
use hw_agent.Frame.{SignalFrame}
use hw_agent.Core.Text.{strip_prefix}
use hw_agent.Sensors.Stdio.{Stdio, close_file}
use hw_agent.Sensors.Discovery.{Listing, missing, entries, failing}

-- `RawFields`
pub record RawFields (F : Type 0) : Type 0 where
  pub hottest_zone : Text
  pub hottest_temp_c : F
  pub throttle_temp_c : F
  pub headroom_c : F

-- `ZoneSource`
pub record ZoneSource (H : Type 0) : Type 0 where
  pub name : Text
  pub temp_path : Text
  pub file : Option H

pub record ThermalSensor (F H : Type 0) : Type 0 where
  pub zones : List (ZoneSource H)
  pub owns_files : Bool
  pub raw : RawFields F

-- An entry of the directory, of which `path` is the whole path. `type` is what getline reads from its
-- file of that name, none where that is not opened.
pub record Entry : Type 0 where
  pub is_directory : Bool
  pub path : Text
  pub filename : Text
  pub type : Option Text

unfoldable pub zone_name : Entry → Text
zone_name entry = elim entry.type [ none ↦ entry.filename | some line ↦ line ]

unfoldable pub is_zone : Entry → Bool
unfolding strip_prefix
is_zone entry =
    if entry.is_directory
    then elim (strip_prefix (codes "thermal_zone") entry.filename) [ none ↦ false | some _ ↦ true ]
    else false

-- A file as the next read finds it: failing in fseek, without a number for fscanf, or with a number,
-- by its sign and size.
pub data TempFile : Type 0 where
  not_seekable : TempFile
  not_a_number : TempFile
  holds : Bool → ℕ → TempFile

module _ {H W : Type 0} (stdio : Stdio H W) where
  unfoldable pub open_zone : Entry → W → ZoneSource H × W
  unfolding zone_name
  open_zone entry w =
      let temp_path = entry.path ++ codes "/temp" in
      let (file, w') = stdio.fopen temp_path w in
      (record { name = zone_name entry; temp_path = temp_path; file = file }, w')

  unfoldable pub add_zones : List Entry → W → List (ZoneSource H) × W
  unfolding is_zone open_zone
  add_zones [] w = ([], w)
  add_zones (entry ∷ rest) w =
      let (zone, w') = open_zone entry w in
      let (zones, w'') = add_zones rest (if is_zone entry then w' else w) in
      (if is_zone entry then zone ∷ zones else zones, w'')

  -- `zones_` after the call of discover_zones.
  unfoldable pub discover_zones : Listing Entry → W → List (ZoneSource H) × W
  unfolding add_zones
  discover_zones missing w = ([], w)
  discover_zones (entries l) w = add_zones l w
  discover_zones (failing l) w = ([], (add_zones l w).1)

  unfoldable pub close_zones : List (ZoneSource H) → W → W
  unfolding close_file
  close_zones [] w = w
  close_zones (zone ∷ rest) w = close_zones rest (close_file stdio zone.file w)

  -- The destructor; the pointers that it sets to null die with the sensor.
  unfoldable pub destroy : {F : Type 0} → ThermalSensor F H → W → W
  unfolding close_zones
  destroy s w = if s.owns_files then close_zones s.zones w else w

module _ {F : Type 0} ⦃f : Float F⦄ where
  -- The constructor, from what the directory holds.
  unfoldable pub make_sensor :
      {H W : Type 0} → Stdio H W → F → Listing Entry → W → ThermalSensor F H × W
  unfolding discover_zones
  make_sensor stdio throttle_temp_c listing w =
      let (zones, w') = discover_zones stdio listing w in
      (
        record {
          zones = zones;
          owns_files = true;
          raw = record {
            hottest_zone = [];
            hottest_temp_c = f.lit 0 1;
            throttle_temp_c = throttle_temp_c;
            headroom_c = f.lit 0 1;
          };
        },
        w',
      )

  -- The conversion of a signed integer.
  unfoldable pub of_signed : Bool → ℕ → F
  of_signed negative n = if negative then f.neg (f.of_nat n) else f.of_nat n

  -- `read_temp_c`, none where it returns false.
  unfoldable pub read_temp_c : TempFile → Option F
  unfolding of_signed
  read_temp_c not_seekable = none
  read_temp_c not_a_number = none
  read_temp_c (holds negative raw_temp) = some (f.div (of_signed negative raw_temp) (f.lit 1000 1))

  -- `max_temp_c` and the name of the zone at `max_index`; none is minus infinity, which is below
  -- every temperature that is read.
  unfoldable pub warmer : Option (F × Text) → Text → Option F → Option (F × Text)
  warmer best name none = best
  warmer none name (some zone_temp_c) = some (zone_temp_c, name)
  warmer (some (max_temp_c, max_name)) name (some zone_temp_c) =
      if f.lt max_temp_c zone_temp_c then some (zone_temp_c, name) else some (max_temp_c, max_name)

  -- The end of `sample`.
  unfoldable pub set_headroom :
      Option (F × Text) → RawFields F → SignalFrame F → Bool × RawFields F × SignalFrame F
  set_headroom none raw frame = (
    false,
    record raw { hottest_zone = []; hottest_temp_c = f.lit 0 1; headroom_c = f.lit 0 1 },
    record frame { thermal = f.lit 0 1 },
  )
  set_headroom (some (max_temp_c, name)) raw frame =
      let headroom_c = f.sub raw.throttle_temp_c max_temp_c in
      (
        true,
        record raw { hottest_zone = name; hottest_temp_c = max_temp_c; headroom_c = headroom_c },
        record frame { thermal = headroom_c },
      )

  -- `scan` is fseek and fscanf on an open file.
  module _ {H W : Type 0} (stdio : Stdio H W) (scan : H → W → TempFile × W) where
    -- What is read from a file that fopen gave: it is kept if the sensor owns its files.
    unfoldable pub read_opened : Bool → ZoneSource H → Option H → W → (ZoneSource H × Option F) × W
    unfolding read_temp_c
    read_opened owns_files zone none w = ((zone, none), w)
    read_opened owns_files zone (some file) w =
        let (content, w') = scan file w in
        let temp = read_temp_c content in
        if owns_files
        then ((record zone { file = some file }, temp), w')
        else ((zone, temp), stdio.fclose file w')

    -- A zone that has a file, or has none.
    unfoldable pub read_file : Bool → ZoneSource H → Option H → W → (ZoneSource H × Option F) × W
    unfolding read_temp_c read_opened
    read_file owns_files zone none w =
        let (file, w') = stdio.fopen zone.temp_path w in read_opened owns_files zone file w'
    read_file owns_files zone (some file) w =
        let (content, w') = scan file w in ((zone, read_temp_c content), w')

    -- A zone after the body of the loop, and its temperature, none where the body goes on.
    unfoldable pub read_zone : Bool → ZoneSource H → W → (ZoneSource H × Option F) × W
    unfolding read_file
    read_zone owns_files zone w = read_file owns_files zone zone.file w

    -- The loop over `zones_`.
    unfoldable pub read_zones :
        Bool
        → List (ZoneSource H)
        → Option (F × Text)
        → W
        → (List (ZoneSource H) × Option (F × Text)) × W
    unfolding read_zone warmer
    read_zones owns_files [] best w = (([], best), w)
    read_zones owns_files (zone ∷ rest) best w =
        let ((zone', temp), w') = read_zone owns_files zone w in
        let ((zones, hottest), w'') = read_zones owns_files rest (warmer best zone.name temp) w' in
        ((zone' ∷ zones, hottest), w'')

    unfoldable pub sample :
        ThermalSensor F H → SignalFrame F → W → (Bool × ThermalSensor F H × SignalFrame F) × W
    unfolding read_zones set_headroom
    sample s frame w =
        let ((zones, hottest), w') = read_zones s.owns_files s.zones none w in
        let (ok, raw, frame') = set_headroom hottest s.raw frame in
        ((ok, record s { zones = zones; raw = raw }, frame'), w')
