-- ===== src/Sensors/Thermal/Hottest.antt =====
-- `ThermalSensor::sample` of src/sensors/thermal.cpp and the zones that can be read.
use hw_agent.Prelude.{
  ℕ, ◌≡◌, refl, ◌⊎◌, inl, inr, Bool, true, false, Text, Option, none, some, List, [], ◌∷◌, All,
  arith,
}
use hw_agent.Float.{Float, IsFloat, ◌≼◌, IsNum}
use hw_agent.Frame.{SignalFrame}
use hw_agent.Sensors.Files.{IsWord}
use hw_agent.Sensors.Stdio.{Stdio}
use hw_agent.Sensors.Thermal.{
  ZoneSource, ThermalSensor, TempFile, holds, not_seekable, not_a_number, RawFields, of_signed,
  read_temp_c, read_opened, read_file, read_zone, warmer, read_zones, set_headroom, sample,
}

-- What "%lld" can store.
abbrev pub IsStored : TempFile → Type 0
IsStored not_seekable = Unit
IsStored not_a_number = Unit
IsStored (holds negative n) = IsWord n

module _ {F : Type 0} ⦃f : Float F⦄ where
  -- What the loop makes of the zones, from a state of the world: name and temperature.
  abbrev pub readings :
      {H W : Type 0}
      → Stdio H W
      → (H → W → TempFile × W)
      → Bool
      → List (ZoneSource H)
      → W
      → List (Text × Option F)
  readings stdio scan owns_files [] w = []
  readings stdio scan owns_files (zone ∷ rest) w =
      let ((zone', temp), w') = read_zone stdio scan owns_files zone w in
      (zone.name, temp) ∷ readings stdio scan owns_files rest w'

  abbrev pub IsUnread : Text × Option F → Type 0
  IsUnread reading = reading.1 ≡ none

  -- The temperature, if there is one, is at most `x`.
  abbrev pub IsAtMost : F → Text × Option F → Type 0
  IsAtMost x (name, none) = Unit
  IsAtMost x (name, some t) = t ≼ x

  -- One of the readings is that temperature of that zone.
  abbrev pub IsOneOf : F → Text → List (Text × Option F) → Type 0
  IsOneOf t name [] = true ≡ false
  IsOneOf t name (reading ∷ rest) =
      ((reading.0 ≡ name) × (reading.1 ≡ some t)) ⊎ IsOneOf t name rest

  -- The result of the loop from `best`.
  abbrev IsBest : Option (F × Text) → List (Text × Option F) → Option (F × Text) → Type 0
  IsBest none l none = All IsUnread l
  IsBest (some _) l none = true ≡ false
  IsBest none l (some (t, name)) = All (IsAtMost t) l × IsOneOf t name l
  IsBest (some (b, best)) l (some (t, name)) =
      (b ≼ t) × All (IsAtMost t) l × (((b ≡ t) × (best ≡ name)) ⊎ IsOneOf t name l)

  abbrev HasBestNum : Option (F × Text) → Type 0
  HasBestNum none = Unit
  HasBestNum (some (b, _)) = IsNum b

  -- A temperature, if there is one, is no NaN.
  abbrev HasNum : Option F → Type 0
  HasNum none = Unit
  HasNum (some t) = IsNum t

  module _ (laws : IsFloat F) where
    of_signed-IsNum : (negative : Bool) (n : ℕ) → IsWord n → IsNum {F = F} (of_signed negative n)
    unfolding of_signed
    of_signed-IsNum true n h = laws.neg_num _ (laws.num_of_finite _ (laws.nat_finite n h))
    of_signed-IsNum false n h = laws.num_of_finite _ (laws.nat_finite n h)

    read_temp_c_num : (file : TempFile) → IsStored file → HasNum (read_temp_c file)
    unfolding read_temp_c
    read_temp_c_num not_seekable h = tt
    read_temp_c_num not_a_number h = tt
    read_temp_c_num (holds negative n) h =
        laws.div_num _ _ (of_signed-IsNum negative n h)
          (laws.lit_finite 1000 1 (omega arith) (omega arith))
          (laws.lit_pos 1000 1 (omega arith) (omega arith) (omega arith) (omega arith))

    lt→le : (x y : F) → f.lt x y ≡ true → x ≼ y
    lt→le x y h =
        let (hx, hy) = laws.lt_num x y h in
        ground (arith, laws.lt-eq-not-le x y hx hy, laws.le_total x y hx hy)

    not_lt→le : (x y : F) → IsNum x → IsNum y → f.lt x y ≡ false → y ≼ x
    not_lt→le x y hx hy h = ground (arith, laws.lt-eq-not-le x y hx hy)

    -- One more reading in front.
    IsBest-warmer :
        (best : Option (F × Text)) (name : Text) (temp : Option F) (l : List (Text × Option F))
        (result : Option (F × Text))
        → HasBestNum best
        → HasNum temp
        → IsBest (warmer best name temp) l result
        → IsBest best ((name, temp) ∷ l) result
    unfolding warmer
    IsBest-warmer none name none l none hb ht h = (refl, h)
    IsBest-warmer none name none l (some (t, n)) hb ht h = ((tt, h.0), inr h.1)
    IsBest-warmer (some (b, bn)) name none l none hb ht h = h
    IsBest-warmer (some (b, bn)) name none l (some (t, n)) hb ht h = ground arith
    IsBest-warmer none name (some x) l none hb ht h = ground arith
    IsBest-warmer none name (some x) l (some (t, n)) hb ht h = ground arith
    IsBest-warmer (some (b, bn)) name (some x) l none hb ht h = ground arith
    IsBest-warmer (some (b, bn)) name (some x) l (some (t, n)) hb ht h =
        let warm = lt→le b x in
        let cold = not_lt→le b x hb ht in
        ground (arith, warm, cold, laws.le_trans x b t, laws.le_trans b x t)

    warmer-HasBestNum :
        (best : Option (F × Text)) (name : Text) (temp : Option F)
        → HasBestNum best
        → HasNum temp
        → HasBestNum (warmer best name temp)
    unfolding warmer
    warmer-HasBestNum best name none hb ht = hb
    warmer-HasBestNum none name (some x) hb ht = ht
    warmer-HasBestNum (some (b, bn)) name (some x) hb ht = ground arith

    set_headroom-IsBest :
        (hottest : Option (F × Text)) (l : List (Text × Option F)) (raw : RawFields F)
        (frame : SignalFrame F)
        → IsBest none l hottest
        → let (ok, kept, frame') = set_headroom hottest raw frame in
          ((ok ≡ false) × (frame'.thermal ≡ f.lit 0 1) × All IsUnread l)
          ⊎ ((ok ≡ true)
              × (frame'.thermal ≡ f.sub raw.throttle_temp_c kept.hottest_temp_c)
              × All (IsAtMost kept.hottest_temp_c) l
              × IsOneOf kept.hottest_temp_c kept.hottest_zone l)
    unfolding set_headroom
    set_headroom-IsBest none l raw frame h = inl (refl, refl, h)
    set_headroom-IsBest (some (t, name)) l raw frame h = inr (refl, refl, h.0, h.1)

    -- Every number that is read is one that "%lld" can store.
    module _ {H W : Type 0} (stdio : Stdio H W) (scan : H → W → TempFile × W)
        (stored : (file : H) (w : W) → IsStored (scan file w).0) where
      read_opened_num :
          (owns_files : Bool) (zone : ZoneSource H) (file : Option H) (w : W)
          → HasNum (read_opened stdio scan owns_files zone file w).0.1
      unfolding read_opened
      read_opened_num owns_files zone none w = tt
      read_opened_num true zone (some file) w = read_temp_c_num _ (stored file w)
      read_opened_num false zone (some file) w = read_temp_c_num _ (stored file w)

      read_file_num :
          (owns_files : Bool) (zone : ZoneSource H) (file : Option H) (w : W)
          → HasNum (read_file stdio scan owns_files zone file w).0.1
      unfolding read_file
      read_file_num owns_files zone none w =
          let (file, w') = stdio.fopen zone.temp_path w in read_opened_num owns_files zone file w'
      read_file_num owns_files zone (some file) w = read_temp_c_num _ (stored file w)

      read_zone_num :
          (owns_files : Bool) (zone : ZoneSource H) (w : W)
          → HasNum (read_zone stdio scan owns_files zone w).0.1
      unfolding read_zone
      read_zone_num owns_files zone w = read_file_num owns_files zone zone.file w

      read_zones-IsBest :
          (owns_files : Bool) (zones : List (ZoneSource H)) (best : Option (F × Text)) (w : W)
          → HasBestNum best
          → IsBest best
              (readings stdio scan owns_files zones w)
              (read_zones stdio scan owns_files zones best w).0.1
      unfolding read_zones
      read_zones-IsBest owns_files [] none w hb = tt
      read_zones-IsBest owns_files [] (some (b, n)) w hb = (hb, tt, inl (refl, refl))
      read_zones-IsBest owns_files (zone ∷ rest) best w hb =
          let ((zone', temp), w') = read_zone stdio scan owns_files zone w in
          let num = read_zone_num owns_files zone w in
          IsBest-warmer best zone.name temp (readings stdio scan owns_files rest w') _ hb num (
            read_zones-IsBest owns_files rest (warmer best zone.name temp) w'
              (warmer-HasBestNum best zone.name temp hb num))

      -- If no zone can be read, a sample fails and sets the signal to 0. Otherwise it succeeds, it
      -- keeps the name and the temperature of a zone that was read, no zone that was read is hotter,
      -- and the signal is what is left to the throttling temperature.
      pub sample-hottest :
          (s : ThermalSensor F H) (frame : SignalFrame F) (w : W)
          → let l = readings stdio scan s.owns_files s.zones w in
            let (ok, s', frame') = (sample stdio scan s frame w).0 in
            let kept = s'.raw in
            ((ok ≡ false) × (frame'.thermal ≡ f.lit 0 1) × All IsUnread l)
            ⊎ ((ok ≡ true)
                × (frame'.thermal ≡ f.sub s.raw.throttle_temp_c kept.hottest_temp_c)
                × All (IsAtMost kept.hottest_temp_c) l
                × IsOneOf kept.hottest_temp_c kept.hottest_zone l)
      unfolding sample
      sample-hottest s frame w =
          set_headroom-IsBest _ _ s.raw frame (read_zones-IsBest s.owns_files s.zones none w tt)
