-- ===== src/Sensors/Thermal/Headroom.antt =====
-- The headroom of src/sensors/thermal.cpp is finite.
use hw_agent.Prelude.{
  ℕ, ◌≡◌, refl, Bool, true, false, Bool-cases, inl, inr, Text, Option, none, some, List, [], ◌∷◌,
  arith,
}
use hw_agent.Float.{Float, IsFloat, IsFinite}
use hw_agent.Frame.{SignalFrame}
use hw_agent.Sensors.Files.{IsWord, nought-IsFinite}
use hw_agent.Sensors.Stdio.{Stdio}
use hw_agent.Sensors.Thermal.{
  ZoneSource, ThermalSensor, TempFile, holds, not_seekable, not_a_number, of_signed, read_temp_c,
  read_opened, read_file, read_zone, warmer, read_zones, set_headroom, sample,
}
use hw_agent.Sensors.Thermal.Hottest.{IsStored}

module _ {F : Type 0} ⦃f : Float F⦄ where
  -- What a finite number can lose and stay finite.
  abbrev Subtracts : F → Type 0
  Subtracts t = (x : F) → IsFinite x → IsFinite (f.sub x t)

  abbrev HasSubtracts : Option F → Type 0
  HasSubtracts none = Unit
  HasSubtracts (some t) = Subtracts t

  abbrev BestSubtracts : Option (F × Text) → Type 0
  BestSubtracts none = Unit
  BestSubtracts (some (t, name)) = Subtracts t

  module _ (laws : IsFloat F) where
    of_signed-Subtracts :
        (negative : Bool) (n : ℕ)
        → IsWord n
        → Subtracts (f.div (of_signed negative n) (f.lit 1000 1))
    unfolding of_signed
    of_signed-Subtracts true n h x hx = (laws.sub_word x n 1000 hx h (omega arith) (omega arith)).1
    of_signed-Subtracts false n h x hx = (laws.sub_word x n 1000 hx h (omega arith) (omega arith)).0

    read_temp_c-Subtracts : (file : TempFile) → IsStored file → HasSubtracts (read_temp_c file)
    unfolding read_temp_c
    read_temp_c-Subtracts not_seekable h = tt
    read_temp_c-Subtracts not_a_number h = tt
    read_temp_c-Subtracts (holds negative n) h = of_signed-Subtracts negative n h

    warmer-BestSubtracts :
        (best : Option (F × Text)) (name : Text) (temp : Option F)
        → BestSubtracts best
        → HasSubtracts temp
        → BestSubtracts (warmer best name temp)
    unfolding warmer
    warmer-BestSubtracts best name none hb ht = hb
    warmer-BestSubtracts none name (some x) hb ht = ht
    warmer-BestSubtracts (some (b, best)) name (some x) hb ht = elim (Bool-cases (f.lt b x)) [
      | inl e ↦ rw e ht
      | inr e ↦ rw e hb
    ]

    module _ {H W : Type 0} (stdio : Stdio H W) (scan : H → W → TempFile × W)
        (stored : (file : H) (w : W) → IsStored (scan file w).0) where
      read_opened-Subtracts :
          (owns_files : Bool) (zone : ZoneSource H) (file : Option H) (w : W)
          → HasSubtracts (read_opened stdio scan owns_files zone file w).0.1
      unfolding read_opened
      read_opened-Subtracts owns_files zone none w = tt
      read_opened-Subtracts true zone (some file) w = read_temp_c-Subtracts _ (stored file w)
      read_opened-Subtracts false zone (some file) w = read_temp_c-Subtracts _ (stored file w)

      read_file-Subtracts :
          (owns_files : Bool) (zone : ZoneSource H) (file : Option H) (w : W)
          → HasSubtracts (read_file stdio scan owns_files zone file w).0.1
      unfolding read_file
      read_file-Subtracts owns_files zone none w =
          let (file, w') = stdio.fopen zone.temp_path w in
          read_opened-Subtracts owns_files zone file w'
      read_file-Subtracts owns_files zone (some file) w = read_temp_c-Subtracts _ (stored file w)

      read_zones-BestSubtracts :
          (owns_files : Bool) (zones : List (ZoneSource H)) (best : Option (F × Text)) (w : W)
          → BestSubtracts best
          → BestSubtracts (read_zones stdio scan owns_files zones best w).0.1
      unfolding read_zones read_zone
      read_zones-BestSubtracts owns_files [] best w hb = hb
      read_zones-BestSubtracts owns_files (zone ∷ rest) best w hb =
          let ((zone', temp), w') = read_zone stdio scan owns_files zone w in
          read_zones-BestSubtracts owns_files rest (warmer best zone.name temp) w' (
            warmer-BestSubtracts best zone.name temp hb
              (read_file-Subtracts owns_files zone zone.file w))

      set_headroom-IsFinite :
          (hottest : Option (F × Text)) (s : ThermalSensor F H) (frame : SignalFrame F)
          → IsFinite s.raw.throttle_temp_c
          → BestSubtracts hottest
          → let (ok, raw, frame') = set_headroom hottest s.raw frame in
            IsFinite frame'.thermal × (raw.throttle_temp_c ≡ s.raw.throttle_temp_c)
      unfolding set_headroom
      set_headroom-IsFinite none s frame h hb = (nought-IsFinite laws, refl)
      set_headroom-IsFinite (some (t, name)) s frame h hb = (hb _ h, refl)

      -- From a finite throttling temperature, which a sample keeps, whatever the files hold.
      pub sample-IsFinite :
          (s : ThermalSensor F H) (frame : SignalFrame F) (w : W)
          → IsFinite s.raw.throttle_temp_c
          → let (ok, s', frame') = (sample stdio scan s frame w).0 in
            IsFinite frame'.thermal × (s'.raw.throttle_temp_c ≡ s.raw.throttle_temp_c)
      unfolding sample
      sample-IsFinite s frame w h =
          set_headroom-IsFinite _ s frame h
            (read_zones-BestSubtracts s.owns_files s.zones none w tt)
