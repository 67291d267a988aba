-- ===== src/Sensors/Disk.antt =====
-- `DiskSensor` of src/sensors/disk.cpp: the devices that count, and the wait per request.
pub mod Partitions
use hw_agent.Prelude.{
  ℕ, ◌+◌, ◌≤◌, ◌<◌, ◌≡◌, refl, Bool, true, false, not, ◌&&◌, ◌||◌, ◌==◌, leb, arith, Text, codes,
  List, [], ◌∷◌, if◌then◌else◌, add64, Option, none, some,
}
use hw_agent.Float.{Float, IsFloat, IsFinite}
use hw_agent.Frame.{SignalFrame}
use hw_agent.Core.Text.{is_digit, strip_prefix}
use hw_agent.Sensors.Files.{increase, increase_le, ratio-IsFinite, nought-IsFinite}

-- std::isalpha in the C locale
unfoldable pub is_alpha : ℕ → Bool
is_alpha c = leb b'a' c && leb c b'z' || leb b'A' c && leb c b'Z'

abbrev pub keep_stem : ℕ → Text → Text
keep_stem c [] = if is_digit c then [] else c ∷ []
keep_stem c (x ∷ xs) = c ∷ x ∷ xs

-- `name` up to `digit_start`: without its trailing digits
unfoldable pub stem : Text → Text
unfolding is_digit
stem [] = []
stem (c ∷ cs) = keep_stem c (stem cs)

-- The loop that looks for an embedded digit.
unfoldable pub has_digit : Text → Bool
unfolding is_digit
has_digit [] = false
has_digit (c ∷ cs) = let rest = has_digit cs in is_digit c || rest

-- The last two bytes: the marker, and the one before it.
unfoldable pub last_two : Text → Option (Option ℕ × ℕ)
last_two [] = none
last_two (c ∷ []) = some (none, c)
last_two (b ∷ c ∷ []) = some (some b, c)
last_two (a ∷ b ∷ c ∷ cs) = last_two (b ∷ c ∷ cs)

abbrev digit_before : Option ℕ → Bool
digit_before none = false
digit_before (some b) = is_digit b

unfoldable pub has_trailing_digit : Text → Bool
unfolding is_digit
has_trailing_digit name = elim (last_two name) [ none ↦ false | some (b, c) ↦ is_digit c ]

unfoldable pub is_partition_device : Text → Bool
unfolding is_digit
is_partition_device name = elim (last_two (stem name)) [
  | none ↦ false
  | some (previous, marker) ↦
      has_trailing_digit name
      && ((marker == b'p' && digit_before previous)
          || (not (has_digit (stem name)) && is_alpha marker))
]

-- The fields that sscanf stores for a line of /proc/diskstats and the sensor uses.
pub record DiskStats : Type 0 where
  pub name : Text
  pub reads_completed : ℕ
  pub writes_completed : ℕ
  pub io_in_progress : ℕ
  pub io_ms : ℕ
  pub weighted_io_ms : ℕ

-- The counters of `raw_`.
pub record RawFields : Type 0 where
  pub reads_completed : ℕ
  pub writes_completed : ℕ
  pub io_in_progress : ℕ
  pub io_ms : ℕ
  pub weighted_io_ms : ℕ

abbrev pub no_fields : RawFields
no_fields = record {
  reads_completed = 0;
  writes_completed = 0;
  io_in_progress = 0;
  io_ms = 0;
  weighted_io_ms = 0;
}

unfoldable pub is_counted : Text → Bool
unfolding is_partition_device
is_counted name = elim (strip_prefix (codes "loop") name) [
  | some rest ↦ false
  | none ↦ elim (strip_prefix (codes "ram") name) [
    | some rest ↦ false
    | none ↦ not (is_partition_device name)
  ]
]

-- The loop over the lines, none where sscanf stores fewer than 14 fields.
unfoldable pub read_lines : List (Option DiskStats) → RawFields → RawFields
unfolding is_counted add64
read_lines [] raw = raw
read_lines (none ∷ rest) raw = read_lines rest raw
read_lines (some stats ∷ rest) raw = read_lines rest (
    if is_counted stats.name
    then record {
      reads_completed = add64 raw.reads_completed stats.reads_completed;
      writes_completed = add64 raw.writes_completed stats.writes_completed;
      io_in_progress = add64 raw.io_in_progress stats.io_in_progress;
      io_ms = add64 raw.io_ms stats.io_ms;
      weighted_io_ms = add64 raw.weighted_io_ms stats.weighted_io_ms;
    }
    else raw)

-- What one sample reads: no file, a file that fails in fseek, or its lines and then `ferror`.
pub data Lines : Type 0 where
  not_opened : Lines
  not_seekable : Lines
  lines : List (Option DiskStats) → Bool → Lines

-- `raw_`, whose `disk_wait_estimation_ms` stands beside its counters, and the other members.
pub record Disk (F : Type 0) : Type 0 where
  pub raw : RawFields
  pub disk_wait_estimation_ms : F
  pub prev_completed : ℕ
  pub prev_weighted_io_ms : ℕ
  pub has_prev : Bool

module _ {F : Type 0} ⦃f : Float F⦄ where
  -- `disk_wait_estimation_ms`
  unfoldable pub wait_estimation : Disk F → RawFields → F
  unfolding increase add64
  wait_estimation s raw =
      let completed = add64 raw.reads_completed raw.writes_completed in
      let delta_completed = increase s.prev_completed completed in
      let delta_weighted_ms = increase s.prev_weighted_io_ms raw.weighted_io_ms in
      if s.has_prev
      then if delta_completed == 0
        then f.lit 0 1
        else f.div (f.of_nat delta_weighted_ms) (f.of_nat delta_completed)
      else f.lit 0 1

  unfoldable pub sample : Lines → Disk F → SignalFrame F → Bool × Disk F × SignalFrame F
  unfolding read_lines wait_estimation add64
  sample not_opened s frame = (false, s, record frame { disk = f.lit 0 1 })
  sample not_seekable s frame = (false, s, record frame { disk = f.lit 0 1 })
  sample (lines stats failed) s frame =
      let raw = read_lines stats no_fields in
      let wait = wait_estimation s raw in
      if failed
      then (
        false,
        record s { raw = raw; disk_wait_estimation_ms = f.lit 0 1 },
        record frame { disk = f.lit 0 1 },
      )
      else (
        true,
        record {
          raw = raw;
          disk_wait_estimation_ms = wait;
          prev_completed = add64 raw.reads_completed raw.writes_completed;
          prev_weighted_io_ms = raw.weighted_io_ms;
          has_prev = true;
        },
        record frame { disk = wait },
      )

abbrev IsWordFields : RawFields → Type 0
IsWordFields raw = raw.weighted_io_ms < 18_446_744_073_709_551_616

read_lines-IsWordFields :
    (l : List (Option DiskStats)) (raw : RawFields)
    → IsWordFields raw
    → IsWordFields (read_lines l raw)
unfolding read_lines
read_lines-IsWordFields [] raw h = h
read_lines-IsWordFields (none ∷ rest) raw h = read_lines-IsWordFields rest raw h
read_lines-IsWordFields (some stats ∷ rest) raw h = read_lines-IsWordFields rest _ (ground arith)

module _ {F : Type 0} ⦃f : Float F⦄ (laws : IsFloat F) where
  -- Whatever the file holds or fails with, the wait is a finite number.
  pub disk-IsFinite :
      (l : Lines) (s : Disk F) (frame : SignalFrame F) → IsFinite (sample l s frame).2.disk
  unfolding sample
  disk-IsFinite not_opened s frame = nought-IsFinite laws
  disk-IsFinite not_seekable s frame = nought-IsFinite laws
  disk-IsFinite (lines stats failed) s frame =
      let raw = read_lines stats no_fields in
      let completed = add64 raw.reads_completed raw.writes_completed in
      ground (
        arith,
        nought-IsFinite laws,
        read_lines-IsWordFields stats no_fields,
        increase_le s.prev_completed completed,
        increase_le s.prev_weighted_io_ms raw.weighted_io_ms,
        ratio-IsFinite laws (increase s.prev_weighted_io_ms raw.weighted_io_ms)
            (increase s.prev_completed completed),
      )
