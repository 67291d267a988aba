-- ===== src/Sensors/Memory.antt =====
-- `MemorySensor` of src/sensors/memory.cpp.
use hw_agent.Prelude.{
  ℕ, Bool, true, false, not, ◌||◌, ◌==◌, leb, arith, Text, codes, text_eq, List, [], ◌∷◌,
  if◌then◌else◌, add64, Option, none, some,
}
use hw_agent.Float.{Float, IsFloat, IsFinite}
use hw_agent.Frame.{SignalFrame}
use hw_agent.Sensors.Files.{increase, nought-IsFinite}

-- A line of the two files: the key and the number that sscanf stores, none where it stores fewer.
abbrev pub Entry : Type 0
Entry = Option (Text × ℕ)

-- What a parse reads: no file, a file that fails in fseek, or its lines and then `ferror`.
pub data Table : Type 0 where
  not_opened : Table
  not_seekable : Table
  entries : List Entry → Bool → Table

-- The counters of `raw_` that are not rates.
pub record RawFields : Type 0 where
  pub mem_total_kb : ℕ
  pub mem_available_kb : ℕ
  pub dirty_kb : ℕ
  pub writeback_kb : ℕ
  pub pgscan_total : ℕ
  pub pgsteal_total : ℕ

-- the body of the loop of `parse_meminfo`
unfoldable pub meminfo_entry : RawFields → Text → ℕ → RawFields
meminfo_entry raw key value =
    if text_eq key (codes "MemTotal")
    then record raw { mem_total_kb = value }
    else if text_eq key (codes "MemAvailable")
    then record raw { mem_available_kb = value }
    else if text_eq key (codes "Dirty")
    then record raw { dirty_kb = value }
    else if text_eq key (codes "Writeback")
    then record raw { writeback_kb = value }
    else raw

unfoldable pub meminfo_entries : List Entry → RawFields → RawFields
unfolding meminfo_entry
meminfo_entries [] raw = raw
meminfo_entries (none ∷ rest) raw = meminfo_entries rest raw
meminfo_entries (some (key, value) ∷ rest) raw = meminfo_entries rest (meminfo_entry raw key value)

unfoldable pub parse_meminfo : Table → RawFields → Bool × RawFields
unfolding meminfo_entries
parse_meminfo not_opened raw = (false, raw)
parse_meminfo not_seekable raw = (false, raw)
parse_meminfo (entries lines failed) raw =
    let cleared = record raw {
      mem_total_kb = 0;
      mem_available_kb = 0;
      dirty_kb = 0;
      writeback_kb = 0;
    } in
    let read = meminfo_entries lines cleared in
    (if failed then false else not (read.mem_total_kb == 0), read)

-- The locals of `parse_vmstat`.
pub record Pages : Type 0 where
  pub pgscan_kswapd : ℕ
  pub pgscan_direct : ℕ
  pub pgsteal_kswapd : ℕ
  pub pgsteal_direct : ℕ

unfoldable pub vmstat_entry : Pages → Text → ℕ → Pages
vmstat_entry p key value =
    if text_eq key (codes "pgscan_kswapd")
    then record p { pgscan_kswapd = value }
    else if text_eq key (codes "pgscan_direct")
    then record p { pgscan_direct = value }
    else if text_eq key (codes "pgsteal_kswapd")
    then record p { pgsteal_kswapd = value }
    else if text_eq key (codes "pgsteal_direct")
    then record p { pgsteal_direct = value }
    else p

unfoldable pub vmstat_entries : List Entry → Pages → Pages
unfolding vmstat_entry
vmstat_entries [] p = p
vmstat_entries (none ∷ rest) p = vmstat_entries rest p
vmstat_entries (some (key, value) ∷ rest) p = vmstat_entries rest (vmstat_entry p key value)

unfoldable pub parse_vmstat : Table → RawFields → Bool × RawFields
unfolding vmstat_entries add64
parse_vmstat not_opened raw = (false, raw)
parse_vmstat not_seekable raw = (false, raw)
parse_vmstat (entries lines failed) raw =
    let p =
      vmstat_entries lines
        (record { pgscan_kswapd = 0; pgscan_direct = 0; pgsteal_kswapd = 0; pgsteal_direct = 0 }) in
    let read = record raw {
      pgscan_total = add64 p.pgscan_kswapd p.pgscan_direct;
      pgsteal_total = add64 p.pgsteal_kswapd p.pgsteal_direct;
    } in
    if failed then (false, raw) else (true, read)

-- `raw_` with its two rates, `prev_pgsteal_total_` and `has_prev_`
pub record Memory (F : Type 0) : Type 0 where
  pub raw : RawFields
  pub reclaim_activity : F
  pub dirty_writeback_pressure : F
  pub prev_pgsteal_total : ℕ
  pub has_prev : Bool

module _ {F : Type 0} ⦃f : Float F⦄ where
  unfoldable pub sample : Table → Table → Memory F → SignalFrame F → Bool × Memory F × SignalFrame F
  unfolding parse_meminfo parse_vmstat increase add64
  sample meminfo vmstat s frame =
      let (meminfo_ok, raw₁) = parse_meminfo meminfo s.raw in
      let (vmstat_ok, raw₂) = parse_vmstat vmstat raw₁ in
      let pressure = f.of_nat (add64 raw₂.dirty_kb raw₂.writeback_kb) in
      let reclaim = f.of_nat (increase s.prev_pgsteal_total raw₂.pgsteal_total) in
      if not meminfo_ok || not vmstat_ok
      then (false, record s { raw = raw₂ }, record frame { memory = f.lit 0 1 })
      else (
        true,
        record {
          raw = raw₂;
          reclaim_activity =
              if s.has_prev
              then if leb s.prev_pgsteal_total raw₂.pgsteal_total then reclaim else f.lit 0 1
              else f.lit 0 1;
          dirty_writeback_pressure = pressure;
          prev_pgsteal_total = raw₂.pgsteal_total;
          has_prev = true;
        },
        record frame { memory = pressure },
      )

  module _ (laws : IsFloat F) where
    -- Whatever the files hold or fail with, the signal is a finite number.
    pub memory-IsFinite :
        (meminfo vmstat : Table) (s : Memory F) (frame : SignalFrame F)
        → IsFinite (sample meminfo vmstat s frame).2.memory
    unfolding sample
    memory-IsFinite meminfo vmstat s frame =
        let (_, raw₁) = parse_meminfo meminfo s.raw in
        let (_, raw₂) = parse_vmstat vmstat raw₁ in
        ground
          (arith, nought-IsFinite laws, laws.nat_finite (add64 raw₂.dirty_kb raw₂.writeback_kb))
