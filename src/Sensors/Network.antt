-- ===== src/Sensors/Network.antt =====
-- `NetworkSensor` of src/sensors/network.cpp.
use hw_agent.Prelude.{
  ℕ, ◌≡◌, ◌↔◌, Bool, true, ◌&&◌, ◌==◌, arith, List, [], ◌∷◌, All, if◌then◌else◌, add64,
}
use hw_agent.Float.{Float, IsFloat, IsFinite}
use hw_agent.Frame.{SignalFrame}
use hw_agent.Sensors.Files.{
  File, read_u64_file, increase, increase_le, ratio-IsFinite, nought-IsFinite,
}

-- The four files of an interface.
pub record InterfaceSource : Type 0 where
  pub rx_packets_file : File
  pub tx_packets_file : File
  pub rx_dropped_file : File
  pub tx_dropped_file : File

-- The counters of `raw_`.
pub record RawFields : Type 0 where
  pub rx_packets : ℕ
  pub tx_packets : ℕ
  pub rx_dropped : ℕ
  pub tx_dropped : ℕ

-- `prev_total_packets_`, `prev_total_drops_` and `has_prev_`
pub record Network : Type 0 where
  pub prev_total_packets : ℕ
  pub prev_total_drops : ℕ
  pub has_prev : Bool

-- The loop over `interfaces_`: `all_reads_ok` and `raw_`.
unfoldable pub read_interfaces : List InterfaceSource → Bool → RawFields → Bool × RawFields
unfolding read_u64_file add64
read_interfaces [] ok raw = (ok, raw)
read_interfaces (iface ∷ rest) ok raw =
    let (ok₁, rx) = read_u64_file iface.rx_packets_file in
    let (ok₂, tx) = read_u64_file iface.tx_packets_file in
    let (ok₃, rx_drops) = read_u64_file iface.rx_dropped_file in
    let (ok₄, tx_drops) = read_u64_file iface.tx_dropped_file in
    read_interfaces rest (ok₄ && (ok₃ && (ok₂ && (ok₁ && ok)))) (record {
      rx_packets = add64 raw.rx_packets rx;
      tx_packets = add64 raw.tx_packets tx;
      rx_dropped = add64 raw.rx_dropped rx_drops;
      tx_dropped = add64 raw.tx_dropped tx_drops;
    })

abbrev no_fields : RawFields
no_fields = record { rx_packets = 0; tx_packets = 0; rx_dropped = 0; tx_dropped = 0 }

module _ {F : Type 0} ⦃f : Float F⦄ where
  -- `packet_drop_rate`, for totals that follow the ones kept
  unfoldable pub packet_drop_rate : Network → ℕ → ℕ → F
  unfolding increase
  packet_drop_rate s total_packets total_drops =
      let delta_packets = increase s.prev_total_packets total_packets in
      let delta_drops = increase s.prev_total_drops total_drops in
      if s.has_prev
      then if delta_packets == 0
        then f.lit 0 1
        else f.div (f.of_nat delta_drops) (f.of_nat delta_packets)
      else f.lit 0 1

  unfoldable pub sample :
      List InterfaceSource → Network → SignalFrame F → Bool × Network × SignalFrame F
  unfolding read_interfaces packet_drop_rate add64
  sample interfaces s frame =
      let (ok, raw) = read_interfaces interfaces true no_fields in
      let total_packets = add64 raw.rx_packets raw.tx_packets in
      let total_drops = add64 raw.rx_dropped raw.tx_dropped in
      (
        ok,
        record {
          prev_total_packets = total_packets;
          prev_total_drops = total_drops;
          has_prev = true;
        },
        record frame { network = packet_drop_rate s total_packets total_drops },
      )

-- All four files of an interface can be read.
abbrev pub IsReadable : InterfaceSource → Type 0
IsReadable iface =
    ((read_u64_file iface.rx_packets_file).0 ≡ true)
    × ((read_u64_file iface.tx_packets_file).0 ≡ true)
    × ((read_u64_file iface.rx_dropped_file).0 ≡ true)
    × ((read_u64_file iface.tx_dropped_file).0 ≡ true)

read_interfaces_ok :
    (l : List InterfaceSource) (ok : Bool) (raw : RawFields)
    → ((read_interfaces l ok raw).0 ≡ true) ↔ ((ok ≡ true) × All IsReadable l)
unfolding read_interfaces
read_interfaces_ok [] ok raw = ground arith
read_interfaces_ok (iface ∷ rest) ok raw =
    let (ok₁, rx) = read_u64_file iface.rx_packets_file in
    let (ok₂, tx) = read_u64_file iface.tx_packets_file in
    let (ok₃, rx_drops) = read_u64_file iface.rx_dropped_file in
    let (ok₄, tx_drops) = read_u64_file iface.tx_dropped_file in
    let later = read_interfaces_ok rest (ok₄ && (ok₃ && (ok₂ && (ok₁ && ok)))) (record {
      rx_packets = add64 raw.rx_packets rx;
      tx_packets = add64 raw.tx_packets tx;
      rx_dropped = add64 raw.rx_dropped rx_drops;
      tx_dropped = add64 raw.tx_dropped tx_drops;
    }) in
    ground (arith, later)

module _ {F : Type 0} ⦃f : Float F⦄ where
  -- A sample succeeds if and only if every file of every interface could be read.
  pub network_ok :
      (interfaces : List InterfaceSource) (s : Network) (frame : SignalFrame F)
      → ((sample interfaces s frame).0 ≡ true) ↔ All IsReadable interfaces
  unfolding sample
  network_ok interfaces s frame = ground (arith, read_interfaces_ok interfaces true no_fields)

  module _ (laws : IsFloat F) where
    -- Whatever the files hold or fail with, the drop rate is finite.
    pub packet_drop_rate-IsFinite :
        (interfaces : List InterfaceSource) (s : Network) (frame : SignalFrame F)
        → IsFinite (sample interfaces s frame).2.network
    unfolding sample
    packet_drop_rate-IsFinite interfaces s frame =
        let raw = (read_interfaces interfaces true no_fields).1 in
        let packets = add64 raw.rx_packets raw.tx_packets in
        let drops = add64 raw.rx_dropped raw.tx_dropped in
        ground (
          arith,
          nought-IsFinite laws,
          ratio-IsFinite laws (increase s.prev_total_drops drops)
              (increase s.prev_total_packets packets),
          increase_le s.prev_total_drops drops,
          increase_le s.prev_total_packets packets,
        )
