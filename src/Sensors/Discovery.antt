-- ===== src/Sensors/Discovery.antt =====
-- The constructors of src/sensors/network.cpp and power.cpp, which find their files, and the
-- destructors, which close them. What a destructor sets to null dies with its sensor.
pub mod Released
use hw_agent.Prelude.{
  Bool, true, false, not, ◌&&◌, ◌||◌, ◌++◌, Text, codes, text_eq, Option, none, some, List, [], ◌∷◌,
  if◌then◌else◌,
}
use hw_agent.Core.Text.{strip_prefix, is_digit}
use hw_agent.Sensors.Stdio.{Stdio, close_file}

-- What the iteration over a directory meets: no directory, its entries, or entries and then a
-- filesystem_error.
pub data Listing (Entry : Type 0) : Type 0 where
  missing : Listing Entry
  entries : List Entry → Listing Entry
  failing : List Entry → Listing Entry

-- An entry of /sys/class/net or /sys/devices/system/cpu.
pub record Entry : Type 0 where
  pub is_directory : Bool
  pub filename : Text

-- The files of an `InterfaceSource`.
pub record InterfaceFiles (H : Type 0) : Type 0 where
  pub rx_packets_file : Option H
  pub tx_packets_file : Option H
  pub rx_dropped_file : Option H
  pub tx_dropped_file : Option H

-- The files of `cores_`, core throttle counts first, and `owns_files_` of CpuThrottleSensor.
pub record ThrottleFiles (H : Type 0) : Type 0 where
  pub cores : List (Option H × Option H)
  pub owns_files : Bool

-- The loop over the rest of the name: `is_cpu_dir`.
unfoldable pub all_digits : Text → Bool
unfolding is_digit
all_digits [] = true
all_digits (c ∷ cs) = is_digit c && all_digits cs

unfoldable pub is_cpu_name : Text → Bool
unfolding strip_prefix all_digits
is_cpu_name name = elim (strip_prefix (codes "cpu") name) [
  | none ↦ false
  | some [] ↦ false
  | some (c ∷ rest) ↦ all_digits (c ∷ rest)
]

-- A pointer that is not null.
unfoldable pub is_open : {H : Type 0} → Option H → Bool
is_open none = false
is_open (some file) = true

module _ {H W : Type 0} (stdio : Stdio H W) where
  unfoldable pub open_interface : Text → W → InterfaceFiles H × W
  open_interface iface w =
      let base = codes "/sys/class/net/" ++ (iface ++ codes "/statistics/") in
      let (rx_packets, w₁) = stdio.fopen (base ++ codes "rx_packets") w in
      let (tx_packets, w₂) = stdio.fopen (base ++ codes "tx_packets") w₁ in
      let (rx_dropped, w₃) = stdio.fopen (base ++ codes "rx_dropped") w₂ in
      let (tx_dropped, w₄) = stdio.fopen (base ++ codes "tx_dropped") w₃ in
      (
        record {
          rx_packets_file = rx_packets;
          tx_packets_file = tx_packets;
          rx_dropped_file = rx_dropped;
          tx_dropped_file = tx_dropped;
        },
        w₄,
      )

  unfoldable pub add_interfaces : List Entry → W → List (InterfaceFiles H) × W
  unfolding open_interface
  add_interfaces [] w = ([], w)
  add_interfaces (entry ∷ rest) w =
      let kept = entry.is_directory && not (text_eq entry.filename (codes "lo")) in
      let (source, w') = open_interface entry.filename w in
      let (sources, w'') = add_interfaces rest (if kept then w' else w) in
      (if kept then source ∷ sources else sources, w'')

  -- `interfaces_` after the constructor of NetworkSensor.
  unfoldable pub find_interfaces : Listing Entry → W → List (InterfaceFiles H) × W
  unfolding add_interfaces
  find_interfaces missing w = ([], w)
  find_interfaces (entries l) w = add_interfaces l w
  find_interfaces (failing l) w = ([], (add_interfaces l w).1)

  -- The destructor of NetworkSensor.
  unfoldable pub close_interfaces : List (InterfaceFiles H) → W → W
  unfolding close_file
  close_interfaces [] w = w
  close_interfaces (iface ∷ rest) w =
      let w₁ = close_file stdio iface.rx_packets_file w in
      let w₂ = close_file stdio iface.tx_packets_file w₁ in
      let w₃ = close_file stdio iface.rx_dropped_file w₂ in
      close_interfaces rest (close_file stdio iface.tx_dropped_file w₃)

  -- `core_throttle_count_file` and `package_throttle_count_file` of a ThermalThrottleSource.
  unfoldable pub open_core : Text → W → (Option H × Option H) × W
  open_core name w =
      let base = codes "/sys/devices/system/cpu/" ++ (name ++ codes "/thermal_throttle") in
      let (core_file, w₁) = stdio.fopen (base ++ codes "/core_throttle_count") w in
      let (package_file, w₂) = stdio.fopen (base ++ codes "/package_throttle_count") w₁ in
      ((core_file, package_file), w₂)

  -- A core of which neither file opens is left out.
  unfoldable pub add_cores : List Entry → W → List (Option H × Option H) × W
  unfolding is_cpu_name open_core is_open
  add_cores [] w = ([], w)
  add_cores (entry ∷ rest) w =
      let tried = entry.is_directory && is_cpu_name entry.filename in
      let ((core_file, package_file), w') = open_core entry.filename w in
      let (cores, w'') = add_cores rest (if tried then w' else w) in
      (
        if tried && (is_open core_file || is_open package_file)
            then (core_file, package_file) ∷ cores
            else cores,
        w'',
      )

  -- `cores_` after that constructor; a missing directory raises a
  -- filesystem_error.
  unfoldable pub find_cores : Listing Entry → W → List (Option H × Option H) × W
  unfolding add_cores
  find_cores missing w = ([], w)
  find_cores (entries l) w = add_cores l w
  find_cores (failing l) w = ([], (add_cores l w).1)

  unfoldable pub close_all_cores : List (Option H × Option H) → W → W
  unfolding close_file
  close_all_cores [] w = w
  close_all_cores ((core_file, package_file) ∷ rest) w =
      close_all_cores rest (close_file stdio package_file (close_file stdio core_file w))

  -- The constructor of CpuThrottleSensor.
  unfoldable pub open_throttle : Listing Entry → W → ThrottleFiles H × W
  unfolding find_cores
  open_throttle listing w =
      let (cores, w') = find_cores listing w in (record { cores = cores; owns_files = true }, w')

  -- Its destructor.
  unfoldable pub close_throttle : ThrottleFiles H → W → W
  unfolding close_all_cores
  close_throttle s w = if s.owns_files then close_all_cores s.cores w else w
