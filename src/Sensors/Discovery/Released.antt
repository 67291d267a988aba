-- ===== src/Sensors/Discovery/Released.antt =====
-- The files that the sensors of src/sensors/network.cpp and power.cpp hold, from the constructor to
-- the destructor.
use hw_agent.Prelude.{
  ℕ, ◌+◌, ◌≡◌, refl, Bool, true, ◌≡◌, refl, true, not, ◌&&◌, ◌||◌, Bool-cases, inl, inr, Text,
  codes, text_eq, Option, none, some, List, [], ◌∷◌, if◌then◌else◌, arith,
}
use hw_agent.Sensors.Stdio.{Stdio, close_file}
use hw_agent.Sensors.Stdio.Counted.{Counted, counted, held, Balance, close_file-Balance}
use hw_agent.Sensors.Discovery.{
  Listing, missing, entries, failing, Entry, InterfaceFiles, open_interface, add_interfaces,
  find_interfaces, close_interfaces, open_core, is_cpu_name, is_open, add_cores, find_cores,
  close_all_cores, ThrottleFiles, close_throttle,
}

module _ {H W : Type 0} (stdio : Stdio H W) (test : H → Bool) where
  abbrev calls : Stdio H (Counted W)
  calls = counted test stdio

  abbrev held_interface : InterfaceFiles H → ℕ
  held_interface s =
      held test s.rx_packets_file
      + (held test s.tx_packets_file + (held test s.rx_dropped_file + held test s.tx_dropped_file))

  abbrev pub held_interfaces : List (InterfaceFiles H) → ℕ
  held_interfaces [] = 0
  held_interfaces (s ∷ rest) = held_interface s + held_interfaces rest

  open_interface-Balance :
      (iface : Text) (c : Counted W)
      → let (source, c') = open_interface calls iface c in Balance 0 (held_interface source) c c'
  unfolding open_interface
  open_interface-Balance iface c = omega arith

  add_interfaces-Balance :
      (l : List Entry) (c : Counted W)
      → let (sources, c') = add_interfaces calls l c in Balance 0 (held_interfaces sources) c c'
  unfolding add_interfaces
  add_interfaces-Balance [] c = omega arith
  add_interfaces-Balance (entry ∷ rest) c =
      let kept = entry.is_directory && not (text_eq entry.filename (codes "lo")) in
      let c' = (open_interface calls entry.filename c).1 in
      elim (Bool-cases kept) [
        | inl e ↦
            rw e (
              omega
                (arith, open_interface-Balance entry.filename c, add_interfaces-Balance rest c'))
        | inr e ↦ rw e (add_interfaces-Balance rest c)
      ]

  pub close_interfaces-Balance :
      (sources : List (InterfaceFiles H)) (c : Counted W)
      → Balance (held_interfaces sources) 0 c (close_interfaces calls sources c)
  unfolding close_interfaces
  close_interfaces-Balance [] c = omega arith
  close_interfaces-Balance (s ∷ rest) c =
      let c₁ = close_file calls s.rx_packets_file c in
      let c₂ = close_file calls s.tx_packets_file c₁ in
      let c₃ = close_file calls s.rx_dropped_file c₂ in
      let c₄ = close_file calls s.tx_dropped_file c₃ in
      omega (
        arith,
        close_file-Balance stdio test s.rx_packets_file 0 c,
        close_file-Balance stdio test s.tx_packets_file 0 c₁,
        close_file-Balance stdio test s.rx_dropped_file 0 c₂,
        close_file-Balance stdio test s.tx_dropped_file 0 c₃,
        close_interfaces-Balance rest c₄,
      )

  abbrev pub held_cores : List (Option H × Option H) → ℕ
  held_cores [] = 0
  held_cores ((core_file, package_file) ∷ rest) =
      held test core_file + (held test package_file + held_cores rest)

  -- What a kept core holds, and what a core holds that is left out.
  open_core-Balance :
      (name : Text) (c : Counted W)
      → let ((core_file, package_file), c') = open_core calls name c in
        Balance 0 (held test core_file + held test package_file) c c'
  unfolding open_core
  open_core-Balance name c = omega arith

  held_cores-kept :
      (core_file package_file : Option H) (cores : List (Option H × Option H))
      → held_cores (
          if is_open core_file || is_open package_file
          then (core_file, package_file) ∷ cores
          else cores)
        ≡ held test core_file + (held test package_file + held_cores cores)
  unfolding is_open
  held_cores-kept none none cores = omega arith
  held_cores-kept none (some file) cores = refl
  held_cores-kept (some file) package_file cores = refl

  add_cores-Balance :
      (l : List Entry) (c : Counted W)
      → let (cores, c') = add_cores calls l c in Balance 0 (held_cores cores) c c'
  unfolding add_cores
  add_cores-Balance [] c = omega arith
  add_cores-Balance (entry ∷ rest) c =
      let tried = entry.is_directory && is_cpu_name entry.filename in
      let ((core_file, package_file), c') = open_core calls entry.filename c in
      elim (Bool-cases tried) [
        | inl e ↦ rw e (
            omega (
              arith,
              open_core-Balance entry.filename c,
              add_cores-Balance rest c',
              held_cores-kept core_file package_file (add_cores calls rest c').0,
            ))
        | inr e ↦ rw e (add_cores-Balance rest c)
      ]

  pub close_all_cores-Balance :
      (cores : List (Option H × Option H)) (c : Counted W)
      → Balance (held_cores cores) 0 c (close_all_cores calls cores c)
  unfolding close_all_cores
  close_all_cores-Balance [] c = omega arith
  close_all_cores-Balance ((core_file, package_file) ∷ rest) c =
      let c₁ = close_file calls core_file c in
      let c₂ = close_file calls package_file c₁ in
      omega (
        arith,
        close_file-Balance stdio test core_file 0 c,
        close_file-Balance stdio test package_file 0 c₁,
        close_all_cores-Balance rest c₂,
      )

  -- The files that stay open after a filesystem_error, which clears the list of them.
  abbrev pub lost_interfaces : Listing Entry → Counted W → ℕ
  lost_interfaces missing c = 0
  lost_interfaces (entries l) c = 0
  lost_interfaces (failing l) c = held_interfaces (add_interfaces calls l c).0

  abbrev pub lost_cores : Listing Entry → Counted W → ℕ
  lost_cores missing c = 0
  lost_cores (entries l) c = 0
  lost_cores (failing l) c = held_cores (add_cores calls l c).0

  pub find_interfaces-Balance :
      (listing : Listing Entry) (c : Counted W)
      → let (sources, c') = find_interfaces calls listing c in
        Balance 0 (held_interfaces sources + lost_interfaces listing c) c c'
  unfolding find_interfaces
  find_interfaces-Balance missing c = omega arith
  find_interfaces-Balance (entries l) c = omega (arith, add_interfaces-Balance l c)
  find_interfaces-Balance (failing l) c = omega (arith, add_interfaces-Balance l c)

  pub find_cores-Balance :
      (listing : Listing Entry) (c : Counted W)
      → let (cores, c') = find_cores calls listing c in
        Balance 0 (held_cores cores + lost_cores listing c) c c'
  unfolding find_cores
  find_cores-Balance missing c = omega arith
  find_cores-Balance (entries l) c = omega (arith, add_cores-Balance l c)
  find_cores-Balance (failing l) c = omega (arith, add_cores-Balance l c)

  pub close_throttle-Balance :
      (s : ThrottleFiles H) (c : Counted W)
      → s.owns_files ≡ true
      → Balance (held_cores s.cores) 0 c (close_throttle calls s c)
  unfolding close_throttle
  close_throttle-Balance s c owns = rw owns (close_all_cores-Balance s.cores c)
