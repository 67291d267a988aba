-- ===== src/Sensors/Streams/Released.antt =====
-- The files of the sensors in src/sensors whose paths are fixed, and of CpuFreqSensor, from the
-- constructor to the destructor.
use hw_agent.Prelude.{ℕ, ◌+◌, true, Text, Option, none, some, List, [], ◌∷◌, ◌≡◌, refl, arith, Bool}
use hw_agent.Sensors.Stdio.{Stdio, close_file}
use hw_agent.Sensors.Stdio.Counted.{Counted, counted, held, held_files, Balance, close_file-Balance}
use hw_agent.Sensors.Streams.{
  Stream, MemoryFiles, PsiFiles, close_stream, close_memory, close_psi, push_open, open_matches,
  FreqFiles, open_cpufreq, close_all, close_cpufreq,
}

module _ {H W : Type 0} (stdio : Stdio H W) (test : H → Bool) where
  abbrev calls : Stdio H (Counted W)
  calls = counted test stdio

  held_files-push_open :
      (file : Option H) (files : List (Option H))
      → held_files test (push_open file files) ≡ held test file + held_files test files
  unfolding push_open
  held_files-push_open none files = omega arith
  held_files-push_open (some file) files = refl

  open_matches-Balance :
      (paths : List Text) (c : Counted W)
      → let (files, c') = open_matches calls paths c in Balance 0 (held_files test files) c c'
  unfolding open_matches
  open_matches-Balance [] c = omega arith
  open_matches-Balance (path ∷ rest) c =
      let (file, c') = calls.fopen path c in
      let files = (open_matches calls rest c').0 in
      omega (arith, held_files-push_open file files, open_matches-Balance rest c')

  pub close_all-Balance :
      (files : List (Option H)) (c : Counted W)
      → Balance (held_files test files) 0 c (close_all calls files c)
  unfolding close_all
  close_all-Balance [] c = omega arith
  close_all-Balance (file ∷ rest) c = omega (
    arith,
    close_file-Balance stdio test file 0 c,
    close_all-Balance rest (close_file calls file c),
  )

  pub open_cpufreq-Balance :
      (matches : Option (List Text)) (c : Counted W)
      → let (s, c') = open_cpufreq calls matches c in
        Balance 0 (held_files test s.files) c c' × (s.owns_files ≡ true)
  unfolding open_cpufreq
  open_cpufreq-Balance none c = (omega arith, refl)
  open_cpufreq-Balance (some matches) c = (open_matches-Balance matches c, refl)

  pub close_cpufreq-Balance :
      (s : FreqFiles H) (c : Counted W)
      → s.owns_files ≡ true
      → Balance (held_files test s.files) 0 c (close_cpufreq calls s c)
  unfolding close_cpufreq
  close_cpufreq-Balance s c owns = rw owns (close_all-Balance s.files c)

  pub close_stream-Balance :
      (s : Stream H) (c : Counted W)
      → s.owns_file ≡ true
      → Balance (held test s.file) 0 c (close_stream calls s c)
  close_stream-Balance s c owns = rw owns (omega (arith, close_file-Balance stdio test s.file 0 c))

  abbrev pub held_memory : MemoryFiles H → ℕ
  held_memory s = held test s.meminfo + held test s.vmstat

  pub close_memory-Balance :
      (s : MemoryFiles H) (c : Counted W)
      → s.owns_files ≡ true
      → Balance (held_memory s) 0 c (close_memory calls s c)
  unfolding close_memory
  close_memory-Balance s c owns =
      let c₁ = close_file calls s.meminfo c in
      rw owns (
        omega (
          arith,
          close_file-Balance stdio test s.meminfo 0 c,
          close_file-Balance stdio test s.vmstat 0 c₁,
        ))

  abbrev pub held_psi : PsiFiles H → ℕ
  held_psi s = held test s.cpu + (held test s.memory + held test s.io)

  pub close_psi-Balance :
      (s : PsiFiles H) (c : Counted W)
      → s.owns_files ≡ true
      → Balance (held_psi s) 0 c (close_psi calls s c)
  unfolding close_psi
  close_psi-Balance s c owns =
      let c₁ = close_file calls s.cpu c in
      let c₂ = close_file calls s.memory c₁ in
      rw owns (
        omega (
          arith,
          close_file-Balance stdio test s.cpu 0 c,
          close_file-Balance stdio test s.memory 0 c₁,
          close_file-Balance stdio test s.io 0 c₂,
        ))
