-- ===== src/Sensors/Stdio/Counted.antt =====
-- The files that src/sensors opens and closes, counted.
use hw_agent.Prelude.{ℕ, ◌+◌, ◌≡◌, Bool, Option, none, some, List, [], ◌∷◌, if◌then◌else◌, arith}
use hw_agent.Sensors.Stdio.{Stdio, close_file}

-- A world with the calls that gave, and that closed, a file which passes a test.
pub record Counted (W : Type 0) : Type 0 where
  pub world : W
  pub opened : ℕ
  pub closed : ℕ

module _ {H : Type 0} (test : H → Bool) where
  -- 1 for a pointer to a file that passes the test.
  abbrev pub held : Option H → ℕ
  held none = 0
  held (some file) = if test file then 1 else 0

  abbrev pub held_files : List (Option H) → ℕ
  held_files [] = 0
  held_files (file ∷ rest) = held file + held_files rest

  -- The same calls, with those counted that concern a file which passes the test.
  abbrev pub counted : {W : Type 0} → Stdio H W → Stdio H (Counted W)
  counted stdio = record {
    fopen = λ path c.
        let (file, w) = stdio.fopen path c.world in
        (file, record { world = w; opened = c.opened + held file; closed = c.closed });
    fclose = λ file c. record {
      world = stdio.fclose file c.world;
      opened = c.opened;
      closed = c.closed + held (some file);
    };
  }

module _ {W : Type 0} where
  -- Where `m` of the files were open, `n` are.
  abbrev pub Balance : ℕ → ℕ → Counted W → Counted W → Type 0
  Balance m n c c' = c'.opened + c.closed + m ≡ c'.closed + c.opened + n

module _ {H W : Type 0} (stdio : Stdio H W) (test : H → Bool) where
  pub close_file-Balance :
      (file : Option H) (n : ℕ) (c : Counted W)
      → Balance (held test file + n) n c (close_file (counted test stdio) file c)
  unfolding close_file
  close_file-Balance none n c = omega arith
  close_file-Balance (some file) n c = omega arith
