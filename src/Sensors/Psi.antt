-- ===== src/Sensors/Psi.antt =====
-- `PsiSensor` of src/sensors/psi.cpp; std::strtof is a parameter.
use hw_agent.Prelude.{
  ℕ, ◌≡◌, refl, ap, Bool, true, false, ◌==◌, ◌&&◌, arith, All, Text, codes, [], ◌∷◌, ◌++◌, Option,
  none, some,
}
use hw_agent.Float.{Float}
use hw_agent.Frame.{SignalFrame}
use hw_agent.Core.Text.{strip_prefix}

-- What `read_avg10` reads: no file, a file that fails in fseek, or the bytes of one fread.
pub data Bytes : Type 0 where
  not_opened : Bytes
  not_seekable : Bytes
  bytes : Text → Bytes

-- The bytes behind the first "avg10=".
unfoldable pub behind_needle : Text → Option Text
unfolding strip_prefix
behind_needle [] = none
behind_needle (c ∷ cs) =
    let later = behind_needle cs in
    elim (strip_prefix (codes "avg10=") (c ∷ cs)) [ none ↦ later | some rest ↦ some rest ]

module _ {F : Type 0} ⦃f : Float F⦄ (strtof : Text → Option F) where
  -- `strtof` is none where the code returns 0: no number, or `errno`.
  unfoldable pub parse_avg10 : Text → F
  unfolding behind_needle
  parse_avg10 text = elim (behind_needle text) [
    | none ↦ f.lit 0 1
    | some value ↦ elim (strtof value) [ none ↦ f.lit 0 1 | some parsed ↦ parsed ]
  ]

  -- The result and `value`.
  unfoldable pub read_avg10 : Bytes → Bool × F
  unfolding parse_avg10
  read_avg10 not_opened = (false, f.lit 0 1)
  read_avg10 not_seekable = (false, f.lit 0 1)
  read_avg10 (bytes []) = (false, f.lit 0 1)
  read_avg10 (bytes (c ∷ cs)) = (true, parse_avg10 (c ∷ cs))

  unfoldable pub sample : Bytes → Bytes → Bytes → SignalFrame F → Bool × SignalFrame F
  unfolding read_avg10
  sample cpu memory io frame =
      let (cpu_ok, cpu_avg10) = read_avg10 cpu in
      let (memory_ok, memory_avg10) = read_avg10 memory in
      let (io_ok, io_avg10) = read_avg10 io in
      (
        cpu_ok && (memory_ok && io_ok),
        record frame { psi = cpu_avg10; psi_memory = memory_avg10; psi_io = io_avg10 },
      )

-- A byte that cannot start "avg10=".
abbrev pub IsOther : ℕ → Type 0
IsOther c = (c == b'a') ≡ false

behind_needle-append :
    (front rest : Text)
    → All IsOther front
    → behind_needle (front ++ (codes "avg10=" ++ rest)) ≡ some rest
unfolding behind_needle strip_prefix
behind_needle-append [] rest h = refl
behind_needle-append (c ∷ front) rest (h, hs) = ground (arith, behind_needle-append front rest hs)

module _ {F : Type 0} ⦃f : Float F⦄ (strtof : Text → Option F) where
  parse_avg10-value :
      (front rest : Text) (parsed : F)
      → All IsOther front
      → strtof rest ≡ some parsed
      → parse_avg10 strtof (front ++ (codes "avg10=" ++ rest)) ≡ parsed
  unfolding parse_avg10
  parse_avg10-value front rest parsed h e =
      rw (parse_avg10, behind_needle-append front rest h, e) refl

  -- If no `a` stands before "avg10=", as in the lines of the kernel, the value is the number that
  -- std::strtof reads behind it, whatever follows.
  pub read_avg10-value :
      (front rest : Text) (parsed : F)
      → All IsOther front
      → strtof rest ≡ some parsed
      → read_avg10 strtof (bytes (front ++ (codes "avg10=" ++ rest))) ≡ (true, parsed)
  unfolding read_avg10
  read_avg10-value [] rest parsed h e =
      ap (λ (x : F). (true, x)) (parse_avg10-value [] rest parsed h e)
  read_avg10-value (c ∷ front) rest parsed h e =
      ap (λ (x : F). (true, x)) (parse_avg10-value (c ∷ front) rest parsed h e)
