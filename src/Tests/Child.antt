-- ===== src/Tests/Child.antt =====
-- The pipe and the child of the sensor for tegrastats.
use hw_agent.Prelude.{
  Bool, true, arith, ◌≡◌, ◌≢◌, ◌⊎◌, refl, false, none, some, Option, codes, [], ◌∷◌, ℕ, ◌+◌, ◌<◌,
  ◌≤◌, ◌==◌, if◌then◌else◌,
}
use hw_agent.Float.Fixed.{Fixed, fixed_float}
use hw_agent.Sensors.Tegrastats.{read_chunks}
use hw_agent.Sensors.Tegrastats.Process.{would_block, make_sensor, disable, sample}
use hw_agent.Sensors.Tegrastats.Released.{Tracked, tracked, samples, disable-released}
use hw_agent.Sensors.Tegrastats.Strays.{sample-strays}
use hw_agent.Sensors.Tegrastats.Child.{
  ChildPosix, Object, pipe_read, pipe_write, null_device, inherited, IsPosix, prepare_child,
  prepare_child-table,
}
use hw_agent.Tests.Boards.{posix, regexes, strtof, tegra}
use hw_agent.Tests.Fixtures.{zeroed}

abbrev start : Tracked ℕ
start = record {
  world = 0;
  pipes = 0;
  read_closed = 0;
  write_closed = 0;
  unwaited = false;
  strays = 0;
}

disable-released_example :
    let (s, c₁) = make_sensor (tracked posix) {F = Fixed} start in
    let (s', c₂) =
      samples posix strtof regexes
        ((codes "GPU 35%\n" ∷ [], would_block, zeroed) ∷ ([], would_block, zeroed) ∷ [])
        s
        c₁ in
    let (s'', c₃) = disable (tracked posix) s' c₂ in
    (c₃.read_closed + 0 ≡ c₃.pipes + 0)
    × (c₃.write_closed + 0 ≡ c₃.pipes + 0)
    × (c₃.unwaited ≡ false)
disable-released_example =
    disable-released posix strtof regexes
      ((codes "GPU 35%\n" ∷ [], would_block, zeroed) ∷ ([], would_block, zeroed) ∷ []) start refl

sample-strays_example :
    0 < (sample (tracked posix) strtof regexes [] would_block tegra zeroed start).1.strays
unfolding read_chunks
sample-strays_example = sample-strays posix strtof regexes [] tegra zeroed start refl refl refl refl

-- A table of descriptors, of which 7 is free for /dev/null.
abbrev Table : Type 0
Table = ℕ → Option Object

abbrev put : ℕ → Option Object → Table → Table
put fd object t n = if n == fd then object else t n

opens_seven : Option Object → Table → Option ℕ × Table
opens_seven none t = (some 7, put 7 (some null_device) t)
opens_seven (some object) t = (none, t)

copies : Option Object → ℕ → Table → Bool × Table
copies none target t = (false, t)
copies (some object) target t = (true, put target (some object) t)

abbrev child : ChildPosix Table
child = record {
  close = λ fd t. put fd none t;
  dup2 = λ fd target t. copies (t fd) target t;
  open_null = λ writing t. opens_seven (t 7) t;
}

opens_seven-none :
    (seven : Option Object) (t : Table)
    → (opens_seven seven t).0 ≡ none
    → (n : ℕ) → (opens_seven seven t).1 n ≡ t n
unfolding opens_seven
opens_seven-none none t h n = cc
opens_seven-none (some object) t h n = refl

opens_seven-some :
    (seven : Option Object) (t : Table) (fd : ℕ)
    → t 7 ≡ seven
    → (opens_seven seven t).0 ≡ some fd
    → (t fd ≡ none) × ((n : ℕ) → (opens_seven seven t).1 n ≡ put fd (some null_device) t n)
unfolding opens_seven
opens_seven-some none t fd e h = (ground arith, λ n. ground arith)
opens_seven-some (some object) t fd e h = cc

copies-done :
    (object : Option Object) (target n : ℕ) (t : Table)
    → (copies object target t).0 ≡ true
    → (copies object target t).1 n ≡ put target object t n
unfolding copies
copies-done none target n t h = cc
copies-done (some object) target n t h = refl

copies-failed :
    (object : Option Object) (target n : ℕ) (t : Table)
    → (copies object target t).0 ≡ false
    → (copies object target t).1 n ≡ t n
unfolding copies
copies-failed none target n t h = refl
copies-failed (some object) target n t h = cc

copies-closed :
    (object : Option Object) (target : ℕ) (t : Table)
    → object ≡ none
    → (copies object target t).0 ≡ false
unfolding copies
copies-closed none target t h = refl
copies-closed (some object) target t h = cc

child-IsPosix : IsPosix child (λ t. t)
child-IsPosix = record {
  close_table = λ fd n t. refl;
  dup2_done = λ fd target n t h. copies-done (t fd) target n t h;
  dup2_failed = λ fd target n t h. copies-failed (t fd) target n t h;
  dup2_closed = λ fd target t h. copies-closed (t fd) target t h;
  open_none = λ writing t h n. opens_seven-none (t 7) t h n;
  open_some = λ writing t fd h. opens_seven-some (t 7) t fd refl h;
}

-- The descriptors of the parent, with a pipe at 3 and 4.
abbrev parent : Table
parent n =
    if n == 3
    then some pipe_read
    else if n == 4
    then some pipe_write
    else if n == 7
    then none
    else some inherited

prepare_child-table_example :
    let t = prepare_child child 3 4 parent in
    (t 1 ≡ some pipe_write)
    × ((t 0 ≡ some null_device) ⊎ (t 0 ≡ some inherited))
    × ((t 2 ≡ some null_device) ⊎ (t 2 ≡ some inherited))
    × (t 3 ≡ none)
    × (t 4 ≡ none)
    × ((n : ℕ) → 3 ≤ n → n ≢ 3 → n ≢ 4 → t n ≡ parent n)
unfolding copies
prepare_child-table_example =
    prepare_child-table child (λ t. t) child-IsPosix 3 4 parent (omega arith) (omega arith)
      (ground arith) (cc) (cc) refl
