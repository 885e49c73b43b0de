-- ===== src/Runner/Main.antt =====
-- `main`, `run_test` and `print_stats` of main.c. The options are what `getopt_long` returns, one
-- after another; the prints of the usage are left out.
use comp304_assignments.Prelude.{
  ℕ, Bool, true, false, Option, none, some, List, [], ◌∷◌, ◌==◌, if◌then◌else◌,
}
use comp304_assignments.Prelude.Words.{sub64}
use comp304_assignments.Prelude.Text.{Text, equal}
use comp304_assignments.Machine.{Cmd, exit, pure, ◌>>=◌, ◌>>◌}
use comp304_assignments.Memlist.{memlist_length, memlist_byte_size}
use comp304_assignments.System.{System, gets, memlist, modify_framework}
use comp304_assignments.Intercept.Defs.{modify_brk}

pub data Opt : Type 0 where
  help verbose use_calloc use_system stats unknown : Opt
  brk_size : Text → Opt

-- The numbers that `print_stats` prints; the fragmentation is the quotient of the last by the first.
pub record Stats : Type 0 where
  pub objs : ℕ
  pub obj_bytes : ℕ
  pub heap_bytes : ℕ
  pub empty_bytes : ℕ

unfoldable pub print_stats : ℕ → Cmd System Stats
print_stats k = do
  f ← gets (λ s. s.framework)
  objs ← memlist (memlist_length k f.allocs)
  obj_bytes ← memlist (memlist_byte_size k f.allocs)
  b ← gets (λ s. s.brk)
  pure (record {
    objs = objs;
    obj_bytes = obj_bytes;
    heap_bytes = sub64 b.cur_brk b.heap;
    empty_bytes = sub64 (sub64 b.cur_brk b.heap) obj_bytes;
  })

-- `tests`, a test as what its function does.
abbrev pub TestCase : Type 0
TestCase = Text × Cmd System (Unit {0})

unfoldable pub run_test : List TestCase → Text → Cmd System (Unit {0})
unfolding equal
run_test [] name = λ s. exit
run_test (test ∷ tests) name =
    let rest = run_test tests name in if equal name test.0 then test.1 else rest

unfoldable pub run_tests : List TestCase → List Text → Cmd System (Unit {0})
unfolding run_test
run_tests tests [] = pure tt
run_tests tests (name ∷ names) = do run_test tests name; run_tests tests names

-- How the loop over the options ends: with a result of `main`, or with `flag_print_stats`.
pub data Chosen : Type 0 where
  stops : ℕ → Chosen
  goes_on : Bool → Chosen

module _ (strtoul : Text → ℕ) where
  unfoldable pub read_opts : List Opt → Bool → Cmd System Chosen
  read_opts [] flag = pure (goes_on flag)
  read_opts (help ∷ opts) flag = pure (stops 0)
  read_opts (verbose ∷ opts) flag = read_opts opts flag
  read_opts (use_calloc ∷ opts) flag = do
    modify_framework (λ f. record f { use_calloc = true })
    read_opts opts flag
  read_opts (use_system ∷ opts) flag = do
    modify_framework (λ f. record f { use_system_alloc = true })
    read_opts opts flag
  read_opts (stats ∷ opts) flag = read_opts opts true
  read_opts (unknown ∷ opts) flag = pure (stops 1)
  read_opts (brk_size size ∷ opts) flag = do
    modify_brk (λ b. record b { max_brk_size = strtoul size })
    read_opts opts flag

  abbrev print_if : ℕ → Bool → Cmd System (Option Stats)
  print_if k false = pure none
  print_if k true = do s ← print_stats k; pure (some s)

  abbrev go_on : ℕ → List TestCase → List Text → Chosen → Cmd System (ℕ × Option Stats)
  go_on k tests names (stops code) = pure (code, none)
  go_on k tests names (goes_on flag) = do run_tests tests names; s ← print_if k flag; pure (0, s)

  -- `argc` is the number of arguments, `names` those that are no options.
  unfoldable pub main :
      (k argc : ℕ) → List TestCase → List Opt → List Text → Cmd System (ℕ × Option Stats)
  unfolding read_opts run_tests print_stats
  main k argc tests opts names =
      if argc == 1 then pure (1, none) else do c ← read_opts opts false; go_on k tests names c
