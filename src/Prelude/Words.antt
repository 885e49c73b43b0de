-- ===== src/Prelude/Words.antt =====
-- The machine integers of the C code: `size_t` and pointers of 64 bits, and `int` of 32 bits held
-- as its bit pattern.
use Prim.Native.Nat.{ℕ, ◌+◌, ◌-◌, ◌*◌, ◌%◌, ◌^◌, ◌≤◌, ◌<◌}
use mathlib.Core.Path.{◌≡◌}
use mathlib.Core.Bool.{Bool, ◌&&◌}
use native.Mathlib.Omega.{arith}
use comp304_assignments.Prelude.Tests.{ltb, if◌then◌else◌}

unfoldable pub add64 : ℕ → ℕ → ℕ
add64 a b = (a + b) % 2 ^ 64

unfoldable pub sub64 : ℕ → ℕ → ℕ
sub64 a b = (a + 2 ^ 64 - b % 2 ^ 64) % 2 ^ 64

unfoldable pub mul64 : ℕ → ℕ → ℕ
mul64 a b = a * b % 2 ^ 64

-- `(int) a - (int) b` and `(int) a + (int) b`, as the 32 bits of the result.
unfoldable pub sub_int : ℕ → ℕ → ℕ
sub_int a b = (a + 2 ^ 32 - b % 2 ^ 32) % 2 ^ 32

unfoldable pub add_int : ℕ → ℕ → ℕ
add_int a b = (a + b) % 2 ^ 32

-- `d > 0` for an `int`.
unfoldable pub is_positive_int : ℕ → Bool
is_positive_int d = ltb 0 d && ltb d (2 ^ 31)

-- The conversion of an `int` to `size_t`: sign extension.
unfoldable pub size_of_int : ℕ → ℕ
size_of_int d = if ltb d (2 ^ 31) then d else d + (2 ^ 64 - 2 ^ 32)

pub add64_exact : (a b : ℕ) → a + b < 2 ^ 64 → add64 a b ≡ a + b
unfolding add64
add64_exact a b h = omega arith

pub sub64_exact : (a b : ℕ) → b ≤ a → a < 2 ^ 64 → sub64 a b ≡ a - b
unfolding sub64
sub64_exact a b h k = omega arith

-- Adding a negated size lowers an address by it.
pub add64-sub64_zero : (a b : ℕ) → b ≤ a → a < 2 ^ 64 → add64 a (sub64 0 b) ≡ a - b
unfolding add64 sub64
add64-sub64_zero a b h k = omega arith

-- On sizes below 2 GB the detour through `int` is exact.
pub size_of_int-sub_int : (a b : ℕ) → b ≤ a → a < 2 ^ 31 → size_of_int (sub_int a b) ≡ a - b
unfolding size_of_int sub_int
size_of_int-sub_int a b h k = ground arith

pub size_of_int-add_int : (a b : ℕ) → a + b < 2 ^ 31 → size_of_int (add_int a b) ≡ a + b
unfolding size_of_int add_int
size_of_int-add_int a b h = ground arith

pub is_positive_int-sub_int :
    (a b : ℕ) → b ≤ a → a < 2 ^ 31 → is_positive_int (sub_int a b) ≡ ltb b a
unfolding is_positive_int sub_int
is_positive_int-sub_int a b h k = ground arith
