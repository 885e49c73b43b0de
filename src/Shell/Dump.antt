-- ===== src/Shell/Dump.antt =====
-- `print_xdd` of shell-skeleton.c. A character is a byte; the code takes it as a signed one.
use comp304_assignments.Prelude.{
  ℕ, zero, suc, ◌+◌, ◌-◌, ◌*◌, ◌/◌, ◌%◌, Option, none, some, [], ◌∷◌, ◌++◌, ltb, ◌==◌,
  if◌then◌else◌, length,
}
use comp304_assignments.Prelude.Text.{Text, ℤ, pos, negsuc}
use comp304_assignments.Shell.Replace.{skip}

unfoldable pub hex_digit : ℕ → ℕ
hex_digit n = if ltb n 10 then b'0' + n else b'a' + (n - 10)

-- The last `k` hexadecimal digits of a number, in front of `out`.
unfoldable pub hex_onto : ℕ → ℕ → Text → Text
unfolding hex_digit
hex_onto zero n out = out
hex_onto (suc k) n out = hex_onto k (n / 16) (hex_digit (n % 16) ∷ out)

-- `%02x` of a `char`: one from 128 on is negative, and prints as an unsigned int.
unfoldable pub hex_char : ℕ → Text
unfolding hex_onto
hex_char c = if ltb c 128 then hex_onto 2 c [] else hex_onto 8 (4294967040 + c) []

-- `(j + 1) % group_size == 0`; the sign of the group does not matter.
abbrev group_of : ℤ → ℕ
group_of (pos n) = n
group_of (negsuc n) = suc n

abbrev separator : ℕ → ℕ → Text
separator group n = if n % group == 0 then 32 ∷ [] else []

-- The characters of a row from column `j` on, at most `k` of them, up to the end of the string.
unfoldable pub xdd_columns : ℕ → ℕ → ℕ → Text → Text
unfolding hex_char
xdd_columns zero j group input = []
xdd_columns (suc k) j group [] = []
xdd_columns (suc k) j group (c ∷ cs) =
    hex_char c ++ (separator group (j + 1) ++ xdd_columns k (j + 1) group cs)

-- `%08x: ` and a row.
unfoldable pub xdd_row : ℕ → ℕ → Text → Text
unfolding hex_onto xdd_columns
xdd_row i group input =
    hex_onto 8 (i * 16) [] ++ b':' ∷ 32 ∷ (xdd_columns 16 0 group (skip (i * 16) input) ++ 10 ∷ [])

-- The rows from `i` on, `k` of them.
unfoldable pub xdd_rows : ℕ → ℕ → ℕ → Text → Text
unfolding xdd_row skip
xdd_rows zero i group input = []
xdd_rows (suc k) i group input = xdd_row i group input ++ xdd_rows k (i + 1) group input

-- None is the division by a group size of 0, at the first character.
unfoldable pub print_xdd : Text → ℤ → Option Text
unfolding xdd_rows
print_xdd [] group_size = some (xdd_rows 1 0 (group_of group_size) [])
print_xdd (c ∷ cs) group_size =
    if group_of group_size == 0
    then none
    else some (xdd_rows (length (c ∷ cs) / 16 + 1) 0 (group_of group_size) (c ∷ cs))
