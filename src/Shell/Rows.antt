-- ===== src/Shell/Rows.antt =====
-- `print_xdd` against a dump that takes sixteen characters after sixteen.
use comp304_assignments.Prelude.{
  ℕ, zero, suc, ◌+◌, ◌*◌, ◌/◌, ◌≤◌, ◌≡◌, ◌≢◌, refl, ap, ◌∙◌, none, some, [], ◌∷◌, ◌++◌, arith,
  if◌then◌else◌, length, ne→not_==,
}
use comp304_assignments.Prelude.Text.{Text, pos}
use comp304_assignments.Shell.Replace.{skip}
use comp304_assignments.Shell.Dump.{hex_onto, xdd_row, xdd_rows, print_xdd}
use comp304_assignments.Shell.Groups.{take, groups, xdd_columns-groups}

-- Each row shows the next sixteen characters in groups, and the last one what is left, which may be
-- nothing.
abbrev pub dump_row : (i group : ℕ) → Text → Text
dump_row i group t = hex_onto 8 (i * 16) [] ++ b':' ∷ 32 ∷ (groups 17 group (take 16 t) ++ 10 ∷ [])

pub dump : (k i group : ℕ) → Text → Text
dump zero i group t = []
dump (suc k) i group t = dump_row i group t ++ dump k (i + 1) group (skip 16 t)

skip-skip : (n m : ℕ) (t : Text) → skip (n + m) t ≡ skip m (skip n t)
unfolding skip
skip-skip zero m t = let z : 0 + m ≡ m = omega arith in ap (λ k. skip k t) z
skip-skip (suc n) zero [] = let z : suc n + 0 ≡ suc n = omega arith in ap (λ k. skip k []) z
skip-skip (suc n) (suc m) [] =
    let z : suc n + suc m ≡ suc (n + suc m) = omega arith in ap (λ k. skip k []) z
skip-skip (suc n) m (c ∷ cs) =
    let z : suc n + m ≡ suc (n + m) = omega arith in ap (λ k. skip k (c ∷ cs)) z ∙ skip-skip n m cs

xdd_row-dump_row :
    (i r : ℕ) (input : Text) → xdd_row i (suc r) input ≡ dump_row i (suc r) (skip (i * 16) input)
unfolding xdd_row
xdd_row-dump_row i r input =
    ap (λ u. hex_onto 8 (i * 16) [] ++ b':' ∷ 32 ∷ (u ++ 10 ∷ []))
      (xdd_columns-groups r (skip (i * 16) input))

xdd_rows-dump :
    (k i r : ℕ) (input : Text) → xdd_rows k i (suc r) input ≡ dump k i (suc r) (skip (i * 16) input)
unfolding xdd_rows dump
xdd_rows-dump zero i r input = refl
xdd_rows-dump (suc k) i r input =
    let next : (i + 1) * 16 ≡ i * 16 + 16 = omega arith in
    ap (λ u. u ++ xdd_rows k (i + 1) (suc r) input) (xdd_row-dump_row i r input)
    ∙ ap (λ t. dump_row i (suc r) (skip (i * 16) input) ++ t)
        (xdd_rows-dump k (i + 1) r input
          ∙ ap (dump k (i + 1) (suc r)) (ap (λ n. skip n input) next ∙ skip-skip (i * 16) 16 input))

skip_past : (n : ℕ) (t : Text) → length t ≤ n → skip n t ≡ []
unfolding skip
skip_past zero [] h = refl
skip_past zero (c ∷ cs) h = absurd (omega arith)
skip_past (suc n) [] h = refl
skip_past (suc n) (c ∷ cs) h = skip_past n cs (omega arith)

no_row_left : (t : Text) → skip ((length t / 16 + 1) * 16) t ≡ []
no_row_left t = skip_past ((length t / 16 + 1) * 16) t (omega arith)

-- With a positive group size `print_xdd` prints one row after another, a sixteenth of the length
-- and one many, each with its offset and the digits of the next sixteen characters, cut into groups
-- of that size with a blank behind each full group; no character is left behind the last row.
pub print_xdd-dump :
    (input : Text) (n : ℕ)
    → n ≢ 0
    → (print_xdd input (pos n) ≡ some (dump (length input / 16 + 1) 0 n input))
      × (skip ((length input / 16 + 1) * 16) input ≡ [])
unfolding print_xdd skip
print_xdd-dump input zero h = absurd (h refl)
print_xdd-dump [] (suc r) h = (ap some (xdd_rows-dump 1 0 r []), no_row_left [])
print_xdd-dump (c ∷ cs) (suc r) h =
    let rows = length (c ∷ cs) / 16 + 1 in
    (
      ap (λ b. if b then none else some (xdd_rows rows 0 (suc r) (c ∷ cs))) (ne→not_== (suc r) 0 h)
          ∙ ap some (xdd_rows-dump rows 0 r (c ∷ cs)),
      no_row_left (c ∷ cs),
    )
