-- ===== src/Shell/File.antt =====
-- `read_from_file` reads the whole file.
use comp304_assignments.Prelude.{
  ℕ, zero, suc, ◌+◌, ◌≤◌, ◌<◌, ◌≡◌, refl, sym, ap, ◌∙◌, Bool, true, false, some, [], ◌∷◌, ◌++◌,
  arith, ◌==◌, if◌then◌else◌, length, length-append, lt→ltb,
}
use mathlib.Core.List.{append_assoc, append-nil}
use comp304_assignments.Shell.Text.{Text}
use comp304_assignments.Shell.Alias.{fgets, text_is, too_long, read_lines, read_from_file}

-- A line and the rest of a file, and the line has a character.
abbrev IsLine : Text → Text × Text → Type 0
IsLine cs p = (p.0 ++ p.1 ≡ cs) × (length p.1 ≤ length cs)

either-IsLine :
    (cs : Text) (b : Bool) (p q : Text × Text)
    → IsLine cs p
    → IsLine cs q
    → IsLine cs (if b then p else q)
either-IsLine cs true p q h k = h
either-IsLine cs false p q h k = k

fgets-IsLine : (n : ℕ) (cs : Text) → IsLine cs (fgets n cs)
unfolding fgets
fgets-IsLine zero cs = (refl, omega arith)
fgets-IsLine (suc n) [] = (refl, omega arith)
fgets-IsLine (suc n) (c ∷ cs) =
    let l = fgets-IsLine n cs in
    either-IsLine (c ∷ cs) (c == 10) (c ∷ [], cs) (c ∷ (fgets n cs).0, (fgets n cs).1)
      (refl, omega arith) (ap (λ t. c ∷ t) l.0, omega (arith, l.1))

-- A line that starts takes a character of the file.
fgets-shorter : (n c : ℕ) (cs : Text) → length (fgets (suc n) (c ∷ cs)).1 ≤ length cs
unfolding fgets
fgets-shorter n c cs = by_cases (c == 10)
  where
    by_cases :
        (b : Bool)
        → length
            (if◌then◌else◌ {A = Text × Text} b (c ∷ [], cs) (c ∷ (fgets n cs).0, (fgets n cs).1)).1
          ≤ length cs
    by_cases true = omega arith
    by_cases false = omega (arith, (fgets-IsLine n cs).1)

-- What is read and what is left stay within the array.
read_fits :
    (str line left file : Text)
    → line ++ left ≡ file
    → length str + length file < 40000
    → length (str ++ line) + length left < 40000
read_fits str line left file e l =
    omega (arith, length-append str line, length-append line left, ap length e)

line_fits :
    (str line left : Text)
    → length (str ++ line) + length left < 40000
    → length (str ++ line) < 40000
line_fits str line left l = omega arith

joins : (str line left file : Text) → line ++ left ≡ file → (str ++ line) ++ left ≡ str ++ file
joins str line left file e = append_assoc str line left ∙ ap (λ t. str ++ t) e

fewer : (n m k : ℕ) → n ≤ m → suc m ≤ suc k → n ≤ k
fewer n m k h l = omega arith

read_lines_lem :
    (k : ℕ) (str file : Text)
    → length str + length file < 40000
    → length file ≤ k
    → read_lines k str file ≡ text_is (str ++ file)
unfolding read_lines
read_lines_lem k str [] l n = ap text_is (sym (append-nil str))
read_lines_lem zero str (c ∷ cs) l n = absurd (omega arith)
read_lines_lem (suc k) str (c ∷ cs) l n =
    let line = (fgets 1999 (c ∷ cs)).0 in
    let left = (fgets 1999 (c ∷ cs)).1 in
    let joined = (fgets-IsLine 1999 (c ∷ cs)).0 in
    let fits = read_fits str line left (c ∷ cs) joined l in
    ap (λ b. elim b [ true ↦ read_lines k (str ++ line) left | false ↦ too_long ])
      (lt→ltb (length (str ++ line)) 40000 (line_fits str line left fits))
    ∙ read_lines_lem k (str ++ line) left fits
        (fewer (length left) (length cs) k (fgets-shorter 1998 c cs) n)
    ∙ ap text_is (joins str line left (c ∷ cs) joined)

-- A file of fewer than 40000 characters is read as it is into an array that starts with a NUL, with
-- a round for each character.
pub read_from_file_lem :
    (k : ℕ) (file : Text)
    → length file < 40000
    → length file ≤ k
    → read_from_file k [] (some file) ≡ text_is file
unfolding read_from_file
read_from_file_lem k file l n = read_lines_lem k [] file (omega arith) n
