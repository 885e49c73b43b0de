-- ===== src/Shell/Chars.antt =====
-- Arrays that hold a list of characters, the last one first, and strings in them.
use comp304_assignments.Prelude.{
  ℕ, zero, suc, ◌+◌, ◌≤◌, ◌<◌, ◌≡◌, ap, subst, ◌∙◌, false, some, List, [], ◌∷◌, arith, ◌==◌,
  if◌then◌else◌, length, ==_refl,
}
use comp304_assignments.Shell.Text.{Text}
use comp304_assignments.Shell.Prompt.{write_string, set_char, read_string, is_ignored}

-- A list of the characters so far, the last one first: 127 takes it back, ignored keys do nothing.
abbrev pub drop_first : Text → Text
drop_first [] = []
drop_first (c ∷ cs) = cs

abbrev pub edited : ℕ → Text → Text
edited c s = if c == 127 then drop_first s else if is_ignored c then s else c ∷ s

abbrev pub edited_all : List ℕ → Text → Text
edited_all [] s = s
edited_all (c ∷ cs) s = edited_all cs (edited c s)

-- The list the right way round, in front of `t`.
abbrev pub turn : Text → Text → Text
turn [] t = t
turn (c ∷ cs) t = turn cs (c ∷ t)

-- Keys that neither end the line nor bring the one before back, and no NUL.
abbrev pub IsPlain : ℕ → Type 0
IsPlain c =
    ((c == 9) ≡ false)
    × ((c == 65) ≡ false)
    × ((c == 10) ≡ false)
    × ((c == 4) ≡ false)
    × ((c == 0) ≡ false)

abbrev pub ArePlain : List ℕ → Type 0
ArePlain [] = Unit
ArePlain (c ∷ cs) = IsPlain c × ArePlain cs

-- The first `n` places of an array hold the list, and none of them a NUL.
abbrev pub Holds : (ℕ → ℕ) → ℕ → Text → Type 0
Holds f n [] = n ≡ 0
Holds f n (c ∷ s) = elim n [ zero ↦ ⊥ | suc m ↦ (f m ≡ c) × ((c == 0) ≡ false) × Holds f m s ]

-- The string from `i` on.
abbrev pub Shows : (ℕ → ℕ) → ℕ → Text → Type 0
Shows f i [] = f i ≡ 0
Shows f i (c ∷ cs) = (f i ≡ c) × ((c == 0) ≡ false) × Shows f (i + 1) cs

pub set_char_same : (f : ℕ → ℕ) (i c : ℕ) → set_char f i c i ≡ c
unfolding set_char
set_char_same f i c = ap (λ b. if b then c else f i) (==_refl i)

set_char_below : (f : ℕ → ℕ) (i c j : ℕ) → j < i → set_char f i c j ≡ f j
unfolding set_char
set_char_below f i c j h = ground arith

pub Holds-set_char :
    (f : ℕ → ℕ) (i c n : ℕ) (s : Text) → n ≤ i → Holds f n s → Holds (set_char f i c) n s
Holds-set_char f i c n [] l h = h
Holds-set_char f i c zero (d ∷ s) l h = absurd h
Holds-set_char f i c (suc m) (d ∷ s) l (e, z, h) =
    (set_char_below f i c m (omega arith) ∙ e, z, Holds-set_char f i c m s (omega arith) h)

pub Shows-turn : (f : ℕ → ℕ) (n : ℕ) (s t : Text) → Holds f n s → Shows f n t → Shows f 0 (turn s t)
Shows-turn f n [] t h k = subst (λ i. Shows f i t) h k
Shows-turn f zero (c ∷ s) t h k = absurd h
Shows-turn f (suc m) (c ∷ s) t (e, z, h) k =
    Shows-turn f m s (c ∷ t) h (e, z, subst (λ i. Shows f i t) (next m) k)
  where
    next : (m : ℕ) → suc m ≡ m + 1
    next m = omega arith

pub length-turn : (s t : Text) → length (turn s t) ≡ length s + length t
length-turn [] t = omega arith
length-turn (c ∷ s) t = omega (arith, length-turn s (c ∷ t))

pub read_string_lem :
    (k : ℕ) (f : ℕ → ℕ) (i : ℕ) (t : Text) → length t < k → Shows f i t → read_string k f i ≡ some t
unfolding read_string
read_string_lem zero f i t l h = absurd (omega arith)
read_string_lem (suc k) f i [] l h = ground arith
read_string_lem (suc k) f i (c ∷ cs) l (e, z, h) =
    rw (e, z, read_string_lem k f (i + 1) cs (omega arith) h) (ap (λ d. some (d ∷ cs)) e)

pub Holds-length : (f : ℕ → ℕ) (n : ℕ) (s : Text) → Holds f n s → length s ≡ n
Holds-length f n [] h = omega arith
Holds-length f zero (c ∷ s) h = absurd h
Holds-length f (suc m) (c ∷ s) (e, z, h) = omega (arith, Holds-length f m s h)

write_string_below : (t : Text) (f : ℕ → ℕ) (i j : ℕ) → j < i → write_string i t f j ≡ f j
unfolding write_string
write_string_below [] f i j h = set_char_below f i 0 j h
write_string_below (c ∷ cs) f i j h =
    write_string_below cs (set_char f i c) (i + 1) j (omega arith) ∙ set_char_below f i c j h

-- A copy of a string is this string.
pub Shows-write_string :
    (t : Text) (g f : ℕ → ℕ) (i j : ℕ) → Shows g j t → Shows (write_string i t f) i t
unfolding write_string
Shows-write_string [] g f i j h = set_char_same f i 0
Shows-write_string (c ∷ cs) g f i j (e, z, h) = (
  write_string_below cs (set_char f i c) (i + 1) i (omega arith) ∙ set_char_same f i c,
  z,
  Shows-write_string cs g (set_char f i c) (i + 1) (j + 1) h,
)
