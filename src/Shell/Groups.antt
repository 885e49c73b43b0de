-- ===== src/Shell/Groups.antt =====
-- A row of `print_xdd` as groups of characters with a blank behind each full one.
use comp304_assignments.Prelude.{
  ℕ, zero, suc, ◌+◌, ◌%◌, ◌≤◌, ◌<◌, ◌≡◌, refl, sym, ap, ◌∙◌, inl, inr, Bool-cases, [], ◌∷◌, ◌++◌,
  arith, leb, ◌==◌, if◌then◌else◌, length, eq→==, ne→not_==,
}
use comp304_assignments.Prelude.Text.{Text}
use comp304_assignments.Shell.Replace.{skip}
use comp304_assignments.Shell.Dump.{hex_char, xdd_columns}
use mathlib.Core.List.{append_assoc}
use native.Mathlib.Nat.{suc-mod, mod_self, mod-eq_of_lt, add-mod_right}

unfoldable pub take : ℕ → Text → Text
take zero cs = []
take (suc n) [] = []
take (suc n) (c ∷ cs) = c ∷ take n cs

-- The characters' digits, with nothing between them.
abbrev pub hexes : Text → Text
hexes [] = []
hexes (c ∷ cs) = hex_char c ++ hexes cs

-- At most `k` groups of `n` characters.
unfoldable pub groups : ℕ → ℕ → Text → Text
unfolding take skip
groups zero n t = []
groups (suc k) n t =
    let later = groups k n (skip n t) in
    if leb n (length t) then hexes (take n t) ++ 32 ∷ later else hexes t

-- The columns from `j` on of a text that is not cut off.
abbrev columns : ℕ → ℕ → Text → Text
columns j n [] = []
columns j n (c ∷ cs) =
    hex_char c ++ ((if (j + 1) % n == 0 then 32 ∷ [] else []) ++ columns (j + 1) n cs)

xdd_columns-take : (k j n : ℕ) (t : Text) → xdd_columns k j n t ≡ columns j n (take k t)
unfolding xdd_columns take
xdd_columns-take zero j n t = refl
xdd_columns-take (suc k) j n [] = refl
xdd_columns-take (suc k) j n (c ∷ cs) =
    ap (λ u. hex_char c ++ ((if (j + 1) % n == 0 then 32 ∷ [] else []) ++ u))
      (xdd_columns-take k (j + 1) n cs)

-- The next column's remainder, inside a group and at its end.
next_inside : (j n : ℕ) → j % n + 1 < n → (j + 1) % n ≡ j % n + 1
next_inside j n h =
    let s : j + 1 ≡ suc j = omega arith in
    ap (λ i. i % n) s ∙ suc-mod j n ∙ mod-eq_of_lt (omega arith) ∙ omega arith

next_at_end : (j n : ℕ) → j % n + 1 ≡ n → (j + 1) % n ≡ 0
next_at_end j n h =
    let s : j + 1 ≡ suc j = omega arith in
    let e : suc (j % n) ≡ n = omega arith in
    ap (λ i. i % n) s ∙ suc-mod j n ∙ ap (λ i. i % n) e ∙ mod_self n

-- With `r` columns left in the group, a shorter text fills no group.
columns-short : (r j n : ℕ) (t : Text) → j % n + r ≡ n → length t < r → columns j n t ≡ hexes t
columns-short r j n [] e h = refl
columns-short zero j n (c ∷ cs) e h = absurd (omega arith)
columns-short (suc r) j n (c ∷ cs) e h =
    let next = next_inside j n (omega arith) in
    rw (ne→not_== ((j + 1) % n) 0 (omega (arith, next)))
      (ap (λ u. hex_char c ++ u) (columns-short r (j + 1) n cs (omega (arith, next)) (omega arith)))

-- A longer one ends it with a blank.
columns-full :
    (r j n : ℕ) (t : Text)
    → j % n + suc r ≡ n
    → suc r ≤ length t
    → columns j n t ≡ hexes (take (suc r) t) ++ 32 ∷ columns (j + suc r) n (skip (suc r) t)
unfolding take skip
columns-full r j n [] e h = absurd (omega arith)
columns-full zero j n (c ∷ cs) e h =
    rw (eq→== ((j + 1) % n) 0 (next_at_end j n (omega arith)))
      (sym (append_assoc (hex_char c) [] (32 ∷ columns (j + 1) n cs)))
columns-full (suc r) j n (c ∷ cs) e h =
    let next = next_inside j n (omega arith) in
    let there : j + 1 + suc r ≡ j + suc (suc r) = omega arith in
    rw (ne→not_== ((j + 1) % n) 0 (omega (arith, next))) (
      ap (λ u. hex_char c ++ u) (columns-full r (j + 1) n cs (omega (arith, next)) (omega arith))
      ∙ sym (append_assoc (hex_char c) (hexes (take (suc r) cs)) _)
      ∙ ap (λ i. (hex_char c ++ hexes (take (suc r) cs)) ++ 32 ∷ columns i n (skip (suc r) cs))
          there)

after_group : (r j n : ℕ) → n ≡ suc r → j % n ≡ 0 → (j + suc r) % n ≡ 0
after_group r j n e h = ap (λ m. (j + m) % n) (sym e) ∙ add-mod_right j n ∙ h

length-skip : (n : ℕ) (t : Text) → n ≤ length t → length (skip n t) + n ≡ length t
unfolding skip
length-skip zero t h = omega arith
length-skip (suc n) [] h = absurd (omega arith)
length-skip (suc n) (c ∷ cs) h = omega (arith, length-skip n cs (omega arith))

columns-groups :
    (k r j : ℕ) (t : Text) → j % suc r ≡ 0 → length t < k → columns j (suc r) t ≡ groups k (suc r) t
unfolding groups
columns-groups zero r j t h l = absurd (omega arith)
columns-groups (suc k) r j t h l = elim (Bool-cases (leb (suc r) (length t))) [
  | inl e ↦
      let fits : suc r ≤ length t = ground arith in
      rw e (
        columns-full r j (suc r) t (omega arith) fits
        ∙ ap (λ u. hexes (take (suc r) t) ++ 32 ∷ u)
            (columns-groups k r (j + suc r) (skip (suc r) t) (after_group r j (suc r) refl h)
              (omega (arith, length-skip (suc r) t fits))))
  | inr e ↦
      let short : length t < suc r = ground arith in
      rw e (columns-short (suc r) j (suc r) t (omega arith) short)
]

length-take : (n : ℕ) (t : Text) → length (take n t) ≤ n
unfolding take
length-take zero t = omega arith
length-take (suc n) [] = omega arith
length-take (suc n) (c ∷ cs) = omega (arith, length-take n cs)

-- The sixteen columns of a row, by groups.
pub xdd_columns-groups :
    (r : ℕ) (t : Text) → xdd_columns 16 0 (suc r) t ≡ groups 17 (suc r) (take 16 t)
xdd_columns-groups r t =
    xdd_columns-take 16 0 (suc r) t
    ∙ columns-groups 17 r 0 (take 16 t) (mod-eq_of_lt (omega arith))
        (omega (arith, length-take 16 t))
