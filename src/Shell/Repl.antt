-- ===== src/Shell/Repl.antt =====
-- When the loop of `repl` ends.
use comp304_assignments.Prelude.{
  ℕ, zero, suc, ◌+◌, ◌*◌, ◌≤◌, ◌<◌, ◌≡◌, refl, sym, ap, subst, Bool, true, false, Option, none,
  some, [], ◌∷◌, ◌++◌, arith, ◌==◌, if◌then◌else◌, length, length-append, lt→ltb,
}
use native.Mathlib.Nat.{add-mul, mul-le-mul_right}
use comp304_assignments.Shell.Text.{Text}
use comp304_assignments.Shell.Replace.{
  starts_with, Location, behind, strstr, skip, replace, Repl, written, fault, overrun, out_of_fuel,
  repl_loop,
}

-- An occurrence of `part`, where one is found.
abbrev IsFound : (text part : Text) → Option Location → Type 0
IsFound text part none = Unit
IsFound text part (some (before, from)) = (text ≡ before ++ from) × (starts_with part from ≡ true)

behind-IsFound :
    (c : ℕ) (text part : Text) (o : Option Location)
    → IsFound text part o
    → IsFound (c ∷ text) part (behind c o)
behind-IsFound c text part none h = tt
behind-IsFound c text part (some (before, from)) (e, h) = (ap (λ t. c ∷ t) e, h)

-- The test at the place `text` of the search.
here-IsFound :
    (text part : Text) (b : Bool) (later : Option Location)
    → starts_with part text ≡ b
    → IsFound text part later
    → IsFound text part (if b then some ([], text) else later)
here-IsFound text part true later h l = (refl, h)
here-IsFound text part false later h l = l

strstr-IsFound : (text part : Text) → IsFound text part (strstr text part)
unfolding strstr
strstr-IsFound [] part = here-IsFound [] part (starts_with part []) none refl tt
strstr-IsFound (c ∷ cs) part =
    here-IsFound (c ∷ cs) part (starts_with part (c ∷ cs)) (behind c (strstr cs part)) refl
      (behind-IsFound c cs part (strstr cs part) (strstr-IsFound cs part))

-- How many characters of a text are `c`.
unfoldable pub count : ℕ → Text → ℕ
count c [] = 0
count c (d ∷ ds) = (if d == c then 1 else 0) + count c ds

count-append : (c : ℕ) (t u : Text) → count c (t ++ u) ≡ count c t + count c u
unfolding count
count-append c [] u = omega arith
count-append c (d ∷ t) u = omega (arith, count-append c t u)

count-skip : (c n : ℕ) (t : Text) → count c (skip n t) ≤ count c t
unfolding count skip
count-skip c zero t = omega arith
count-skip c (suc n) [] = omega arith
count-skip c (suc n) (d ∷ t) = omega (arith, count-skip c n t)

length-skip : (n : ℕ) (t : Text) → length (skip n t) ≤ length t
unfolding skip
length-skip zero t = omega arith
length-skip (suc n) [] = omega arith
length-skip (suc n) (d ∷ t) = omega (arith, length-skip n t)

-- The occurrence has a first character that goes away.
count-skip_found :
    (c : ℕ) (os from : Text)
    → starts_with (c ∷ os) from ≡ true
    → count c (skip (length (c ∷ os)) from) + 1 ≤ count c from
unfolding count skip starts_with
count-skip_found c os [] h = ground arith
count-skip_found c os (d ∷ ds) h = ground (arith, count-skip c (length os) ds)

mul-room : (m n r : ℕ) → m + 1 ≤ n → m * r + r ≤ n * r
mul-room m n r h = omega (arith, mul-le-mul_right r h, add-mul m 1 r)

-- The loop ends with a text in which nothing is left to replace.
abbrev pub IsReplaced : Text → Repl → Type 0
IsReplaced orig (written t) = strstr t orig ≡ none
IsReplaced orig fault = ⊥
IsReplaced orig overrun = ⊥
IsReplaced orig out_of_fuel = ⊥

-- What a replacement leaves: one `c` less, and at most the replacement more.
module _ (c : ℕ) (os rep : Text) (absent : count c rep ≡ 0) where
  next_text : Location → Text
  next_text (before, from) = before ++ (rep ++ skip (length (c ∷ os)) from)

  count-next_text :
      (text : Text) (loc : Location)
      → IsFound text (c ∷ os) (some loc)
      → (count c (next_text loc) + 1 ≤ count c text)
        × (length (next_text loc) ≤ length text + length rep)
  unfolding next_text
  count-next_text text (before, from) (e, h) = omega (
    arith,
    absent,
    ap (count c) e,
    ap length e,
    count-append c before from,
    length-append before from,
    count-append c before (rep ++ skip (length (c ∷ os)) from),
    count-append c rep (skip (length (c ∷ os)) from),
    length-append before (rep ++ skip (length (c ∷ os)) from),
    length-append rep (skip (length (c ∷ os)) from),
    count-skip_found c os from h,
    length-skip (length (c ∷ os)) from,
  )

  abbrev orig : Text
  orig = c ∷ os

  replace-next_text :
      (loc : Location) → length (next_text loc) < 4096 → replace orig rep loc ≡ some (next_text loc)
  unfolding replace next_text
  replace-next_text (before, from) h =
      ap (λ b. if b then some (before ++ (rep ++ skip (length orig) from)) else none)
        (lt→ltb _ 4096 h)

  no_room-IsReplaced :
      (text : Text) (o : Option Location)
      → strstr text orig ≡ o
      → IsFound text orig o
      → count c text ≤ 0
      → IsReplaced orig (elim o [ none ↦ written text | some loc ↦ out_of_fuel ])
  no_room-IsReplaced text none e f h = e
  no_room-IsReplaced text (some loc) e f h = absurd (omega (arith, count-next_text text loc f))

  round-IsReplaced :
      (k : ℕ) (text : Text) (o : Option Location)
      → strstr text orig ≡ o
      → IsFound text orig o
      → count c text ≤ suc k
      → length text + count c text * length rep < 4096
      → ((next : Text)
          → count c next ≤ k
          → length next + count c next * length rep < 4096
          → IsReplaced orig (repl_loop k orig rep next))
      → IsReplaced orig (elim o [
        | none ↦ written text
        | some loc ↦ elim (replace orig rep loc) [
          | none ↦ overrun
          | some next ↦ repl_loop k orig rep next
        ]
      ])
  round-IsReplaced k text none e f n l ih = e
  round-IsReplaced k text (some loc) e f n l ih =
      let (fewer, longer) = count-next_text text loc f in
      let room = mul-room (count c (next_text loc)) (count c text) (length rep) fewer in
      subst
        (λ o. IsReplaced orig (elim o [ none ↦ overrun | some next ↦ repl_loop k orig rep next ]))
        (sym (replace-next_text loc (omega (arith, room))))
        (ih (next_text loc) (omega (arith, fewer)) (omega (arith, room)))

  -- Let the first character `c` of the text to replace not be in its replacement, let the loop of
  -- `repl` have as many rounds as the text has `c`, and let the text with a replacement for each
  -- `c` have fewer than 4096 characters. Then the loop writes a text, in which nothing is left to
  -- replace.
  pub repl_loop-IsReplaced :
      (k : ℕ) (text : Text)
      → count c text ≤ k
      → length text + count c text * length rep < 4096
      → IsReplaced orig (repl_loop k orig rep text)
  unfolding repl_loop
  repl_loop-IsReplaced zero text n l =
      no_room-IsReplaced text (strstr text orig) refl (strstr-IsFound text orig) n
  repl_loop-IsReplaced (suc k) text n l =
      round-IsReplaced k text (strstr text orig) refl (strstr-IsFound text orig) n l
        (λ next m r. repl_loop-IsReplaced k next m r)
