-- ===== src/Shell/Endless.antt =====
-- When the loop of `repl` never writes a file.
use comp304_assignments.Prelude.{
  ℕ, zero, suc, ◌≡◌, refl, sym, ap, subst, ◌∙◌, Bool, true, false, ◌||◌, Option, none, some, [],
  ◌∷◌, ◌++◌, arith, ltb, if◌then◌else◌, length,
}
use comp304_assignments.Shell.Text.{Text}
use comp304_assignments.Shell.Replace.{
  starts_with, Location, behind, strstr, skip, replace, Repl, written, fault, overrun, out_of_fuel,
  repl_loop,
}

abbrev pub is_found : Option Location → Bool
is_found none = false
is_found (some loc) = true

-- The text has the part.
abbrev pub has : Text → Text → Bool
has text part = is_found (strstr text part)

is_found-behind : (c : ℕ) (o : Option Location) → is_found (behind c o) ≡ is_found o
is_found-behind c none = refl
is_found-behind c (some loc) = refl

is_found_here :
    (b : Bool) (loc : Location) (o : Option Location)
    → is_found (if b then some loc else o) ≡ (b || is_found o)
is_found_here true loc o = refl
is_found_here false loc o = refl

has-cons : (c : ℕ) (cs part : Text) → has (c ∷ cs) part ≡ (starts_with part (c ∷ cs) || has cs part)
unfolding strstr
has-cons c cs part =
    is_found_here (starts_with part (c ∷ cs)) ([], c ∷ cs) (behind c (strstr cs part))
    ∙ ap (λ b. starts_with part (c ∷ cs) || b) (is_found-behind c (strstr cs part))

starts_with-append :
    (part text more : Text) → starts_with part text ≡ true → starts_with part (text ++ more) ≡ true
unfolding starts_with
starts_with-append [] text more h = refl
starts_with-append (p ∷ ps) [] more h = ground arith
starts_with-append (p ∷ ps) (c ∷ cs) more h = ground (arith, starts_with-append ps cs more)

starts_with-has : (text part : Text) → starts_with part text ≡ true → has text part ≡ true
unfolding strstr
starts_with-has [] part h = ap (λ b. is_found (if b then some ([], []) else none)) h
starts_with-has (c ∷ cs) part h = has-cons c cs part ∙ ap (λ b. b || has cs part) h

has_behind : (before text part : Text) → has text part ≡ true → has (before ++ text) part ≡ true
has_behind [] text part h = h
has_behind (c ∷ cs) text part h =
    has-cons c (cs ++ text) part ∙ ground (arith, has_behind cs text part h)

has_nil : (part : Text) → has [] part ≡ true → starts_with part [] ≡ true
unfolding strstr
has_nil part h = here (starts_with part []) h
  where
    here : (b : Bool) → is_found (if b then some ([], []) else none) ≡ true → b ≡ true
    here true h = refl
    here false h = h

has-append : (text more part : Text) → has text part ≡ true → has (text ++ more) part ≡ true
has-append [] more part h =
    starts_with-has more part (starts_with-append part [] more (has_nil part h))
has-append (c ∷ cs) more part h =
    has-cons c (cs ++ more) part
    ∙ ground (
      arith,
      has-cons c cs part,
      h,
      starts_with-append part (c ∷ cs) more,
      has-append cs more part,
    )

-- No file is written.
abbrev pub IsUnwritten : Repl → Type 0
IsUnwritten (written t) = ⊥
IsUnwritten fault = Unit
IsUnwritten overrun = Unit
IsUnwritten out_of_fuel = Unit

module _ (orig rep : Text) (again : has rep orig ≡ true) where
  replaced-IsUnwritten :
      (loc : Location) (k : ℕ)
      → ((next : Text) → has next orig ≡ true → IsUnwritten (repl_loop k orig rep next))
      → IsUnwritten
          (elim (replace orig rep loc) [ none ↦ overrun | some next ↦ repl_loop k orig rep next ])
  unfolding replace
  replaced-IsUnwritten (before, from) k ih =
      let next = before ++ (rep ++ skip (length orig) from) in
      by_cases next (ltb (length next) 4096) (
        ih next (
          has_behind before (rep ++ skip (length orig) from) orig
            (has-append rep (skip (length orig) from) orig again)))
    where
      by_cases :
          (next : Text) (b : Bool)
          → IsUnwritten (repl_loop k orig rep next)
          → IsUnwritten (elim (if b then some next else none) [
            | none ↦ overrun
            | some next ↦ repl_loop k orig rep next
          ])
      by_cases next true h = h
      by_cases next false h = tt

  some_location : (o : Option Location) → is_found o ≡ true → (loc : Location) × (o ≡ some loc)
  some_location none h = absurd (ground arith)
  some_location (some loc) h = (loc, refl)

  -- Where the replacement contains what it replaces, and the text does too, the loop of `repl`
  -- writes no file, whatever the number of its rounds is.
  pub repl_loop-IsUnwritten :
      (k : ℕ) (text : Text) → has text orig ≡ true → IsUnwritten (repl_loop k orig rep text)
  unfolding repl_loop
  repl_loop-IsUnwritten zero text h =
      let f = some_location (strstr text orig) h in
      subst (λ o. IsUnwritten (elim o [ none ↦ written text | some loc ↦ out_of_fuel ])) (sym f.1)
        tt
  repl_loop-IsUnwritten (suc k) text h =
      let f = some_location (strstr text orig) h in
      subst
        (λ o. IsUnwritten (elim o [
          | none ↦ written text
          | some loc ↦ elim (replace orig rep loc) [
            | none ↦ overrun
            | some next ↦ repl_loop k orig rep next
          ]
        ]))
        (sym f.1) (replaced-IsUnwritten f.0 k (λ next e. repl_loop-IsUnwritten k next e))
