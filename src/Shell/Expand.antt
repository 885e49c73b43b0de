-- ===== src/Shell/Expand.antt =====
-- What an alias becomes, and one that is missed.
use comp304_assignments.Prelude.{
  ℕ, zero, suc, ◌+◌, ◌≤◌, ◌<◌, ◌≡◌, refl, sym, ap, subst, ◌∙◌, true, false, Option, none, some,
  List, [], ◌∷◌, ◌++◌, arith, ltb, ◌==◌, if◌then◌else◌, length, length-append, lt→ltb, le→leb,
}
use mathlib.Core.List.{append_assoc}
use comp304_assignments.Shell.Text.{Text}
use comp304_assignments.Shell.Replace.{Location, behind, starts_with, strstr, skip, replace}
use comp304_assignments.Shell.Alias.{
  split_alias, c_string, put_alias, Expanded, line_is, fault, overrun, or_overrun, expand_at,
  expand, at_word,
}
use comp304_assignments.Shell.Endless.{has, is_found}

-- The character is not in the text.
abbrev pub Avoids : ℕ → Text → Type 0
Avoids c [] = Unit
Avoids c (d ∷ ds) = ((d == c) ≡ false) × Avoids c ds

split_alias-append :
    (name command : Text)
    → Avoids b';' name
    → split_alias (name ++ b';' ∷ command) ≡ some (name, command)
unfolding split_alias
split_alias-append [] command h = refl
split_alias-append (c ∷ cs) command (h, t) = ground (arith, split_alias-append cs command t, h)

c_string-append : (s q : Text) → Avoids 0 s → c_string (s ++ 0 ∷ q) ≡ s
unfolding c_string
c_string-append [] q h = refl
c_string-append (c ∷ cs) q (h, t) = ground (arith, c_string-append cs q t, h)

skip-append : (n : ℕ) (s q : Text) → skip (length s + n) (s ++ q) ≡ skip n q
unfolding skip
skip-append n [] q = let z : 0 + n ≡ n = omega arith in ap (λ m. skip m q) z
skip-append n (c ∷ cs) q =
    let z : suc (length cs) + n ≡ suc (length cs + n) = omega arith in
    ap (λ m. skip m (c ∷ (cs ++ q))) z ∙ skip-append n cs q

skip_all : (n : ℕ) (s q : Text) → length s ≡ n → skip n (s ++ q) ≡ q
unfolding skip
skip_all n [] q e = subst (λ m. skip m q ≡ q) e refl
skip_all n (c ∷ cs) q e = subst (λ m. skip m (c ∷ (cs ++ q)) ≡ q) e (skip_all (length cs) cs q refl)

-- The array with a blank behind its string.
pub put_alias_lem :
    (name array s q : Text)
    → name ++ skip (length name) array ≡ s ++ 0 ∷ q
    → Avoids 0 s
    → length name ≤ 100
    → length s + 1 < 100
    → put_alias name array ≡ some (s ++ 32 ∷ 0 ∷ skip 1 q)
unfolding put_alias skip
put_alias_lem name array s q e h n l = rw (
  e,
  c_string-append s q h,
  le→leb (length name) 100 n,
  lt→ltb (length s + 1) 100 l,
  skip-append 2 s (0 ∷ q),
)

pub Avoids-append : (c : ℕ) (s t : Text) → Avoids c s → Avoids c t → Avoids c (s ++ t)
Avoids-append c [] t h k = k
Avoids-append c (d ∷ ds) t (h, hs) k = (h, Avoids-append c ds t hs k)

abbrev pub go_on : List Text → List ℕ → Expanded → Expanded
go_on tokens filled (line_is next) = expand tokens filled next
go_on tokens filled fault = fault
go_on tokens filled overrun = overrun

-- The round of an alias, by its parts.
abbrev with_array : List Text → Text → Text → Option (List ℕ) → Expanded
with_array tokens temp command none = overrun
with_array tokens temp command (some filled) =
    if ltb (length command + 1) 400
    then go_on tokens filled
        (expand_at (c_string filled) (command ++ 32 ∷ []) temp (strstr temp (c_string filled)))
    else overrun

abbrev with_split : List Text → List ℕ → Text → Option (Text × Text) → Expanded
with_split tokens array temp none = fault
with_split tokens array temp (some (name, command)) =
    with_array tokens temp command (put_alias name array)

-- The round of an alias whose array is known.
pub expand-cons :
    (name command : Text) (tokens : List Text) (array filled temp alias : Text)
    → Avoids b';' name
    → length command + 1 < 400
    → put_alias name array ≡ some filled
    → c_string filled ≡ alias
    → expand ((name ++ b';' ∷ command) ∷ tokens) array temp
      ≡ go_on tokens filled (expand_at alias (command ++ 32 ∷ []) temp (strstr temp alias))
unfolding expand
expand-cons name command tokens array filled temp alias h l p a =
    ap (with_split tokens array temp) (split_alias-append name command h)
    ∙ ap (with_array tokens temp command) p
    ∙ ap
        (λ b.
          if b
          then go_on tokens filled (
              expand_at (c_string filled) (command ++ 32 ∷ []) temp (strstr temp (c_string filled)))
          else overrun)
        (lt→ltb (length command + 1) 400 l)
    ∙ ap (λ t. go_on tokens filled (expand_at t (command ++ 32 ∷ []) temp (strstr temp t))) a

abbrev pub zeros : ℕ → List ℕ
zeros zero = []
zeros (suc n) = 0 ∷ zeros n

skip-zeros : (n m : ℕ) → skip n (zeros (n + m)) ≡ zeros m
unfolding skip
skip-zeros zero m = let z : 0 + m ≡ m = omega arith in ap zeros z
skip-zeros (suc n) m =
    let z : suc n + m ≡ suc (n + m) = omega arith in
    ap (λ k. skip (suc n) (zeros k)) z ∙ skip-zeros n m

starts_with-append_self : (p t : Text) → starts_with p (p ++ t) ≡ true
unfolding starts_with
starts_with-append_self [] t = refl
starts_with-append_self (c ∷ cs) t = ground (arith, starts_with-append_self cs t)

strstr-append_self : (c : ℕ) (p t : Text) → strstr (c ∷ (p ++ t)) (c ∷ p) ≡ some ([], c ∷ (p ++ t))
unfolding strstr
strstr-append_self c p t =
    ap (λ b. if b then some ([], c ∷ (p ++ t)) else behind c (strstr (p ++ t) (c ∷ p)))
      (starts_with-append_self (c ∷ p) t)

-- The array that was zeroed, with an alias in it.
abbrev pub filled_with : Text → ℕ → List ℕ
filled_with name m = name ++ 32 ∷ 0 ∷ zeros m

pub put_alias-zeros :
    (name : Text) (m : ℕ)
    → Avoids 0 name
    → length name + suc (suc m) ≡ 100
    → put_alias name (zeros 100) ≡ some (filled_with name m)
unfolding skip
put_alias-zeros name m h l =
    put_alias_lem name (zeros 100) name (0 ∷ zeros m)
      (ap (λ q. name ++ q)
        (ap (λ n. skip (length name) (zeros n)) (sym l) ∙ skip-zeros (length name) (suc (suc m))))
      h (omega arith) (omega arith)

-- The string with its blank.
pub c_string_blank : (s q : Text) → Avoids 0 s → c_string (s ++ 32 ∷ 0 ∷ q) ≡ s ++ 32 ∷ []
c_string_blank s q h =
    ap c_string (sym (append_assoc s (32 ∷ []) (0 ∷ q)))
    ∙ c_string-append (s ++ 32 ∷ []) q (Avoids-append 0 s (32 ∷ []) h (refl, tt))

-- A line that starts with the alias.
pub expand_at_start :
    (c : ℕ) (alias comm rest : Text)
    → length comm + length rest < 4096
    → expand_at (c ∷ alias) comm (c ∷ (alias ++ rest)) (strstr (c ∷ (alias ++ rest)) (c ∷ alias))
      ≡ line_is (comm ++ rest)
unfolding expand_at at_word replace skip
expand_at_start c alias comm rest l =
    ap (expand_at (c ∷ alias) comm (c ∷ (alias ++ rest))) (strstr-append_self c alias rest)
    ∙ ap (λ t. or_overrun (if ltb (length (comm ++ t)) 4096 then some (comm ++ t) else none))
        (skip_all (length alias) alias rest refl)
    ∙ ap (λ b. or_overrun (if b then some (comm ++ rest) else none))
        (lt→ltb (length (comm ++ rest)) 4096 (omega (arith, length-append comm rest)))

-- The line is searched in vain.
pub expand_at_missing :
    (alias comm temp : Text)
    → has temp alias ≡ false
    → expand_at alias comm temp (strstr temp alias) ≡ line_is temp
unfolding expand_at
expand_at_missing alias comm temp h = by_cases (strstr temp alias) h
  where
    by_cases :
        (o : Option Location) → is_found o ≡ false → expand_at alias comm temp o ≡ line_is temp
    by_cases none h = refl
    by_cases (some loc) h = absurd (ground arith)
