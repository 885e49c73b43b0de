-- ===== src/Shell/Aliases.antt =====
-- One alias in the file, and two of which the second is shorter.
use comp304_assignments.Prelude.{
  ℕ, zero, suc, ◌+◌, ◌-◌, ◌≤◌, ◌<◌, ◌≡◌, refl, sym, ap, ◌∙◌, false, some, [], ◌∷◌, ◌++◌, arith,
  length, length-append, if◌then◌else◌, lt→ltb, ltb,
}
use mathlib.Core.List.{append_assoc}
use comp304_assignments.Shell.Text.{Text}
use comp304_assignments.Shell.Replace.{skip}
use comp304_assignments.Shell.Alias.{
  no_file, text_is, too_long, endless, open_lines, lines_of, close_line, put_alias, line_is,
  overrun, expand, check_for_aliases,
}
use comp304_assignments.Shell.File.{read_from_file_lem}
use comp304_assignments.Shell.Endless.{has}
use comp304_assignments.Shell.Expand.{
  Avoids, Avoids-append, go_on, expand-cons, zeros, filled_with, put_alias-zeros, put_alias_lem,
  c_string_blank, expand_at_start, expand_at_missing,
}

-- A single line with its end.
open_lines_lem : (line : Text) → Avoids 10 line → open_lines (line ++ 10 ∷ []) ≡ (line, [])
unfolding open_lines
open_lines_lem [] h = refl
open_lines_lem (c ∷ cs) (h, t) = rw (h, open_lines_lem cs t)

-- The line with the blank that is put behind it.
line_shape :
    (c : ℕ) (cs rest : Text)
    → (c ∷ (cs ++ 32 ∷ rest)) ++ 32 ∷ [] ≡ c ∷ ((cs ++ 32 ∷ []) ++ (rest ++ 32 ∷ []))
line_shape c cs rest =
    ap (λ t. c ∷ t)
      (append_assoc cs (32 ∷ rest) (32 ∷ []) ∙ sym (append_assoc cs (32 ∷ []) (rest ++ 32 ∷ [])))

expand_start :
    (c : ℕ) (cs command rest : Text) (m : ℕ)
    → Avoids b';' (c ∷ cs)
    → Avoids 0 (c ∷ cs)
    → length (c ∷ cs) + suc (suc m) ≡ 100
    → length command + 1 < 400
    → length command + length rest + 2 < 4096
    → expand (((c ∷ cs) ++ b';' ∷ command) ∷ []) (zeros 100) ((c ∷ (cs ++ 32 ∷ rest)) ++ 32 ∷ [])
      ≡ line_is ((command ++ 32 ∷ []) ++ (rest ++ 32 ∷ []))
unfolding expand
expand_start c cs command rest m h z l n r =
    ap (expand (((c ∷ cs) ++ b';' ∷ command) ∷ []) (zeros 100)) (line_shape c cs rest)
    ∙ expand-cons (c ∷ cs) command [] (zeros 100) (filled_with (c ∷ cs) m)
        (c ∷ ((cs ++ 32 ∷ []) ++ (rest ++ 32 ∷ []))) (c ∷ (cs ++ 32 ∷ [])) h n
        (put_alias-zeros (c ∷ cs) m z l) (c_string_blank (c ∷ cs) (zeros m) z)
    ∙ ap (go_on [] (filled_with (c ∷ cs) m)) (
        expand_at_start c (cs ++ 32 ∷ []) (command ++ 32 ∷ []) (rest ++ 32 ∷ [])
          (omega (arith, length-append command (32 ∷ []), length-append rest (32 ∷ []))))

entry_short :
    (name command : Text)
    → length name ≤ 98
    → length command + 1 < 400
    → length ((name ++ b';' ∷ command) ++ 10 ∷ []) ≤ 498
entry_short name command l n =
    omega
      (arith, length-append (name ++ b';' ∷ command) (10 ∷ []), length-append name (b';' ∷ command))

-- What is left of the array behind the alias and two characters.
rest_of_array : (n : ℕ) → n ≤ 98 → n + suc (suc (98 - n)) ≡ 100
rest_of_array n h = omega arith

-- A line that starts with the only alias of the file, and a blank, starts with its command then.
pub check_for_aliases-start :
    (k c : ℕ) (cs command rest : Text)
    → Avoids b';' (c ∷ cs)
    → Avoids 0 (c ∷ cs)
    → Avoids 10 ((c ∷ cs) ++ b';' ∷ command)
    → length (c ∷ cs) ≤ 98
    → length command + 1 < 400
    → length command + length rest + 2 < 4096
    → length rest < 3900
    → 500 ≤ k
    → check_for_aliases k []
        (some (((c ∷ cs) ++ b';' ∷ command) ++ 10 ∷ []))
        (zeros 100)
        (c ∷ (cs ++ 32 ∷ rest))
      ≡ line_is ((command ++ 32 ∷ []) ++ (rest ++ 32 ∷ []))
unfolding check_for_aliases lines_of
check_for_aliases-start k c cs command rest h z e l n r short b =
    ap
      (λ f. elim f [
        | no_file ↦ line_is (c ∷ (cs ++ 32 ∷ rest))
        | text_is text ↦
            if ltb (length (c ∷ (cs ++ 32 ∷ rest)) + 1) 4096
            then expand (lines_of text) (zeros 100) ((c ∷ (cs ++ 32 ∷ rest)) ++ 32 ∷ [])
            else overrun
        | too_long ↦ overrun
        | endless ↦ overrun
      ])
      (read_from_file_lem k (((c ∷ cs) ++ b';' ∷ command) ++ 10 ∷ [])
        (omega (arith, entry_short (c ∷ cs) command l n))
        (omega (arith, entry_short (c ∷ cs) command l n)))
    ∙ ap
        (λ b.
          if b
          then expand (lines_of (((c ∷ cs) ++ b';' ∷ command) ++ 10 ∷ [])) (zeros 100)
              ((c ∷ (cs ++ 32 ∷ rest)) ++ 32 ∷ [])
          else overrun)
        (lt→ltb (length (c ∷ (cs ++ 32 ∷ rest)) + 1) 4096
          (omega (arith, length-append cs (32 ∷ rest))))
    ∙ ap (λ o. expand (close_line o) (zeros 100) ((c ∷ (cs ++ 32 ∷ rest)) ++ 32 ∷ []))
        (open_lines_lem ((c ∷ cs) ++ b';' ∷ command) e)
    ∙ expand_start c cs command rest (98 - length (c ∷ cs)) h z (rest_of_array (length (c ∷ cs)) l)
        n r

skip-append_short : (n : ℕ) (s q : Text) → n ≤ length s → skip n (s ++ q) ≡ skip n s ++ q
unfolding skip
skip-append_short zero s q h = refl
skip-append_short (suc n) [] q h = absurd (omega arith)
skip-append_short (suc n) (c ∷ cs) q h = skip-append_short n cs q (omega arith)

Avoids-skip : (c n : ℕ) (s : Text) → Avoids c s → Avoids c (skip n s)
unfolding skip
Avoids-skip c zero s h = h
Avoids-skip c (suc n) [] h = tt
Avoids-skip c (suc n) (d ∷ ds) (h, t) = Avoids-skip c n ds t

length-skip_short : (n : ℕ) (s : Text) → n ≤ length s → length (skip n s) + n ≡ length s
unfolding skip
length-skip_short zero s h = omega arith
length-skip_short (suc n) [] h = absurd (omega arith)
length-skip_short (suc n) (c ∷ cs) h = omega (arith, length-skip_short n cs (omega arith))

-- What the array holds behind a shorter alias: the end of the one before with its blank.
abbrev pub stale : (before name : Text) → Text
stale before name = name ++ skip (length name) (before ++ 32 ∷ [])

stale-Avoids : (before name : Text) → Avoids 0 before → Avoids 0 name → Avoids 0 (stale before name)
stale-Avoids before name h k =
    let old = before ++ 32 ∷ [] in
    Avoids-append 0 name (skip (length name) old) k
      (Avoids-skip 0 (length name) old (Avoids-append 0 before (32 ∷ []) h (refl, tt)))

put_alias-stale :
    (before name : Text) (m : ℕ)
    → Avoids 0 before
    → Avoids 0 name
    → length name ≤ length before
    → length before ≤ 96
    → put_alias name (filled_with before m) ≡ some (stale before name ++ 32 ∷ 0 ∷ skip 1 (zeros m))
put_alias-stale before name m h k l n =
    let old = before ++ 32 ∷ [] in
    let sizes =
      length-skip_short (length name) old (omega (arith, length-append before (32 ∷ []))) in
    put_alias_lem name (filled_with before m) (stale before name) (zeros m)
      (ap (λ q. name ++ q)
          (ap (skip (length name)) (sym (append_assoc before (32 ∷ []) (0 ∷ zeros m)))
            ∙ skip-append_short (length name) old (0 ∷ zeros m)
                (omega (arith, length-append before (32 ∷ []))))
        ∙ sym (append_assoc name (skip (length name) old) (0 ∷ zeros m)))
      (stale-Avoids before name h k) (omega arith)
      (omega
        (arith, length-append name (skip (length name) old), length-append before (32 ∷ []), sizes))

-- Let the first alias of the file be in a zeroed array, and the second be no longer. Then the line
-- stays as it is unless it has the first alias with a blank, or the second one with the end of the
-- first, its blank and another blank behind it; the second alias with a blank is not looked for.
-- The names have no `;` and no NUL, the first at most 96 characters, the commands fewer than 399.
pub expand-stale :
    (before name one two temp : Text)
    → Avoids b';' before
    → Avoids b';' name
    → Avoids 0 before
    → Avoids 0 name
    → length name ≤ length before
    → length before ≤ 96
    → length one + 1 < 400
    → length two + 1 < 400
    → has temp (before ++ 32 ∷ []) ≡ false
    → has temp (stale before name ++ 32 ∷ []) ≡ false
    → expand ((before ++ b';' ∷ one) ∷ (name ++ b';' ∷ two) ∷ []) (zeros 100) temp ≡ line_is temp
unfolding expand
expand-stale before name one two temp h k z y l n i j f g =
    let m = 98 - length before in
    expand-cons before one ((name ++ b';' ∷ two) ∷ []) (zeros 100) (filled_with before m) temp
      (before ++ 32 ∷ []) h i
      (put_alias-zeros before m z (rest_of_array (length before) (omega arith)))
      (c_string_blank before (zeros m) z)
    ∙ ap (go_on ((name ++ b';' ∷ two) ∷ []) (filled_with before m))
        (expand_at_missing (before ++ 32 ∷ []) (one ++ 32 ∷ []) temp f)
    ∙ expand-cons name two [] (filled_with before m)
        (stale before name ++ 32 ∷ 0 ∷ skip 1 (zeros m)) temp (stale before name ++ 32 ∷ []) k j
        (put_alias-stale before name m z y l n)
        (c_string_blank (stale before name) (skip 1 (zeros m)) (stale-Avoids before name z y))
    ∙ ap (go_on [] (stale before name ++ 32 ∷ 0 ∷ skip 1 (zeros m)))
        (expand_at_missing (stale before name ++ 32 ∷ []) (two ++ 32 ∷ []) temp g)
