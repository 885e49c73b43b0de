-- ===== src/Shell/Editor.antt =====
-- The keys of a line against an editor that holds it as a list.
use comp304_assignments.Prelude.{
  ℕ, zero, suc, ◌+◌, ◌-◌, ◌≤◌, ◌<◌, ◌≡◌, refl, sym, ap, subst, Bool, true, false, ◌&&◌, Option,
  none, some, List, [], ◌∷◌, ◌++◌, arith, ltb, leb, ◌==◌, if◌then◌else◌, length, lt→ltb, lt→not_leb,
}
use comp304_assignments.Shell.Text.{Text}
use comp304_assignments.Shell.Parse.{Command}
use comp304_assignments.Shell.Alias.{check_for_aliases}
use comp304_assignments.Shell.Prompt.{
  Editor, Step, set_char, string_in, write_string, put_char, go_on, stop, leave, unended,
  is_ignored, type_char, press, end_at, end_line, Entry, entered, exited, waiting, overran,
  or_overran, edit, start_line, Prompted, on_entry, parse_expanded, prompt,
}
use comp304_assignments.Shell.Chars.{
  drop_first, edited, edited_all, turn, IsPlain, ArePlain, Holds, Shows, set_char_same,
  Holds-set_char, Shows-turn, Shows-write_string, length-turn, read_string_lem, Holds-length,
}

-- The editor holds the list.
abbrev pub Agrees : Text → Editor → Type 0
Agrees s e = Holds e.buf e.index s

put_char-Agrees :
    (c : ℕ) (s : Text) (e : Editor) → (c == 0) ≡ false → Agrees s e → Agrees (c ∷ s) (put_char c e)
unfolding put_char
put_char-Agrees c s e z h =
    subst (λ n. Holds (set_char e.buf e.index c) n (c ∷ s)) (next e.index)
      (set_char_same e.buf e.index c, z, Holds-set_char e.buf e.index c e.index s (omega arith) h)
  where
    next : (m : ℕ) → suc m ≡ m + 1
    next m = omega arith

index-put_char : (c : ℕ) (e : Editor) → (put_char c e).index ≡ e.index + 1
unfolding put_char
index-put_char c e = refl

-- The step goes on with an editor that holds the list, with an index of at most `n`.
abbrev Moves : Text → ℕ → Step → Type 0
Moves s n (go_on e) = Agrees s e × (e.index ≤ n)
Moves s n (stop e) = ⊥
Moves s n leave = ⊥
Moves s n unended = ⊥

back-Moves :
    (f g : ℕ → ℕ) (i : ℕ) (s : Text)
    → Holds f i s
    → Moves (drop_first s) (i + 1) (
        go_on (
          if ltb 0 i
          then record { buf = f; index = i - 1; oldbuf = g }
          else record { buf = f; index = i; oldbuf = g }))
back-Moves f g zero [] h = (refl, omega arith)
back-Moves f g zero (c ∷ s) h = absurd h
back-Moves f g (suc m) [] h = absurd (omega arith)
back-Moves f g (suc m) (c ∷ s) (e, z, h) =
    let back : suc m - 1 ≡ m = omega arith in
    subst
      (λ b. Moves s (suc m + 1) (
        go_on (
          if b
          then record { buf = f; index = suc m - 1; oldbuf = g }
          else record { buf = f; index = suc m; oldbuf = g })))
      (sym (lt→ltb 0 (suc m) (omega arith))) (subst (λ i. Holds f i s) (sym back) h, omega arith)

press-Moves :
    (c : ℕ) (s : Text) (e : Editor)
    → IsPlain c
    → Agrees s e
    → e.index + 1 < 4095
    → Moves (edited c s) (e.index + 1) (press c e)
unfolding press type_char
press-Moves c s e (tab, up, enter, out, z) h l =
    rw (tab, up, lt→not_leb 4095 (e.index + 1) l, enter, out) (by_cases (c == 127) (is_ignored c))
  where
    by_cases :
        (b d : Bool)
        → Moves (if b then drop_first s else if d then s else c ∷ s) (e.index + 1) (
            if b
            then go_on (if ltb 0 e.index then record e { index = e.index - 1 } else e)
            else if d
            then go_on e
            else go_on (put_char c e))
    by_cases true d = back-Moves e.buf e.oldbuf e.index s h
    by_cases false true = (h, omega arith)
    by_cases false false = (put_char-Agrees c s e z h, omega (arith, index-put_char c e))

-- The line is the text, and so is what the next up arrow brings.
abbrev pub Enters : Text → Entry → Type 0
Enters t (entered u e) = (u ≡ t) × (string_in e.oldbuf ≡ some t)
Enters t exited = ⊥
Enters t waiting = ⊥
Enters t overran = ⊥

string_in_lem : (f : ℕ → ℕ) (t : Text) → length t < 4096 → Shows f 0 t → string_in f ≡ some t
unfolding string_in
string_in_lem f t l h = read_string_lem 4096 f 0 t l h

end_at_lem :
    (s : Text) (e : Editor) (n : ℕ)
    → Holds e.buf n s
    → length s < 4096
    → Enters (turn s []) (or_overran (end_at n e))
unfolding end_at
end_at_lem s e n h l =
    let shown =
      Shows-turn (set_char e.buf n 0) n s [] (Holds-set_char e.buf n 0 n s (omega arith) h)
        (set_char_same e.buf n 0) in
    subst
      (λ o. Enters (turn s []) (
        or_overran (elim o [
          | none ↦ none
          | some t ↦ some (
            t,
            record { buf = set_char e.buf n 0; index = n + 1; oldbuf = write_string 0 t e.oldbuf },
          )
        ])))
      (sym (string_in_lem (set_char e.buf n 0) (turn s []) (omega (arith, length-turn s [])) shown))
      (
        refl,
        string_in_lem (write_string 0 (turn s []) e.oldbuf) (turn s [])
            (omega (arith, length-turn s []))
            (Shows-write_string (turn s []) (set_char e.buf n 0) e.oldbuf 0 0 shown),
      )

-- The newline that was typed is the last character.
newline_place :
    (f : ℕ → ℕ) (i : ℕ)
    → f i ≡ 10
    → (if ltb 0 (i + 1) && (f (i + 1 - 1) == 10) then i + 1 - 1 else i + 1) ≡ i
newline_place f i h =
    let back : i + 1 - 1 ≡ i = omega arith in rw (back, h, lt→ltb 0 (i + 1) (omega arith))

end_line_lem :
    (s : Text) (e : Editor)
    → Agrees s e
    → length s < 4095
    → Enters (turn s []) (or_overran (end_line (put_char 10 e)))
unfolding end_line put_char
end_line_lem s e h l =
    subst (λ n. Enters (turn s []) (or_overran (end_at n (put_char 10 e))))
      (sym (newline_place (set_char e.buf e.index 10) e.index (set_char_same e.buf e.index 10)))
      (end_at_lem s (put_char 10 e) e.index
        (Holds-set_char e.buf e.index 10 e.index s (omega arith) h) (omega arith))

-- Enter ends the line.
enter_lem :
    (s : Text) (e : Editor) → Agrees s e → length s < 4095 → Enters (turn s []) (edit (10 ∷ []) e)
unfolding edit press type_char
enter_lem s e h l = by_cases (leb 4095 (e.index + 1))
  where
    by_cases :
        (b : Bool)
        → Enters (turn s []) (elim (if b then stop (put_char 10 e) else stop (put_char 10 e)) [
          | go_on next ↦ edit [] next
          | stop last ↦ or_overran (end_line last)
          | leave ↦ exited
          | unended ↦ overran
        ])
    by_cases true = end_line_lem s e h l
    by_cases false = end_line_lem s e h l

-- The rest of the keys behind a step.
step_lem :
    (keys : List ℕ) (s : Text) (n : ℕ) (t : Text) (st : Step)
    → Moves s n st
    → ((e : Editor) → Agrees s e → e.index ≤ n → Enters t (edit keys e))
    → Enters t (elim st [
      | go_on next ↦ edit keys next
      | stop last ↦ or_overran (end_line last)
      | leave ↦ exited
      | unended ↦ overran
    ])
step_lem keys s n t (go_on e) (h, l) f = f e h l
step_lem keys s n t (stop e) h f = absurd h
step_lem keys s n t leave h f = absurd h
step_lem keys s n t unended h f = absurd h

edit_lem :
    (keys : List ℕ) (s : Text) (e : Editor)
    → ArePlain keys
    → Agrees s e
    → e.index + length keys + 1 < 4095
    → Enters (turn (edited_all keys s) []) (edit (keys ++ 10 ∷ []) e)
unfolding edit
edit_lem [] s e p h l = enter_lem s e h (omega (arith, Holds-length e.buf e.index s h))
edit_lem (c ∷ cs) s e (p, ps) h l =
    step_lem (cs ++ 10 ∷ []) (edited c s) (e.index + 1) (turn (edited_all cs (edited c s)) [])
      (press c e) (press-Moves c s e p h (omega arith))
      (λ next a i. edit_lem cs (edited c s) next ps a (omega arith))

on_entry_lem :
    (o : Entry) (t : Text) (f : Text → Editor → Prompted)
    → Enters t o
    → (next : Editor) × (string_in next.oldbuf ≡ some t) × (on_entry o f ≡ f t next)
on_entry_lem (entered u e) t f (h, k) = (e, k, ap (λ v. f v e) h)
on_entry_lem exited t f h = absurd h
on_entry_lem waiting t f h = absurd h
on_entry_lem overran t f h = absurd h

-- On keys that are no tab, no `A` (the code of the up arrow), no newline, no Ctrl+D and no NUL,
-- fewer than 4094, and Enter behind them, `prompt` does what the expansion of aliases and the
-- parser do with the line that a list editor has: a key goes in front of the list, 127 takes the
-- first back, the keys 27, `[`, `B`, `C` and `D` do nothing. The line is also what the next up
-- arrow brings. What the buffer held before does not matter.
pub prompt-edited :
    (blank : Command) (blank_next : List Command) (k : ℕ) (junk : Text) (aliases : Option Text)
    (array keys : List ℕ) (e : Editor) (command : Command)
    → ArePlain keys
    → length keys < 4094
    → (next : Editor) × (string_in next.oldbuf ≡ some (turn (edited_all keys []) []))
      × (prompt blank blank_next k junk aliases array (keys ++ 10 ∷ []) e command
          ≡ parse_expanded blank blank_next k command next
              (check_for_aliases k junk aliases array (turn (edited_all keys []) [])))
unfolding prompt start_line
prompt-edited blank blank_next k junk aliases array keys e command p l =
    on_entry_lem (edit (keys ++ 10 ∷ []) (start_line e)) (turn (edited_all keys []) [])
      (λ line next.
        parse_expanded blank blank_next k command next
          (check_for_aliases k junk aliases array line))
      (edit_lem keys [] (start_line e) p refl (omega arith))
