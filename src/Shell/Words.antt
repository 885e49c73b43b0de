-- ===== src/Shell/Words.antt =====
-- What `parse_command` makes of lines of words.
use mathlib.Core.List.{append_assoc, append-nil}
use comp304_assignments.Prelude.{
  ℕ, zero, suc, ◌+◌, ◌-◌, ◌<◌, ◌≡◌, refl, ap, sym, ◌∙◌, false, ◌||◌, Option, none, some, List, [],
  ◌∷◌, ◌++◌, arith, length, lt→not_leb,
}
use comp304_assignments.Shell.Text.{
  Text, is_empty, trim_left, trim_right, strtok, word, after_word, equal, ends_with,
}
use comp304_assignments.Shell.Line.{
  IsWord, AllWords, line, line_rest, trim_left-line, trim_right-line, strtok-line,
}
use comp304_assignments.Shell.Parse.{
  Command, Outcome, parsed, fault, Progress, finish, redirection, unquote, add_arg, take_arg,
  pipe_sign, pipe_to, act, piped, set_redirect, done, again, round, read_token, read_arg,
  parse_loop, begin, parse_command,
}

-- A word that is an argument as it stands: not `|` or `&`, no redirection, no quotes around it, and
-- short enough for `temp_buf`.
pub record IsArg (w : Text) : Type 0 where
  pub is_word : IsWord w
  pub short : length w < 1024
  pub no_pipe : equal w pipe_sign ≡ false
  pub no_background : equal w (38 ∷ []) ≡ false
  pub no_redirection : redirection w ≡ none
  pub no_quotes : unquote w ≡ w

-- A word that redirects, with index `i`.
pub record IsRedirection (i : ℕ) (w : Text) : Type 0 where
  pub is_word : IsWord w
  pub short : length w < 1024
  pub no_pipe : equal w pipe_sign ≡ false
  pub no_background : equal w (38 ∷ []) ≡ false
  pub redirects : redirection w ≡ some i

abbrev pub AllArgs : List Text → Type 0
AllArgs [] = Unit
AllArgs (w ∷ ws) = IsArg w × AllArgs ws

-- The variables of the loop, outside a redirection.
abbrev at_rest : Command → List Text → ℕ → List Command → Progress
at_rest c args order next = record {
  command = c;
  args = args;
  redirect_index = none;
  redirection_order = order;
  next = next;
}

module _ (parse : Text → Outcome) (c : Command) (order : ℕ) (next : List Command) where
  word_not_empty : (w : Text) → IsWord w → is_empty w ≡ false
  word_not_empty [] h = absurd h
  word_not_empty (c ∷ cs) h = refl

  -- One round at an argument.
  round-arg :
      (w : Text) (rest : Option Text) (args : List Text)
      → IsArg w
      → round parse (some (w, rest)) none (at_rest c args order next)
        ≡ again rest (at_rest c (args ++ w ∷ []) order next)
  unfolding round read_arg read_token take_arg add_arg
  round-arg w rest args a = rw (
    lt→not_leb 1024 (length w) a.short,
    trim_left-line w [] a.is_word,
    trim_right-line w [] a.is_word tt,
    a.no_pipe,
    word_not_empty w a.is_word,
    a.no_background,
    a.no_redirection,
    a.no_quotes,
  )

  -- The loop over arguments.
  loop-args :
      (n k : ℕ) (args ws vs : List Text)
      → AllArgs ws
      → n ≡ length ws + k
      → parse_loop parse n (line_rest (ws ++ vs)) (at_rest c args order next)
        ≡ parse_loop parse k (line_rest vs) (at_rest c (args ++ ws) order next)
  unfolding parse_loop
  loop-args n k args [] vs a e = let e' : n ≡ k = omega (arith, e) in rw (append-nil args, e')
  loop-args zero k args (w ∷ ws) vs a e = absurd (omega arith)
  loop-args (suc n) k args (w ∷ ws) vs a e =
      ap (λ r. elim r [ done o ↦ o | again s p ↦ parse_loop parse n s p ])
        (ap (λ t. round parse t none (at_rest c args order next))
            (strtok-line w (ws ++ vs) a.0.is_word)
          ∙ round-arg w (line_rest (ws ++ vs)) args a.0)
      ∙ loop-args n k (args ++ w ∷ []) ws vs a.1 (omega arith)
      ∙ ap (λ xs. parse_loop parse k (line_rest vs) (at_rest c xs order next))
          (append_assoc args (w ∷ []) ws)

  -- The end of the string.
  loop-end :
      (k : ℕ) (args : List Text)
      → 0 < k
      → parse_loop parse k none (at_rest c args order next)
        ≡ parsed (record c { args = c.name ∷ args } ∷ next)
  unfolding parse_loop strtok round finish
  loop-end zero args h = absurd (omega arith)
  loop-end (suc k) args h = refl

  round-redirection :
      (i : ℕ) (args : List Text) (r : Text)
      → IsRedirection i r
      → order < 3
      → round parse (some (r, none)) none (at_rest c args order next)
        ≡ again none (set_redirect i r (at_rest c args order next))
  unfolding round read_arg read_token take_arg
  round-redirection i args r d o = rw (
    lt→not_leb 1024 (length r) d.short,
    trim_left-line r [] d.is_word,
    trim_right-line r [] d.is_word tt,
    d.no_pipe,
    word_not_empty r d.is_word,
    d.no_background,
    d.redirects,
    lt→not_leb 3 order o,
  )

  -- The loop at a redirection that ends the line.
  loop-dangling :
      (k i : ℕ) (args : List Text) (r : Text)
      → 1 < k
      → IsRedirection i r
      → order < 3
      → parse_loop parse k (some r) (at_rest c args order next) ≡ fault
  unfolding parse_loop strtok round set_redirect
  loop-dangling zero i args r h d o = absurd (omega arith)
  loop-dangling (suc zero) i args r h d o = absurd (omega arith)
  loop-dangling (suc (suc k)) i args r h d o =
      ap (λ x. elim x [ done q ↦ q | again s p ↦ parse_loop parse (suc k) s p ])
        (ap (λ t. round parse t none (at_rest c args order next)) (strtok-line r [] d.is_word)
          ∙ round-redirection i args r d o)

  -- The loop at a pipe.
  loop-pipe :
      (k : ℕ) (args : List Text) (rest : Text) (cs : List Command)
      → 1 < k
      → parse (trim_left rest) ≡ parsed cs
      → parse_loop parse k (some (124 ∷ 32 ∷ rest)) (at_rest c args order next)
        ≡ parsed (record c { args = c.name ∷ args } ∷ cs)
  unfolding parse_loop strtok trim_left trim_right word after_word equal round read_arg read_token
      pipe_to finish
  loop-pipe zero args rest cs h e = absurd (omega arith)
  loop-pipe (suc zero) args rest cs h e = absurd (omega arith)
  loop-pipe (suc (suc k)) args rest cs h e =
      ap
        (λ o. elim (act none (piped o (at_rest c args order next))) [
          | done q ↦ q
          | again s p ↦ parse_loop parse (suc k) s p
        ])
        e

AllArgs-AllWords : (ws : List Text) → AllArgs ws → AllWords ws
AllArgs-AllWords [] a = tt
AllArgs-AllWords (w ∷ ws) a = (a.0.is_word, AllArgs-AllWords ws a.1)

AllWords-append : (ws vs : List Text) → AllWords ws → AllWords vs → AllWords (ws ++ vs)
AllWords-append [] vs a b = b
AllWords-append (w ∷ ws) vs a b = (a.0, AllWords-append ws vs a.1 b)

-- The command of a line, before its arguments.
abbrev pub named : Text → Text → Command → Command
named buf name c = record c {
  name = name;
  background = ends_with 38 buf || c.background;
  auto_complete = ends_with 63 buf || c.auto_complete;
  redirect_idxs = λ _. none;
}

module _ (blank : Command) (blank_next : List Command) where
  -- The start of `parse_command` on a line of words.
  parse_command-start :
      (k : ℕ) (name : Text) (ws : List Text) (c : Command) (next : List Command)
      → IsWord name
      → AllWords ws
      → parse_command blank blank_next (suc k) (line name ws) c next
        ≡ parse_loop
            (λ rest. parse_command blank blank_next k rest blank blank_next)
            (suc k)
            (line_rest ws)
            (at_rest (named (line name ws) name c) [] 0 next)
  unfolding parse_command begin
  parse_command-start k name ws c next w a =
      rw (trim_left-line name ws w, trim_right-line name ws w a, strtok-line name ws w)

  -- `parse_command` of a line of words with one space between each two gives the command with the
  -- first word as its name and all words as its arguments, in order; `&` or `?` as the last
  -- character set the background and completion marks. The other words are no `|`, `&` or
  -- redirection, have no quotes around them and are shorter than 1024 characters, and the bound on
  -- rounds exceeds their number.
  pub parse_command-line :
      (k : ℕ) (name : Text) (ws : List Text) (c : Command) (next : List Command)
      → IsWord name
      → AllArgs ws
      → length ws < k
      → parse_command blank blank_next k (line name ws) c next
        ≡ parsed (record (named (line name ws) name c) { args = name ∷ ws } ∷ next)
  parse_command-line zero name ws c next w a h = absurd (omega arith)
  parse_command-line (suc k) name ws c next w a h =
      let parse : Text → Outcome = λ rest. parse_command blank blank_next k rest blank blank_next in
      let d = named (line name ws) name c in
      let left = suc k - length ws in
      parse_command-start k name ws c next w (AllArgs-AllWords ws a)
      ∙ ap (λ xs. parse_loop parse (suc k) (line_rest xs) (at_rest d [] 0 next))
          (sym (append-nil ws))
      ∙ loop-args parse d 0 next (suc k) left [] ws [] a (omega arith)
      ∙ loop-end parse d 0 next left ws (omega arith)

  -- `parse_command` of two lines of such words with ` | ` between them gives the two commands, the
  -- second as the `next` of the first. All that the parser does not set in the second, and its
  -- `next`, are what `malloc` left in it.
  pub parse_command-pipe :
      (k : ℕ) (name : Text) (ws : List Text) (other : Text) (vs : List Text) (c : Command)
      (next : List Command)
      → IsWord name
      → AllArgs ws
      → IsWord other
      → AllArgs vs
      → length ws < k
      → length vs < k
      → parse_command blank blank_next (suc k) (line name (ws ++ pipe_sign ∷ other ∷ vs)) c next
        ≡ parsed (
            record (named (line name (ws ++ pipe_sign ∷ other ∷ vs)) name c) { args = name ∷ ws }
            ∷ record (named (line other vs) other blank) { args = other ∷ vs }
            ∷ blank_next)
  parse_command-pipe k name ws other vs c next w a w' b h h' =
      let parse : Text → Outcome = λ rest. parse_command blank blank_next k rest blank blank_next in
      let more = pipe_sign ∷ other ∷ vs in
      let d = named (line name (ws ++ more)) name c in
      let left = suc k - length ws in
      let words : AllWords more = ((refl, tt), (w', AllArgs-AllWords vs b)) in
      parse_command-start k name (ws ++ more) c next w
        (AllWords-append ws more (AllArgs-AllWords ws a) words)
      ∙ loop-args parse d 0 next (suc k) left [] ws more a (omega arith)
      ∙ loop-pipe parse d 0 next left ws (line other vs)
          (record (named (line other vs) other blank) { args = other ∷ vs } ∷ blank_next)
          (omega arith)
          (ap parse (trim_left-line other vs w')
            ∙ parse_command-line k other vs blank blank_next w' b h')

  -- `parse_command` of such a line that ends with a word that redirects reads through NULL: the
  -- file name is missing, and the code takes its length.
  pub parse_command-dangling :
      (k i : ℕ) (name : Text) (ws : List Text) (r : Text) (c : Command) (next : List Command)
      → IsWord name
      → AllArgs ws
      → IsRedirection i r
      → length ws < k
      → parse_command blank blank_next (suc k) (line name (ws ++ r ∷ [])) c next ≡ fault
  parse_command-dangling k i name ws r c next w a d h =
      let parse : Text → Outcome = λ rest. parse_command blank blank_next k rest blank blank_next in
      let e = named (line name (ws ++ r ∷ [])) name c in
      let left = suc k - length ws in
      parse_command-start k name (ws ++ r ∷ []) c next w
        (AllWords-append ws (r ∷ []) (AllArgs-AllWords ws a) (d.is_word, tt))
      ∙ loop-args parse e 0 next (suc k) left [] ws (r ∷ []) a (omega arith)
      ∙ loop-dangling parse e 0 next left i ws r (omega arith) d (omega arith)
