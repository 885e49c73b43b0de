-- ===== src/Tests/Shell.antt =====
-- The theorems on `parse_command` at short lines.
use comp304_assignments.Prelude.{false, ◌≡◌, refl, none, [], ◌∷◌, arith}
use comp304_assignments.Shell.Text.{Text, equal}
use comp304_assignments.Shell.Line.{line}
use comp304_assignments.Shell.Parse.{
  Command, parsed, fault, pipe_sign, redirection, unquote, parse_command,
}
use comp304_assignments.Shell.Words.{
  IsArg, IsRedirection, named, parse_command-line, parse_command-pipe, parse_command-dangling,
}

abbrev blank : Command
blank = record {
  name = [];
  background = false;
  auto_complete = false;
  args = [];
  redirects = λ _. none;
  redirect_files = λ _. none;
  redirect_idxs = λ _. none;
}

-- ls, -l, wc, <
abbrev ls : Text
ls = 108 ∷ 115 ∷ []

abbrev dash_l : Text
dash_l = 45 ∷ 108 ∷ []

abbrev wc : Text
wc = 119 ∷ 99 ∷ []

abbrev less : Text
less = 60 ∷ []

dash_l-IsArg : IsArg dash_l
unfolding equal redirection unquote
dash_l-IsArg = record {
  is_word = (refl, (refl, tt));
  short = omega arith;
  no_pipe = refl;
  no_background = refl;
  no_redirection = refl;
  no_quotes = refl;
}

less-IsRedirection : IsRedirection 0 less
unfolding equal redirection
less-IsRedirection = record {
  is_word = (refl, tt);
  short = omega arith;
  no_pipe = refl;
  no_background = refl;
  redirects = refl;
}

parse_command-line_example :
    parse_command blank [] 2 (line ls (dash_l ∷ [])) blank []
    ≡ parsed (record (named (line ls (dash_l ∷ [])) ls blank) { args = ls ∷ dash_l ∷ [] } ∷ [])
parse_command-line_example =
    parse_command-line blank [] 2 ls (dash_l ∷ []) blank [] (refl, (refl, tt)) (dash_l-IsArg, tt)
      (omega arith)

parse_command-pipe_example :
    parse_command blank [] 3 (line ls (dash_l ∷ pipe_sign ∷ wc ∷ dash_l ∷ [])) blank []
    ≡ parsed (
        record (named (line ls (dash_l ∷ pipe_sign ∷ wc ∷ dash_l ∷ [])) ls blank) {
          args = ls ∷ dash_l ∷ [];
        }
        ∷ record (named (line wc (dash_l ∷ [])) wc blank) { args = wc ∷ dash_l ∷ [] }
        ∷ [])
parse_command-pipe_example =
    parse_command-pipe blank [] 2 ls (dash_l ∷ []) wc (dash_l ∷ []) blank [] (refl, (refl, tt))
      (dash_l-IsArg, tt) (refl, (refl, tt)) (dash_l-IsArg, tt) (omega arith) (omega arith)

parse_command-dangling_example :
    parse_command blank [] 3 (line ls (dash_l ∷ less ∷ [])) blank [] ≡ fault
parse_command-dangling_example =
    parse_command-dangling blank [] 2 0 ls (dash_l ∷ []) less blank [] (refl, (refl, tt))
      (dash_l-IsArg, tt) less-IsRedirection (omega arith)
