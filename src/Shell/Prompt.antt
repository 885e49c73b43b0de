-- ===== src/Shell/Prompt.antt =====
-- `prompt` of shell-skeleton.c. The settings and the echo of the terminal are left out.
use comp304_assignments.Prelude.{
  ℕ, zero, suc, ◌+◌, ◌-◌, Bool, ◌&&◌, ◌||◌, Option, none, some, List, [], ◌∷◌, ltb, leb, ◌==◌,
  if◌then◌else◌, length,
}
use comp304_assignments.Shell.Text.{Text}
use comp304_assignments.Shell.Parse.{Command, Outcome, parse_command}
use comp304_assignments.Shell.Alias.{Expanded, line_is, fault, overrun, check_for_aliases}

-- `buf`, which nothing clears, `index`, and the static `oldbuf`. An array is a function.
pub record Editor : Type 0 where
  pub buf : ℕ → ℕ
  pub index : ℕ
  pub oldbuf : ℕ → ℕ

unfoldable pub set_char : (ℕ → ℕ) → ℕ → ℕ → ℕ → ℕ
set_char f i c j = if j == i then c else f j

-- The string from `i` on; none where no NUL ends it in `k` characters.
unfoldable pub read_string : ℕ → (ℕ → ℕ) → ℕ → Option Text
read_string zero f i = none
read_string (suc k) f i =
    let rest = read_string k f (i + 1) in
    if f i == 0 then some [] else elim rest [ none ↦ none | some t ↦ some (f i ∷ t) ]

unfoldable pub string_in : (ℕ → ℕ) → Option Text
string_in f = read_string 4096 f 0

-- `strcpy` to the place `i`.
unfoldable pub write_string : ℕ → Text → (ℕ → ℕ) → ℕ → ℕ
unfolding set_char
write_string i [] f = set_char f i 0
write_string i (c ∷ cs) f = write_string (i + 1) cs (set_char f i c)

unfoldable pub put_char : ℕ → Editor → Editor
unfolding set_char
put_char c e = record e { buf = set_char e.buf e.index c; index = e.index + 1 }

-- What follows a key: the next one, the end of the line, Ctrl+D, or an array without a NUL.
pub data Step : Type 0 where
  go_on : Editor → Step
  stop : Editor → Step
  leave : Step
  unended : Step

-- The key 65: the line and the one before change places.
unfoldable pub swap_lines : Editor → Step
swap_lines e = elim (string_in e.buf) [
  | none ↦ unended
  | some tmpbuf ↦ elim (string_in e.oldbuf) [
    | none ↦ unended
    | some old ↦ go_on (record {
      buf = write_string 0 old e.buf;
      oldbuf = write_string 0 tmpbuf e.oldbuf;
      index = 0 + length old;
    })
  ]
]

abbrev pub is_ignored : ℕ → Bool
is_ignored c = (c == 27) || (c == 91) || (c == 66) || (c == 67) || (c == 68)

-- A character: the end of the buffer, Enter and Ctrl+D end the line.
unfoldable pub type_char : ℕ → Editor → Step
unfolding put_char
type_char c e =
    if leb 4095 (e.index + 1)
    then stop (put_char c e)
    else if c == 10
    then stop (put_char c e)
    else if c == 4
    then leave
    else go_on (put_char c e)

unfoldable pub press : ℕ → Editor → Step
unfolding swap_lines type_char put_char
press c e =
    if c == 9
    then stop (put_char b'?' e)
    else if c == 127
    then go_on (if ltb 0 e.index then record e { index = e.index - 1 } else e)
    else if is_ignored c
    then go_on e
    else if c == 65
    then swap_lines e
    else type_char c e

-- The NUL behind the line, at `n`, and the copy to `oldbuf`.
unfoldable pub end_at : ℕ → Editor → Option (Text × Editor)
end_at n e =
    let ended = set_char e.buf n 0 in
    elim (string_in ended) [
      | none ↦ none
      | some t ↦ some (t, record { buf = ended; index = n + 1; oldbuf = write_string 0 t e.oldbuf })
    ]

-- The line is over, and its newline goes.
unfoldable pub end_line : Editor → Option (Text × Editor)
end_line e =
    end_at (if ltb 0 e.index && (e.buf (e.index - 1) == 10) then e.index - 1 else e.index) e

-- `exited` is Ctrl+D, `waiting` the wait for another key.
pub data Entry : Type 0 where
  entered : Text → Editor → Entry
  exited : Entry
  waiting : Entry
  overran : Entry

abbrev pub or_overran : Option (Text × Editor) → Entry
or_overran none = overran
or_overran (some (t, e)) = entered t e

unfoldable pub edit : List ℕ → Editor → Entry
unfolding press end_line
edit [] e = waiting
edit (c ∷ cs) e = elim (press c e) [
  | go_on next ↦ edit cs next
  | stop last ↦ or_overran (end_line last)
  | leave ↦ exited
  | unended ↦ overran
]

-- `buf[0] = 0` in front of the loop.
unfoldable pub start_line : Editor → Editor
unfolding set_char
start_line e = record e { buf = set_char e.buf 0 0; index = 0 }

-- `prompt`: `parsed` is SUCCESS with the command, `left` EXIT; `stuck` an overrun, or an alias file
-- that the code cannot read.
pub data Prompted : Type 0 where
  parsed : Outcome → Editor → Prompted
  left : Prompted
  asking : Prompted
  stuck : Prompted

abbrev pub parse_expanded :
    (blank : Command) (blank_next : List Command) (k : ℕ) → Command → Editor → Expanded → Prompted
parse_expanded blank blank_next k command e (line_is text) =
    parsed (parse_command blank blank_next k text command []) e
parse_expanded blank blank_next k command e fault = stuck
parse_expanded blank blank_next k command e overrun = stuck

abbrev pub on_entry : Entry → (Text → Editor → Prompted) → Prompted
on_entry (entered line e) f = f line e
on_entry exited f = left
on_entry waiting f = asking
on_entry overran f = stuck

-- What is parsed comes with the editor, whose `oldbuf` the next call sees.
unfoldable pub prompt :
    (blank : Command) (blank_next : List Command) (k : ℕ) (junk : Text) (aliases : Option Text)
    (array keys : List ℕ)
    → Editor
    → Command
    → Prompted
unfolding edit start_line
prompt blank blank_next k junk aliases array keys e command =
    on_entry (edit keys (start_line e)) (λ line next.
      parse_expanded blank blank_next k command next (check_for_aliases k junk aliases array line))
