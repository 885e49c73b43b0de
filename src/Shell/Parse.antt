-- ===== src/Shell/Parse.antt =====
-- `parse_command` of shell-skeleton.c. `k` bounds the depth of pipes and the rounds of the loop.
use comp304_assignments.Prelude.{
  ℕ, zero, suc, ◌+◌, Bool, true, false, ◌&&◌, ◌||◌, Option, none, some, List, [], ◌∷◌, ◌++◌, leb,
  ltb, ◌==◌, if◌then◌else◌, length,
}
use comp304_assignments.Shell.Text.{Text, is_empty, trim_left, trim_right, strtok, ends_with, equal}

-- `struct command_t`: `args` up to the NULL that ends them, so `arg_count` is their number. A pipe
-- is the list of its commands, linked by `next`.
pub record Command : Type 0 where
  pub name : Text
  pub background : Bool
  pub auto_complete : Bool
  pub args : List Text
  pub redirects : ℕ → Option Text
  pub redirect_files : ℕ → Option Text
  pub redirect_idxs : ℕ → Option ℕ

-- `fault` is a read through NULL, `overrun` an access beyond an array or a string.
pub data Outcome : Type 0 where
  parsed : List Command → Outcome
  fault : Outcome
  overrun : Outcome
  out_of_fuel : Outcome

-- The variables of the loop.
pub record Progress : Type 0 where
  pub command : Command
  pub args : List Text
  pub redirect_index : Option ℕ
  pub redirection_order : ℕ
  pub next : List Command

abbrev pub set_at : {A : Type 0} → (ℕ → A) → ℕ → A → ℕ → A
set_at f i v j = if j == i then v else f j

-- The loop is over: `args[0]` is the name.
unfoldable pub finish : Progress → Outcome
finish p = parsed (record p.command { args = p.command.name ∷ p.args } ∷ p.next)

-- The file name behind a redirection.
unfoldable pub set_file : ℕ → Text → Progress → Progress
set_file i file p = record p {
  command = record p.command { redirect_files = set_at p.command.redirect_files i (some file) };
  redirect_index = none;
}

-- `redirect_index`, by the first characters: `<` is 60, `>` is 62.
unfoldable pub redirection : Text → Option ℕ
redirection [] = none
redirection (c ∷ []) = if c == 60 then some 0 else if c == 62 then some 1 else none
redirection (c ∷ d ∷ ds) =
    if c == 60 then some 0 else if c == 62 then (if d == 62 then some 2 else some 1) else none

abbrev tail : Text → Text
tail [] = []
tail (c ∷ cs) = cs

-- `redirects[i] = arg + 1`, and its index noted
unfoldable pub set_redirect : ℕ → Text → Progress → Progress
set_redirect i arg p = record p {
  command = record p.command {
    redirects = set_at p.command.redirects i (some (tail arg));
    redirect_idxs = set_at p.command.redirect_idxs p.redirection_order (some i);
  };
  redirect_index = some i;
  redirection_order = p.redirection_order + 1;
}

abbrev drop_last : Text → Text
drop_last [] = []
drop_last (c ∷ []) = []
drop_last (c ∷ d ∷ ds) = c ∷ drop_last (d ∷ ds)

abbrev starts_with : ℕ → Text → Bool
starts_with c [] = false
starts_with c (d ∷ ds) = d == c

-- An argument in quotes loses them: `"` is 34, `'` is 39.
unfoldable pub unquote : Text → Text
unfolding ends_with
unquote arg =
    if ltb 2 (length arg)
      && ((starts_with 34 arg && ends_with 34 arg) || (starts_with 39 arg && ends_with 39 arg))
    then drop_last (tail arg)
    else arg

unfoldable pub add_arg : Text → Progress → Progress
add_arg arg p = record p { args = p.args ++ unquote arg ∷ [] }

-- What the loop does with a token.
pub data Action : Type 0 where
  stop : Outcome → Action
  go_on : Progress → Action

-- `c` is parsed; `strtok` stands at its end.
abbrev pub piped : Outcome → Progress → Action
piped (parsed cs) p = go_on (record p { next = cs })
piped o p = stop o

-- `|` is 124: what follows it is parsed into `next`.
unfoldable pub pipe_to : (Text → Outcome) → Option Text → Progress → Action
pipe_to parse none p = stop overrun
pipe_to parse (some rest) p = piped (parse (trim_left rest)) p

abbrev redirect_or_arg : Option ℕ → Text → Progress → Action
redirect_or_arg none arg p = go_on (add_arg arg p)
redirect_or_arg (some i) arg p =
    if leb 3 p.redirection_order then stop overrun else go_on (set_redirect i arg p)

unfoldable pub take_arg : Text → Progress → Action
take_arg arg p =
    if is_empty arg || equal arg (38 ∷ []) then go_on p else redirect_or_arg (redirection arg) arg p

abbrev pub pipe_sign : Text
pipe_sign = 124 ∷ []

-- One round of the loop: the end, or the pointer of `strtok` and the variables for the next.
pub data Round : Type 0 where
  done : Outcome → Round
  again : Option Text → Progress → Round

abbrev pub act : Option Text → Action → Round
act s (stop o) = done o
act s (go_on p) = again s p

-- A trimmed token that is no file name, by whether it is `|`.
unfoldable pub read_token :
    (Text → Outcome) → (is_pipe : Bool) → (arg : Text) → Option Text → Progress → Round
read_token parse true arg rest p = act none (pipe_to parse rest p)
read_token parse false arg rest p = act rest (take_arg arg p)

-- The copy of a token into `temp_buf`, by whether it is too long.
unfoldable pub read_arg :
    (Text → Outcome) → (too_long : Bool) → (pch : Text) → Option Text → Progress → Round
read_arg parse true pch rest p = done overrun
read_arg parse false pch rest p =
    let arg = trim_right (trim_left pch) in read_token parse (equal arg pipe_sign) arg rest p

-- The loop at a token or at the end of the string, by `redirect_index`.
unfoldable pub round : (Text → Outcome) → Option (Text × Option Text) → Option ℕ → Progress → Round
round parse none none p = done (finish p)
round parse none (some i) p = done fault
round parse (some (pch, rest)) (some i) p = again rest (set_file i pch p)
round parse (some (pch, rest)) none p = read_arg parse (leb 1024 (length pch)) pch rest p

unfoldable pub parse_loop : (Text → Outcome) → ℕ → Option Text → Progress → Outcome
parse_loop parse zero s p = out_of_fuel
parse_loop parse (suc k) s p = elim (round parse (strtok s) p.redirect_index p) [
  | done o ↦ o
  | again s' p' ↦ parse_loop parse k s' p'
]

abbrev first_token : Option (Text × Option Text) → Text × Option Text
first_token none = ([], none)
first_token (some t) = t

-- The fields that `parse_command` sets before its loop, in a structure whose `next` is `next`.
unfoldable pub begin : Text → Text → Command → List Command → Progress
begin buf name c next = record {
  command = record c {
    name = name;
    background = ends_with 38 buf || c.background;
    auto_complete = ends_with 63 buf || c.auto_complete;
    redirect_idxs = λ _. none;
  };
  args = [];
  redirect_index = none;
  redirection_order = 0;
  next = next;
}

-- `blank` and `blank_next` are what `malloc` leaves in the structure of a piped command.
module _ (blank : Command) (blank_next : List Command) where
  unfoldable pub parse_command : ℕ → Text → Command → List Command → Outcome
  unfolding begin
  parse_command zero buf c next = out_of_fuel
  parse_command (suc k) buf c next =
      let buf' = trim_right (trim_left buf) in
      let t = first_token (strtok (some buf')) in
      parse_loop (λ rest. parse_command k rest blank blank_next) (suc k) t.1 (begin buf' t.0 c next)
