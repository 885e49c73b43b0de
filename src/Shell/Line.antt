-- ===== src/Shell/Line.antt =====
-- Lines of words with one space between them, and how `strtok` takes them apart.
use comp304_assignments.Prelude.{
  false, ◌≡◌, refl, ap, Option, none, some, List, [], ◌∷◌, ◌++◌, Bool-cases, inl, inr,
}
use comp304_assignments.Shell.Text.{
  Text, is_empty, is_splitter, trim_left, trim_right, word, after_word, strtok,
}

-- No splitter in the text.
abbrev pub IsSolid : Text → Type 0
IsSolid [] = Unit
IsSolid (c ∷ cs) = (is_splitter c ≡ false) × IsSolid cs

abbrev pub IsWord : Text → Type 0
IsWord [] = ⊥
IsWord (c ∷ cs) = IsSolid (c ∷ cs)

abbrev pub AllWords : List Text → Type 0
AllWords [] = Unit
AllWords (w ∷ ws) = IsWord w × AllWords ws

-- `w` and `ws` with a space between each two.
abbrev pub line : Text → List Text → Text
line w [] = w
line w (v ∷ vs) = w ++ 32 ∷ line v vs

abbrev pub line_rest : List Text → Option Text
line_rest [] = none
line_rest (w ∷ ws) = some (line w ws)

trim_right-solid : (w : Text) → IsSolid w → trim_right w ≡ w
unfolding trim_right
trim_right-solid [] h = refl
trim_right-solid (c ∷ cs) h = rw h.0 (ap (λ t. c ∷ t) (trim_right-solid cs h.1))

is_empty-append : (v u : Text) → is_empty u ≡ false → is_empty (v ++ u) ≡ false
is_empty-append [] u ne = ne
is_empty-append (c ∷ cs) u ne = refl

trim_right-append :
    (v u : Text) → is_empty u ≡ false → trim_right u ≡ u → trim_right (v ++ u) ≡ v ++ u
unfolding trim_right
trim_right-append [] u ne e = e
trim_right-append (c ∷ cs) u ne e =
    rw (trim_right-append cs u ne e, is_empty-append cs u ne)
      (elim (Bool-cases (is_splitter c)) [ inl b ↦ rw b | inr b ↦ rw b ])

line_not_empty : (w : Text) (ws : List Text) → IsWord w → is_empty (line w ws) ≡ false
line_not_empty [] ws h = absurd h
line_not_empty (c ∷ cs) [] h = refl
line_not_empty (c ∷ cs) (v ∷ vs) h = refl

-- A line of words has no splitter at its ends.
pub trim_left-line : (w : Text) (ws : List Text) → IsWord w → trim_left (line w ws) ≡ line w ws
unfolding trim_left
trim_left-line [] ws h = absurd h
trim_left-line (c ∷ cs) [] h = rw h.0
trim_left-line (c ∷ cs) (v ∷ vs) h = rw h.0

pub trim_right-line :
    (w : Text) (ws : List Text) → IsWord w → AllWords ws → trim_right (line w ws) ≡ line w ws
trim_right-line [] ws h a = absurd h
trim_right-line (c ∷ cs) [] h a = trim_right-solid (c ∷ cs) h
trim_right-line (c ∷ cs) (v ∷ vs) h a =
    trim_right-append (c ∷ cs) (32 ∷ line v vs) refl
      (trim_right-space (line v vs) (line_not_empty v vs a.0) (trim_right-line v vs a.0 a.1))
  where
    trim_right-space :
        (u : Text) → is_empty u ≡ false → trim_right u ≡ u → trim_right (32 ∷ u) ≡ 32 ∷ u
    trim_right-space u ne e = trim_right-append (32 ∷ []) u ne e

word-solid : (w : Text) → IsSolid w → (word w ≡ w) × (after_word w ≡ none)
unfolding word after_word
word-solid [] h = (refl, refl)
word-solid (c ∷ cs) h =
    (rw h.0 (ap (λ t. c ∷ t) (word-solid cs h.1).0), rw h.0 (word-solid cs h.1).1)

word-append :
    (w u : Text) → IsSolid w → (word (w ++ 32 ∷ u) ≡ w) × (after_word (w ++ 32 ∷ u) ≡ some u)
unfolding word after_word
word-append [] u h = (refl, refl)
word-append (c ∷ cs) u h =
    (rw h.0 (ap (λ t. c ∷ t) (word-append cs u h.1).0), rw h.0 (word-append cs u h.1).1)

-- `strtok` takes the first word of a line and leaves the line of the others.
pub strtok-line :
    (w : Text) (ws : List Text) → IsWord w → strtok (some (line w ws)) ≡ some (w, line_rest ws)
unfolding strtok
strtok-line [] ws h = absurd h
strtok-line (c ∷ cs) [] h =
    rw (trim_left-line (c ∷ cs) [] h) (rw ((word-solid (c ∷ cs) h).0, (word-solid (c ∷ cs) h).1))
strtok-line (c ∷ cs) (v ∷ vs) h =
    rw (trim_left-line (c ∷ cs) (v ∷ vs) h)
      (rw ((word-append (c ∷ cs) (line v vs) h).0, (word-append (c ∷ cs) (line v vs) h).1))
