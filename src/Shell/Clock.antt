-- ===== src/Shell/Clock.antt =====
-- `display_time` of shell-skeleton.c, with the digits of large_digits.h.
use comp304_assignments.Prelude.{
  ℕ, zero, suc, ◌+◌, ◌/◌, ◌%◌, ◌||◌, Option, none, some, List, [], ◌∷◌, ◌++◌, ◌==◌, if◌then◌else◌,
}
use comp304_assignments.Prelude.Text.{Text, codes}
use comp304_assignments.Shell.Host.{Tm}

-- `largeDigits`
abbrev pub large_digits : List (List Text)
large_digits =
    (codes " ** " ∷ codes "*  *" ∷ codes "*  *" ∷ codes "*  *" ∷ codes " ** " ∷ [])
    ∷ (codes "  * " ∷ codes "  * " ∷ codes "  * " ∷ codes "  * " ∷ codes "  * " ∷ [])
    ∷ (codes " ** " ∷ codes "   *" ∷ codes " ** " ∷ codes "*   " ∷ codes " ** " ∷ [])
    ∷ (codes " ** " ∷ codes "   *" ∷ codes " ** " ∷ codes "   *" ∷ codes " ** " ∷ [])
    ∷ (codes " *  " ∷ codes "* * " ∷ codes "*** " ∷ codes "  * " ∷ codes "  * " ∷ [])
    ∷ (codes " ** " ∷ codes "*   " ∷ codes " ** " ∷ codes "   *" ∷ codes " ** " ∷ [])
    ∷ (codes " ** " ∷ codes "*   " ∷ codes " ***" ∷ codes "*  *" ∷ codes " ** " ∷ [])
    ∷ (codes " ***" ∷ codes "   *" ∷ codes "   *" ∷ codes "  * " ∷ codes " *  " ∷ [])
    ∷ (codes " ** " ∷ codes "*  *" ∷ codes " ** " ∷ codes "*  *" ∷ codes " ** " ∷ [])
    ∷ (codes " ** " ∷ codes "*  *" ∷ codes " ***" ∷ codes "   *" ∷ codes " ** " ∷ [])
    ∷ []

abbrev pub entry {ℓ} : {A : Type ℓ} → A → ℕ → List A → A
entry out n [] = out
entry out zero (x ∷ xs) = x
entry out (suc n) (x ∷ xs) = entry out n xs

-- `largeDigits[d][row]`
unfoldable pub large_digit : (d row : ℕ) → Text
large_digit d row = entry [] row (entry [] d large_digits)

abbrev colon : ℕ → Text
colon row = if (row == 2) || (row == 3) then codes ": " else codes "  "

-- A row of two digits.
unfoldable pub digits_row : (n row : ℕ) → Text
unfolding large_digit
digits_row n row = large_digit (n / 10) row ++ (codes "  " ++ large_digit (n % 10) row)

unfoldable pub clock_row : Tm → ℕ → Text
unfolding digits_row
clock_row tm row =
    digits_row tm.tm_hour row
    ++ (codes "  "
        ++ (colon row
            ++ (digits_row tm.tm_min row
                ++ (codes "  " ++ (colon row ++ (digits_row tm.tm_sec row ++ codes " \n"))))))

unfoldable pub clock_rows : ℕ → ℕ → Tm → Text
unfolding clock_row
clock_rows zero row tm = []
clock_rows (suc k) row tm = clock_row tm row ++ clock_rows k (row + 1) tm

abbrev clock_title : Option Text → Text
clock_title none = codes "     Clock  for local time   \n"
clock_title (some timezone) = codes "     Clock  for " ++ (timezone ++ codes " timezone \n")

unfoldable pub display_time : Option Text → Tm → Text
unfolding clock_rows
display_time timezone tm =
    clock_title timezone
    ++ (codes "======================================\n"
        ++ (clock_rows 5 0 tm
            ++ (codes "======================================\n"
                ++ codes "Press e or E to exit\n")))
