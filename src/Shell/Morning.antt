-- ===== src/Shell/Morning.antt =====
-- `good_morning` of shell-skeleton.c.
use comp304_assignments.Prelude.{
  ℕ, zero, suc, ◌+◌, ◌-◌, ◌*◌, Bool, true, false, ◌&&◌, Option, none, some, List, [], ◌∷◌, ◌++◌,
  leb, if◌then◌else◌,
}
use comp304_assignments.Prelude.Text.{Text, codes, to_text, ℤ, pos, negsuc, neg, show_int, atoi}
use comp304_assignments.Shell.Host.{
  Tm, Host, Effect, printed, reported, wrote, made_executable, ran,
}

unfoldable pub seconds_of : ℤ → ℤ
unfolding neg
seconds_of (pos n) = pos (n * 60)
seconds_of (negsuc n) = neg (suc n * 60)

unfoldable pub add_seconds : ℕ → ℤ → ℤ
add_seconds now (pos n) = pos (now + n)
add_seconds now (negsuc n) = if leb (suc n) now then pos (now - suc n) else negsuc (n - now)

abbrev is_positive : ℤ → Bool
is_positive (pos zero) = false
is_positive (pos (suc n)) = true
is_positive (negsuc n) = false

abbrev is_zero : ℤ → Bool
is_zero (pos zero) = true
is_zero (pos (suc n)) = false
is_zero (negsuc n) = false

unfoldable pub alarm_text : Text → Text
alarm_text music = codes "#!/bin/bash\nPATH=$PATH:/bin\nexport DISPLAY=:0.0\nplay " ++ music

-- The fields of the cron job, each with a blank behind it.
unfoldable pub cron_fields : Tm → Text
unfolding to_text
cron_fields tm =
    to_text tm.tm_min
    ++ 32
      ∷ (to_text tm.tm_hour
          ++ 32
            ∷ (to_text tm.tm_mday
                ++ 32 ∷ (to_text (tm.tm_mon + 1) ++ 32 ∷ (to_text tm.tm_wday ++ 32 ∷ []))))

unfoldable pub cron_text : Tm → Text → Text
unfolding cron_fields
cron_text tm cwd =
    codes "(crontab -l 2>/dev/null || true; echo \""
    ++ (cron_fields tm ++ (cwd ++ (codes "/alarm.sh " ++ codes "\") | crontab - \n")))

abbrev pub only_if : Bool → Effect → List Effect → List Effect
only_if true e es = e ∷ es
only_if false e es = es

-- What follows the opening of both files; the flags say that the minutes are positive, and that
-- chmod and system return 0.
abbrev pub morning_steps :
    (positive changed succeeded : Bool) (alarm cron cwd failure : Text) → List Effect
morning_steps positive changed succeeded alarm cron cwd failure =
    only_if (if positive then false else true)
      (printed (codes "Please provide a positive number of minutes.\n"))
      (wrote (codes "alarm.sh") alarm
        ∷ wrote (codes "cron_creator.sh") cron
        ∷ made_executable (codes "cron_creator.sh")
        ∷ only_if (if changed then false else true)
            (reported (codes "Error changing file permissions"))
            (ran (cwd ++ codes "/cron_creator.sh")
              ∷ only_if (if succeeded then false else true) (printed failure) []))

abbrev pub morning_effects : Host → (cwd minute_as_text music : Text) → List Effect
morning_effects host cwd minute_as_text music =
    morning_steps (is_positive (atoi minute_as_text)) (is_zero host.chmod_result)
      (is_zero host.system_result) (alarm_text music)
      (cron_text (host.localtime (add_seconds host.time (seconds_of (atoi minute_as_text)))) cwd)
      cwd
      (codes "Command execution failed or returned non-zero: "
        ++ (show_int host.system_result ++ codes " \n"))

abbrev pub morning_at : Host → (minute_as_text music : Text) → Option Text → Option (List Effect)
morning_at host minute_as_text music none = none
morning_at host minute_as_text music (some cwd) =
    if host.writable (codes "alarm.sh") && host.writable (codes "cron_creator.sh")
    then some (morning_effects host cwd minute_as_text music)
    else none

-- None where a file does not open, or the working directory is not known: the code goes on with a
-- null stream, or with an array that nothing wrote.
unfoldable pub good_morning : Host → (minute_as_text music : Text) → Option (List Effect)
unfolding atoi seconds_of add_seconds alarm_text cron_text show_int
good_morning host minute_as_text music = morning_at host minute_as_text music host.cwd
