-- ===== src/Core/Log.antt =====
-- src/core/log.h and log.cpp: messages below the level are dropped, the others are printed with the
-- time of the last tick. What `strftime` makes of the clock is an input.
use theme_srv.Common.{
  ℕ, Bool, true, false, List, [], ◌∷◌, ◌++◌, leb, if◌then◌else◌, ◌≡◌, refl, sym, ◌∙◌, ap, inl, inr,
  Bool-cases, append_assoc, append-nil,
}
use theme_srv.Core.Text.{Text, codes}

-- `log::level`
pub data Level : Type 0 where
  debug info warning error : Level

-- The values of the enumeration, by which levels are compared
abbrev pub rank : Level → ℕ
rank debug = 0
rank info = 1
rank warning = 2
rank error = 3

-- `s_time`, `s_level` and what has been printed.
pub record Log : Type 0 where
  pub time : Text
  pub level : Level
  pub out : Text

-- The case of `switch` in `write_line`
abbrev pub label : Level → Text
label debug = codes " DEBUG:"
label info = codes " INFO:"
label warning = codes " WARNING:"
label error = codes " ERROR:"

abbrev pub line : Text → Text → Level → Text → Text
line time name level msg =
    time ++ (codes " " ++ (name ++ (label level ++ (codes " " ++ (msg ++ codes "\n")))))

-- `write_line` of a log with a name
unfoldable pub write_line : Text → Level → Text → Log → Log
write_line name level msg log = record log { out = log.out ++ line log.time name level msg }

-- The tests of `debug`, `info`, `warning` and `error`
unfoldable pub write_above : Text → Level → Text → Log → Log
write_above name level msg log =
    if leb (rank log.level) (rank level) then write_line name level msg log else log

abbrev pub write_debug : Text → Text → Log → Log
write_debug name msg log = write_above name debug msg log

abbrev pub write_info : Text → Text → Log → Log
write_info name msg log = write_above name info msg log

abbrev pub write_warning : Text → Text → Log → Log
write_warning name msg log = write_above name warning msg log

abbrev pub write_error : Text → Text → Log → Log
write_error name msg log = write_above name error msg log

unfoldable pub set_level : Level → Log → Log
set_level level log = record log { level = level }

-- `tick`, at a time that is printed as `now`
unfoldable pub tick : Text → Log → Log
tick now log = record log { time = now }

-- The constructor ticks.
unfoldable pub open_log : Text → Log → Log
open_log now log = tick now log

-- What the program does with its logs
pub data Use : Type 0 where
  says : Text → Level → Text → Use
  ticks : Text → Use
  sets : Level → Use

unfoldable pub run_uses : List Use → Log → Log
run_uses [] log = log
run_uses (says name level msg ∷ us) log = run_uses us (write_above name level msg log)
run_uses (ticks now ∷ us) log = run_uses us (tick now log)
run_uses (sets level ∷ us) log = run_uses us (set_level level log)

-- The lines of the messages that are not below the level in force, each with the time in force.
pub lines_of : List Use → Text → Level → Text
lines_of [] time threshold = []
lines_of (says name level msg ∷ us) time threshold =
    (if leb (rank threshold) (rank level) then line time name level msg else [])
    ++ lines_of us time threshold
lines_of (ticks now ∷ us) time threshold = lines_of us now threshold
lines_of (sets level ∷ us) time threshold = lines_of us time level

write_above_level :
    (name : Text) (level : Level) (msg : Text) (log : Log) (b : Bool)
    → leb (rank log.level) (rank level) ≡ b
    → write_above name level msg log ≡ (if b then write_line name level msg log else log)
unfolding write_above
write_above_level name level msg log b h = rw h refl

-- Exactly these lines are printed, in their order.
pub run_uses-lines_of :
    (us : List Use) (log : Log) → (run_uses us log).out ≡ log.out ++ lines_of us log.time log.level
unfolding run_uses lines_of write_line tick set_level
run_uses-lines_of [] log = sym (append-nil log.out)
run_uses-lines_of (says name level msg ∷ us) log =
    elim (Bool-cases (leb (rank log.level) (rank level))) [
      | inl h ↦
          ap (λ l. (run_uses us l).out) (write_above_level name level msg log true h)
          ∙ (run_uses-lines_of us (record log { out = log.out ++ line log.time name level msg })
              ∙ (append_assoc log.out (line log.time name level msg)
                    (lines_of us log.time log.level)
                  ∙ rw h refl))
      | inr h ↦
          ap (λ l. (run_uses us l).out) (write_above_level name level msg log false h)
          ∙ (run_uses-lines_of us log ∙ rw h refl)
    ]
run_uses-lines_of (ticks now ∷ us) log = run_uses-lines_of us (record log { time = now })
run_uses-lines_of (sets level ∷ us) log = run_uses-lines_of us (record log { level = level })
