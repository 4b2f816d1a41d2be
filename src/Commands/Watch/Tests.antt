-- ===== src/Commands/Watch/Tests.antt =====
-- The loop of src/commands/watch.rs at concrete rounds.
use direnv_instant.Prelude.{codes, true, false, none, some, List, [], ◌∷◌, ◌++◌, ◌≡◌, refl}
use direnv_instant.Commands.Watch.{
  Reading, Answer, eintr, ready, Round, Pane, broken, drain, watch, watch_round,
}
use direnv_instant.Commands.Watch.Ends.{Continues, logs, watch-shown}

abbrev round : Answer → Reading → Round
round answer reading = record {
  interrupted = false;
  resized = true;
  select = answer;
  rest = some (codes "end") ∷ some [] ∷ [];
  log = reading;
}

abbrev before : Pane
before = record { shown = []; forwarded = []; resizes = 0 }

abbrev behind : Pane
behind = record { shown = codes "ab"; forwarded = codes "y"; resizes = 3 }

-- Input is forwarded, the log is shown, and a signal only starts the next round.
abbrev rounds : List Round
rounds =
    round (ready (some (some (codes "y"))) none) (some (codes "a"))
    ∷ round eintr none
    ∷ round (ready none none) (some (codes "b"))
    ∷ []

rounds-Continues : Continues true rounds before behind
unfolding watch_round
rounds-Continues = (_, refl, (_, refl, (_, refl, refl)))

abbrev closed : Round
closed = round (ready none (some (some []))) none

watch-shown_example :
    (t : Pane) × (watch true (rounds ++ closed ∷ []) before ≡ broken t)
    × (t.shown ≡ [] ++ (logs rounds ++ drain (closed.rest)))
watch-shown_example = watch-shown true rounds closed [] before behind rounds-Continues refl refl
