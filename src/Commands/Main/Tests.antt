-- ===== src/Commands/Main/Tests.antt =====
-- src/main.rs at concrete arguments.
use direnv_instant.Prelude.{codes, [], ◌∷◌, ◌≡◌, refl}
use direnv_instant.Commands.Main.{usage, dispatch}
use direnv_instant.Commands.Main.Usage.{Runs, dispatch-Runs}

dispatch-Runs_example :
    Runs
      (codes "watch" ∷ codes "/log" ∷ [])
      (dispatch (codes "di" ∷ codes "watch" ∷ codes "/log" ∷ []))
dispatch-Runs_example = dispatch-Runs (codes "di") (codes "watch" ∷ codes "/log" ∷ [])

too_few :
    dispatch (codes "di" ∷ codes "watch" ∷ codes "/log" ∷ [])
    ≡ usage (codes "Usage: di watch <fifo_path> <socket_path>")
unfolding dispatch
too_few = refl
