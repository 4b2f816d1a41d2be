-- ===== src/Mux/Spawn/Neovim.antt =====
-- What Neovim is told at the end of a load, and when `finish` of src/mux/nvim.rs succeeds.
use direnv_instant.Prelude.{
  Text, codes, trim, IsI32, true, false, Option, none, some, List, [], ◌∷◌, ◌≡◌, ◌↔◌, refl, ap,
  Bool-cases, inl, inr,
}
use direnv_instant.Env.{Env}
use direnv_instant.Mux.Detect.{socket}
use direnv_instant.Mux.Nvim.{Event, finished, expression}
use direnv_instant.Mux.Nvim.Call.{HasI32, call_of, read_expression, read_expression-expression}
use direnv_instant.Mux.Nvim.Reply.{
  Stdout, text, Poll, Outcome, waiting, acknowledged, ExitsWell, is_err, wait_for_reply,
  wait_for_reply-acknowledged,
}
use direnv_instant.Mux.Spawn.{
  Call, spawn, Answers, Report, not_sent, sent, nvim_command, request_to, on_request, finish_nvim,
}
use direnv_instant.Daemon.Context.{DaemonContext, LoadOutcome}

-- The client is found to have exited with success before a look at the clock past the deadline, and
-- printed 1 but for white space.
abbrev pub Accepts : Stdout → List Poll → Type 0
Accepts stdout polls =
    ExitsWell polls × ((reply : Text) × (stdout ≡ text reply) × (trim reply ≡ codes "1"))

-- The server is there, and its client was started with a text that reads as the event's call.
abbrev pub Told : Answers → DaemonContext → Event → Option Text → List Call → Type 0
Told a ctx event server calls =
    (name e : Text) × (server ≡ some name)
    × (a.spawned ≡ true)
    × (calls ≡ spawn (nvim_command name e) ∷ [])
    × (read_expression e ≡ some (call_of ctx event))

-- The outcome of a request that was sent.
result_of : Report → Outcome
result_of (not_sent e) = waiting
result_of (sent r) = r.0

module _ (stdout : Stdout) (polls : List Poll) where
  wait_for_reply_pair :
      (wait_for_reply stdout polls).0 ≡ acknowledged
      → wait_for_reply stdout polls ≡ (acknowledged, false)
  unfolding wait_for_reply
  wait_for_reply_pair h = ap (λ r. (r, is_err r)) h

  sent-Accepts :
      sent (wait_for_reply stdout polls) ≡ sent (acknowledged, false) → Accepts stdout polls
  unfolding result_of
  sent-Accepts h = (wait_for_reply-acknowledged stdout polls).0 (ap result_of h)

  Accepts-sent :
      Accepts stdout polls → sent (wait_for_reply stdout polls) ≡ sent (acknowledged, false)
  Accepts-sent h = ap sent (wait_for_reply_pair ((wait_for_reply-acknowledged stdout polls).1 h))

  module _ (a : Answers) (ctx : DaemonContext) (event : Event) where
    request_to-sent :
        (server : Option Text)
        → IsI32 ctx.parent_pid
        → HasI32 event
        → ((on_request stdout polls (request_to server a ctx event)).1 ≡ sent (acknowledged, false))
          ↔ (Told a ctx event server (on_request stdout polls (request_to server a ctx event)).0
              × Accepts stdout polls)
    unfolding on_request request_to
    request_to-sent none pid code = (
      λ h. absurd (cc),
      λ (told, h). let (name, e, there, on, calls, reads) = told in absurd (cc there),
    )
    request_to-sent (some server) pid code = elim (Bool-cases a.spawned) [
      | inl on ↦ rw on (
        λ h. (
          (
            server,
            expression ctx event,
            refl,
            refl,
            refl,
            read_expression-expression ctx event pid code,
          ),
          sent-Accepts h,
        ),
        λ (told, h). Accepts-sent h,
      )
      | inr off ↦ rw off (
        λ h. absurd (cc),
        λ (told, h). let (name, e, there, on, calls, reads) = told in absurd (cc on),
      )
    ]

-- The report of a load's end succeeds exactly when there is a Neovim, the one client that is
-- started for it passes on a text that reads as the call for this outcome, and this client is found
-- to have exited with success before any look at the clock past the deadline, and printed 1 but for
-- white space; the pid and the status are i32s.
pub finish_nvim-acknowledged :
    (env : Env) (a : Answers) (stdout : Stdout) (polls : List Poll) (ctx : DaemonContext)
    (outcome : LoadOutcome)
    → IsI32 ctx.parent_pid
    → HasI32 (finished outcome)
    → ((finish_nvim env a stdout polls ctx outcome).1 ≡ sent (acknowledged, false)) ↔ (
        Told a ctx (finished outcome) (socket env) (finish_nvim env a stdout polls ctx outcome).0
        × Accepts stdout polls)
unfolding finish_nvim
finish_nvim-acknowledged env a stdout polls ctx outcome pid code =
    request_to-sent stdout polls a ctx (finished outcome) (socket env) pid code
