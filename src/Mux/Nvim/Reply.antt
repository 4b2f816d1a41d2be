-- ===== src/Mux/Nvim/Reply.antt =====
-- `wait_for_reply` of src/mux/nvim.rs. The list of polls is what the loop meets: in each round what
-- `try_wait` answers, and whether the deadline has passed when it is looked at.
use direnv_instant.Prelude.{
  Text, codes, text_eq, text_eq_iff, trim, Bool, true, false, List, [], ◌∷◌, ◌≡◌, ◌≢◌, ◌⊎◌, ◌↔◌,
  inl, inr, refl, arith, if◌then◌else◌, Any, Bool-cases,
}

pub data TryWait : Type 0 where
  wait_error : TryWait
  exited : Bool → TryWait  -- with success or without
  alive : TryWait

pub record Poll : Type 0 where
  pub try_wait : TryWait
  pub past_deadline : Bool

-- The client's standard output once it has exited: missing, an error of one of the two calls of
-- `fcntl` or of `read_to_string`, or what the first 64 bytes hold.
pub data Stdout : Type 0 where
  missing : Stdout
  fcntl_error : Stdout
  read_error : Stdout
  text : Text → Stdout

pub data ReplyError : Type 0 where
  io : ReplyError
  failed : ReplyError
  unavailable : ReplyError
  rejected : ReplyError
  timed_out : ReplyError

pub data Outcome : Type 0 where
  waiting : Outcome  -- the loop is still running
  acknowledged : Outcome
  refused : ReplyError → Outcome

unfoldable pub read_reply : Stdout → Outcome
read_reply missing = refused unavailable
read_reply fcntl_error = refused io
read_reply read_error = refused io
read_reply (text reply) =
    if text_eq (trim reply) (codes "1") then acknowledged else refused rejected

abbrev or_else : Outcome → Outcome → Outcome
or_else waiting later = later
or_else acknowledged later = acknowledged
or_else (refused e) later = refused e

unfoldable pub on_poll : Stdout → Poll → TryWait → Outcome
unfolding read_reply
on_poll stdout p wait_error = refused io
on_poll stdout p (exited true) = read_reply stdout
on_poll stdout p (exited false) = refused failed
on_poll stdout p alive = if p.past_deadline then refused timed_out else waiting

unfoldable pub poll_loop : Stdout → List Poll → Outcome
unfolding on_poll
poll_loop stdout [] = waiting
poll_loop stdout (p ∷ ps) = or_else (on_poll stdout p p.try_wait) (poll_loop stdout ps)

-- Whether the client has been killed and waited for, which every error does.
abbrev pub is_err : Outcome → Bool
is_err waiting = false
is_err acknowledged = false
is_err (refused e) = true

unfoldable pub wait_for_reply : Stdout → List Poll → Outcome × Bool
unfolding poll_loop
wait_for_reply stdout ps = let result = poll_loop stdout ps in (result, is_err result)

-- The client exits with success in a round, and is alive in every one before it.
abbrev pub ExitsWell : List Poll → Type 0
ExitsWell [] = ⊥
ExitsWell (p ∷ ps) =
    (p.try_wait ≡ exited true) ⊎ ((p.try_wait ≡ alive) × (p.past_deadline ≡ false) × ExitsWell ps)

read_reply-acknowledged :
    (stdout : Stdout)
    → (read_reply stdout ≡ acknowledged)
      ↔ ((reply : Text) × (stdout ≡ text reply) × (trim reply ≡ codes "1"))
unfolding read_reply
read_reply-acknowledged missing = (λ h. cc, λ (r, e, t). cc)
read_reply-acknowledged fcntl_error = (λ h. cc, λ (r, e, t). cc)
read_reply-acknowledged read_error = (λ h. cc, λ (r, e, t). cc)
read_reply-acknowledged (text reply) = (
  λ h. (reply, refl, ground (arith, text_eq_iff (trim reply) (codes "1"))),
  λ (r, e, t). accepted r e t,
)
  where
    accepted :
        (r : Text)
        → text reply ≡ text r
        → trim r ≡ codes "1"
        → read_reply (text reply) ≡ acknowledged
    accepted r e t = let same : reply ≡ r = cc in rw (same, t)

read_reply-ne_waiting : (stdout : Stdout) → read_reply stdout ≢ waiting
unfolding read_reply
read_reply-ne_waiting missing h = cc
read_reply-ne_waiting fcntl_error h = cc
read_reply-ne_waiting read_error h = cc
read_reply-ne_waiting (text reply) h = ground arith

poll_acknowledged :
    (stdout : Stdout) (p : Poll) (later : Outcome) (w : TryWait)
    → or_else (on_poll stdout p w) later ≡ acknowledged
    → ((w ≡ exited true) × (read_reply stdout ≡ acknowledged))
      ⊎ ((w ≡ alive) × (p.past_deadline ≡ false) × (later ≡ acknowledged))
unfolding on_poll
poll_acknowledged stdout p later wait_error h = cc
poll_acknowledged stdout p later (exited true) h =
    inl (refl, accepted (read_reply stdout) (read_reply-ne_waiting stdout) h)
  where
    accepted : (o : Outcome) → o ≢ waiting → or_else o later ≡ acknowledged → o ≡ acknowledged
    accepted waiting n e = absurd (n refl)
    accepted acknowledged n e = refl
    accepted (refused x) n e = cc
poll_acknowledged stdout p later (exited false) h = cc
poll_acknowledged stdout p later alive h = elim (Bool-cases p.past_deadline) [
  | inl late ↦ cc (rw late at h)
  | inr early ↦ inr (refl, early, rw early at h)
]

acknowledged-poll_loop :
    (stdout : Stdout) (ps : List Poll)
    → poll_loop stdout ps ≡ acknowledged
    → ExitsWell ps × (read_reply stdout ≡ acknowledged)
unfolding poll_loop
acknowledged-poll_loop stdout [] h = cc
acknowledged-poll_loop stdout (p ∷ ps) h =
    first (poll_acknowledged stdout p (poll_loop stdout ps) p.try_wait h)
      (acknowledged-poll_loop stdout ps)
  where
    first :
        ((p.try_wait ≡ exited true) × (read_reply stdout ≡ acknowledged))
          ⊎ ((p.try_wait ≡ alive)
              × (p.past_deadline ≡ false)
              × (poll_loop stdout ps ≡ acknowledged))
        → (poll_loop stdout ps ≡ acknowledged → ExitsWell ps × (read_reply stdout ≡ acknowledged))
        → ExitsWell (p ∷ ps) × (read_reply stdout ≡ acknowledged)
    first (inl (e, read)) ih = (inl e, read)
    first (inr (e, early, later)) ih = (inr (e, early, (ih later).0), (ih later).1)

poll_loop-acknowledged :
    (stdout : Stdout) (ps : List Poll)
    → ExitsWell ps
    → read_reply stdout ≡ acknowledged
    → poll_loop stdout ps ≡ acknowledged
unfolding poll_loop on_poll
poll_loop-acknowledged stdout [] h read = absurd h
poll_loop-acknowledged stdout (p ∷ ps) (inl e) read = rw (e, read)
poll_loop-acknowledged stdout (p ∷ ps) (inr (e, early, later)) read =
    rw (e, early, poll_loop-acknowledged stdout ps later read)

-- A notification counts as delivered exactly when the client exits with success, is found so before a
-- look at the clock past the deadline, and its output is `1` but for white space round it.
pub wait_for_reply-acknowledged :
    (stdout : Stdout) (ps : List Poll)
    → ((wait_for_reply stdout ps).0 ≡ acknowledged)
      ↔ (ExitsWell ps × ((reply : Text) × (stdout ≡ text reply) × (trim reply ≡ codes "1")))
unfolding wait_for_reply
wait_for_reply-acknowledged stdout ps = (
  λ h.
      let (exits, read) = acknowledged-poll_loop stdout ps h in
      (exits, (read_reply-acknowledged stdout).0 read),
  λ (exits, read). poll_loop-acknowledged stdout ps exits ((read_reply-acknowledged stdout).1 read),
)

-- The client has been killed and waited for exactly when the loop has ended without an
-- acknowledgement.
pub wait_for_reply-kills :
    (stdout : Stdout) (ps : List Poll)
    → ((wait_for_reply stdout ps).1 ≡ true)
      ↔ ((wait_for_reply stdout ps).0 ≢ acknowledged × (wait_for_reply stdout ps).0 ≢ waiting)
unfolding wait_for_reply
wait_for_reply-kills stdout ps = kills (poll_loop stdout ps)
  where
    kills : (o : Outcome) → (is_err o ≡ true) ↔ ((o ≢ acknowledged) × (o ≢ waiting))
    kills waiting = (λ h. cc, λ (a, w). absurd (w refl))
    kills acknowledged = (λ h. cc, λ (a, w). absurd (a refl))
    kills (refused e) = (λ h. (λ x. cc, λ x. cc), λ h. refl)

or_else-ne_waiting :
    (o later : Outcome) → (o ≢ waiting) ⊎ (later ≢ waiting) → or_else o later ≢ waiting
or_else-ne_waiting waiting later (inl n) h = n refl
or_else-ne_waiting waiting later (inr n) h = n h
or_else-ne_waiting acknowledged later n h = cc
or_else-ne_waiting (refused e) later n h = cc

on_poll-ne_waiting :
    (stdout : Stdout) (p : Poll) (w : TryWait)
    → (p.past_deadline ≡ true) ⊎ (w ≢ alive)
    → on_poll stdout p w ≢ waiting
unfolding on_poll
on_poll-ne_waiting stdout p wait_error h e = cc
on_poll-ne_waiting stdout p (exited true) h e = read_reply-ne_waiting stdout e
on_poll-ne_waiting stdout p (exited false) h e = cc
on_poll-ne_waiting stdout p alive (inl late) e = cc (rw late at e)
on_poll-ne_waiting stdout p alive (inr n) e = n refl

-- The wait ends: a loop that once looks at the clock past the deadline has a result, and so does one
-- that finds the client gone.
pub wait_for_reply-ends :
    (stdout : Stdout) (ps : List Poll)
    → Any (λ p. (p.past_deadline ≡ true) ⊎ (p.try_wait ≢ alive)) ps
    → (wait_for_reply stdout ps).0 ≢ waiting
unfolding wait_for_reply poll_loop
wait_for_reply-ends stdout [] h = absurd h
wait_for_reply-ends stdout (p ∷ ps) (inl h) =
    or_else-ne_waiting (on_poll stdout p p.try_wait) (poll_loop stdout ps)
      (inl (on_poll-ne_waiting stdout p p.try_wait h))
wait_for_reply-ends stdout (p ∷ ps) (inr h) =
    or_else-ne_waiting (on_poll stdout p p.try_wait) (poll_loop stdout ps)
      (inr (wait_for_reply-ends stdout ps h))
