-- ===== src/Council/Session/Strangers.antt =====
-- internal/council/domain.go: what a caller without the session's lease can do.
use agent_council.Common.{
  String, ◌≡◌, refl, inl, inr, Bool, true, false, not, ◌||◌, Option, none, some, text_eq,
  Bool-cases, arith, List, [], ◌∷◌, if◌then◌else◌, ◌∙◌,
}
use agent_council.Council.Session.State.{Session, authorize}
use agent_council.Council.Session.Prompts.{queue, discard, replace}
use agent_council.Council.Session.Turns.{start_turn, settle, release, request_cancel}
use agent_council.Council.Session.Control.{reconnect_controller, archive}
use agent_council.Council.Session.Step.{
  Call, queues, replaces, releases, discards, requests_cancel, archives, reconnects, step, run,
}
use agent_council.Council.Session.Change.{
  Change, keeps, queued, replaced, discarded, started, settled, cancels, loses, resumes, closes,
  recovers, connects, closes_session, step-Change,
}

-- The lease that a call presents: the reports of the host, and the loss of the controller, have none.
abbrev pub presented : Call → Option String
presented (queues lease key prompt) = some lease
presented (replaces lease key prompt) = some lease
presented (releases lease key) = some lease
presented (discards lease key) = some lease
presented (requests_cancel lease) = some lease
presented (archives lease) = some lease
presented (reconnects lease) = some lease
presented _ = none

abbrev foreign : String → Option String → Bool
foreign own none = false
foreign own (some lease) = text_eq lease "" || not (text_eq lease own)

-- The calls of a history that present no lease, or the lease `own`.
unfoldable pub heard : String → List Call → List Call
heard own [] = []
heard own (c ∷ cs) = let rest = heard own cs in if foreign own (presented c) then rest else c ∷ rest

foreign-step :
    (own : String) (s : Session) (c : Call)
    → s.controller_lease ≡ own
    → foreign own (presented c) ≡ true
    → step s c ≡ s
unfolding step queue replace release discard request_cancel archive reconnect_controller authorize
foreign-step own s (queues lease key prompt) e h = ground arith
foreign-step own s (replaces lease key prompt) e h = ground arith
foreign-step own s (releases lease key) e h = ground arith
foreign-step own s (discards lease key) e h = ground arith
foreign-step own s (requests_cancel lease) e h = ground arith
foreign-step own s (archives lease) e h = ground arith
foreign-step own s (reconnects lease) e h = ground arith
foreign-step own s _ e h = cc

Change-lease : {s t : Session} → Change s t → t.controller_lease ≡ s.controller_lease
unfolding start_turn settle
Change-lease keeps = refl
Change-lease (queued k p b n m) = refl
Change-lease (replaced k p h) = refl
Change-lease (discarded k h) = refl
Change-lease (started k p h l q) = refl
Change-lease (settled r st res h t) = refl
Change-lease (cancels r h) = refl
Change-lease (loses r h k l) = refl
Change-lease (resumes r st h l c) = refl
Change-lease (closes r st res h t) = refl
Change-lease (recovers h) = refl
Change-lease (connects c) = refl
Change-lease (closes_session h k l) = refl

run-heard :
    (own : String) (s : Session) (cs : List Call)
    → s.controller_lease ≡ own
    → run s cs ≡ run s (heard own cs)
unfolding run heard
run-heard own s [] e = refl
run-heard own s (c ∷ cs) e = elim (Bool-cases (foreign own (presented c))) [
  | inl stranger ↦ rw (stranger, foreign-step own s c e stranger) (run-heard own s cs e)
  | inr holder ↦ rw holder (run-heard own (step s c) cs (Change-lease (step-Change s c) ∙ e))
]

-- The calls of a history that present an empty lease, or another one than the session's, have no
-- effect at all, whichever method they call, at whatever time and in whatever state of the session:
-- the history leads to the same session without them.
pub strangers_ignored :
    (s : Session) (cs : List Call) → run s cs ≡ run s (heard s.controller_lease cs)
strangers_ignored s cs = run-heard s.controller_lease s cs refl
