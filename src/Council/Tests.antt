-- ===== src/Council/Tests.antt =====
-- Runs of internal/council on concrete ballots and sessions.
use agent_council.Common.{
  ◌+◌, String, ◌≡◌, refl, ◌≢◌, true, false, List, [], ◌∷◌, none, some, put, no_entries, is_blank,
  ok, ◌<◌, ◌^◌, length, arith,
}
use agent_council.Council.Contributor.{Contributor, open_code, claude, codex, agy}
use agent_council.Council.Status.{
  State, SessionLifecycle, TurnStatus, ControllerConnection, ExecutionVisibility, is_lost,
}
use agent_council.Council.Ballot.{Ballot, Counts, tally}
use agent_council.Council.Ballot.Spec.{Accepted, occurrences, choice_of, tally_exact}
use agent_council.Council.Session.State.{Session, TurnRecord, empty_turn, new_session, authorize}
use agent_council.Council.Session.Prompts.{queue}
use agent_council.Council.Session.Turns.{release, start_turn, settle}
use agent_council.Council.Session.Recovery.{reachable_again, record_host_loss, reconcile_host}
use agent_council.Council.Session.Step.{
  Call, queues, releases, archives, loses_host, completes_with, step, run,
}
use agent_council.Council.Session.Invariant.{Inv, new_session-run-Inv}
use agent_council.Council.Session.History.{turn_at, Kept, run-Kept, step_new_turn}
use agent_council.Council.Session.Outcomes.{Ready, running_turn, release_exact, queue_idem}
use agent_council.Council.Session.Finality.{Refused, reconcile_once, key_serves_once}
use agent_council.Council.Session.Strangers.{heard, strangers_ignored}
use agent_council.Protocol.{Step}
use agent_council.Protocol.Kernel.{phase, kernel_refines}

abbrev ballot : Contributor → Contributor → Ballot
ballot v c = record {
  voter = v;
  choice = c;
  proposal_set = "set-1";
  reason = "clear";
  acceptable = true;
}

abbrev four : List Ballot
four = ballot open_code claude ∷ ballot claude codex ∷ ballot codex agy ∷ ballot agy claude ∷ []

tally_exact_example :
    (Accepted "set-1" four → (r : Counts) × (tally four "set-1" ≡ ok r))
    × ((r : Counts)
        → tally four "set-1" ≡ ok r
        → Accepted "set-1" four
          × ((c : Contributor) → r c ≡ occurrences choice_of c four)
          × (r open_code + r claude + r codex + r agy ≡ 4))
tally_exact_example = tally_exact four "set-1"

abbrev fresh : Session
fresh = record {
  id = claude;
  state = State.parked;
  lifecycle = SessionLifecycle.active;
  controller_status = ControllerConnection.connected;
  visibility = ExecutionVisibility.reachable;
  controller_lease = "lease";
  pending = no_entries;
  active = "";
  active_turn = none;
  turns = no_entries;
  recovery_context = "";
  recovery_generation = 0;
  active_recovery_gen = 0;
  cells = λ _. empty_turn;
  next_cell = 0;
}

fresh-new : new_session claude "lease" ≡ ok fresh
unfolding new_session is_blank
fresh-new = refl

-- A prompt is queued, then released, then the host is lost.
abbrev queued : Session
queued = record fresh { pending = put "k" "p" fresh.pending }

abbrev working : Session
working = start_turn queued "k" "p"

abbrev lost : Session
lost = record working {
  recovery_generation = 1;
  active_recovery_gen = 1;
  visibility = ExecutionVisibility.host_lost;
  recovery_context = "k";
}

abbrev done : Session
done = reachable_again (settle lost 0 TurnStatus.completed "done")

abbrev calls : List Call
calls = queues "lease" "k" "p" ∷ releases "lease" "k" ∷ loses_host ∷ []

queued-Inv : Inv queued
unfolding run step queue authorize is_blank
queued-Inv = new_session-run-Inv claude "lease" fresh (queues "lease" "k" "p" ∷ []) fresh-new

working-Inv : Inv working
unfolding run step queue authorize is_blank release
working-Inv =
    new_session-run-Inv claude "lease" fresh (queues "lease" "k" "p" ∷ releases "lease" "k" ∷ [])
      fresh-new

lost-Inv : Inv lost
unfolding run step queue authorize is_blank release start_turn record_host_loss
lost-Inv = new_session-run-Inv claude "lease" fresh calls fresh-new

kernel_refines_example :
    Step (phase (run fresh calls)) (phase (step (run fresh calls) (completes_with "k" "done")))
kernel_refines_example =
    kernel_refines claude "lease" fresh calls (completes_with "k" "done") fresh-new

new_session-run-Inv_example : Inv (run fresh calls)
new_session-run-Inv_example = new_session-run-Inv claude "lease" fresh calls fresh-new

working-turn : turn_at working "k" ≡ some (running_turn "k" "p")
unfolding start_turn
working-turn = refl

run-Kept_example :
    (u : TurnRecord) × (turn_at (run working (loses_host ∷ completes_with "k" "done" ∷ [])) "k"
      ≡ some u)
    × Kept (running_turn "k" "p") u
run-Kept_example =
    run-Kept working (loses_host ∷ completes_with "k" "done" ∷ []) "k" (running_turn "k" "p")
      working-Inv working-turn

release-starts : (step queued (releases "lease" "k")).turns "k" ≢ none
unfolding step release authorize start_turn
release-starts h = cc

step_new_turn_example :
    (lease p : String) × (releases "lease" "k" ≡ releases lease "k")
    × (authorize queued lease ≡ ok tt)
    × (queued.pending "k" ≡ some p)
    × (step queued (releases "lease" "k") ≡ start_turn queued "k" p)
step_new_turn_example = step_new_turn queued (releases "lease" "k") "k" refl release-starts

release_exact_example :
    (Ready queued "lease" "k" "p"
      → (t : Session) × (release queued "lease" "k" ≡ ok ("p", t))
        × (turn_at t "k" ≡ some (running_turn "k" "p"))
        × (t.active ≡ "k")
        × (t.pending "k" ≡ none))
    × ((t : Session) → release queued "lease" "k" ≡ ok ("p", t) → Ready queued "lease" "k" "p")
release_exact_example = release_exact queued "lease" "k" "p" queued-Inv

queue-fresh : queue fresh "lease" "k" "p" ≡ ok queued
unfolding queue authorize is_blank
queue-fresh = refl

queued-again : queue queued "lease" "k" "p" ≡ ok queued
queued-again = queue_idem fresh queued "lease" "k" "p" queue-fresh

key_serves_once_example : Refused (run working (completes_with "k" "done" ∷ [])) "k"
key_serves_once_example =
    key_serves_once working "k" (running_turn "k" "p") (completes_with "k" "done" ∷ []) working-Inv
      working-turn

reconcile-lost : reconcile_host lost "k" 1 TurnStatus.completed "done" ≡ ok done
unfolding reconcile_host start_turn settle
reconcile-lost = refl

-- Another turn begins, and the host is lost again.
abbrev next_loss : List Call
next_loss = queues "lease" "l" "q" ∷ releases "lease" "l" ∷ loses_host ∷ []

lost_again : (run done next_loss).active_recovery_gen ≡ 2
unfolding run step queue authorize is_blank release start_turn settle record_host_loss
lost_again = refl

lost_short : lost.recovery_generation + length next_loss < 2 ^ 64
lost_short = omega arith

reconcile_once_example :
    (1 ≡ lost.active_recovery_gen)
    × ("k" ≡ lost.recovery_context)
    × (is_lost done.visibility ≡ false)
    × (reconcile_host (run done next_loss) "l" 1 TurnStatus.running "" ≢ ok done)
reconcile_once_example =
    reconcile_once lost done done "k" "l" 1 TurnStatus.completed TurnStatus.running "done" ""
      next_loss lost-Inv lost_short reconcile-lost

-- A stranger's release is among the calls.
abbrev mixed : List Call
mixed = queues "lease" "k" "p" ∷ releases "other" "k" ∷ archives "" ∷ []

strangers_ignored_example : run fresh mixed ≡ run fresh (heard "lease" mixed)
strangers_ignored_example = strangers_ignored fresh mixed
