-- ===== src/Storage/Lifetime/Invariant.antt =====
-- internal/storage: the invariant of the session rows holds all the life of the tables.
use agent_council.Common.{
  ℕ, ◌≡◌, refl, inl, inr, true, arith, eq_iff, ok, err, Result-cases, List, [], ◌∷◌,
}
use agent_council.Storage.Rows.{Db, Env, Outcome}
use agent_council.Storage.Release.{start_turn}
use agent_council.Storage.Terminal.{end_turn}
use agent_council.Storage.Step.{Command, step}
use agent_council.Storage.Sessions.Change.{
  Change, keeps, queued, replaced, discarded, started, ended, closes, recovers, waits, loses,
  cancels, connects, closes_session, observes,
}
use agent_council.Storage.Sessions.Transitions.{step-Logged}
use agent_council.Storage.Sessions.Invariant.{Inv, step-Inv}
use agent_council.Storage.Create.{create_run, create_session}
use agent_council.Storage.Create.Invariant.{Owned, create_session_keeps_Inv}
use agent_council.Storage.Grants.Adopt.{adopt_controller, handoff_controller}
use agent_council.Storage.Grants.Revoke.{revoke_controller, recover_controller_credential}
use agent_council.Storage.Grants.Attachment.{connect_run_controller, disconnect_run_controller}
use agent_council.Storage.Lifetime.Grants.{
  Whole, Regrant, regranted-Whole, adopt_controller-Regrant, handoff_controller-Regrant,
}
use agent_council.Storage.Lifetime.Runs.{
  create_run-Regrant, revoke_controller-Regrant, recover_controller_credential-Regrant,
  connect_run_controller-Regrant, disconnect_run_controller-Regrant,
}
use agent_council.Storage.Lifetime.{
  Operation, creates_run, creates_session, adopts, hands_off, revokes, connects_run,
  disconnects_run, recovers_lease, commands, committed, enact, live_on, empty_db, begins_idle,
  all_begin_idle,
}

Change-Owned : {db db' : Db} → Change db db' → Owned db → Owned db'
unfolding start_turn end_turn
Change-Owned keeps o i k e = o i k e
Change-Owned (queued id key s p h n) o i k e = ground (arith, o i k, eq_iff id i)
Change-Owned (replaced id key q s h) o i k e = ground (arith, o i k, eq_iff id i)
Change-Owned (discarded id key s h) o i k e = ground (arith, o i k, eq_iff id i)
Change-Owned (started gen id key q s p h n m b l a c y w) o i k e =
    ground (arith, o i k, eq_iff id i)
Change-Owned (ended id key res st s t h n f g q y) o i k e = ground (arith, o i k, eq_iff id i)
Change-Owned (closes id key res st s h f l a c) o i k e = ground (arith, o i k, eq_iff id i)
Change-Owned (recovers id s h l) o i k e = ground (arith, o i k, eq_iff id i)
Change-Owned (waits id s h) o i k e = ground (arith, o i k, eq_iff id i)
Change-Owned (loses id s h l r a) o i k e = ground (arith, o i k, eq_iff id i)
Change-Owned (cancels id key s t h n r) o i k e = ground (arith, o i k, eq_iff id i)
Change-Owned (connects id s c h) o i k e = ground (arith, o i k, eq_iff id i)
Change-Owned (closes_session id s h r a l) o i k e = ground (arith, o i k, eq_iff id i)
Change-Owned (observes id key f s j h n r q) o i k e = ground (arith, o i k, eq_iff id i)

step-Owned : (env : Env) (db : Db) (c : ℕ × Command) → Owned db → Owned (step env db c)
step-Owned env db c o = let l = step-Logged env db c in rw l.logged (Change-Owned l.change o)

-- An operation that regrants, and may fail.
committed-Whole {ℓ} :
    {A : Type ℓ} (db : Db) (m : Outcome A)
    → ((r : A) (db' : Db) → m ≡ ok (r, db') → Regrant db db')
    → Inv db
    → Owned db
    → Whole (committed db m)
committed-Whole db (err e) shape v o = (v, o)
committed-Whole db (ok (r, db')) shape v o =
    let (p, made) = shape r db' refl in rw made (regranted-Whole db db' p v o)

enact-Whole :
    (env : Env) (db : Db) (now : ℕ) (o : Operation)
    → begins_idle o ≡ true
    → Inv db
    → Owned db
    → Whole (enact env db now o)
unfolding enact
enact-Whole env db now (creates_run op run brief source profile lease) idle v w =
    committed-Whole db (create_run env db now op run brief source profile lease)
      (λ r db' h. create_run-Regrant env db db' now op run brief source profile lease r h) v w
enact-Whole env db now (creates_session op lease s) idle v w =
    elim (Result-cases (create_session env db now op lease s)) [
      | inr (e, failed) ↦ rw failed ((v, w))
      | inl ((r, db'), made) ↦ rw made (
          create_session_keeps_Inv env db db' now op lease s r v w (ground arith) (ground arith)
            (ground arith) made)
    ]
enact-Whole env db now (adopts op run harness ref bootstrap recovery candidate) idle v w =
    committed-Whole db (adopt_controller env db now op run harness ref bootstrap recovery candidate)
      (λ r db' h.
        adopt_controller-Regrant env db db' now op run harness ref bootstrap recovery candidate r h)
      v w
enact-Whole env db now (hands_off op run lease expected harness ref candidate) idle v w =
    committed-Whole db (handoff_controller env db now op run lease expected harness ref candidate)
      (λ r db' h.
        handoff_controller-Regrant env db db' now op run lease expected harness ref candidate r h)
      v w
enact-Whole env db now (revokes op run lease recovery) idle v w =
    committed-Whole db (revoke_controller env db now op run lease recovery)
      (λ r db' h. revoke_controller-Regrant env db db' now op run lease recovery r h) v w
enact-Whole env db now (recovers_lease op run source expected) idle v w =
    committed-Whole db (recover_controller_credential env db now op run source expected)
      (λ r db' h. recover_controller_credential-Regrant env db db' now op run source expected r h) v
      w
enact-Whole env db now (connects_run op run lease expected attachment instance_id) idle v w =
    committed-Whole db
      (connect_run_controller env db now op run lease expected attachment instance_id)
      (λ r db' h.
        connect_run_controller-Regrant env db db' now op run lease expected attachment instance_id r
          h)
      v w
enact-Whole env db now (disconnects_run op run lease attachment expected) idle v w =
    committed-Whole db (disconnect_run_controller env db now op run lease attachment expected)
      (λ r db' h.
        disconnect_run_controller-Regrant env db db' now op run lease attachment expected r h)
      v w
enact-Whole env db now (commands c) idle v w =
    (step-Inv env db (now, c) v, step-Owned env db (now, c) w)

live_on-Whole :
    (env : Env) (db : Db) (os : List (ℕ × Operation))
    → all_begin_idle os ≡ true
    → Inv db
    → Owned db
    → Whole (live_on env db os)
unfolding live_on all_begin_idle
live_on-Whole env db [] idle v w = (v, w)
live_on-Whole env db ((now, o) ∷ os) idle v w =
    let (v', w') = enact-Whole env db now o (ground arith) v w in
    live_on-Whole env (enact env db now o) os (ground arith) v' w'

-- The invariant of the session rows holds from an empty database on, after any history in which
-- runs and sessions are created, control is adopted, handed off, revoked, recovered, connected and
-- disconnected, and commands are given, whether these succeed or fail, where each session that is
-- asked for is parked, reachable and in no recovery generation; and every row of a turn, a dispatch
-- intent or a pending prompt then belongs to a session.
pub life_keeps_Inv :
    (env : Env) (os : List (ℕ × Operation))
    → all_begin_idle os ≡ true
    → Inv (live_on env empty_db os) × Owned (live_on env empty_db os)
life_keeps_Inv env os idle =
    live_on-Whole env empty_db os idle (λ id k s e. absurd (ground arith))
      (λ id k e. (refl, refl, refl))
