-- ===== src/Storage/Sessions/Invariant.antt =====
-- What holds of the rows of a session of internal/storage between two transactions.
use agent_council.Common.{
  ℕ, String, ◌≡◌, Bool, true, false, ◌||◌, List, [], ◌∷◌, Option, none, some, is_some, text_eq,
  is_blank-empty, arith, eq_iff,
}
use agent_council.Council.Status.{
  is_archived, is_running, is_lost, is_live, is_terminal, lifecycle_archived,
}
use agent_council.Storage.Rows.{SessionRow, TurnRow, IntentRow, JournalRow, Db, Env}
use agent_council.Storage.Commands.{holds, is_set, text_of}
use agent_council.Storage.Release.{start_turn}
use agent_council.Storage.Terminal.{end_turn, outcome_expected}
use agent_council.Storage.Dispatch.{is_resolved}
use agent_council.Storage.Step.{Command, step, run}
use agent_council.Storage.Sessions.Transitions.{step-Logged}
use agent_council.Storage.Sessions.Change.{
  Change, keeps, queued, replaced, discarded, started, ended, closes, recovers, waits, loses,
  cancels, connects, closes_session, observes, Logged,
}

abbrev pub live_turn : Option TurnRow → Bool
live_turn none = false
live_turn (some t) = is_live t.status

abbrev pub ended_turn : Option TurnRow → Bool
ended_turn none = false
ended_turn (some t) = is_terminal t.status

abbrev pub resolved_intent : Option IntentRow → Bool
resolved_intent none = false
resolved_intent (some i) = is_resolved i.phase

-- What the invariant says of the session `id` with the row `s`, and of the key `k`.
pub record At (db : Db) (id k : String) (s : SessionRow) : Type 0 where
  pub together : is_archived s.state ≡ lifecycle_archived s.lifecycle
  pub runs : is_running s.state ≡ is_set s.active_key
  pub live :
      is_set s.active_key ≡ true → holds s.active_key k ≡ true → live_turn (db.turns id k) ≡ true
  pub single :
      live_turn (db.turns id k) ≡ true
      → (is_set s.active_key ≡ true) × (holds s.active_key k ≡ true)
  pub decided : is_some (db.turns id k) ≡ live_turn (db.turns id k) || ended_turn (db.turns id k)
  pub retired : is_some (db.turns id k) ≡ true → db.pending_prompts id k ≡ none
  pub intended : is_some (db.dispatch_intents id k) ≡ is_some (db.turns id k)
  pub resolved : resolved_intent (db.dispatch_intents id k) ≡ ended_turn (db.turns id k)
  pub reachable_clear : is_lost s.visibility ≡ false → s.active_recovery_gen ≡ 0
  pub lost_episode : is_lost s.visibility ≡ true → s.active_recovery_gen ≡ s.recovery_gen
  pub lost_open : is_lost s.visibility ≡ true → is_archived s.state ≡ false
  pub lost_context :
      is_lost s.visibility ≡ true
      → is_set s.active_key ≡ true
      → text_of s.recovery_context ≡ text_of s.active_key

abbrev pub Inv : Db → Type 0
Inv db = (id k : String) (s : SessionRow) → db.sessions id ≡ some s → At db id k s

holds-same :
    (a : Option String) (j k : String) → holds a j ≡ true → holds a k ≡ true → text_eq j k ≡ true
holds-same none j k h h' = cc
holds-same (some i) j k h h' = ground (arith, eq_iff i j, eq_iff i k, eq_iff j k)

unended-held :
    {db : Db} (id key : String) (s : SessionRow) (t : TurnRow)
    → At db id key s
    → db.turns id key ≡ some t
    → is_terminal t.status ≡ false
    → (is_set s.active_key ≡ true) × (holds s.active_key key ≡ true) × (is_live t.status ≡ true)
unended-held id key s t v n f =
    let d = v.decided in let single = v.single in ground (arith, d, single)

pub Change-Inv : {db db' : Db} → Change db db' → Inv db → Inv db'
unfolding start_turn end_turn outcome_expected
Change-Inv keeps v i k s' e = v i k s' e
Change-Inv (queued id key s p h n) v i k s' e =
    ground (arith, v i k s, v i k s', eq_iff id i, eq_iff key k)
Change-Inv (replaced id key q s h) v i k s' e =
    ground (arith, v i k s, v i k s', eq_iff id i, eq_iff key k)
Change-Inv (discarded id key s h) v i k s' e =
    ground (arith, v i k s, v i k s', eq_iff id i, eq_iff key k)
Change-Inv (started gen id key q s p h n m b l a c y w) v i k s' e =
    ground (arith, v i k s, v i k s', eq_iff id i, eq_iff key k, is_blank-empty key)
Change-Inv (ended id key res st s t h n f g o y) v i k s' e =
    let (set, held, alive) = unended-held id key s t (v id key s h) n g in
    ground (
      arith,
      v id k s,
      v i k s',
      eq_iff id i,
      eq_iff key k,
      holds-same s.active_key key k,
      set,
      held,
      alive,
    )
Change-Inv (closes id key res st s h f l a c) v i k s' e =
    ground (arith, v i k s, v i k s', eq_iff id i, eq_iff key k, eq_iff (text_of s.active_key) key)
Change-Inv (recovers id s h l) v i k s' e = ground (arith, v i k s, v i k s', eq_iff id i)
Change-Inv (waits id s h) v i k s' e = ground (arith, v i k s, v i k s', eq_iff id i)
Change-Inv (loses id s h l r a) v i k s' e = ground (arith, v i k s, v i k s', eq_iff id i)
Change-Inv (cancels id key s t h n r) v i k s' e =
    ground (arith, v i k s, v i k s', eq_iff id i, eq_iff key k)
Change-Inv (connects id s c h) v i k s' e = ground (arith, v i k s, v i k s', eq_iff id i)
Change-Inv (closes_session id s h r a l) v i k s' e = ground (arith, v i k s, v i k s', eq_iff id i)
Change-Inv (observes id key f s j h n r o) v i k s' e =
    ground (arith, v i k s, v i k s', eq_iff id i, eq_iff key k)

-- The journal is no part of the invariant.
Logged-Inv : {db db' : Db} → Logged db db' → Inv db → Inv db'
Logged-Inv l v =
    rw l.logged (λ id k s e. journal_free l.tables _ id k s (Change-Inv l.change v id k s e))
  where
    journal_free :
        (db : Db) (j : List JournalRow) (id k : String) (s : SessionRow)
        → At db id k s
        → At (record db { journal = j }) id k s
    journal_free db j id k s v = record {
      together = v.together;
      runs = v.runs;
      live = v.live;
      single = v.single;
      decided = v.decided;
      retired = v.retired;
      intended = v.intended;
      resolved = v.resolved;
      reachable_clear = v.reachable_clear;
      lost_episode = v.lost_episode;
      lost_open = v.lost_open;
      lost_context = v.lost_context;
    }

-- Every command keeps the invariant of the tables, whether it succeeds or fails.
pub step-Inv : (env : Env) (db : Db) (c : ℕ × Command) → Inv db → Inv (step env db c)
step-Inv env db c = Logged-Inv (step-Logged env db c)

-- From tables that satisfy the invariant, every history of commands, failed ones included, leads to
-- tables that do. The invariant says of each session row: it runs exactly when it has an active
-- key; the turn of that key, and no other of the session, is running or cancelling; every other turn
-- has ended; exactly the turns have dispatch intents, resolved exactly when the turn has ended; a
-- key with a turn has no pending prompt; a reachable session has no open recovery generation; a
-- lost one has its latest generation open, is not archived, and keeps its active key as context.
pub run_keeps_Inv : (env : Env) (db : Db) (cs : List (ℕ × Command)) → Inv db → Inv (run env db cs)
unfolding run
run_keeps_Inv env db [] v = v
run_keeps_Inv env db (c ∷ cs) v = run_keeps_Inv env (step env db c) cs (step-Inv env db c v)
