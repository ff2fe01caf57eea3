-- ===== src/Storage/Sessions/History.antt =====
-- What no history of transitions of internal/storage takes back.
use agent_council.Common.{
  ℕ, ◌≤◌, String, ◌≡◌, refl, sym, ap, ◌∙◌, true, List, [], ◌∷◌, Option, none, some, is_some, arith,
  eq_iff,
}
use agent_council.Council.Status.{is_terminal, lifecycle_archived}
use agent_council.Storage.Rows.{SessionRow, TurnRow, Db, Env}
use agent_council.Storage.Commands.{text_of}
use agent_council.Storage.Release.{start_turn}
use agent_council.Storage.Terminal.{end_turn}
use agent_council.Storage.Step.{Command, step, run}
use agent_council.Storage.Sessions.Change.{
  Change, keeps, queued, replaced, discarded, started, ended, closes, recovers, waits, loses,
  cancels, connects, closes_session, observes,
}
use agent_council.Storage.Sessions.Transitions.{step-Logged}
use agent_council.Storage.Sessions.Invariant.{Inv, step-Inv}

-- A turn that stays the same row, or the same attempt of the same prompt while it lives.
pub record SameTurn (t u : TurnRow) : Type 0 where
  pub prompt : u.prompt ≡ t.prompt
  pub attempt : u.attempt_id ≡ t.attempt_id
  pub final : is_terminal t.status ≡ true → u ≡ t

-- What a session row never takes back.
pub record Later (s s' : SessionRow) : Type 0 where
  pub owner : s'.run_id ≡ s.run_id
  pub who : s'.contributor ≡ s.contributor
  pub version : s.row_version ≤ s'.row_version
  pub episodes : s.recovery_gen ≤ s'.recovery_gen
  pub closed : lifecycle_archived s.lifecycle ≡ true → lifecycle_archived s'.lifecycle ≡ true
  pub unmoved : s'.row_version ≡ s.row_version → s' ≡ s

some-same : (x y : SessionRow) → Option.some x ≡ some y → x ≡ y
some-same x y h = cc

Later-refl : (s : SessionRow) → Later s s
Later-refl s = record {
  owner = refl;
  who = refl;
  version = omega arith;
  episodes = omega arith;
  closed = λ h. h;
  unmoved = λ h. refl;
}

Later-trans : (s s' s'' : SessionRow) → Later s s' → Later s' s'' → Later s s''
Later-trans s s' s'' a b = ground arith

Change-Later :
    {db db' : Db}
    → Change db db'
    → (i : String) (x x' : SessionRow) → db.sessions i ≡ some x
    → db'.sessions i ≡ some x'
    → Later x x'
unfolding start_turn end_turn
Change-Later keeps i x x' e e' = rw (sym (some-same x x' (sym e ∙ e'))) (Later-refl x)
Change-Later (queued id key s p h n) i x x' e e' = ground (arith, eq_iff id i)
Change-Later (replaced id key q s h) i x x' e e' = ground (arith, eq_iff id i)
Change-Later (discarded id key s h) i x x' e e' = ground (arith, eq_iff id i)
Change-Later (started gen id key q s p h n m b l a c y w) i x x' e e' = ground (arith, eq_iff id i)
Change-Later (ended id key res st s t h n f g o y) i x x' e e' = ground (arith, eq_iff id i)
Change-Later (closes id key res st s h f l a c) i x x' e e' = ground (arith, eq_iff id i)
Change-Later (recovers id s h l) i x x' e e' = ground (arith, eq_iff id i)
Change-Later (waits id s h) i x x' e e' = ground (arith, eq_iff id i)
Change-Later (loses id s h l r a) i x x' e e' = ground (arith, eq_iff id i)
Change-Later (cancels id key s t h n r) i x x' e e' = ground (arith, eq_iff id i)
Change-Later (connects id s c h) i x x' e e' = ground (arith, eq_iff id i)
Change-Later (closes_session id s h r a l) i x x' e e' = ground (arith, eq_iff id i)
Change-Later (observes id key f s j h n r o) i x x' e e' = ground (arith, eq_iff id i)

Change-row :
    {db db' : Db}
    → Change db db'
    → (i : String) → is_some (db.sessions i) ≡ true
    → is_some (db'.sessions i) ≡ true
unfolding start_turn end_turn
Change-row keeps i e = e
Change-row (queued id key s p h n) i e = ground arith
Change-row (replaced id key q s h) i e = ground arith
Change-row (discarded id key s h) i e = ground arith
Change-row (started gen id key q s p h n m b l a c y w) i e = ground arith
Change-row (ended id key res st s t h n f g o y) i e = ground arith
Change-row (closes id key res st s h f l a c) i e = ground arith
Change-row (recovers id s h l) i e = ground arith
Change-row (waits id s h) i e = ground arith
Change-row (loses id s h l r a) i e = ground arith
Change-row (cancels id key s t h n r) i e = ground arith
Change-row (connects id s c h) i e = ground arith
Change-row (closes_session id s h r a l) i e = ground arith
Change-row (observes id key f s j h n r o) i e = ground arith

Change-SameTurn :
    {db db' : Db}
    → Change db db'
    → Inv db
    → (i k : String) (x x' : TurnRow) → db.turns i k ≡ some x
    → db'.turns i k ≡ some x'
    → SameTurn x x'
unfolding start_turn end_turn
Change-SameTurn keeps v i k x x' e e' = ground arith
Change-SameTurn (queued id key s p h n) v i k x x' e e' = ground (arith, eq_iff id i, eq_iff key k)
Change-SameTurn (replaced id key q s h) v i k x x' e e' = ground (arith, eq_iff id i, eq_iff key k)
Change-SameTurn (discarded id key s h) v i k x x' e e' = ground (arith, eq_iff id i, eq_iff key k)
Change-SameTurn (started gen id key q s p h n m b l a c y w) v i k x x' e e' =
    ground (arith, eq_iff id i, eq_iff key k)
Change-SameTurn (ended id key res st s t h n f g o y) v i k x x' e e' =
    ground (arith, eq_iff id i, eq_iff key k)
Change-SameTurn (closes id key res st s h f l a c) v i k x x' e e' =
    ground (arith, eq_iff id i, eq_iff key k, v id key s, eq_iff (text_of s.active_key) key)
Change-SameTurn (recovers id s h l) v i k x x' e e' = ground (arith)
Change-SameTurn (waits id s h) v i k x x' e e' = ground (arith)
Change-SameTurn (loses id s h l r a) v i k x x' e e' = ground (arith)
Change-SameTurn (cancels id key s t h n r) v i k x x' e e' =
    ground (arith, eq_iff id i, eq_iff key k)
Change-SameTurn (connects id s c h) v i k x x' e e' = ground (arith)
Change-SameTurn (closes_session id s h r a l) v i k x x' e e' = ground (arith)
Change-SameTurn (observes id key f s j h n r o) v i k x x' e e' =
    ground (arith, eq_iff id i, eq_iff key k)

Change-turn :
    {db db' : Db}
    → Change db db'
    → (i k : String) → is_some (db.turns i k) ≡ true
    → is_some (db'.turns i k) ≡ true
unfolding start_turn end_turn
Change-turn keeps i k e = e
Change-turn (queued id key s p h n) i k e = ground arith
Change-turn (replaced id key q s h) i k e = ground arith
Change-turn (discarded id key s h) i k e = ground arith
Change-turn (started gen id key q s p h n m b l a c y w) i k e = ground arith
Change-turn (ended id key res st s t h n f g o y) i k e = ground arith
Change-turn (closes id key res st s h f l a c) i k e = ground arith
Change-turn (recovers id s h l) i k e = ground arith
Change-turn (waits id s h) i k e = ground arith
Change-turn (loses id s h l r a) i k e = ground arith
Change-turn (cancels id key s t h n r) i k e = ground arith
Change-turn (connects id s c h) i k e = ground arith
Change-turn (closes_session id s h r a l) i k e = ground arith
Change-turn (observes id key f s j h n r o) i k e = ground arith

same_trans : (t u w : TurnRow) → SameTurn t u → SameTurn u w → SameTurn t w
same_trans t u w a b = ground arith

some-of : {A : Type 0} (o : Option A) → is_some o ≡ true → (a : A) × (o ≡ some a)
some-of none h = cc
some-of (some a) h = (a, refl)

step_session :
    (env : Env) (db : Db) (c : ℕ × Command) (id : String) (s : SessionRow)
    → db.sessions id ≡ some s
    → (s' : SessionRow) × ((step env db c).sessions id ≡ some s') × Later s s'
step_session env db c id s h =
    let l = step-Logged env db c in
    let (s', found) = some-of (l.tables.sessions id) (Change-row l.change id (ap is_some h)) in
    (s', ap (λ d. d.sessions id) l.logged ∙ found, Change-Later l.change id s s' h found)

step_turn :
    (env : Env) (db : Db) (c : ℕ × Command) (id k : String) (t : TurnRow)
    → Inv db
    → db.turns id k ≡ some t
    → (u : TurnRow) × ((step env db c).turns id k ≡ some u) × SameTurn t u
step_turn env db c id k t v h =
    let l = step-Logged env db c in
    let (u, found) = some-of (l.tables.turns id k) (Change-turn l.change id k (ap is_some h)) in
    (u, ap (λ d. d.turns id k) l.logged ∙ found, Change-SameTurn l.change v id k t u h found)

-- In any history of commands, a session row stays: its run and its contributor are never
-- rewritten, its version and its recovery generation never fall, an archived session stays
-- archived, and a row whose version has not moved has not changed in any column.
pub run_keeps_session :
    (env : Env) (db : Db) (cs : List (ℕ × Command)) (id : String) (s : SessionRow)
    → db.sessions id ≡ some s
    → (s' : SessionRow) × ((run env db cs).sessions id ≡ some s') × Later s s'
unfolding run
run_keeps_session env db [] id s h = (s, h, Later-refl s)
run_keeps_session env db (c ∷ cs) id s h =
    let (s', h', l) = step_session env db c id s h in
    let (s'', h'', l') = run_keeps_session env (step env db c) cs id s' h' in
    (s'', h'', Later-trans s s' s'' l l')

same_refl : (t : TurnRow) → SameTurn t t
same_refl t = record { prompt = refl; attempt = refl; final = λ h. refl }

-- From tables that satisfy the invariant, in any history of commands, a turn's row stays: its
-- prompt and its attempt are never rewritten, and once its status is terminal no column changes.
pub run_keeps_turn :
    (env : Env) (db : Db) (cs : List (ℕ × Command)) (id k : String) (t : TurnRow)
    → Inv db
    → db.turns id k ≡ some t
    → (u : TurnRow) × ((run env db cs).turns id k ≡ some u) × SameTurn t u
unfolding run
run_keeps_turn env db [] id k t v h = (t, h, same_refl t)
run_keeps_turn env db (c ∷ cs) id k t v h =
    let (u, h', l) = step_turn env db c id k t v h in
    let (w, h'', l') = run_keeps_turn env (step env db c) cs id k u (step-Inv env db c v) h' in
    (w, h'', same_trans t u w l l')
