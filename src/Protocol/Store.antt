-- ===== src/Protocol/Store.antt =====
-- The tables of internal/storage implement the protocol, each session for itself.
use agent_council.Common.{
  ℕ, String, true, false, ◌||◌, ◌&&◌, ◌≡◌, ◌≢◌, refl, inl, inr, arith, eq_iff, text_eq, Bool-cases,
  Option-cases, Option, none, some, is_some, List,
}
use agent_council.Council.Status.{TurnStatus, is_live, is_terminal}
use agent_council.Storage.Rows.{SessionRow, PendingRow, TurnRow, Db, Env}
use agent_council.Storage.Commands.{is_set, text_of}
use agent_council.Storage.Release.{start_turn}
use agent_council.Storage.Terminal.{end_turn, outcome_expected}
use agent_council.Storage.Step.{Command, step, run}
use agent_council.Storage.Sessions.Change.{
  Change, keeps, queued, replaced, discarded, started, ended, closes, recovers, waits, loses,
  cancels, connects, closes_session, observes, Logged,
}
use agent_council.Storage.Sessions.Transitions.{step-Logged}
use agent_council.Storage.Sessions.Invariant.{Inv, At, live_turn, ended_turn, run_keeps_Inv}
use agent_council.Protocol.{Phase, phase_of_status, is_active, allowed, Step, idles, moves}

abbrev row_phase : Option PendingRow → Option TurnRow → Phase
row_phase prompt (some t) = phase_of_status t.status
row_phase none none = Phase.absent
row_phase (some p) none = Phase.queued

-- The phase of a key in the tables of a session.
abbrev pub phase : Db → String → String → Phase
phase db id k = row_phase (db.pending_prompts id k) (db.turns id k)

-- Only the keys of one session move.
elsewhere :
    (db db' : Db) (id key i j : String)
    → ((a b : String)
        → text_eq id a && text_eq key b ≡ false
        → (db'.turns a b ≡ db.turns a b) × (db'.pending_prompts a b ≡ db.pending_prompts a b))
    → text_eq id i && text_eq key j ≡ false
    → phase db' i j ≡ phase db i j
elsewhere db db' id key i j same h = let s = same i j h in ground (arith, s.0, s.1)

module _ (db db' : Db) (id key : String) where
  -- A change of one key of one session, seen from any session.
  one_key :
      ((a b : String)
        → text_eq id a && text_eq key b ≡ false
        → (db'.turns a b ≡ db.turns a b) × (db'.pending_prompts a b ≡ db.pending_prompts a b))
      → allowed (phase db id key) (phase db' id key) ≡ true
      → (is_active (phase db id key) ≡ false
          → is_active (phase db' id key) ≡ true
          → (j : String) → is_active (phase db id j) ≡ false)
      → (i : String) → Step (phase db i) (phase db' i)
  one_key same fits alone i = elim (Bool-cases (text_eq id i)) [
    | inr other ↦ idles (λ j. elsewhere db db' id key i j same (ground arith))
    | inl here ↦
        let e : id ≡ i = (eq_iff id i).0 here in
        rw (← e) (moves key fits (λ j h. elsewhere db db' id key id j same (ground arith)) alone)
  ]

  -- No phase changes.
  one_phase :
      ((a b : String)
        → text_eq id a && text_eq key b ≡ false
        → (db'.turns a b ≡ db.turns a b) × (db'.pending_prompts a b ≡ db.pending_prompts a b))
      → phase db' id key ≡ phase db id key
      → (i : String) → Step (phase db i) (phase db' i)
  one_phase same kept i = idles (λ j. elim (Bool-cases (text_eq id i && text_eq key j)) [
    | inr other ↦ elsewhere db db' id key i j same other
    | inl here ↦ ground (arith, eq_iff id i, eq_iff key j)
  ])

live_active : (a : TurnStatus) → is_live a ≡ true → is_active (phase_of_status a) ≡ true
live_active a h = ground arith

unended :
    {o : Option TurnRow} (t : TurnRow)
    → is_some o ≡ live_turn o || ended_turn o
    → o ≡ some t
    → is_terminal t.status ≡ false
    → is_live t.status ≡ true
unended t d n f = ground arith

idle_active :
    (db : Db) (id j : String) (s : SessionRow)
    → At db id j s
    → is_set s.active_key ≡ false
    → is_active (phase db id j) ≡ false
idle_active db id j s v c = elim (Option-cases (db.turns id j)) [
  | inl nothing ↦ ground (arith, Option-cases (db.pending_prompts id j))
  | inr (t, found) ↦ let single = v.single in ground arith
]

end_allowed :
    (a b : TurnStatus)
    → is_live a ≡ true
    → is_terminal b ≡ true
    → allowed (phase_of_status a) (phase_of_status b) ≡ true
end_allowed a b h k = ground arith

held_alive :
    (db : Db) (id key : String) (s : SessionRow) (t : TurnRow)
    → At db id key s
    → is_set s.active_key ≡ true
    → text_eq (text_of s.active_key) key ≡ true
    → db.turns id key ≡ some t
    → is_live t.status ≡ true
held_alive db id key s t v a c found =
    let live = v.live in ground (arith, live, eq_iff (text_of s.active_key) key)

held_live :
    (db : Db) (id key : String) (s : SessionRow)
    → At db id key s
    → is_set s.active_key ≡ true
    → text_eq (text_of s.active_key) key ≡ true
    → db.turns id key ≢ none
held_live db id key s v a c nothing =
    let live = v.live in ground (arith, live, eq_iff (text_of s.active_key) key)

Change-Step :
    {db db' : Db} → Change db db' → Inv db → (i : String) → Step (phase db i) (phase db' i)
unfolding start_turn end_turn outcome_expected
Change-Step keeps v i = idles (λ j. refl)
Change-Step {db} {db'} (queued id key s p h n) v i =
    one_key db db' id key (λ a b e. (refl, ground arith))
      (ground (arith, eq_iff id id, eq_iff key key, Option-cases (db.pending_prompts id key)))
      (λ q q' j. ground (arith, eq_iff id id, eq_iff key key)) i
Change-Step {db} {db'} (replaced id key q s h) v i = elim (Option-cases (db.turns id key)) [
  | inr (t, used) ↦
      one_phase db db' id key (λ a b e. (refl, ground arith)) (ground (arith, eq_iff id id)) i
  | inl free ↦ elim (Option-cases (db.pending_prompts id key)) [
    | inl nothing ↦
        one_phase db db' id key (λ a b e. (refl, ground arith)) (ground (arith, eq_iff id id)) i
    | inr (p, waiting) ↦
        one_key db db' id key (λ a b e. (refl, ground arith))
          (ground (arith, eq_iff id id, eq_iff key key))
          (λ q q' j. ground (arith, eq_iff id id, eq_iff key key)) i
  ]
]
Change-Step {db} {db'} (discarded id key s h) v i = elim (Option-cases (db.turns id key)) [
  | inr (t, used) ↦
      one_phase db db' id key (λ a b e. (refl, ground arith)) (ground (arith, eq_iff id id)) i
  | inl free ↦ elim (Option-cases (db.pending_prompts id key)) [
    | inl nothing ↦
        one_phase db db' id key (λ a b e. (refl, ground arith)) (ground (arith, eq_iff id id)) i
    | inr (p, waiting) ↦
        one_key db db' id key (λ a b e. (refl, ground arith))
          (ground (arith, eq_iff id id, eq_iff key key))
          (λ q q' j. ground (arith, eq_iff id id, eq_iff key key)) i
  ]
]
Change-Step {db} {db'} (started gen id key q s p h n m b l a c y w) v i =
    one_key db db' id key (λ a b e. (ground arith, ground arith))
      (ground (arith, eq_iff id id, eq_iff key key))
      (λ q q' j. idle_active db id j s (v id j s h) c) i
Change-Step {db} {db'} (ended id key res st s t h n f g o y) v i =
    let alive = unended t (v id key s h).decided n g in
    one_key db db' id key (λ a b e. (ground arith, refl))
      (ground (arith, eq_iff id id, eq_iff key key, end_allowed t.status st))
      (λ q q' j. absurd (ground (arith, live_active t.status))) i
Change-Step {db} {db'} (closes id key res st s h f l a c) v i =
    elim (Option-cases (db.turns id key)) [
      | inl nothing ↦ absurd (held_live db id key s (v id key s h) a c nothing)
      | inr (t, found) ↦
          let alive = held_alive db id key s t (v id key s h) a c found in
          one_key db db' id key (λ a b e. (ground arith, refl))
            (ground (arith, eq_iff id id, eq_iff key key, end_allowed t.status st))
            (λ q q' j. absurd (ground (arith, live_active t.status))) i
    ]
Change-Step (recovers id s h l) v i = idles (λ j. refl)
Change-Step (waits id s h) v i = idles (λ j. refl)
Change-Step (loses id s h l r a) v i = idles (λ j. refl)
Change-Step {db} {db'} (cancels id key s t h n r) v i =
    one_key db db' id key (λ a b e. (ground arith, refl))
      (ground (arith, eq_iff id id, eq_iff key key))
      (λ q q' j. absurd (ground (arith, live_active t.status))) i
Change-Step (connects id s c h) v i = idles (λ j. refl)
Change-Step (closes_session id s h r a l) v i = idles (λ j. refl)
Change-Step (observes id key f s j h n r o) v i = idles (λ j. refl)

-- The journal has no phases.
Logged-Step :
    {db db' : Db} → Logged db db' → Inv db → (i : String) → Step (phase db i) (phase db' i)
Logged-Step {db} l v i = rw l.logged (Change-Step l.change v i)

-- The durable store implements the protocol: from tables that satisfy the invariant, after any
-- commands, whether they succeed or fail, each further command makes, for every session, a step of
-- the protocol on the phases of that session's keys, which are read off the rows of its pending
-- prompts and turns.
pub store_refines :
    (env : Env) (db : Db) (cs : List (ℕ × Command)) (c : ℕ × Command)
    → Inv db
    → (i : String) → Step (phase (run env db cs) i) (phase (step env (run env db cs) c) i)
store_refines env db cs c v =
    Logged-Step (step-Logged env (run env db cs) c) (run_keeps_Inv env db cs v)
