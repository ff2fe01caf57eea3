-- ===== src/Storage/Authorized.antt =====
-- internal/storage: whom `classifyCredential` lets act.
use agent_council.Common.{
  ℕ, String, ◌≡◌, ◌↔◌, inl, inr, true, false, some, is_blank, Option-cases, arith, eq_iff, ok,
}
use agent_council.Council.Status.{lifecycle_archived}
use agent_council.Storage.Rows.{RunRow, LeaseRow, Db}
use agent_council.Storage.Authority.{active_grant, classify_credential, classify_run_controller}

-- The lease is that of the run's active grant, which is adopted and which the run row agrees with.
pub record Controls (db : Db) (run lease : String) (gen : ℕ) : Type 0 where
  pub r : RunRow
  pub g : LeaseRow
  pub named : is_blank lease ≡ false
  pub found : db.runs run ≡ some r
  pub unarchived : lifecycle_archived r.lifecycle ≡ false
  pub adopted : r.controller_adopted ≡ true
  pub granted : active_grant db run ≡ some g
  pub presented : g.lease ≡ lease
  pub agreed : r.controller_lease ≡ lease
  pub current : g.generation ≡ gen

classify-Controls :
    (db : Db) (run lease : String) (gen : ℕ)
    → classify_run_controller db run lease ≡ ok gen
    → Controls db run lease gen
unfolding classify_run_controller classify_credential
classify-Controls db run lease gen h = elim (Option-cases (db.runs run)) [
  | inl missing ↦ ground arith
  | inr (r, found) ↦ elim (Option-cases (active_grant db run)) [
    | inl missing ↦ ground arith
    | inr (g, granted) ↦ record {
      r = r;
      g = g;
      named = ground arith;
      found = found;
      unarchived = ground arith;
      adopted = ground arith;
      granted = granted;
      presented = ground (arith, eq_iff g.lease lease);
      agreed = ground (arith, eq_iff r.controller_lease lease);
      current = ground arith;
    }
  ]
]

Controls-classify :
    (db : Db) (run lease : String) (gen : ℕ)
    → Controls db run lease gen
    → classify_run_controller db run lease ≡ ok gen
unfolding classify_run_controller classify_credential
Controls-classify db run lease gen c =
    let found = c.found in
    let granted = c.granted in
    ground (
      arith,
      c.named,
      found,
      granted,
      c.unarchived,
      c.adopted,
      c.presented,
      c.agreed,
      c.current,
      eq_iff c.g.lease lease,
      eq_iff c.r.controller_lease lease,
    )

-- The authority of a controller over a run, with a generation, is granted exactly to the holder of
-- the lease of the run's active grant of that generation: the lease is not blank, the run is not
-- archived and is adopted, and the run row holds the same lease.
pub classify_iff :
    (db : Db) (run lease : String) (gen : ℕ)
    → (classify_run_controller db run lease ≡ ok gen) ↔ Controls db run lease gen
classify_iff db run lease gen =
    (classify-Controls db run lease gen, Controls-classify db run lease gen)
