-- ===== src/Storage/Grants/Revocation.antt =====
-- internal/storage: what is left of a controller that has revoked itself.
use agent_council.Common.{
  ℕ, String, ◌≡◌, refl, sym, ap, ◌∙◌, inl, inr, Bool, true, false, ◌∷◌, some, inl, inr, text_eq,
  is_blank, is_blank-empty, Option-cases, arith, eq_iff, ok, err, none, [], ◌∷◌, decimal,
  Result-cases,
}
use agent_council.Storage.Rows.{StoreError, RunRow, Receipt, Db}
use agent_council.Storage.Authority.{active_grant, classify_credential, classify_run_controller}
use agent_council.Storage.Authorized.{classify_iff}
use agent_council.Storage.Grants.Install.{update_leases, project_session_connection}
use agent_council.Storage.Grants.Revoke.{revoked_run, grant_at, revoke_grant, with_revoked}
use agent_council.Storage.Grants.Leases.{revoke-retired}
use agent_council.Storage.Grants.Fencing.{
  superseded-refused, record_journal_entry-tables, classify-journal,
}
use agent_council.Storage.Journal.{find_entry, compute_fingerprint}
use Prim.Native.String.{◌++◌}
use agent_council.Storage.Grants.Revoke.{
  Revocation, revocation, check_target, revoke_new, revoke_controller,
}
use agent_council.Storage.Rows.{Env, SessionRow}
use agent_council.Council.Status.{is_disconnected}

with_revoked-run :
    (db : Db) (run : String) (gen : ℕ) (r : RunRow)
    → db.runs run ≡ some r
    → (with_revoked db run gen).runs run ≡ some (revoked_run gen r)
unfolding with_revoked project_session_connection
with_revoked-run db run gen r found = ground (arith, eq_iff run run)

with_revoked-leases :
    (db : Db) (run : String) (gen : ℕ)
    → (with_revoked db run gen).leases ≡ update_leases (grant_at run gen) revoke_grant db.leases
unfolding with_revoked project_session_connection
with_revoked-leases db run gen = refl

-- The credential that holds the generation is refused in the tables that have revoked it.
with_revoked-superseded :
    (db : Db) (run lease : String) (gen : ℕ) (adopted : Bool)
    → classify_run_controller db run lease ≡ ok gen
    → classify_credential (with_revoked db run gen) run lease adopted
      ≡ err StoreError.lease_superseded
unfolding active_grant
with_revoked-superseded db run lease gen adopted h =
    let c = (classify_iff db run lease gen).0 h in
    let held = (eq_iff c.g.lease lease).1 c.presented in
    let kept = revoke-retired db.leases run lease c.g c.granted held in
    superseded-refused (with_revoked db run gen) run lease (revoked_run gen c.r) adopted c.named
      (with_revoked-run db run gen c.r c.found) c.unarchived (blank-other lease c.named)
      (rw (with_revoked-leases db run gen, sym c.current) kept)
  where
    blank-other : (lease : String) → is_blank lease ≡ false → text_eq "" lease ≡ false
    blank-other lease h = ground (arith, is_blank-empty lease, eq_iff lease "", eq_iff "" lease)

revoke_new-tables :
    (db db' : Db) (now : ℕ) (op run fp : String) (v : Revocation) (r : Receipt)
    → revoke_new db now op run none v fp ≡ ok (r, db')
    → (r.committed_version ≡ v.target)
      × (db' ≡ record (with_revoked db run v.target) { journal = db'.journal })
unfolding revoke_new check_target
revoke_new-tables db db' now op run fp v r h = grind (arith, record_journal_entry-tables)

-- What a revocation by the controller itself has authorised and leaves.
revoked-tables :
    (env : Env) (db db' : Db) (now : ℕ) (op run lease : String) (r : Receipt)
    → find_entry op db.journal ≡ none
    → revoke_controller env db now op run lease none ≡ ok (r, db')
    → (classify_run_controller db run lease ≡ ok r.committed_version)
      × (db' ≡ record (with_revoked db run r.committed_version) { journal = db'.journal })
unfolding revoke_controller revocation
revoked-tables env db db' now op run lease r fresh h =
    elim (Result-cases (classify_run_controller db run lease)) [
      | inr (e, refused) ↦ absurd (ground arith)
      | inl (gen, allowed) ↦
          let v : Revocation = record {
            mode = "controller";
            target = gen;
            named = "controller-gen=" ++ decimal gen;
          } in
          let fp = compute_fingerprint env ("revoke_controller" ∷ run ∷ v.named ∷ v.mode ∷ []) in
          let (names, left) = revoke_new-tables db db' now op run fp v r (ground arith) in
          (rw names allowed, rw names left)
    ]

with_revoked-disconnected :
    (db : Db) (run id : String) (gen : ℕ) (s : SessionRow)
    → (with_revoked db run gen).sessions id ≡ some s
    → text_eq s.run_id run ≡ true
    → is_disconnected s.controller_status ≡ true
unfolding with_revoked project_session_connection
with_revoked-disconnected db run id gen s h e = elim (Option-cases (db.sessions id)) [
  | inl absent ↦ absurd (ground arith)
  | inr (row, found) ↦ ground arith
]

-- A controller that revokes itself, under a new operation id, is out. The revocation names the
-- generation that its lease controlled; afterwards the lease is refused as superseded, for the
-- commands of either class of authority, and every session of the run is disconnected.
pub revocation_fences :
    (env : Env) (db db' : Db) (now : ℕ) (op run lease : String) (r : Receipt)
    → find_entry op db.journal ≡ none
    → revoke_controller env db now op run lease none ≡ ok (r, db')
    → (classify_run_controller db run lease ≡ ok r.committed_version)
      × ((adopted : Bool)
          → classify_credential db' run lease adopted ≡ err StoreError.lease_superseded)
      × ((id : String) (s : SessionRow)
          → db'.sessions id ≡ some s
          → text_eq s.run_id run ≡ true
          → is_disconnected s.controller_status ≡ true)
revocation_fences env db db' now op run lease r fresh h =
    let (held, left) = revoked-tables env db db' now op run lease r fresh h in
    let gen = r.committed_version in
    let mid = with_revoked db run gen in
    (
      held,
      λ adopted.
          classify-journal mid db' run lease adopted left
          ∙ with_revoked-superseded db run lease gen adopted held,
      λ id s found mine.
          with_revoked-disconnected db run id gen s (sym (ap (λ d. d.sessions id) left) ∙ found)
            mine,
    )
