-- ===== src/Storage/Authority.antt =====
-- internal/storage/controller_leases.go: `classifyCredential`, `runIDOfSession`,
-- `requireRunConnected`, `classifyRunController` and `authorizeSessionController`.
use agent_council.Common.{
  ℕ, String, Bool, true, false, not, ◌&&◌, ◌==◌, List, [], ◌∷◌, Option, none, some, is_some,
  text_eq, is_blank, if◌then◌else◌, Result, ok, err, ◌>>=◌, ◌>>◌, fail_if, or_fail,
}
use agent_council.Council.Status.{lifecycle_archived}
use agent_council.Storage.Rows.{StoreError, RunRow, LeaseRow, LeaseStatus, SessionRow, Db}

abbrev pub is_active : LeaseStatus → Bool
is_active LeaseStatus.active = true
is_active _ = false

abbrev pub is_retired : LeaseStatus → Bool
is_retired LeaseStatus.superseded = true
is_retired LeaseStatus.revoked = true
is_retired _ = false

abbrev pub is_legacy : LeaseStatus → Bool
is_legacy LeaseStatus.legacy = true
is_legacy _ = false

-- The row that a `SELECT` with a condition yields.
unfoldable pub find_lease : (LeaseRow → Bool) → List LeaseRow → Option LeaseRow
find_lease p [] = none
find_lease p (g ∷ gs) = if p g then some g else find_lease p gs

-- `WHERE run_id = ? AND status = 'active'`.
abbrev pub active_in : String → LeaseRow → Bool
active_in run g = text_eq g.run_id run && is_active g.status

abbrev pub retired_in : String → String → LeaseRow → Bool
retired_in run lease g = text_eq g.run_id run && text_eq g.lease lease && is_retired g.status

abbrev pub provenance_in : String → LeaseRow → Bool
provenance_in run g = text_eq g.run_id run && (g.generation == 0) && is_legacy g.status

unfoldable pub active_grant : Db → String → Option LeaseRow
active_grant db run = find_lease (active_in run) db.leases

-- The active grant, where it is adopted and both places hold the presented lease.
current_grant : Option LeaseRow → RunRow → String → Option ℕ
current_grant none r lease = none
current_grant (some g) r lease =
    if r.controller_adopted && text_eq g.lease lease && text_eq r.controller_lease lease
    then some g.generation
    else none

-- The maintenance handle of a run that no controller has adopted.
legacy_handle : Db → String → RunRow → String → Result StoreError ℕ
legacy_handle db run r lease = elim (find_lease (provenance_in run) db.leases) [
  | none ↦ err StoreError.unauthorized_operation
  | some g ↦
      if text_eq g.lease lease && text_eq r.controller_lease lease
      then ok 0
      else err StoreError.unauthorized_operation
]

-- The classification of a credential that is not the current grant.
classify_other : Db → String → RunRow → String → Bool → Result StoreError ℕ
unfolding legacy_handle
classify_other db run r lease require_adopted =
    if is_some (find_lease (retired_in run lease) db.leases)
    then err StoreError.lease_superseded
    else if r.controller_adopted
    then err StoreError.unauthorized_operation
    else if require_adopted
    then err StoreError.adoption_required
    else legacy_handle db run r lease

unfoldable pub classify_credential : Db → String → String → Bool → Result StoreError ℕ
unfolding active_grant current_grant classify_other
classify_credential db run lease require_adopted = do
  fail_if (is_blank lease) StoreError.adoption_required
  r ← or_fail (db.runs run) StoreError.run_not_found
  fail_if (lifecycle_archived r.lifecycle) StoreError.session_archived
  elim (current_grant (active_grant db run) r lease) [
    | some gen ↦ ok gen
    | none ↦ classify_other db run r lease require_adopted
  ]

-- A session that is not there has the run "".
unfoldable pub run_id_of_session : Db → String → String
run_id_of_session db session = elim (db.sessions session) [ none ↦ "" | some s ↦ s.run_id ]

unfoldable pub require_run_connected : Db → String → Result StoreError (Unit {0})
unfolding active_grant
require_run_connected db run = do
  g ← or_fail (active_grant db run) StoreError.adoption_required
  fail_if (not g.connected) StoreError.controller_disconnected

unfoldable pub classify_run_controller : Db → String → String → Result StoreError ℕ
unfolding classify_credential
classify_run_controller db run lease = classify_credential db run lease true

unfoldable pub authorize_session_controller : Db → String → String → Bool → Result StoreError ℕ
unfolding classify_credential
authorize_session_controller db session lease require_adopted = do
  s ← or_fail (db.sessions session) StoreError.session_not_found
  classify_credential db s.run_id lease require_adopted

-- `FROM sessions s JOIN runs r ON s.run_id = r.run_id WHERE s.session_id = ?`.
unfoldable pub query_session : Db → String → Result StoreError SessionRow
query_session db session = do
  s ← or_fail (db.sessions session) StoreError.query_session
  fail_if (not (is_some (db.runs s.run_id))) StoreError.query_session
  ok s
