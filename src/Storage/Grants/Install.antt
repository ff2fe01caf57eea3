-- ===== src/Storage/Grants/Install.antt =====
-- internal/storage/controller_leases.go: `resolveGrantReplay` and `installGrant`, and
-- `projectSessionConnection` of controller_attachment.go.
use Prim.Native.String.{◌++◌}
use agent_council.Common.{
  ℕ, ◌+◌, String, Bool, true, false, not, ◌&&◌, ◌||◌, leb, List, [], ◌∷◌, Option, none, some,
  is_some, put, text_eq, decimal, if◌then◌else◌, Result, ok, err, ◌>>=◌, ◌>>◌, fail_if, or_fail,
}
use agent_council.Council.Contributor.{Contributor, open_code, claude, codex, agy, other}
use agent_council.Council.Status.{ControllerConnection}
use agent_council.Storage.Rows.{
  StoreError, RunRow, LeaseRow, LeaseStatus, SessionRow, Receipt, Db, Outcome,
}
use agent_council.Storage.Journal.{find_entry, record_journal_entry}
use agent_council.Storage.Authority.{find_lease, active_grant, is_active, provenance_in}
use agent_council.Storage.Commands.{receipt_of}
use agent_council.Storage.Control.{same_connection}

-- `ControllerGrantReceipt`.
pub record GrantReceipt : Type 0 where
  pub receipt : Receipt
  pub generation : ℕ
  pub lease_secret : String
  pub issuance_status : LeaseStatus
  pub replayed_receipt : Bool

abbrev pub contributor_text : Contributor → String
contributor_text open_code = "opencode"
contributor_text claude = "claude"
contributor_text codex = "codex"
contributor_text agy = "agy"
contributor_text (other s) = s

-- `UPDATE controller_leases SET … WHERE p`.
unfoldable pub update_leases :
    (LeaseRow → Bool) → (LeaseRow → LeaseRow) → List LeaseRow → List LeaseRow
update_leases p f [] = []
update_leases p f (g ∷ gs) = (if p g then f g else g) ∷ update_leases p f gs

abbrev larger : ℕ → Option ℕ → ℕ
larger g none = g
larger g (some h) = if leb h g then g else h

-- `SELECT generation … WHERE p ORDER BY generation DESC LIMIT 1`.
unfoldable pub latest : (LeaseRow → Bool) → List LeaseRow → Option ℕ
latest p [] = none
latest p (g ∷ gs) = let rest = latest p gs in if p g then some (larger g.generation rest) else rest

abbrev pub in_run : String → LeaseRow → Bool
in_run run g = text_eq g.run_id run

abbrev after_latest : Option ℕ → ℕ
after_latest none = 1
after_latest (some g) = g + 1

-- `coalesce(max(generation), 0) + 1`.
unfoldable pub next_grant : List LeaseRow → String → ℕ
next_grant gs run = after_latest (latest (in_run run) gs)

abbrev project_row : String → ControllerConnection → Option SessionRow → Option SessionRow
project_row run c none = none
project_row run c (some s) =
    if text_eq s.run_id run && not (same_connection s.controller_status c)
    then some (record s { controller_status = c; row_version = s.row_version + 1 })
    else some s

-- Every session of the run; the versions stand below the range's end.
unfoldable pub project_session_connection : String → ControllerConnection → Db → Db
project_session_connection run c db = record db {
  sessions = λ id. project_row run c (db.sessions id);
}

abbrev granted_by : String → LeaseRow → Bool
granted_by op g = text_eq g.granted_by_op_id op

-- The secret is told only while its generation is active.
abbrev pub disclosed : LeaseRow → String
disclosed g = if is_active g.status then g.lease else ""

abbrev replayed_grant : Receipt → LeaseRow → GrantReceipt
replayed_grant r g = record {
  receipt = r;
  generation = g.generation;
  lease_secret = disclosed g;
  issuance_status = g.status;
  replayed_receipt = true;
}

unfoldable pub resolve_grant_replay :
    Db → (op cmd fp : String) → Result StoreError (Option GrantReceipt)
resolve_grant_replay db op cmd fp = elim (find_entry op db.journal) [
  | none ↦ ok none
  | some e ↦
      if not (text_eq e.command_type cmd) || not (text_eq e.command_fingerprint fp)
      then err StoreError.idempotency_conflict
      else if text_eq e.payload.receipt.op_id ""
      then err StoreError.unreadable_receipt
      else elim (find_lease (granted_by op) db.leases) [
        | none ↦ err StoreError.no_grant
        | some g ↦ ok (some (replayed_grant e.payload.receipt g))
      ]
]

-- The active row that `installGrant` inserts.
abbrev pub new_grant : (run : String) → ℕ → Contributor → (ref lease op : String) → LeaseRow
new_grant run gen harness ref lease op = record {
  run_id = run;
  generation = gen;
  harness = some (contributor_text harness);
  controller_ref = ref;
  lease = lease;
  status = LeaseStatus.active;
  granted_by_op_id = op;
  attachment_id = none;
  instance_id = none;
  attachment_rev = 0;
  connected = false;
}

abbrev pub supersede : LeaseRow → LeaseRow
supersede g = record g { status = LeaseStatus.superseded }

abbrev grant_receipt : (op cmd : String) → ℕ → ℕ → String → String → GrantReceipt
grant_receipt op cmd now gen lease mode = record {
  receipt =
      receipt_of op cmd "" "" gen now
        ("generation=" ++ (decimal gen ++ (":authorized_by=" ++ mode)));
  generation = gen;
  lease_secret = lease;
  issuance_status = LeaseStatus.active;
  replayed_receipt = false;
}

-- The tables with the new grant: `idx_controller_leases_active` refuses a second active row, and
-- the legacy provenance row is retired.
abbrev pub with_grant : Db → String → RunRow → LeaseRow → Db
with_grant db run r g = record db {
  leases = update_leases (provenance_in run) supersede (g ∷ db.leases);
  runs = put run (record r { controller_lease = g.lease; controller_adopted = true }) db.runs;
}

unfoldable pub install_grant :
    Db
    → ℕ
    → (op run : String) → Contributor
    → (ref lease cmd fp event mode : String) → Outcome GrantReceipt
unfolding next_grant
install_grant db now op run harness ref lease cmd fp event mode = do
  let gen = next_grant db.leases run
  r ← or_fail (db.runs run) StoreError.constraint_failed
  fail_if (is_some (active_grant db run)) StoreError.constraint_failed
  let receipt = grant_receipt op cmd now gen lease mode
  db' ←
      record_journal_entry (with_grant db run r (new_grant run gen harness ref lease op)) op cmd fp
        run "" "" event receipt.receipt ""
  ok (receipt, db')
