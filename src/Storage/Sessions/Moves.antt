-- ===== src/Storage/Sessions/Moves.antt =====
-- Every transition of internal/storage makes one of the changes.
use agent_council.Common.{ℕ, ◌+◌, String, ◌≡◌, true, false, List, Option, some, arith, ok}
use agent_council.Council.Status.{is_terminal, TurnStatus, ControllerConnection, lifecycle_archived}
use agent_council.Storage.Rows.{Phase, SessionRow, TurnRow, Receipt, Db, Env}
use agent_council.Storage.Authority.{query_session}
use agent_council.Storage.Commands.{check_row, next_version, journaled}
use agent_council.Storage.Prompts.{queue_new, replace_new, discard_new}
use agent_council.Storage.Cancel.{cancel_new}
use agent_council.Storage.Terminal.{terminal_row, terminal_new}
use agent_council.Storage.HostLoss.{host_loss_new, next_recovery_gen}
use agent_council.Storage.Control.{connection_new, archive_new}
use agent_council.Storage.Dispatch.{observe_new}
use agent_council.Storage.Sessions.Change.{
  Change, keeps, queued, replaced, discarded, ended, loses, closes_session, Logged,
}

pub journaled-Logged :
    (db mid db' : Db) (op cmd fp run session turn event lease : String) (r r' : Receipt)
    → journaled mid op cmd fp run session turn event r lease ≡ ok (r', db')
    → Change db mid
    → Logged db db'
unfolding journaled
journaled-Logged db mid db' op cmd fp run session turn event lease r r' h c = record {
  tables = mid;
  change = c;
  logged = ground arith;
}

pub query_session-row :
    (db : Db) (id : String) (s : SessionRow) → query_session db id ≡ ok s → db.sessions id ≡ some s
unfolding query_session
query_session-row db id s h = ground arith

pub next_version-eq : (v w : ℕ) → next_version v ≡ ok w → w ≡ v + 1
unfolding next_version
next_version-eq v w h = ground arith

pub queue_new-Logged :
    (db db' : Db) (now : ℕ) (op lease fp session : String) (expected : ℕ)
    (key sanitized tools : String) (r : Receipt)
    → queue_new db now op lease fp session expected key sanitized tools ≡ ok (r, db')
    → Logged db db'
unfolding queue_new
queue_new-Logged db db' now op lease fp session expected key sanitized tools r h =
    grind (arith, journaled-Logged, query_session-row, next_version-eq, keeps, queued)

pub replace_new-Logged :
    (env : Env) (db db' : Db) (now : ℕ) (op lease fp session : String) (expected : ℕ)
    (key sanitized : String) (tools : Option (List String)) (r : Receipt)
    → replace_new env db now op lease fp session expected key sanitized tools ≡ ok (r, db')
    → Logged db db'
unfolding replace_new
replace_new-Logged env db db' now op lease fp session expected key sanitized tools r h =
    grind (arith, journaled-Logged, query_session-row, next_version-eq, replaced)

pub discard_new-Logged :
    (db db' : Db) (now : ℕ) (op lease fp session : String) (expected : ℕ) (key : String)
    (r : Receipt)
    → discard_new db now op lease fp session expected key ≡ ok (r, db')
    → Logged db db'
unfolding discard_new
discard_new-Logged db db' now op lease fp session expected key r h =
    grind (arith, journaled-Logged, query_session-row, next_version-eq, discarded)

pub cancel_new-Logged :
    (db db' : Db) (now : ℕ) (op lease fp session : String) (expected : ℕ) (key : String)
    (r : Receipt)
    → cancel_new db now op lease fp session expected key ≡ ok (r, db')
    → Logged db db'
unfolding cancel_new
cancel_new-Logged db db' now op lease fp session expected key r h =
    grind (arith, journaled-Logged, query_session-row, next_version-eq, keeps, Change.cancels)

pub connection_new-Logged :
    (db db' : Db) (now : ℕ) (op lease fp session : String) (expected : ℕ)
    (status : ControllerConnection) (r : Receipt)
    → connection_new db now op lease fp session expected status ≡ ok (r, db')
    → Logged db db'
unfolding connection_new
connection_new-Logged db db' now op lease fp session expected status r h =
    grind (arith, journaled-Logged, query_session-row, next_version-eq, keeps, Change.connects)

pub archive_new-Logged :
    (db db' : Db) (now : ℕ) (op lease fp session : String) (expected : ℕ) (r : Receipt)
    → archive_new db now op lease fp session expected ≡ ok (r, db')
    → Logged db db'
unfolding archive_new
archive_new-Logged db db' now op lease fp session expected r h =
    grind (arith, journaled-Logged, query_session-row, next_version-eq, keeps, closes_session)

pub observe_new-Logged :
    (db db' : Db) (now : ℕ) (op lease fp session key : String) (phase : Phase) (r : Receipt)
    → observe_new db now op lease fp session key phase ≡ ok (r, db')
    → Logged db db'
unfolding observe_new
observe_new-Logged db db' now op lease fp session key phase r h =
    grind (arith, journaled-Logged, next_version-eq, keeps, Change.observes)

pub next_recovery_gen-eq : (g h : ℕ) → next_recovery_gen g ≡ ok h → h ≡ g + 1
unfolding next_recovery_gen
next_recovery_gen-eq g h e = ground arith

pub host_loss_new-Logged :
    (db db' : Db) (now : ℕ) (op lease fp session : String) (expected : ℕ) (r : Receipt)
    → host_loss_new db now op lease fp session expected ≡ ok (r, db')
    → Logged db db'
unfolding host_loss_new
host_loss_new-Logged db db' now op lease fp session expected r h = grind (
  arith, journaled-Logged, query_session-row, next_version-eq, next_recovery_gen-eq, keeps, loses,
)

check_row-open :
    (s : SessionRow) (expected : ℕ)
    → check_row s expected ≡ ok tt
    → lifecycle_archived s.lifecycle ≡ false
unfolding check_row
check_row-open s expected h = ground arith

pub terminal_row-Logged :
    (db db' : Db) (now : ℕ) (op lease fp session key : String) (status : TurnStatus)
    (result : String) (s : SessionRow) (t : TurnRow) (r : Receipt)
    → db.sessions session ≡ some s
    → db.turns session key ≡ some t
    → is_terminal status ≡ true
    → lifecycle_archived s.lifecycle ≡ false
    → terminal_row db now op lease fp session key status result s t ≡ ok (r, db')
    → Logged db db'
unfolding terminal_row
terminal_row-Logged db db' now op lease fp session key status result s t r row turn terminal
      unarchived h =
    grind (arith, journaled-Logged, next_version-eq, keeps, ended)

pub terminal_new-Logged :
    (db db' : Db) (now : ℕ) (op lease fp session : String) (expected : ℕ) (key : String)
    (status : TurnStatus) (result : String) (r : Receipt)
    → is_terminal status ≡ true
    → terminal_new db now op lease fp session expected key status result ≡ ok (r, db')
    → Logged db db'
unfolding terminal_new
terminal_new-Logged db db' now op lease fp session expected key status result r terminal h =
    grind (arith, query_session-row, check_row-open, terminal_row-Logged)
