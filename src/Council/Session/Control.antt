-- ===== src/Council/Session/Control.antt =====
-- internal/council/domain.go: `DisconnectController`, `ReconnectController` and `Archive`.
use agent_council.Common.{String, ◌||◌, text_eq, not, is_some, Result, ok, ◌>>◌, fail_if}
use agent_council.Council.Status.{
  State, SessionLifecycle, ControllerConnection, is_archived, is_running, is_lost,
  lifecycle_archived,
}
use agent_council.Council.Session.State.{Session, SessionError, authorize}

unfoldable pub disconnect_controller : Session → Session
disconnect_controller s = record s { controller_status = ControllerConnection.disconnected }

unfoldable pub reconnect_controller : Session → String → Result SessionError Session
reconnect_controller s lease = do
  fail_if (text_eq lease "" || not (text_eq lease s.controller_lease)) SessionError.lease_mismatch
  fail_if (lifecycle_archived s.lifecycle || is_archived s.state) SessionError.session_archived
  ok (record s { controller_status = ControllerConnection.connected })

-- The pending prompts stay.
unfoldable pub archive : Session → String → Result SessionError Session
unfolding authorize
archive s lease = do
  authorize s lease
  fail_if (is_running s.state || is_some s.active_turn || is_lost s.visibility)
      SessionError.cannot_archive
  ok (record s { state = State.archived; lifecycle = SessionLifecycle.archived })
