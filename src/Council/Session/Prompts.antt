-- ===== src/Council/Session/Prompts.antt =====
-- internal/council/domain.go: `Queue`, `Discard` and `Replace`. A method that fails returns before
-- its first assignment, so a result carries the new session, and an error leaves the old one.
use agent_council.Common.{
  String, ◌||◌, none, some, put, delete, text_eq, is_blank, if◌then◌else◌, not, is_some, Result, ok,
  err, ◌>>◌, fail_if,
}
use agent_council.Council.Session.State.{Session, SessionError, authorize}

-- What `Queue` does once no turn has the key.
queue_pending : Session → String → String → Result SessionError Session
queue_pending s key prompt = elim (s.pending key) [
  | some existing ↦ if text_eq existing prompt then ok s else err SessionError.duplicate_pending
  | none ↦ ok (record s { pending = put key prompt s.pending })
]

queue_fresh : Session → String → String → Result SessionError Session
unfolding queue_pending
queue_fresh s key prompt = elim (s.turns key) [
  | some r ↦
      if text_eq (s.cells r).prompt prompt
      then err SessionError.turn_retired
      else err SessionError.turn_reused
  | none ↦ queue_pending s key prompt
]

unfoldable pub queue : Session → String → String → String → Result SessionError Session
unfolding queue_fresh authorize
queue s lease key prompt = do
  authorize s lease
  fail_if (is_blank key || is_blank prompt) SessionError.empty_prompt_or_key
  fail_if (text_eq s.active key) SessionError.key_already_active
  queue_fresh s key prompt

unfoldable pub discard : Session → String → String → Result SessionError Session
unfolding authorize
discard s lease key = do
  authorize s lease
  fail_if (not (is_some (s.pending key))) SessionError.prompt_not_found
  ok (record s { pending = delete key s.pending })

unfoldable pub replace : Session → String → String → String → Result SessionError Session
unfolding authorize
replace s lease key new_prompt = do
  authorize s lease
  fail_if (is_blank new_prompt) SessionError.empty_prompt_or_key
  fail_if (not (is_some (s.pending key))) SessionError.prompt_not_found
  ok (record s { pending = put key new_prompt s.pending })
