-- ===== src/Service/Coordinator/Attachments/Fencing.antt =====
-- internal/service/coordinator.go: histories of all that changes the record of attached controllers.
use agent_council.Common.{
  ℕ, ◌<◌, ltb, String, Bool, true, false, not, ◌&&◌, ◌||◌, ◌≡◌, refl, arith, eq_iff, text_eq,
  Option, none, some, List, [], ◌∷◌, Dict, no_entries,
}
use agent_council.Service.Coordinator.Attachments.{
  AttachmentState, mark_controller_attached, controller_attached_episode, controller_attached,
  invalidate_controller_attachment, invalidate_controller_attachment_if, Covers, step-Covers,
  mark-Covers_itself,
}

-- A publication; the end of an episode, by its generation, attachment and instance; and a transition
-- of the authority over a run, which clears the run's record whatever it is.
pub data Notice : Type 0 where
  attaches : AttachmentState → Notice
  detaches : (run_id : String) → ℕ → (attachment_id instance_id : String) → Notice
  clears : (run_id : String) → Notice

unfoldable pub notice : Notice → Dict AttachmentState → Dict AttachmentState
notice (attaches a) d = mark_controller_attached a d
notice (detaches run gen attachment instance_id) d =
    invalidate_controller_attachment_if run gen attachment instance_id d
notice (clears run) d = invalidate_controller_attachment run d

unfoldable pub notices : List Notice → Dict AttachmentState → Dict AttachmentState
notices [] d = d
notices (n ∷ ns) d = notices ns (notice n d)

-- Nothing ends an episode of the run `run` of generation `gen` or later, or clears the run's record.
abbrev spares : String → ℕ → Notice → Bool
spares run gen (attaches a) = true
spares run gen (detaches other ended attachment instance_id) =
    not (text_eq other run) || ltb ended gen
spares run gen (clears other) = not (text_eq other run)

unfoldable pub all_spare : String → ℕ → List Notice → Bool
all_spare run gen [] = true
all_spare run gen (n ∷ ns) = spares run gen n && all_spare run gen ns

detached-Covers :
    (b : AttachmentState) (d : Dict AttachmentState) (e : Option AttachmentState) (run : String)
    (gen : ℕ) (attachment instance_id : String)
    → d b.run_id ≡ e
    → not (text_eq run b.run_id) || ltb gen b.generation ≡ true
    → Covers b e
    → Covers b (invalidate_controller_attachment_if run gen attachment instance_id d b.run_id)
unfolding invalidate_controller_attachment_if
detached-Covers b d none run gen attachment instance_id h s k = elim k [ ]
detached-Covers b d (some c) run gen attachment instance_id h s k =
    ground (arith, eq_iff run b.run_id)

cleared-Covers :
    (b : AttachmentState) (d : Dict AttachmentState) (e : Option AttachmentState) (run : String)
    → d b.run_id ≡ e
    → not (text_eq run b.run_id) ≡ true
    → Covers b e
    → Covers b (invalidate_controller_attachment run d b.run_id)
unfolding invalidate_controller_attachment
cleared-Covers b d none run h s k = elim k [ ]
cleared-Covers b d (some c) run h s k = ground arith

notice-Covers :
    (b : AttachmentState) (n : Notice) (d : Dict AttachmentState)
    → spares b.run_id b.generation n ≡ true
    → Covers b (d b.run_id)
    → Covers b (notice n d b.run_id)
unfolding notice
notice-Covers b (attaches a) d s k = step-Covers a b d b.run_id k
notice-Covers b (detaches run gen attachment instance_id) d s k =
    detached-Covers b d (d b.run_id) run gen attachment instance_id refl s k
notice-Covers b (clears run) d s k = cleared-Covers b d (d b.run_id) run refl s k

notices-Covers :
    (b : AttachmentState) (ns : List Notice) (d : Dict AttachmentState)
    → all_spare b.run_id b.generation ns ≡ true
    → Covers b (d b.run_id)
    → Covers b (notices ns d b.run_id)
unfolding notices all_spare
notices-Covers b [] d s k = k
notices-Covers b (n ∷ ns) d s k =
    notices-Covers b ns (notice n d) (ground arith) (notice-Covers b n d (ground arith) k)

-- What an episode of an older generation can no longer do.
pub record HeldOff (a b : AttachmentState) (d : Dict AttachmentState) : Type 0 where
  pub covered : Covers b (d b.run_id)
  pub unattached : controller_attached d b.run_id a.generation ≡ false
  pub unmatched : controller_attached_episode d b.run_id a.generation a.attachment_id ≡ false
  pub harmless :
      invalidate_controller_attachment_if b.run_id a.generation a.attachment_id a.instance_id d ≡ d

covered-HeldOff :
    (a b : AttachmentState) (d : Dict AttachmentState) (e : Option AttachmentState)
    → d b.run_id ≡ e
    → Covers b e
    → a.generation < b.generation
    → HeldOff a b d
unfolding controller_attached controller_attached_episode invalidate_controller_attachment_if
covered-HeldOff a b d none h k later = elim k [ ]
covered-HeldOff a b d (some c) h k later = record {
  covered = rw h k;
  unattached = ground arith;
  unmatched = ground arith;
  harmless = ground arith;
}

-- A superseded controller is fenced in this instance for as long as its successor's record stands.
-- Whatever came before, once an attachment `b` has been published, and until an episode of its
-- generation or a later one ends or the run's record is cleared, the run has a record no older than
-- `b`, however many publications and ends of older episodes are still on their way: no episode of an
-- older generation counts as attached, and its end clears nothing.
pub older_generation_fenced :
    (before later : List Notice) (a b : AttachmentState)
    → a.generation < b.generation
    → all_spare b.run_id b.generation later ≡ true
    → HeldOff a b (notices later (mark_controller_attached b (notices before no_entries)))
older_generation_fenced before later a b older spared =
    let d = mark_controller_attached b (notices before no_entries) in
    let there =
      mark-Covers_itself b (notices before no_entries) (notices before no_entries b.run_id) refl in
    covered-HeldOff a b (notices later d) (notices later d b.run_id) refl
      (notices-Covers b later d spared there) older
