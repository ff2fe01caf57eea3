-- ===== src/Service/Coordinator/Attachments.antt =====
-- internal/service/coordinator.go: the controllers attached in this instance of the service, one
-- record for each run.
pub mod Fencing
use agent_council.Common.{
  ℕ, ◌<◌, ◌≤◌, ltb, ◌==◌, String, Bool, false, not, ◌&&◌, ◌||◌, ◌≡◌, refl, ◌∙◌, ◌⊎◌, inl, inr, All,
  arith, eq_iff, text_eq, if◌then◌else◌, Bool-cases, Option, none, some, List, [], ◌∷◌, Dict,
  no_entries, put, delete,
}

pub record AttachmentState : Type 0 where
  pub run_id : String
  pub generation : ℕ
  pub attachment_id : String
  pub instance_id : String
  pub revision : ℕ

-- The guard of `MarkControllerAttached` against an existing record.
refuses : AttachmentState → AttachmentState → Bool
refuses existing a =
    ltb a.generation existing.generation
    || ((existing.generation == a.generation)
        && (ltb a.revision existing.revision
            || ((existing.revision == a.revision)
                && not (text_eq existing.attachment_id a.attachment_id))))

abbrev refused : Option AttachmentState → AttachmentState → Bool
refused none a = false
refused (some existing) a = refuses existing a

unfoldable pub mark_controller_attached :
    AttachmentState → Dict AttachmentState → Dict AttachmentState
unfolding refuses
mark_controller_attached a attachments =
    if refused (attachments a.run_id) a then attachments else put a.run_id a attachments

abbrev matches : Option AttachmentState → (AttachmentState → Bool) → Bool
matches none test = false
matches (some existing) test = test existing

unfoldable pub controller_attached_episode : Dict AttachmentState → String → ℕ → String → Bool
controller_attached_episode attachments run_id generation attachment_id =
    matches (attachments run_id) (λ att.
      (att.generation == generation)
      && text_eq att.attachment_id attachment_id
      && not (text_eq att.instance_id ""))

unfoldable pub controller_attached : Dict AttachmentState → String → ℕ → Bool
controller_attached attachments run_id generation =
    matches (attachments run_id)
      (λ att. (att.generation == generation) && not (text_eq att.instance_id ""))

unfoldable pub invalidate_controller_attachment :
    String → Dict AttachmentState → Dict AttachmentState
invalidate_controller_attachment run_id attachments = delete run_id attachments

unfoldable pub invalidate_controller_attachment_if :
    String → ℕ → String → String → Dict AttachmentState → Dict AttachmentState
invalidate_controller_attachment_if run_id generation attachment_id instance_id attachments =
    if matches (attachments run_id) (λ existing.
      (existing.generation == generation)
      && text_eq existing.attachment_id attachment_id
      && text_eq existing.instance_id instance_id)
    then delete run_id attachments
    else attachments

-- Attachments of committed episodes, published in any order.
unfoldable pub marks : List AttachmentState → Dict AttachmentState → Dict AttachmentState
marks [] d = d
marks (a ∷ rest) d = marks rest (mark_controller_attached a d)

-- `b` is of a later generation than `a`, or of the same generation and no earlier revision.
abbrev pub NoLater : AttachmentState → AttachmentState → Type 0
NoLater a b =
    (a.generation < b.generation) ⊎ ((a.generation ≡ b.generation) × (a.revision ≤ b.revision))

-- The record of a run is no older than `a`.
abbrev pub Covers : AttachmentState → Option AttachmentState → Type 0
Covers a none = ⊥
Covers a (some b) = NoLater a b

NoLater-trans : (a b c : AttachmentState) → NoLater a b → NoLater b c → NoLater a c
NoLater-trans a b c h k = ground arith

mark-Covers :
    (a b : AttachmentState) (d : Dict AttachmentState) (e : Option AttachmentState)
    → d a.run_id ≡ e
    → Covers b e
    → Covers b (mark_controller_attached a d a.run_id)
unfolding mark_controller_attached
mark-Covers a b d none h k = elim k [ ]
mark-Covers a b d (some c) h k = ground (arith, eq_iff a.run_id a.run_id, NoLater-trans b c a)

pub mark-Covers_itself :
    (a : AttachmentState) (d : Dict AttachmentState) (e : Option AttachmentState)
    → d a.run_id ≡ e
    → Covers a (mark_controller_attached a d a.run_id)
unfolding mark_controller_attached
mark-Covers_itself a d none h = ground (arith, eq_iff a.run_id a.run_id)
mark-Covers_itself a d (some c) h = ground (arith, eq_iff a.run_id a.run_id)

mark_elsewhere :
    (a : AttachmentState) (d : Dict AttachmentState) (run : String)
    → text_eq a.run_id run ≡ false
    → mark_controller_attached a d run ≡ d run
unfolding mark_controller_attached
mark_elsewhere a d run h = ground arith

pub step-Covers :
    (a b : AttachmentState) (d : Dict AttachmentState) (run : String)
    → Covers b (d run)
    → Covers b (mark_controller_attached a d run)
step-Covers a b d run k = elim (Bool-cases (text_eq a.run_id run)) [
  | inl same ↦
      let here = (eq_iff a.run_id run).0 same in
      rw (← here) (mark-Covers a b d (d a.run_id) refl (rw here k))
  | inr other ↦ rw (mark_elsewhere a d run other) k
]

marks-Covers :
    (rest : List AttachmentState) (b : AttachmentState) (d : Dict AttachmentState) (run : String)
    → Covers b (d run)
    → Covers b (marks rest d run)
unfolding marks
marks-Covers [] b d run k = k
marks-Covers (a ∷ rest) b d run k =
    marks-Covers rest b (mark_controller_attached a d) run (step-Covers a b d run k)

abbrev pub Among : AttachmentState → List AttachmentState → Type 0
Among b [] = ⊥
Among b (a ∷ rest) = (b ≡ a) ⊎ Among b rest

-- The records that were published for a run.
abbrev pub Published : String → List AttachmentState → Option AttachmentState → Type 0
Published run ms none = Unit
Published run ms (some b) = Among b ms × (b.run_id ≡ run)

mark_origin :
    (a : AttachmentState) (d : Dict AttachmentState) (run : String)
    → (mark_controller_attached a d run ≡ d run)
      ⊎ ((mark_controller_attached a d run ≡ some a) × (a.run_id ≡ run))
unfolding mark_controller_attached
mark_origin a d run = elim (Bool-cases (refused (d a.run_id) a)) [
  | inl old ↦ inl (rw old)
  | inr new ↦ elim (Bool-cases (text_eq a.run_id run)) [
    | inl same ↦ inr (rw (new, same), (eq_iff a.run_id run).0 same)
    | inr other ↦ inl (rw (new, other))
  ]
]

marks_origin :
    (ms : List AttachmentState) (d : Dict AttachmentState) (run : String)
    → (marks ms d run ≡ d run)
      ⊎ ((b : AttachmentState) × (marks ms d run ≡ some b) × Among b ms × (b.run_id ≡ run))
unfolding marks
marks_origin [] d run = inl refl
marks_origin (a ∷ rest) d run = elim (marks_origin rest (mark_controller_attached a d) run) [
  | inr (b, found, among, same) ↦ inr (b, found, inr among, same)
  | inl kept ↦ elim (mark_origin a d run) [
    | inl before ↦ inl (kept ∙ before)
    | inr (now, same) ↦ inr (a, kept ∙ now, inl refl, same)
  ]
]

marks_cover :
    (ms : List AttachmentState) (d : Dict AttachmentState) (run : String)
    → All (λ a. a.run_id ≡ run → Covers a (marks ms d run)) ms
unfolding marks
marks_cover [] d run = tt
marks_cover (a ∷ rest) d run = (
  λ same. rw (← same) (
      marks-Covers rest a (mark_controller_attached a d) a.run_id
        (mark-Covers_itself a d (d a.run_id) refl)),
  marks_cover rest (mark_controller_attached a d) run,
)

-- In whatever order the attachments of committed episodes are published to a new service, the record
-- of a run is one of those published for it, and it is no older than any of them: its generation is
-- later, or the same with no earlier a revision.
pub newest_attachment_wins :
    (ms : List AttachmentState) (run : String)
    → All (λ a. a.run_id ≡ run → Covers a (marks ms no_entries run)) ms
      × Published run ms (marks ms no_entries run)
newest_attachment_wins ms run = (
  marks_cover ms no_entries run,
  elim (marks_origin ms no_entries run) [
    | inl nothing ↦ rw nothing tt
    | inr (b, found, among, same) ↦ rw found (among, same)
  ],
)
