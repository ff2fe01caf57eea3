-- ===== src/Service/Coordinator/Observers/Delivery.antt =====
-- The channels of the observers of internal/service/coordinator.go: none is used after its close.
use agent_council.Common.{
  ℕ, ◌<◌, ◌==◌, true, false, ◌≡◌, refl, ◌∙◌, inl, inr, arith, Bool-cases, if◌then◌else◌, List, [],
  ◌∷◌, ◌++◌,
}
use agent_council.Adapter.Usage.{TurnRef}
use agent_council.Service.Coordinator.{same_ref}
use agent_council.Service.Coordinator.Observers.{
  SseEvent, has_room, Observers, close_channel, offer, deliver,
}

-- No pair of the list has the channel `i`.
abbrev pub Apart : ℕ → List (TurnRef × ℕ) → Type 0
Apart i [] = Unit
Apart i ((r, j) ∷ subs) = (i == j ≡ false) × Apart i subs

-- The channels of the list are open, opened before, and occur once.
abbrev pub Open : Observers → List (TurnRef × ℕ) → Type 0
Open o [] = Unit
Open o ((r, i) ∷ subs) =
    (i < o.opened) × ((o.channels i).closed ≡ false) × Apart i subs × Open o subs

-- The channels of the list, and the count of channels, are the same.
Same : Observers → Observers → List (TurnRef × ℕ) → Type 0
Same o p [] = Unit
Same o p ((r, i) ∷ subs) = (p.channels i ≡ o.channels i) × Same o p subs

Open-Same :
    (o p : Observers) (subs : List (TurnRef × ℕ))
    → p.opened ≡ o.opened
    → Same o p subs
    → Open o subs
    → Open p subs
unfolding Same
Open-Same o p [] n s v = tt
Open-Same o p ((r, i) ∷ subs) n s v =
    (ground arith, ground arith, v.2, Open-Same o p subs n s.1 (v.3))

-- An operation on the channel `i` leaves the others alone.
pub record Touches (i : ℕ) (o p : Observers) : Type 0 where
  pub count : p.opened ≡ o.opened
  pub others : (j : ℕ) → i == j ≡ false → p.channels j ≡ o.channels j

Apart-Same :
    (i : ℕ) (o p : Observers) (subs : List (TurnRef × ℕ))
    → Touches i o p
    → Apart i subs
    → Same o p subs
unfolding Same
Apart-Same i o p [] t a = tt
Apart-Same i o p ((r, j) ∷ subs) t a = (t.others j a.0, Apart-Same i o p subs t a.1)

pub Apart-Open :
    (i : ℕ) (o p : Observers) (subs : List (TurnRef × ℕ))
    → Touches i o p
    → Apart i subs
    → Open o subs
    → Open p subs
Apart-Open i o p subs t a v = Open-Same o p subs t.count (Apart-Same i o p subs t a) v

offer-Touches : (i : ℕ) (e : SseEvent) (o : Observers) → Touches i o (offer i e o)
unfolding offer
offer-Touches i e o = record { count = ground arith; others = λ j h. ground arith }

pub close-Touches : (i : ℕ) (o : Observers) → Touches i o (close_channel i o)
unfolding close_channel
close-Touches i o = record { count = ground arith; others = λ j h. ground arith }

-- On an open channel, an offer does not panic, and closes the channel only where it is full.
pub offer-open :
    (i : ℕ) (e : SseEvent) (o : Observers)
    → (o.channels i).closed ≡ false
    → ((offer i e o).panicked ≡ o.panicked)
      × ((offer i e o).channels i ≡ (
          if has_room (o.channels i)
          then record (o.channels i) { queue = (o.channels i).queue ++ (e ∷ []) }
          else record (o.channels i) { closed = true }))
unfolding offer
offer-open i e o h = (ground arith, ground arith)

pub close-open :
    (i : ℕ) (o : Observers)
    → (o.channels i).closed ≡ false
    → (close_channel i o).panicked ≡ o.panicked
unfolding close_channel
close-open i o h = ground arith

abbrev pub next : TurnRef → SseEvent → TurnRef → ℕ → Observers → Observers
next ref e r i o = if same_ref ref r then offer i e o else o

pub next-Touches :
    (ref : TurnRef) (e : SseEvent) (r : TurnRef) (i : ℕ) (o : Observers)
    → Touches i o (next ref e r i o)
next-Touches ref e r i o = elim (Bool-cases (same_ref ref r)) [
  | inl here ↦ rw here (offer-Touches i e o)
  | inr there ↦ rw there (record { count = refl; others = λ j h. refl })
]

module _ (ref : TurnRef) (e : SseEvent) where
  pub deliver-others :
      (subs : List (TurnRef × ℕ)) (o : Observers) (j : ℕ)
      → Apart j subs
      → ((deliver ref e subs o).1.channels j ≡ o.channels j) × Apart j (deliver ref e subs o).0
  unfolding deliver
  deliver-others [] o j a = (refl, tt)
  deliver-others ((r, i) ∷ subs) o j a =
      let rest = deliver-others subs (next ref e r i o) j a.1 in
      (rest.0 ∙ (next-Touches ref e r i o).others j (ground arith), ground arith)

  pub deliver-opened :
      (subs : List (TurnRef × ℕ)) (o : Observers) → (deliver ref e subs o).1.opened ≡ o.opened
  unfolding deliver
  deliver-opened [] o = refl
  deliver-opened ((r, i) ∷ subs) o =
      deliver-opened subs (next ref e r i o) ∙ (next-Touches ref e r i o).count

  -- The loop does not panic, and the channels of the pairs that remain are open.
  pub deliver-Open :
      (subs : List (TurnRef × ℕ)) (o : Observers)
      → Open o subs
      → Open (deliver ref e subs o).1 (deliver ref e subs o).0
        × ((deliver ref e subs o).1.panicked ≡ o.panicked)
  unfolding deliver
  deliver-Open [] o v = (tt, refl)
  deliver-Open ((r, i) ∷ subs) o v =
      let t = next-Touches ref e r i o in
      let rest =
        deliver-Open subs (next ref e r i o) (Apart-Open i o (next ref e r i o) subs t v.2 v.3) in
      let head = deliver-others subs (next ref e r i o) i v.2 in
      let count = deliver-opened subs (next ref e r i o) in
      let sent = offer-open i e o v.1 in (ground (arith, t.count), ground arith)
