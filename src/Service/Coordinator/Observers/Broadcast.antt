-- ===== src/Service/Coordinator/Observers/Broadcast.antt =====
-- What `BroadcastEvent` of internal/service/coordinator.go does to each channel.
use agent_council.Common.{
  ℕ, ◌==◌, Bool, true, false, not, ◌&&◌, ◌||◌, ◌≡◌, refl, arith, if◌then◌else◌, List, [], ◌∷◌, ◌++◌,
}
use agent_council.Adapter.Usage.{TurnRef}
use agent_council.Service.Coordinator.{same_ref}
use agent_council.Service.Coordinator.Observers.{
  SseEvent, Channel, has_room, Observers, no_observers, deliver, broadcast_event, Signal, signals,
}
use agent_council.Service.Coordinator.Observers.Delivery.{
  Apart, Open, Touches, Apart-Open, next, next-Touches, offer-open, deliver-others,
}
use agent_council.Service.Coordinator.Observers.Safety.{signals_keep_Sound}

abbrev pub listed_in : ℕ → List (TurnRef × ℕ) → Bool
listed_in i [] = false
listed_in i ((r, j) ∷ subs) = (i == j) || listed_in i subs

-- What a broadcast for `ref` makes of a channel that is subscribed to `r`.
abbrev pub offered : TurnRef → SseEvent → TurnRef → Channel → Channel
offered ref e r c =
    if same_ref ref r
    then (if has_room c
        then record c { queue = c.queue ++ (e ∷ []) }
        else record c { closed = true })
    else c

-- The channels of the list after a broadcast, and whether they stay subscribed.
abbrev pub Delivered :
    TurnRef
    → SseEvent
    → Observers
    → (ℕ → Channel)
    → List (TurnRef × ℕ)
    → List (TurnRef × ℕ)
    → Type 0
Delivered ref e o channels remaining [] = Unit
Delivered ref e o channels remaining ((r, i) ∷ subs) =
    (channels i ≡ offered ref e r (o.channels i))
    × (listed_in i remaining ≡ not (same_ref ref r) || has_room (o.channels i))
    × Delivered ref e o channels remaining subs

module _ (ref : TurnRef) (e : SseEvent) where
  Apart-listed : (i : ℕ) (subs : List (TurnRef × ℕ)) → Apart i subs → listed_in i subs ≡ false
  Apart-listed i [] a = refl
  Apart-listed i ((r, j) ∷ subs) a = ground (arith, Apart-listed i subs a.1)

  -- The pair that is added in front, and the channel that was offered the event first, belong to
  -- another registration.
  Delivered-later :
      (o p : Observers) (i : ℕ) (r : TurnRef) (full : Bool) (channels : ℕ → Channel)
      (rest subs : List (TurnRef × ℕ))
      → Touches i o p
      → Apart i subs
      → Delivered ref e p channels rest subs
      → Delivered ref e o channels (if full then rest else (r, i) ∷ rest) subs
  Delivered-later o p i r full channels rest [] t a d = tt
  Delivered-later o p i r full channels rest ((q, j) ∷ subs) t a d =
      let same = t.others j a.0 in
      (ground arith, ground arith, Delivered-later o p i r full channels rest subs t a.1 d.2)

  deliver-Delivered :
      (subs : List (TurnRef × ℕ)) (o : Observers)
      → Open o subs
      → Delivered ref e o (deliver ref e subs o).1.channels (deliver ref e subs o).0 subs
  unfolding deliver
  deliver-Delivered [] o v = tt
  deliver-Delivered ((r, i) ∷ subs) o v =
      let t = next-Touches ref e r i o in
      let p : Observers = next ref e r i o in
      let tail = deliver-Delivered subs p (Apart-Open i o p subs t v.2 v.3) in
      let head = deliver-others ref e subs p i v.2 in
      let sent = offer-open i e o v.1 in
      let gone = Apart-listed i (deliver ref e subs p).0 head.1 in
      (
        ground arith,
        ground arith,
        Delivered-later o p i r (same_ref ref r && not (has_room (o.channels i)))
            (deliver ref e subs p).1.channels (deliver ref e subs p).0 subs t v.2 tail,
      )

-- A broadcast, after any calls on a new coordinator, reaches every observer of the turn that keeps
-- up and no other: a channel that is subscribed to the turn gets the event at its end if it holds
-- fewer than 64, and is closed and removed otherwise; a channel of another turn stays as it is.
pub broadcast_delivers :
    (ss : List Signal) (ref : TurnRef) (e : SseEvent)
    → let o = signals ss no_observers in
      let p = broadcast_event ref e o in Delivered ref e o p.channels p.subscribers o.subscribers
unfolding broadcast_event
broadcast_delivers ss ref e =
    let o = signals ss no_observers in
    deliver-Delivered ref e o.subscribers o (signals_keep_Sound ss).listed
