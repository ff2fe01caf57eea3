-- ===== src/Service/Coordinator/Observers/Safety.antt =====
-- What the observers of internal/service/coordinator.go can rely on, after any calls.
use agent_council.Common.{
  ℕ, ◌≤◌, ◌==◌, true, false, ◌≡◌, refl, ◌∙◌, inl, inr, arith, Bool-cases, List, [], ◌∷◌, ◌++◌,
}
use agent_council.Common.Family.{with_at}
use agent_council.Adapter.Usage.{TurnRef}
use agent_council.Service.Coordinator.Observers.{
  SseEvent, Observers, no_observers, register_subscriber, remove_first, unsubscribe, close_channel,
  deliver, broadcast_event, close_each, close_all_subscribers, receive, Signal, registers,
  unsubscribes, receives, broadcasts, closes_all, signal, signals,
}
use agent_council.Service.Coordinator.Observers.Delivery.{
  Apart, Open, Apart-Open, close-Touches, close-open, deliver-Open, deliver-others, deliver-opened,
}

pub record Sound (o : Observers) : Type 0 where
  pub listed : Open o o.subscribers
  pub unbroken : o.panicked ≡ false
  pub unopened : (i : ℕ) → o.opened ≤ i → (o.channels i).closed ≡ false

Apart-later :
    (o : Observers) (subs : List (TurnRef × ℕ)) (i : ℕ) → o.opened ≤ i → Open o subs → Apart i subs
Apart-later o [] i h v = tt
Apart-later o ((r, j) ∷ subs) i h v = (ground arith, Apart-later o subs i h v.3)

Apart-snoc :
    (i : ℕ) (r : TurnRef) (j : ℕ) (subs : List (TurnRef × ℕ))
    → Apart i subs
    → i == j ≡ false
    → Apart i (subs ++ ((r, j) ∷ []))
Apart-snoc i r j [] a h = (h, tt)
Apart-snoc i r j ((q, k) ∷ subs) a h = (a.0, Apart-snoc i r j subs a.1 h)

Open-register :
    (o : Observers) (subs : List (TurnRef × ℕ)) (r : TurnRef)
    → (o.channels o.opened).closed ≡ false
    → Open o subs
    → Open (register_subscriber r o) (subs ++ ((r, o.opened) ∷ []))
unfolding register_subscriber
Open-register o [] r h v = (omega arith, h, tt, tt)
Open-register o ((q, i) ∷ subs) r h v = (
  omega (arith, v.0),
  v.1,
  Apart-snoc i r o.opened subs v.2 (ground arith),
  Open-register o subs r h v.3,
)

Apart-remove : (i j : ℕ) (subs : List (TurnRef × ℕ)) → Apart i subs → Apart i (remove_first j subs)
unfolding remove_first
Apart-remove i j [] a = tt
Apart-remove i j ((r, k) ∷ subs) a = ground (arith, Apart-remove i j subs a.1)

Open-remove :
    (o : Observers) (j : ℕ) (subs : List (TurnRef × ℕ)) → Open o subs → Open o (remove_first j subs)
unfolding remove_first
Open-remove o j [] v = tt
Open-remove o j ((r, i) ∷ subs) v = elim (Bool-cases (j == i)) [
  | inl found ↦ rw found v.3
  | inr other ↦ rw other (v.0, v.1, Apart-remove i j subs v.2, Open-remove o j subs v.3)
]

-- `Open` reads only the closing of channels and their count.
Open-flags :
    (o p : Observers) (subs : List (TurnRef × ℕ))
    → ((i : ℕ) → (p.channels i).closed ≡ (o.channels i).closed)
    → o.opened ≤ p.opened
    → Open o subs
    → Open p subs
Open-flags o p [] same n v = tt
Open-flags o p ((r, i) ∷ subs) same n v =
    (omega (arith, v.0), same i ∙ v.1, v.2, Open-flags o p subs same n v.3)

receive-flags :
    (o : Observers) (i j : ℕ) → ((receive i o).channels j).closed ≡ (o.channels j).closed
unfolding receive
receive-flags o i j = ground arith

receive-rest :
    (o : Observers) (i : ℕ)
    → ((receive i o).opened ≡ o.opened)
      × ((receive i o).subscribers ≡ o.subscribers)
      × ((receive i o).panicked ≡ o.panicked)
unfolding receive
receive-rest o i = ground arith

close_each_sound :
    (subs : List (TurnRef × ℕ)) (o : Observers)
    → Open o subs
    → ((close_each subs o).panicked ≡ o.panicked)
      × ((close_each subs o).opened ≡ o.opened)
      × ((j : ℕ) → Apart j subs → (close_each subs o).channels j ≡ o.channels j)
unfolding close_each
close_each_sound [] o v = (refl, refl, λ j a. refl)
close_each_sound ((r, i) ∷ subs) o v =
    let t = close-Touches i o in
    let rest =
      close_each_sound subs (close_channel i o)
        (Apart-Open i o (close_channel i o) subs t v.2 v.3) in
    (rest.0 ∙ close-open i o v.1, rest.1 ∙ t.count, λ j a. rest.2 j a.1 ∙ t.others j (ground arith))

register-Sound : (ref : TurnRef) (o : Observers) → Sound o → Sound (register_subscriber ref o)
unfolding register_subscriber
register-Sound ref o v = record {
  listed = Open-register o o.subscribers ref (v.unopened o.opened (omega arith)) v.listed;
  unbroken = v.unbroken;
  unopened = λ i h. v.unopened i (omega arith);
}

unsubscribe-Sound : (i : ℕ) (o : Observers) → Sound o → Sound (unsubscribe i o)
unfolding unsubscribe
unsubscribe-Sound i o v = elim (Bool-cases (o.unsubscribed i)) [
  | inl again ↦ rw again v
  | inr first ↦
      let p : Observers = record o {
        unsubscribed = with_at i true o.unsubscribed;
        subscribers = remove_first i o.subscribers;
      } in
      rw first (record {
        listed =
            Open-flags o p (remove_first i o.subscribers) (λ j. refl) (omega arith)
              (Open-remove o i o.subscribers v.listed);
        unbroken = v.unbroken;
        unopened = v.unopened;
      })
]

receive-Sound : (i : ℕ) (o : Observers) → Sound o → Sound (receive i o)
receive-Sound i o v =
    let rest = receive-rest o i in
    record {
      listed = rw rest.1 (
          Open-flags o (receive i o) o.subscribers (receive-flags o i) (omega (arith, rest.0))
            v.listed);
      unbroken = rest.2 ∙ v.unbroken;
      unopened = λ j h. receive-flags o i j ∙ v.unopened j (omega (arith, rest.0));
    }

broadcast-Sound :
    (ref : TurnRef) (e : SseEvent) (o : Observers) → Sound o → Sound (broadcast_event ref e o)
unfolding broadcast_event
broadcast-Sound ref e o v =
    let subs = o.subscribers in
    let kept = deliver-Open ref e subs o v.listed in
    let sent : Observers = (deliver ref e subs o).1 in
    let rest : List (TurnRef × ℕ) = (deliver ref e subs o).0 in
    record {
      listed =
          Open-flags sent (record sent { subscribers = rest }) rest (λ i. refl) (omega arith)
            kept.0;
      unbroken = kept.1 ∙ v.unbroken;
      unopened = λ j h.
          let late : o.opened ≤ j = omega (arith, deliver-opened ref e subs o) in
          rw (deliver-others ref e subs o j (Apart-later o subs j late v.listed)).0
            (v.unopened j late);
    }

close_all-Sound : (o : Observers) → Sound o → Sound (close_all_subscribers o)
unfolding close_all_subscribers
close_all-Sound o v =
    let all = close_each_sound o.subscribers o v.listed in
    record {
      listed = tt;
      unbroken = all.0 ∙ v.unbroken;
      unopened = λ j h.
          let late : o.opened ≤ j = omega (arith, all.1) in
          rw (all.2 j (Apart-later o o.subscribers j late v.listed)) (v.unopened j late);
    }

signal-Sound : (s : Signal) (o : Observers) → Sound o → Sound (signal s o)
unfolding signal
signal-Sound (registers ref) o v = register-Sound ref o v
signal-Sound (unsubscribes i) o v = unsubscribe-Sound i o v
signal-Sound (receives i) o v = receive-Sound i o v
signal-Sound (broadcasts ref e) o v = broadcast-Sound ref e o v
signal-Sound closes_all o v = close_all-Sound o v

signals-Sound : (ss : List Signal) (o : Observers) → Sound o → Sound (signals ss o)
unfolding signals
signals-Sound [] o v = v
signals-Sound (s ∷ ss) o v = signals-Sound ss (signal s o) (signal-Sound s o v)

no_observers-Sound : Sound no_observers
unfolding no_observers
no_observers-Sound = record { listed = tt; unbroken = refl; unopened = λ i h. refl }

-- The channels of the observers are used safely: after any registrations, unsubscriptions, receives,
-- broadcasts and closes of all on a new coordinator, nothing has been sent on a closed channel and
-- none has been closed twice, and every channel that is subscribed is open and listed once.
pub signals_keep_Sound : (ss : List Signal) → Sound (signals ss no_observers)
signals_keep_Sound ss = signals-Sound ss no_observers no_observers-Sound
