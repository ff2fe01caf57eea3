-- ===== src/Adapter/Stream/Order.antt =====
-- What the observer of a stream of internal/adapter/stream.go receives, and which error it sees.
use agent_council.Common.{
  ℕ, ltb, ◌==◌, true, false, ◌≡◌, refl, sym, ◌∙◌, ◌⊎◌, inl, inr, All, All-append, length, arith,
  Bool-cases, Option-cases, Result-cases, some, List, [], ◌∷◌, ◌++◌, ok,
}
use mathlib.Core.List.{append-nil, append_assoc}
use agent_council.Common.Int.{ℤ}
use agent_council.Adapter.Usage.{TurnRef}
use agent_council.Adapter.Event.{Event}
use agent_council.Adapter.Stream.{
  BufferedStream, new_buffered_stream, Pc, idle, selecting, leaving, overflowing, closing, awaiting,
  draining, drained, finishing, returned, Action, sends, closes, goes_on, sees_cancel, admit,
  advance,
}
use agent_council.Adapter.Stream.System.{
  System, Move, acts, receives, receive, settle, step, run, start,
}

-- What a step of a goroutine does to the stream, for good.
record Stable (s t : BufferedStream) : Type 0 where
  ref : t.ref ≡ s.ref
  closed : s.closed ≡ true → t.closed ≡ true
  error : s.closed ≡ true → t.error ≡ s.error
  events : s.events_closed ≡ true → t.events_closed ≡ true

advance-Stable :
    (a : Action) (s : BufferedStream) (p : Pc) {t : BufferedStream} {q : Pc}
    → advance a s p ≡ some (t, q)
    → Stable s t
unfolding advance
advance-Stable (sends how e) s idle h = ground (arith, Result-cases (admit s.ref e))
advance-Stable (closes reason) s idle h = ground arith
advance-Stable sees_cancel s (selecting how e) h = ground arith
advance-Stable goes_on s (selecting how e) h = ground arith
advance-Stable goes_on s (leaving answer) h = ground arith
advance-Stable goes_on s overflowing h = ground arith
advance-Stable goes_on s (closing reason answer) h = ground arith
advance-Stable goes_on s (awaiting answer) h = ground arith
advance-Stable goes_on s (draining answer) h = ground arith
advance-Stable goes_on s (drained answer) h = ground arith
advance-Stable goes_on s (finishing answer) h = ground arith
advance-Stable goes_on s (returned answer) h = ground arith
advance-Stable _ s _ h = cc

step-Stable : (n : ℕ) (y : System) (m : Move) → Stable y.stream (step n y m).stream
unfolding step
step-Stable n y (acts i a) = elim (Option-cases (advance a y.stream (y.pc i))) [
  | inl blocked ↦ rw blocked (ground arith)
  | inr ((s, p), done) ↦ rw done (ground (arith, advance-Stable a y.stream (y.pc i) done))
]
step-Stable n y receives = ground arith

run-Stable : (n : ℕ) (y : System) (ms : List Move) → Stable y.stream (run n y ms).stream
unfolding run
run-Stable n y [] = ground arith
run-Stable n y (m ∷ ms) = ground (arith, step-Stable n y m, run-Stable n (step n y m) ms)

pub closed-run :
    (n : ℕ) (y : System) (ms : List Move)
    → y.stream.closed ≡ true
    → (run n y ms).stream.closed ≡ true
closed-run n y ms h = (run-Stable n y ms).closed h

-- The first close decides: once a stream is closed, no later step of any goroutine opens it or
-- changes the error that `Err` reports.
pub first_close_wins :
    (n : ℕ) (y : System) (ms : List Move)
    → y.stream.closed ≡ true
    → ((run n y ms).stream.closed ≡ true) × ((run n y ms).stream.error ≡ y.stream.error)
first_close_wins n y ms h = ((run-Stable n y ms).closed h, (run-Stable n y ms).error h)

-- What was accepted: the events received, and those in the channel.
abbrev pub accepted : System → List Event
accepted y = y.received ++ y.stream.buffer

-- The event that a goroutine is about to send has passed the checks.
abbrev pub Checked : TurnRef → Pc → Type 0
Checked ref (selecting how e) = admit ref e ≡ ok tt
Checked ref _ = Unit

-- The events that a step accepts, and their checks.
pub record Grows (ref : TurnRef) (old new : List Event) : Type 0 where
  pub added : List Event
  pub sound : All (λ e. admit ref e ≡ ok tt) added
  pub extends : new ≡ old ++ added

Grows-refl : (ref : TurnRef) (xs : List Event) → Grows ref xs xs
Grows-refl ref xs = record { added = []; sound = tt; extends = sym (append-nil xs) }

Grows-trans :
    (ref : TurnRef) (xs ys zs : List Event) → Grows ref xs ys → Grows ref ys zs → Grows ref xs zs
Grows-trans ref xs ys zs g h = record {
  added = g.added ++ h.added;
  sound = All-append (λ e. admit ref e ≡ ok tt) g.added h.added g.sound h.sound;
  extends = simp (h.extends, g.extends, append_assoc);
}

-- A step appends at most one event, which was checked, and none once the channel is closed.
Appends : BufferedStream → BufferedStream → Type 0
Appends s t =
    (t.buffer ≡ s.buffer)
    ⊎ ((e : Event) × (s.events_closed ≡ false)
        × (admit s.ref e ≡ ok tt)
        × (t.buffer ≡ s.buffer ++ (e ∷ [])))

advance-Appends :
    (a : Action) (s : BufferedStream) (p : Pc) {t : BufferedStream} {q : Pc}
    → advance a s p ≡ some (t, q)
    → Checked s.ref p
    → Appends s t
unfolding advance Appends
advance-Appends (sends how e) s idle h c = inl (ground (arith, Result-cases (admit s.ref e)))
advance-Appends (closes reason) s idle h c = inl (ground arith)
advance-Appends sees_cancel s (selecting how e) h c = inl (ground arith)
advance-Appends goes_on s (selecting how e) h c =
    elim (Bool-cases (ltb (length s.buffer) s.capacity)) [
      | inl room ↦ elim (Bool-cases s.events_closed) [
        | inl shut ↦ inl (ground arith)
        | inr open_still ↦ inr (e, open_still, c, ground arith)
      ]
      | inr full ↦ inl (ground arith)
    ]
advance-Appends goes_on s (leaving answer) h c = inl (ground arith)
advance-Appends goes_on s overflowing h c = inl (ground arith)
advance-Appends goes_on s (closing reason answer) h c = inl (ground arith)
advance-Appends goes_on s (awaiting answer) h c = inl (ground arith)
advance-Appends goes_on s (draining answer) h c = inl (ground arith)
advance-Appends goes_on s (drained answer) h c = inl (ground arith)
advance-Appends goes_on s (finishing answer) h c = inl (ground arith)
advance-Appends goes_on s (returned answer) h c = inl (ground arith)
advance-Appends _ s _ h c = inl (cc)

-- A goroutine starts to select only with a checked event, and a stream keeps its reference.
advance-Checked :
    (a : Action) (s : BufferedStream) (p : Pc) {t : BufferedStream} {q : Pc}
    → advance a s p ≡ some (t, q)
    → Checked s.ref p
    → Checked s.ref q
unfolding advance
advance-Checked (sends how e) s idle h c = ground (arith, Result-cases (admit s.ref e))
advance-Checked (closes reason) s idle h c = ground arith
advance-Checked sees_cancel s (selecting how e) h c = ground arith
advance-Checked goes_on s (selecting how e) h c = ground arith
advance-Checked goes_on s (leaving answer) h c = ground arith
advance-Checked goes_on s overflowing h c = ground arith
advance-Checked goes_on s (closing reason answer) h c = ground arith
advance-Checked goes_on s (awaiting answer) h c = ground arith
advance-Checked goes_on s (draining answer) h c = ground arith
advance-Checked goes_on s (drained answer) h c = ground arith
advance-Checked goes_on s (finishing answer) h c = ground arith
advance-Checked goes_on s (returned answer) h c = ground arith
advance-Checked _ s _ h c = absurd (cc)

abbrev AllChecked : System → Type 0
AllChecked y = (i : ℕ) → Checked y.stream.ref (y.pc i)

-- What is accepted only grows at its end, and not once the channel is closed.
record Advances (y z : System) : Type 0 where
  grows : Grows y.stream.ref (accepted y) (accepted z)
  final : y.stream.events_closed ≡ true → accepted z ≡ accepted y
  checked : AllChecked z

Advances-refl : (y : System) → AllChecked y → Advances y y
Advances-refl y c = record {
  grows = Grows-refl y.stream.ref (accepted y);
  final = λ h. refl;
  checked = c;
}

settle-Advances :
    (y : System) (i : ℕ) (s : BufferedStream) (p : Pc)
    → Appends y.stream s
    → s.ref ≡ y.stream.ref
    → Checked y.stream.ref p
    → AllChecked y
    → Advances y (settle y i (some (s, p)))
unfolding settle Appends
settle-Advances y i s p app same c all = record {
  grows = elim app [
    | inl kept ↦ rw kept (Grows-refl y.stream.ref (accepted y))
    | inr (e, still, sound, added) ↦ record {
      added = e ∷ [];
      sound = (sound, tt);
      extends = simp (added, append_assoc);
    }
  ];
  final = λ h. elim app [ inl kept ↦ rw kept | inr (e, still, sound, added) ↦ cc ];
  checked = λ j. elim (Bool-cases (i == j)) [
    | inl here ↦ rw (here, same) c
    | inr there ↦ rw (there, same) (all j)
  ];
}

receive-Advances :
    (y : System) (xs : List Event) → y.stream.buffer ≡ xs → AllChecked y → Advances y (receive y xs)
unfolding receive
receive-Advances y [] h all = Advances-refl y all
receive-Advances y (e ∷ xs) h all =
    let same : (y.received ++ (e ∷ [])) ++ xs ≡ accepted y = rw (h, append_assoc) in
    record {
      grows = record { added = []; sound = tt; extends = same ∙ sym (append-nil (accepted y)) };
      final = λ shut. same;
      checked = all;
    }

Grows-at : {r q : TurnRef} {xs ys : List Event} → r ≡ q → Grows q xs ys → Grows r xs ys
Grows-at e g = rw e g

step-Advances : (n : ℕ) (y : System) (m : Move) → AllChecked y → Advances y (step n y m)
unfolding step
step-Advances n y (acts i a) all = elim (Bool-cases (ltb i n)) [
  | inl exists ↦ elim (Option-cases (advance a y.stream (y.pc i))) [
    | inl blocked ↦ rw (exists, blocked, settle) (Advances-refl y all)
    | inr ((s, p), done) ↦
        rw (exists, done)
          (settle-Advances y i s p (advance-Appends a y.stream (y.pc i) done (all i))
            (advance-Stable a y.stream (y.pc i) done).ref
            (advance-Checked a y.stream (y.pc i) done (all i)) all)
  ]
  | inr absent ↦ rw absent (Advances-refl y all)
]
step-Advances n y receives all = receive-Advances y y.stream.buffer refl all

run-Advances : (n : ℕ) (y : System) (ms : List Move) → AllChecked y → Advances y (run n y ms)
unfolding run
run-Advances n y [] all = Advances-refl y all
run-Advances n y (m ∷ ms) all =
    let first = step-Advances n y m all in
    let rest = run-Advances n (step n y m) ms first.checked in
    let same = step-Stable n y m in
    record {
      grows =
          Grows-trans y.stream.ref (accepted y) (accepted (step n y m))
            (accepted (run n (step n y m) ms)) first.grows (Grows-at (sym same.ref) rest.grows);
      final = λ h. rest.final (same.events h) ∙ first.final h;
      checked = rest.checked;
    }

-- Whatever goroutines do on a new stream, then and later: the events that the observer has received
-- are followed, in order, by those of the channel, and together they only grow at their end, by
-- events of the stream's turn that are valid; once the channel is closed they stay as they are.
pub stream_delivers :
    (n : ℕ) (ref : TurnRef) (capacity : ℤ) (ms later : List Move)
    → let y = run n (start ref capacity) ms in
      let z = run n y later in
      Grows ref (accepted y) (accepted z)
      × (y.stream.events_closed ≡ true → accepted z ≡ accepted y)
unfolding new_buffered_stream
stream_delivers n ref capacity ms later =
    let y = run n (start ref capacity) ms in
    let before = run-Advances n (start ref capacity) ms (λ i. tt) in
    let after = run-Advances n y later before.checked in
    (Grows-at (sym (run-Stable n (start ref capacity) ms).ref) after.grows, after.final)
