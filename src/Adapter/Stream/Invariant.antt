-- ===== src/Adapter/Stream/Invariant.antt =====
-- What holds of a stream of internal/adapter/stream.go and its goroutines between two steps.
use agent_council.Common.{
  ℕ, ◌+◌, ◌<◌, ◌≤◌, ltb, Bool, true, false, ◌≡◌, refl, inl, inr, is_some, length, arith, Bool-cases,
  Option-cases, Result-cases, some, List, [], ◌∷◌, ◌++◌,
}
use agent_council.Common.Int.{ℤ}
use agent_council.Common.Family.{with_at, sum_over, sum_over-with_at, weight-le-sum, sum_over-const}
use agent_council.Adapter.Usage.{TurnRef}
use agent_council.Adapter.Stream.{
  BufferedStream, new_buffered_stream, Pc, idle, selecting, leaving, overflowing, closing, awaiting,
  draining, drained, finishing, returned, panicked, Action, sends, closes, goes_on, sees_cancel,
  admit, advance,
}
use agent_council.Adapter.Stream.System.{System, Move, acts, receives, settle, step, run, start}

-- Between `wg.Add(1)` and `wg.Done()`.
abbrev pub announced : Pc → ℕ
announced (selecting how e) = 1
announced (leaving answer) = 1
announced overflowing = 1
announced _ = 0

-- The goroutine that closes the stream, before `wg.Wait()` returns, after, and at the end.
abbrev pub waiting : Pc → ℕ
waiting (draining answer) = 1
waiting _ = 0

abbrev pub ready : Pc → ℕ
ready (drained answer) = 1
ready _ = 0

abbrev pub ending : Pc → ℕ
ending (finishing answer) = 1
ending _ = 0

abbrev pub broken : Pc → ℕ
broken panicked = 1
broken _ = 0

abbrev one_if : Bool → ℕ
one_if true = 1
one_if false = 0

-- The numbers of goroutines at the places above.
pub record Census : Type 0 where
  pub announcing : ℕ
  pub closers : ℕ
  pub prepared : ℕ
  pub last : ℕ
  pub lost : ℕ

abbrev pub census : ℕ → (ℕ → Pc) → Census
census n pc = record {
  announcing = sum_over announced n pc;
  closers = sum_over waiting n pc;
  prepared = sum_over ready n pc;
  last = sum_over ending n pc;
  lost = sum_over broken n pc;
}

pub record Inv (s : BufferedStream) (c : Census) : Type 0 where
  pub counted : s.wg ≡ c.announcing
  pub one_closer : c.closers + c.prepared + one_if s.events_closed ≡ one_if s.closed
  pub one_finisher : c.last + one_if s.done_closed ≡ one_if s.events_closed
  pub quiet : 0 < c.prepared + one_if s.events_closed → s.wg ≡ 0
  pub unbroken : c.lost ≡ 0
  pub cancels : s.cancelled ≡ s.closed
  pub explained : is_some s.error ≡ s.closed
  pub bounded : length s.buffer ≤ s.capacity

-- A goroutine goes from `p` to `q`; the rest stand still.
record Moved (c d : Census) (p q : Pc) : Type 0 where
  announcing : d.announcing + announced p ≡ c.announcing + announced q
  closers : d.closers + waiting p ≡ c.closers + waiting q
  prepared : d.prepared + ready p ≡ c.prepared + ready q
  last : d.last + ending p ≡ c.last + ending q
  lost : d.lost + broken p ≡ c.lost + broken q
  here : announced p ≤ c.announcing
  there : (waiting p ≤ c.closers) × (ready p ≤ c.prepared) × (ending p ≤ c.last)

length-snoc {ℓ} : {A : Type ℓ} (xs : List A) (x : A) → length (xs ++ (x ∷ [])) ≡ length xs + 1
length-snoc [] x = omega arith
length-snoc (y ∷ xs) x = omega (arith, length-snoc xs x)

advance-Inv :
    (a : Action) (s : BufferedStream) (p : Pc) {t : BufferedStream} {q : Pc} {c d : Census}
    → advance a s p ≡ some (t, q)
    → Moved c d p q
    → Inv s c
    → Inv t d
unfolding advance
advance-Inv (sends how e) s idle h m v = ground (arith, Result-cases (admit s.ref e))
advance-Inv (closes reason) s idle h m v = ground arith
advance-Inv sees_cancel s (selecting how e) h m v = ground arith
advance-Inv goes_on s (selecting how e) h m v = ground (arith, length-snoc s.buffer e)
advance-Inv goes_on s (leaving answer) h m v = ground arith
advance-Inv goes_on s overflowing h m v = ground arith
advance-Inv goes_on s (closing reason answer) h m v = ground arith
advance-Inv goes_on s (awaiting answer) h m v = ground arith
advance-Inv goes_on s (draining answer) h m v = ground arith
advance-Inv goes_on s (drained answer) h m v = ground arith
advance-Inv goes_on s (finishing answer) h m v = ground arith
advance-Inv goes_on s (returned answer) h m v = ground arith
advance-Inv _ s _ h m v = cc

moved :
    (n i : ℕ) (pc : ℕ → Pc) (q : Pc)
    → i < n
    → Moved (census n pc) (census n (with_at i q pc)) (pc i) q
moved n i pc q h = record {
  announcing = sum_over-with_at announced n i q pc h;
  closers = sum_over-with_at waiting n i q pc h;
  prepared = sum_over-with_at ready n i q pc h;
  last = sum_over-with_at ending n i q pc h;
  lost = sum_over-with_at broken n i q pc h;
  here = weight-le-sum announced n i pc h;
  there =
      (weight-le-sum waiting n i pc h, weight-le-sum ready n i pc h, weight-le-sum ending n i pc h);
}

abbrev pub Holds : ℕ → System → Type 0
Holds n y = Inv y.stream (census n y.pc)

settle-Holds :
    (n : ℕ) (y : System) (i : ℕ) (a : Action)
    → i < n
    → Holds n y
    → Holds n (settle y i (advance a y.stream (y.pc i)))
unfolding settle
settle-Holds n y i a h v = elim (Option-cases (advance a y.stream (y.pc i))) [
  | inl blocked ↦ rw blocked v
  | inr ((s, p), done) ↦ rw done (advance-Inv a y.stream (y.pc i) done (moved n i y.pc p h) v)
]

pub step-Holds : (n : ℕ) (y : System) (m : Move) → Holds n y → Holds n (step n y m)
unfolding step
step-Holds n y (acts i a) v = elim (Bool-cases (ltb i n)) [
  | inl exists ↦ rw exists (settle-Holds n y i a (ground arith) v)
  | inr absent ↦ rw absent v
]
step-Holds n y receives v = ground arith

pub run-Holds : (n : ℕ) (y : System) (ms : List Move) → Holds n y → Holds n (run n y ms)
unfolding run
run-Holds n y [] v = v
run-Holds n y (m ∷ ms) v = run-Holds n (step n y m) ms (step-Holds n y m v)

start-Holds : (n : ℕ) (ref : TurnRef) (capacity : ℤ) → Holds n (start ref capacity)
unfolding new_buffered_stream
start-Holds n ref capacity = ground (
  arith,
  sum_over-const announced n (λ i. idle) (λ i. refl),
  sum_over-const waiting n (λ i. idle) (λ i. refl),
  sum_over-const ready n (λ i. idle) (λ i. refl),
  sum_over-const ending n (λ i. idle) (λ i. refl),
  sum_over-const broken n (λ i. idle) (λ i. refl),
)

-- After any steps of any goroutines on a new stream: the wait group counts the senders between
-- their announcement and their end, at most one goroutine closes the stream and each channel is
-- closed at most once, no sender is left when the channel of the events is closed, the stream has
-- an error exactly when it is closed, and the buffer has not outgrown its capacity.
pub stream_keeps_Inv :
    (n : ℕ) (ref : TurnRef) (capacity : ℤ) (ms : List Move)
    → Holds n (run n (start ref capacity) ms)
stream_keeps_Inv n ref capacity ms =
    run-Holds n (start ref capacity) ms (start-Holds n ref capacity)

-- No goroutine panics: whatever calls of `Send`, `SendOrOverflow` and `CloseWithErr` any number of
-- goroutines make on a new stream, and however their steps interleave, none of them sends on a
-- closed channel, closes a channel twice, or takes the wait group below zero.
pub never_panics :
    (n : ℕ) (ref : TurnRef) (capacity : ℤ) (ms : List Move) (i : ℕ)
    → i < n
    → broken ((run n (start ref capacity) ms).pc i) ≡ 0
never_panics n ref capacity ms i h =
    let y = run n (start ref capacity) ms in
    omega (arith, weight-le-sum broken n i y.pc h, (stream_keeps_Inv n ref capacity ms).unbroken)
