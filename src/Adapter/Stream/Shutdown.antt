-- ===== src/Adapter/Stream/Shutdown.antt =====
-- A stream of internal/adapter/stream.go that is closed can always be closed to the end.
use agent_council.Common.{
  ℕ, zero, suc, ◌+◌, ◌<◌, ltb, true, false, ◌≡◌, refl, ◌∙◌, inl, inr, arith, Bool-cases, All,
  All-append, List, [], ◌∷◌, ◌++◌,
}
use agent_council.Common.Int.{ℤ}
use agent_council.Common.Family.{sum_over, weight-le-sum, weighted}
use agent_council.Adapter.Usage.{TurnRef}
use agent_council.Adapter.Stream.{
  Pc, selecting, leaving, overflowing, draining, drained, finishing, goes_on, sees_cancel, advance,
}
use agent_council.Adapter.Stream.System.{System, Move, acts, step, run, start}
use agent_council.Adapter.Stream.Invariant.{
  announced, waiting, ready, ending, Holds, run-Holds, stream_keeps_Inv,
}
use agent_council.Adapter.Stream.Order.{closed-run}

run-append : (n : ℕ) (y : System) (ms ks : List Move) → run n y (ms ++ ks) ≡ run n (run n y ms) ks
unfolding run
run-append n y [] ks = refl
run-append n y (m ∷ ms) ks = run-append n (step n y m) ms ks

-- The moves by which an announced sender leaves a cancelled stream.
leave : ℕ → Pc → List Move
leave i (selecting how e) = acts i sees_cancel ∷ acts i goes_on ∷ []
leave i _ = acts i goes_on ∷ []

-- The moves by which the goroutine that closes the stream ends, once the senders have left.
finish : ℕ → Pc → List Move
finish i (draining answer) = acts i goes_on ∷ acts i goes_on ∷ acts i goes_on ∷ []
finish i (drained answer) = acts i goes_on ∷ acts i goes_on ∷ []
finish i _ = acts i goes_on ∷ []

-- A call that is running goes on.
abbrev pub Continues : Move → Type 0
Continues (acts i goes_on) = Unit
Continues (acts i sees_cancel) = Unit
Continues _ = ⊥

leave-All : (i : ℕ) (p : Pc) → 0 < announced p → All Continues (leave i p)
unfolding leave
leave-All i (selecting how e) h = omega arith
leave-All i (leaving answer) h = omega arith
leave-All i overflowing h = omega arith
leave-All i _ h = absurd (omega arith)

finish-All : (i : ℕ) (p : Pc) → 0 < waiting p + ready p + ending p → All Continues (finish i p)
unfolding finish
finish-All i (draining answer) h = omega arith
finish-All i (drained answer) h = omega arith
finish-All i (finishing answer) h = omega arith
finish-All i _ h = absurd (omega arith)

module _ (n : ℕ) (y : System) (i : ℕ) (exists : i < n) where
  leave-wg :
      (p : Pc) {k : ℕ}
      → y.pc i ≡ p
      → 0 < announced p
      → y.stream.cancelled ≡ true
      → y.stream.wg ≡ suc k
      → (run n y (leave i p)).stream.wg ≡ k
  unfolding run advance leave
  leave-wg (selecting how e) here h c w = ground arith
  leave-wg (leaving answer) here h c w = ground arith
  leave-wg overflowing here h c w = ground arith
  leave-wg _ here h c w = absurd (omega arith)

  finish-done :
      (p : Pc)
      → y.pc i ≡ p
      → 0 < waiting p + ready p + ending p
      → y.stream.wg ≡ 0
      → y.stream.done_closed ≡ false
      → (0 < waiting p + ready p → y.stream.events_closed ≡ false)
      → (run n y (finish i p)).stream.done_closed ≡ true
  unfolding run advance finish
  finish-done (draining answer) here h w d e = ground (arith, e (omega arith))
  finish-done (drained answer) here h w d e = ground (arith, e (omega arith))
  finish-done (finishing answer) here h w d e = ground arith
  finish-done _ here h w d e = absurd (omega arith)

module _ (n : ℕ) where
  -- Every sender leaves a closed stream, whether the observer receives or not.
  drain :
      (k : ℕ) (y : System)
      → Holds n y
      → y.stream.closed ≡ true
      → y.stream.wg ≡ k
      → (ms : List Move) × All Continues ms × ((run n y ms).stream.wg ≡ 0)
  unfolding run
  drain zero y v h w = ([], tt, w)
  drain (suc k) y v h w =
      let (i, exists, here) = weighted announced n y.pc (omega (arith, v.counted)) in
      let ms = leave i (y.pc i) in
      let z = run n y ms in
      let left = leave-wg n y i exists (y.pc i) refl here (v.cancels ∙ h) w in
      let (ks, kept, empty) = drain k z (run-Holds n y ms v) (closed-run n y ms h) left in
      (
        ms ++ ks,
        All-append Continues ms ks (leave-All i (y.pc i) here) kept,
        rw (run-append n y ms ks) empty,
      )

  finish_with :
      (y : System) (i : ℕ)
      → i < n
      → Holds n y
      → y.stream.wg ≡ 0
      → y.stream.done_closed ≡ false
      → 0 < waiting (y.pc i) + ready (y.pc i) + ending (y.pc i)
      → (ms : List Move) × All Continues ms × ((run n y ms).stream.done_closed ≡ true)
  finish_with y i exists v w d h = (
    finish i (y.pc i),
    finish-All i (y.pc i) h,
    finish-done n y i exists (y.pc i) refl h w d (λ early. ground (
      arith,
      v.one_closer,
      weight-le-sum waiting n i y.pc exists,
      weight-le-sum ready n i y.pc exists,
    )),
  )

  close_out :
      (y : System)
      → Holds n y
      → y.stream.closed ≡ true
      → y.stream.wg ≡ 0
      → (ms : List Move) × All Continues ms × ((run n y ms).stream.done_closed ≡ true)
  unfolding run
  close_out y v h w = elim (Bool-cases y.stream.done_closed) [
    | inl over ↦ ([], tt, over)
    | inr going ↦ elim (Bool-cases (ltb 0 (sum_over waiting n y.pc))) [
      | inl early ↦
          let (i, exists, here) = weighted waiting n y.pc (ground arith) in
          finish_with y i exists v w going (omega (arith, here))
      | inr later ↦ elim (Bool-cases (ltb 0 (sum_over ready n y.pc))) [
        | inl middle ↦
            let (i, exists, here) = weighted ready n y.pc (ground arith) in
            finish_with y i exists v w going (omega (arith, here))
        | inr last ↦
            let (i, exists, here) =
              weighted ending n y.pc (ground (arith, v.one_closer, v.one_finisher)) in
            finish_with y i exists v w going (omega (arith, here))
      ]
    ]
  ]

-- A close never waits in vain: from every state that goroutines can reach on a new stream, once the
-- stream is closed, there are steps of the calls that are running, with no new call and no receive
-- by the observer, after which `done` is closed.
pub close_completes :
    (n : ℕ) (ref : TurnRef) (capacity : ℤ) (ms : List Move)
    → (run n (start ref capacity) ms).stream.closed ≡ true
    → (ks : List Move) × All Continues ks
      × ((run n (run n (start ref capacity) ms) ks).stream.done_closed ≡ true)
close_completes n ref capacity ms h =
    let y = run n (start ref capacity) ms in
    let v = stream_keeps_Inv n ref capacity ms in
    let (ks, kept, empty) = drain n y.stream.wg y v h refl in
    let z = run n y ks in
    let (ls, still, over) = close_out n z (run-Holds n y ks v) (closed-run n y ks h) empty in
    (ks ++ ls, All-append Continues ks ls kept still, rw (run-append n y ks ls) over)
