-- ===== src/Clock/Ticks.antt =====
-- What the handlers of 3/clock.c and 3/mygettimeofday.c have counted after a number of signals.
use linux_homework.Base.{
  ℕ, zero, suc, ◌+◌, ◌-◌, ◌*◌, ◌^◌, ◌<◌, ◌≤◌, ◌≡◌, Bool, true, false, List, [], ◌∷◌, ◌==◌, ◌||◌,
  refl, arith, ap, sym, subst, Bool-cases, inl, inr,
}
use linux_homework.Clock.{
  Timeval, advance, advances, Passed, Processes, started, tick, Event, expires, delivers, step, run,
}

abbrev pub usecs : Timeval → ℕ
usecs t = 1000000 * t.tv_sec + t.tv_usec

advance-usecs :
    (t : Timeval)
    → t.tv_usec < 1000000
    → usecs t + 1 < 1000000 * 2 ^ 31
    → (usecs (advance t) ≡ usecs t + 1) × ((advance t).tv_usec < 1000000)
unfolding advance
advance-usecs t proper small = elim (Bool-cases (t.tv_usec == 999999)) [
  | inl full ↦ rw (full, advance) (ground (arith, full, small), omega arith)
  | inr more ↦ rw (more, advance) (omega arith, ground (arith, proper, more))
]

advances-usecs :
    (n : ℕ) (t : Timeval)
    → t.tv_usec < 1000000
    → usecs t + n < 1000000 * 2 ^ 31
    → (usecs (advances n t) ≡ usecs t + n) × ((advances n t).tv_usec < 1000000)
unfolding advances
advances-usecs zero t proper small = (omega arith, proper)
advances-usecs (suc n) t proper small =
    let (one, proper') = advance-usecs t proper (omega (arith, small)) in
    let (sum, in_second) = advances-usecs n (advance t) proper' (omega (arith, one, small)) in
    (omega (arith, one, sum), in_second)

-- How often the timer goes off.
abbrev pub expiries : List Event → ℕ
expiries [] = 0
expiries (expires ∷ es) = suc (expiries es)
expiries (delivers ∷ es) = expiries es

-- The seconds and the part of a second that the child's count is in step with.
abbrev pub InStep : Passed → ℕ → Type 0
InStep p n =
    (100000 * p.passed_sec + p.passed_usec ≡ n)
    × (p.passed_usec < 100000)
    × (p.count ≡ p.passed_usec)

abbrev pub one_if : Bool → ℕ
one_if true = 1
one_if false = 0

-- The parent is not ahead of the child.
abbrev pub Behind : Processes → Type 0
Behind s = s.main_sec + one_if s.pending ≤ s.child.passed_sec

tick-InStep :
    (p : Passed) (n : ℕ)
    → InStep p n
    → n + 1 < 100000 * 2 ^ 31
    → InStep (tick p).0 (n + 1) × ((tick p).0.passed_sec ≡ p.passed_sec + one_if (tick p).1)
unfolding tick
tick-InStep p n (sum, small, same) low = elim (Bool-cases (p.count + 1 == 100000)) [
  | inl full ↦
      rw (full, tick)
        ((ground (arith, full, sum, same, low), omega arith, refl), ground (arith, full, sum, low))
  | inr more ↦
      rw (more, tick)
        ((omega (arith, sum), ground (arith, more, small, same), omega (arith, same)), omega arith)
]

one_if-or : (b c : Bool) → one_if (b || c) ≤ one_if b + one_if c
one_if-or true c = omega arith
one_if-or false c = omega arith

deliver-Behind :
    (s : Processes) (n : ℕ)
    → InStep s.child n
    → Behind s
    → n < 100000 * 2 ^ 31
    → InStep (step delivers s).child n × Behind (step delivers s)
unfolding step
deliver-Behind s n (sum, small, same) behind low = elim (Bool-cases s.pending) [
  | inl p ↦
      let ahead : s.main_sec + 1 ≤ s.child.passed_sec = ground (arith, behind, p) in
      rw p ((sum, small, same), omega (arith, ahead, sum, low))
  | inr p ↦
      let kept : s.main_sec + 0 ≤ s.child.passed_sec = ground (arith, behind, p) in
      rw p ((sum, small, same), kept)
]

expire-child : (s : Processes) (n : ℕ) → InStep (tick s.child).0 n → InStep (step expires s).child n
unfolding step
expire-child s n in_step = in_step

expire-Behind :
    (s : Processes)
    → Behind s
    → (tick s.child).0.passed_sec ≡ s.child.passed_sec + one_if (tick s.child).1
    → Behind (step expires s)
unfolding step
expire-Behind s behind one = omega (arith, behind, one, one_if-or s.pending (tick s.child).1)

run-InStep :
    (es : List Event) (s : Processes) (n : ℕ)
    → InStep s.child n
    → Behind s
    → n + expiries es < 100000 * 2 ^ 31
    → InStep (run es s).child (n + expiries es) × Behind (run es s)
unfolding run
run-InStep [] s n (sum, small, same) behind low = ((omega (arith, sum), small, same), behind)
run-InStep (expires ∷ es) s n in_step behind low =
    let (in_step', one) = tick-InStep s.child n in_step (omega (arith, low)) in
    let ((sum, small, same), behind') =
      run-InStep es (step expires s) (n + 1) (expire-child s (n + 1) in_step')
        (expire-Behind s behind one) (omega (arith, low)) in
    ((omega (arith, sum), small, same), behind')
run-InStep (delivers ∷ es) s n in_step behind low =
    let (in_step', behind') = deliver-Behind s n in_step behind (omega (arith, low)) in
    run-InStep es (step delivers s) n in_step' behind' low

-- The parent handles each signal before the timer goes off again.
abbrev pub prompt : ℕ → List Event
prompt zero = []
prompt (suc n) = expires ∷ delivers ∷ prompt n

expiries-prompt : (n : ℕ) → expiries (prompt n) ≡ n
expiries-prompt zero = refl
expiries-prompt (suc n) = ap suc (expiries-prompt n)

-- The parent has counted as much as the child.
abbrev pub Even : Processes → Type 0
Even s = (s.pending ≡ false) × (s.main_sec ≡ s.child.passed_sec)

prompt-Even :
    (s : Processes)
    → Even s
    → s.child.passed_sec + 1 < 2 ^ 31
    → (tick s.child).0.passed_sec ≡ s.child.passed_sec + one_if (tick s.child).1
    → Even (step delivers (step expires s))
unfolding step
prompt-Even s (quiet, same) low one = elim (Bool-cases (tick s.child).1) [
  | inl k ↦ rw (quiet, k) (refl, ground (arith, same, low, one, k))
  | inr k ↦ rw (quiet, k) (refl, ground (arith, same, one, k))
]

delivers-child : (s : Processes) → (step delivers s).child ≡ s.child
unfolding step
delivers-child s = elim (Bool-cases s.pending) [ inl p ↦ rw p refl | inr p ↦ rw p refl ]

run-prompt-Even :
    (m : ℕ) (s : Processes) (n : ℕ)
    → InStep s.child n
    → Even s
    → n + m < 100000 * (2 ^ 31 - 1)
    → Even (run (prompt m) s)
unfolding run
run-prompt-Even zero s n in_step even low = even
run-prompt-Even (suc m) s n in_step even low =
    let (in_step', one) = tick-InStep s.child n in_step (omega (arith, low)) in
    run-prompt-Even m (step delivers (step expires s)) (n + 1)
      (subst (λ p. InStep p (n + 1)) (sym (delivers-child (step expires s)))
        (expire-child s (n + 1) in_step'))
      (prompt-Even s even (omega (arith, in_step.0, low)) one) (omega (arith, low))

-- After `n` signals clock.c shows a time that is `n` microseconds later than the one it started
-- with, with a proper part of a second. In the program of mygettimeofday.c, however the signals of
-- the timer and to the parent come, the child has counted a second for each hundred thousand of its
-- signals, a tenth of the microseconds of a second, and the parent no more than the child; where
-- the parent handles each signal before the timer goes off again, it has counted the same. The
-- seconds stay below 2^31.
pub signals-count :
    (n : ℕ) (t : Timeval) (es : List Event)
    → t.tv_usec < 1000000
    → usecs t + n < 1000000 * 2 ^ 31
    → n < 100000 * (2 ^ 31 - 1)
    → expiries es < 100000 * 2 ^ 31
    → ((usecs (advances n t) ≡ usecs t + n) × ((advances n t).tv_usec < 1000000))
      × (InStep (run es started).child (expiries es) × Behind (run es started))
      × Even (run (prompt n) started)
signals-count n t es proper small low few = (
  advances-usecs n t proper small,
  from_start,
  run-prompt-Even n started 0 (refl, omega arith, refl) (refl, refl) (omega (arith, low)),
)
  where
    from_start : InStep (run es started).child (expiries es) × Behind (run es started)
    from_start =
        let ((sum, in_second, same), behind) =
          run-InStep es started 0 (refl, omega arith, refl) (omega arith) (omega (arith, few)) in
        ((omega (arith, sum), in_second, same), behind)
