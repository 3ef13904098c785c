-- ===== src/Fibnocci.antt =====
-- `fib` of 3/fibnocci.c, which computes with `int`, and the numbers that it computes.

mod Tests
use linux_homework.Base.{
  ℕ, zero, suc, ◌+◌, ◌-◌, ◌^◌, ◌<◌, ◌≤◌, ◌≡◌, Bool-cases, inl, inr, true, false, Option, none, some,
  arith, refl, ltb, ltb→lt, lt→ltb, if◌then◌else◌, ap, ap₂, ◌∙◌, sym,
}

-- The rounds of the loop that are left from `i` on; `none` if the sum is no `int`.
unfoldable pub fib_from : (left i f1 f2 f : ℕ) → Option ℕ
fib_from zero i f1 f2 f = some f
fib_from (suc k) i f1 f2 f =
    let summed = fib_from k (i + 1) f2 (f1 + f2) (f1 + f2) in
    let skipped = fib_from k (i + 1) f1 f2 i in
    if ltb 1 i then if ltb (f1 + f2) (2 ^ 31) then summed else none else skipped

unfoldable pub fib : ℕ → Option ℕ
fib n = fib_from n 0 0 1 0

-- The Fibonacci numbers from 0 and 1 on: each one and the next one.
abbrev pub fibonacci : ℕ → ℕ × ℕ
fibonacci zero = (0, 1)
fibonacci (suc n) = ((fibonacci n).1, (fibonacci n).0 + (fibonacci n).1)

abbrev pub int_or_none : ℕ → Option ℕ
int_or_none n = if ltb n (2 ^ 31) then some n else none

fibonacci-le : (n k : ℕ) → (fibonacci n).1 ≤ (fibonacci (k + n)).1
fibonacci-le n zero = let same : 0 + n ≡ n = omega arith in rw same (omega arith)
fibonacci-le n (suc k) =
    let same : suc k + n ≡ suc (k + n) = omega arith in rw same (omega (arith, fibonacci-le n k))

fib_from-fibonacci :
    (k i n : ℕ)
    → 1 < i
    → (fibonacci n).1 < 2 ^ 31
    → fib_from k i (fibonacci n).0 (fibonacci n).1 (fibonacci n).1
      ≡ int_or_none (fibonacci (k + n)).1
unfolding fib_from
fib_from-fibonacci zero i n large fits =
    let same : 0 + n ≡ n = omega arith in rw (same, lt→ltb (fibonacci n).1 (2 ^ 31) fits) refl
fib_from-fibonacci (suc k) i n large fits =
    let same : suc k + n ≡ k + suc n = omega arith in
    elim (Bool-cases (ltb ((fibonacci n).0 + (fibonacci n).1) (2 ^ 31))) [
      | inl h ↦
          rw (fib_from, lt→ltb 1 i large, h, same)
            (fib_from-fibonacci k (i + 1) (suc n) (omega arith) (ltb→lt _ (2 ^ 31) h))
      | inr h ↦
          let over : ltb (fibonacci (k + suc n)).1 (2 ^ 31) ≡ false =
            ground (arith, fibonacci-le (suc n) k) in
          rw (fib_from, lt→ltb 1 i large, h, same, over) refl
    ]

-- `fib(n)` is the Fibonacci number `n - 1`, counted from 0 on, as long as it is an `int`; from
-- then on a sum overflows.
pub fib-fibonacci :
    (k : ℕ)
    → (fib 0 ≡ some 0) × (fib 1 ≡ some 0) × (fib (suc (suc k)) ≡ int_or_none (fibonacci (suc k)).0)
unfolding fib fib_from
fib-fibonacci k =
    let same : k + 0 ≡ k = omega arith in
    (
      refl,
      refl,
      fib_from-fibonacci k 2 0 (omega arith) (omega arith)
          ∙ ap (λ v. int_or_none (fibonacci v).1) same,
    )
