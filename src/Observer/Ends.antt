-- ===== src/Observer/Ends.antt =====
-- When the loop of `do_part_D` of 1/observer.c ends.
use linux_homework.Base.{
  ℕ, zero, suc, ◌+◌, ◌*◌, ◌^◌, ◌≤◌, ◌<◌, ◌≡◌, ◌⊎◌, inl, inr, true, none, some, ltb, refl, ap, ◌∙◌,
  arith, Bool-cases,
}
use linux_homework.Text.{pos, add, less_than, is_int}
use linux_homework.Observer.Load.{finished, sample_from, do_part_d}

-- `k` more intervals are the least that reach the duration, if any is needed.
abbrev pub Reaches : (it interval duration k : ℕ) → Type 0
Reaches it interval duration k =
    (duration ≤ it + interval * (k + 1)) × ((k ≡ 0) ⊎ (it + interval * k < duration))

sample_from-finishes :
    (fuel it i d n : ℕ)
    → suc i + d < 2 ^ 31
    → it ≤ d
    → d < it + fuel
    → (k : ℕ) × (sample_from fuel (pos it) (pos (suc i)) (pos d) n ≡ some (finished (n + k)))
      × Reaches it (suc i) d k
unfolding sample_from add less_than is_int
sample_from-finishes zero it i d n small before enough = absurd (omega (arith, before, enough))
sample_from-finishes (suc fuel) it i d n small before enough =
    let holds : ltb (it + suc i) (2 ^ 31) ≡ true = ground (arith, small, before) in
    elim (Bool-cases (ltb (it + suc i) d)) [
      | inr over ↦ (
        0,
        rw (sample_from, holds, over) (ap (λ j. some (finished j)) (omega arith)),
        (ground (arith, over), inl refl),
      )
      | inl more ↦
          let (k, at_end, (reached, first)) =
            sample_from-finishes fuel (it + suc i) i d (n + 1) small (ground (arith, more))
              (omega (arith, enough)) in
          (
            suc k,
            rw (sample_from, holds, more) (at_end ∙ ap (λ j. some (finished j)) (omega arith)),
            (
              omega (arith, reached),
              inr (elim first [
                | inl start ↦ ground (arith, start, more)
                | inr below ↦ omega (arith, below)
              ]),
            ),
          )
    ]

-- For an interval that is not 0 and whose sum with the duration an `int` can hold, part D samples
-- the load, and then again at the end of each interval that ends before the duration does, and
-- returns: as many steps as the duration has seconds, and one, are enough.
pub do_part_d-finishes :
    (i d : ℕ)
    → suc i + d < 2 ^ 31
    → (k : ℕ) × (do_part_d (suc d) (pos (suc i)) (pos d) ≡ some (finished (suc k)))
      × Reaches 0 (suc i) d k
unfolding do_part_d
do_part_d-finishes i d small =
    let (k, at_end, reached) =
      sample_from-finishes (suc d) 0 i d 1 small (omega arith) (omega arith) in
    (k, at_end ∙ ap (λ j. some (finished j)) (omega arith), reached)

sample_from-goes_on :
    (fuel it d n : ℕ) → it < d → d < 2 ^ 31 → sample_from fuel (pos it) (pos 0) (pos d) n ≡ none
unfolding sample_from add less_than is_int
sample_from-goes_on zero it d n before small = refl
sample_from-goes_on (suc fuel) it d n before small =
    let holds : ltb (it + 0) (2 ^ 31) ≡ true = ground (arith, before, small) in
    let more : ltb (it + 0) d ≡ true = ground (arith, before) in
    rw (sample_from, holds, more)
      (sample_from-goes_on fuel (it + 0) d (n + 1) (omega (arith, before)) small)

-- For the interval 0 and a duration above 0 part D never returns.
pub do_part_d-goes_on : (fuel d : ℕ) → 0 < d → d < 2 ^ 31 → do_part_d fuel (pos 0) (pos d) ≡ none
unfolding do_part_d
do_part_d-goes_on fuel d some_time small = sample_from-goes_on fuel 0 d 1 some_time small
