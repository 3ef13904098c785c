-- ===== src/Observer/Versions.antt =====
-- The first version of the observer against 1/observer.c.
use linux_homework.Base.{
  ℕ, zero, suc, ◌+◌, ◌^◌, ◌<◌, ◌≡◌, inl, inr, Bool, true, false, none, some, List, [], ◌∷◌, ◌==◌,
  ◌&&◌, refl, ap, arith, Bool-cases, Option, ◌∙◌,
}
use linux_homework.Observer.Ends.{Reaches, do_part_d-finishes}
use linux_homework.Observer.First as First
use linux_homework.Observer.Load.{Samples, finished, overflows, sample_from, do_part_d}
use linux_homework.Observer.Uptime
use linux_homework.Observer.Uptime.{
  TimeReport, cannot_open, empty, null_token, printed, sample_time,
}
use linux_homework.Observer.{char_at, main}
use linux_homework.Text.{Text, ℤ, pos, add, less_than, is_int, fgets_all, strtok_all}

-- A report of 1/observer.c without its last line.
abbrev pub forget : TimeReport → First.TimeReport
forget cannot_open = First.cannot_open
forget empty = First.empty
forget null_token = First.null_token
forget (printed t) = First.printed (record {
  uptime = t.uptime;
  idletime = t.idletime;
  diff = t.diff;
  running = t.running;
  idle = t.idle;
})

of_words-forget :
    (now : ℕ) (ws : List Text) → First.of_words now ws ≡ forget (Uptime.of_words now ws)
of_words-forget now [] = refl
of_words-forget now (u ∷ []) = refl
of_words-forget now (u ∷ i ∷ ws) = refl

of_lines-forget :
    (now : ℕ) (ls : List Text) → First.of_lines now ls ≡ forget (Uptime.of_lines now ls)
of_lines-forget now [] = refl
of_lines-forget now (l ∷ ls) = of_words-forget now (strtok_all l)

sample_time-forget :
    (file : Option Text) (now : ℕ) → First.sample_time file now ≡ forget (sample_time file now)
unfolding First.sample_time sample_time
sample_time-forget none now = refl
sample_time-forget (some f) now = of_lines-forget now (fgets_all 80 f)

-- One sample more.
abbrev pub again : Samples → Samples
again (finished n) = finished (n + 1)
again (overflows n) = overflows (n + 1)

abbrev again_if : Option Samples → Option Samples
again_if none = none
again_if (some x) = some (again x)

-- While time is left, the loop that samples first is one step ahead of the one that counts first.
sample_while-again :
    (fuel : ℕ) (it i d : ℤ) (n : ℕ) (x : Samples)
    → less_than it d ≡ true
    → sample_from fuel it i d n ≡ some x
    → First.sample_while (suc fuel) it i d n ≡ some (again x)
unfolding sample_from First.sample_while
sample_while-again zero it i d n x more e = cc
sample_while-again (suc fuel) it i d n x more e = elim (Bool-cases (is_int (add it i))) [
  | inr over ↦ rw (First.sample_while, more, over) (ap again_if (rw (sample_from, over) at e))
  | inl holds ↦ elim (Bool-cases (less_than (add it i) d)) [
    | inr ended ↦
        rw (First.sample_while, more, holds, ended)
          (ap again_if (rw (sample_from, holds, ended) at e))
    | inl going ↦
        rw (First.sample_while, more, holds)
          (sample_while-again fuel (add it i) i d (n + 1) x going
            (rw (sample_from, holds, going) at e))
  ]
]

-- `-` alone.
abbrev pub alone : List Text → Bool
alone [] = false
alone (prog ∷ []) = false
alone (prog ∷ a ∷ rest) = char_at 0 a == 45 && char_at 1 a == 0

part-main : (argv : List Text) → alone argv ≡ false → First.part argv ≡ main argv
unfolding First.part main
part-main [] h = refl
part-main (prog ∷ []) h = refl
part-main (prog ∷ a ∷ rest) h = ground (arith, h)

-- For arguments other than `-` alone, the first version of the observer chooses the part that the
-- later one does. Its times are the same but for their quotient, which it does not print. With an
-- interval and a duration that are positive and whose sum an `int` can hold, part D ends in both
-- versions, after as many steps as the duration has seconds and one, or two: the first version has
-- sampled once more than the later one, which samples at each end of an interval in the duration.
pub parts-Later :
    (argv : List Text) (file : Option Text) (now i d : ℕ)
    → alone argv ≡ false
    → 0 < d
    → suc i + d < 2 ^ 31
    → (First.part argv ≡ main argv)
      × (First.sample_time file now ≡ forget (sample_time file now))
      × ((k : ℕ) × Reaches 0 (suc i) d k
          × (do_part_d (suc d) (pos (suc i)) (pos d) ≡ some (finished (suc k)))
          × (First.do_part_d (suc (suc d)) (pos (suc i)) (pos d) ≡ some (finished (suc (suc k)))))
unfolding First.do_part_d do_part_d less_than
parts-Later argv file now i d h some_time small =
    let (k, ended, reached) = do_part_d-finishes i d small in
    let more : less_than (pos 0) (pos d) ≡ true = ground (arith, some_time) in
    (
      part-main argv h,
      sample_time-forget file now,
      (
        k,
        reached,
        ended,
        sample_while-again (suc d) (pos 0) (pos (suc i)) (pos d) 1 (finished (suc k)) more ended
            ∙ ap (λ j. some (finished j)) (omega arith),
      ),
    )
