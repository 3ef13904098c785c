-- ===== src/Observer/Load.antt =====
-- `sampleLoadAvg` and `do_part_D` of 1/observer.c: the load, and how often it is sampled.
use linux_homework.Base.{
  ℕ, zero, suc, ◌+◌, Bool, true, false, ◌||◌, List, [], ◌∷◌, ◌==◌, Option, none, some,
}
use linux_homework.Text.{Text, ℤ, pos, add, less_than, is_int, fgets_all, strtok}

-- What `sampleLoadAvg` does: without the file it returns; of an empty one it takes apart what the
-- buffer held before; where there are not three words it prints NULL; and else the three.
pub data LoadAvg : Type 0 where
  cannot_open stale null_word : LoadAvg
  shows : (one five fifteen : Text) → LoadAvg

abbrev pub is_blank : ℕ → Bool
is_blank c = c == 32

abbrev pub is_blank_or_slash : ℕ → Bool
is_blank_or_slash c = (c == 32) || (c == 47)

-- `avgs[0]` to `avgs[2]`; the words behind them are not printed.
unfoldable pub three_words : Text → LoadAvg
three_words line = elim (strtok is_blank line) [
  | none ↦ null_word
  | some (one, rest) ↦ elim (strtok is_blank_or_slash rest) [
    | none ↦ null_word
    | some (five, rest') ↦ elim (strtok is_blank_or_slash rest') [
      | none ↦ null_word
      | some (fifteen, rest'') ↦ shows one five fifteen
    ]
  ]
]

abbrev pub first_words : List Text → LoadAvg
first_words [] = stale
first_words (l ∷ ls) = three_words l

unfoldable pub sample_load_avg : Option Text → LoadAvg
unfolding three_words
sample_load_avg none = cannot_open
sample_load_avg (some file) = first_words (fgets_all 80 file)

-- The samples until the loop ends, or until `iteration` leaves what an `int` can hold.
pub data Samples : Type 0 where
  finished overflows : ℕ → Samples

-- The loop with `n` samples taken and `iteration` what it was before `iteration += interval`.
unfoldable pub sample_from :
    (fuel : ℕ) → (iteration interval duration : ℤ) → (n : ℕ) → Option Samples
sample_from zero iteration interval duration n = none
sample_from (suc fuel) iteration interval duration n =
    let next = add iteration interval in
    elim (is_int next) [
      | false ↦ some (overflows n)
      | true ↦ elim (less_than next duration) [
        | false ↦ some (finished n)
        | true ↦ sample_from fuel next interval duration (n + 1)
      ]
    ]

unfoldable pub do_part_d : (fuel : ℕ) → (interval duration : ℤ) → Option Samples
unfolding sample_from
do_part_d fuel interval duration = sample_from fuel (pos 0) interval duration 1
