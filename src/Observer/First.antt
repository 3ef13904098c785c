-- ===== src/Observer/First.antt =====
-- 1/observer.v1.c, the first version of the observer: the choice of a part, `sampleTime`, and the
-- loop of part D, which samples before it counts.
use linux_homework.Base.{
  ℕ, zero, suc, ◌+◌, true, false, List, [], ◌∷◌, ◌==◌, if◌then◌else◌, Option, none, some,
}
use linux_homework.Text.{Text, ℤ, pos, add, less_than, is_int, fgets_all, strtok_all, atol}
use linux_homework.Observer.Load.{Samples, finished, overflows}
use linux_homework.Observer.Uptime.{Split, split, started}
use linux_homework.Observer.{lb_size, Part, part_a, usage, nothing, char_at, part_of}

-- What `sampleTime` prints.
pub record Times : Type 0 where
  pub uptime : ℤ
  pub idletime : ℤ
  pub diff : ℤ
  pub running : Split
  pub idle : Split

pub data TimeReport : Type 0 where
  cannot_open empty null_token : TimeReport
  printed : Times → TimeReport

abbrev pub report : (now : ℕ) → (uptime idletime : ℤ) → Times
report now uptime idletime = record {
  uptime = uptime;
  idletime = idletime;
  diff = started now uptime;
  running = split uptime;
  idle = split idletime;
}

abbrev pub of_words : ℕ → List Text → TimeReport
of_words now (u ∷ i ∷ ws) = printed (report now (atol u) (atol i))
of_words now ws = null_token

abbrev pub of_lines : ℕ → List Text → TimeReport
of_lines now [] = empty
of_lines now (l ∷ ls) = of_words now (strtok_all l)

unfoldable pub sample_time : Option Text → (now : ℕ) → TimeReport
sample_time none now = cannot_open
sample_time (some file) now = of_lines now (fgets_all lb_size file)

-- The loop of part D, with `n` samples taken.
unfoldable pub sample_while :
    (fuel : ℕ) → (iteration interval duration : ℤ) → (n : ℕ) → Option Samples
sample_while zero iteration interval duration n = none
sample_while (suc fuel) iteration interval duration n =
    let next = add iteration interval in
    elim (less_than iteration duration) [
      | false ↦ some (finished n)
      | true ↦ elim (is_int next) [
        | false ↦ some (overflows (n + 1))
        | true ↦ sample_while fuel next interval duration (n + 1)
      ]
    ]

unfoldable pub do_part_d : (fuel : ℕ) → (interval duration : ℤ) → Option Samples
unfolding sample_while
do_part_d fuel interval duration = sample_while fuel (pos 0) interval duration 1

-- Which part the arguments ask for: of `argv[1]` only the first character is tested.
unfoldable pub part : (argv : List Text) → Part
part [] = nothing
part (prog ∷ []) = part_a
part (prog ∷ a ∷ rest) = if char_at 0 a == 45 then part_of (char_at 1 a) rest else usage
