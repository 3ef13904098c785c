-- ===== src/Monitor/Tests.antt =====
-- Runs of 3/inter_moniter.c, and its theorem at one of them.
use linux_homework.Base.{◌≡◌, none, some, List, [], ◌∷◌, refl, arith}
use linux_homework.Text.{
  Text, pos, starts_with, fgets_all, fgets_from, atoi, atol, digits_from, skip_spaces, add,
  opposite, sub,
}
use linux_homework.Monitor.{
  Which, real, virt, read_lines, State, Event, opens, reads, prints, saves, Printed, Ran, running,
  exited, astray, run, also, usage, main,
}
use linux_homework.Monitor.Sums.{Stat, text, Proper, Tells, Block, read, report, run-Sums}

-- `intr 7` and `intr 9`
abbrev seven : Text
seven = 105 ∷ 110 ∷ 116 ∷ 114 ∷ 32 ∷ 55 ∷ 10 ∷ []

abbrev nine : Text
nine = 105 ∷ 110 ∷ 116 ∷ 114 ∷ 32 ∷ 57 ∷ 10 ∷ []

abbrev zeroed : State
zeroed = record { proc_file = none; cur = pos 0; old = λ w. pos 0 }

-- The second file as the kernel writes it, with another number behind.
abbrev nine_stat : Stat
nine_stat = record {
  before = (99 ∷ 112 ∷ 117 ∷ []) ∷ [];
  first = 57;
  digits = [];
  others = (52 ∷ []) ∷ [];
  behind = [];
}

nine_stat-Proper : Proper nine_stat
unfolding starts_with
nine_stat-Proper = record {
  quiet = (refl, tt);
  fit = (
    (refl, (refl, (refl, tt))),
    omega arith,
    ((refl, (refl, (refl, (refl, (refl, (refl, (refl, (refl, tt)))))))), omega arith, tt),
  );
  digit = refl;
  digits = tt;
  small = omega arith;
}

-- The virtual timer's handler runs before the real timer's prints.
abbrev nested : List Block
nested = read real nine_stat ∷ read virt nine_stat ∷ report virt ∷ report real ∷ []

run-Sums_example :
    Tells zeroed nested
    × ((v w : Which) (f g : Stat) (es : List Event)
        → Proper g
        → run (opens v (some (text f)) ∷ opens w (some (text g)) ∷ reads w ∷ reads v ∷ es) zeroed
          ≡ astray [])
run-Sums_example = run-Sums nested zeroed (nine_stat-Proper, (nine_stat-Proper, tt))

abbrev printed : Ran → Printed
printed (running ps s) = ps
printed (exited ps) = ps
printed (astray ps) = ps

-- The real timer's handler prints 7, but the virtual one's comes before it saves, so that it saves
-- 9: the two interrupts between are never printed.
between_run :
    printed (
      run
        (opens real (some seven)
          ∷ reads real
          ∷ prints real
          ∷ opens virt (some nine)
          ∷ reads virt
          ∷ prints virt
          ∷ saves virt
          ∷ saves real
          ∷ opens real (some nine)
          ∷ reads real
          ∷ prints real
          ∷ [])
        zeroed)
    ≡ (real, pos 7) ∷ (virt, pos 9) ∷ (real, pos 0) ∷ []
unfolding run also read_lines fgets_all fgets_from starts_with atoi atol digits_from skip_spaces sub
    add opposite
between_run = refl

usage_run : main ([] ∷ [] ∷ []) none ≡ usage
unfolding main
usage_run = refl
