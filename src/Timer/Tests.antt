-- ===== src/Timer/Tests.antt =====
-- Runs of 3/mytimer.c, and its theorem at one of them.
use linux_homework.Base.{◌≡◌, none, [], ◌∷◌, refl}
use linux_homework.Timer.{
  parent, real, virtual, prof, Itimerval, zeroed, handler, signals, report, run, Signals, usage,
  main,
}
use linux_homework.Timer.Report.{printed}

-- Half a second is left on every timer.
abbrev half : Itimerval
half = record { interval_sec = 9; interval_usec = 999999; value_sec = 0; value_usec = 500000 }

-- The parent's real timer goes off twice, the second child's virtual one once.
abbrev some_signals : Signals
some_signals = record {
  before_fork1 = [];
  before_fork2 = real ∷ [];
  of_parent = prof ∷ real ∷ [];
  of_child1 = [];
  of_child2 = virtual ∷ [];
}

report_run :
    report parent real (signals parent (real ∷ prof ∷ real ∷ []) zeroed) half ≡ (29, 499999)
unfolding report signals handler
report_run = refl

-- With two arguments the program starts all the same, and the parent has none to compute.
missing_run : printed (main (0 ∷ 10 ∷ 11 ∷ []) some_signals (λ p w. half)) parent ≡ none
unfolding main run
missing_run = refl

few_run : main (0 ∷ 10 ∷ []) some_signals (λ p w. half) ≡ usage
unfolding main
few_run = refl
