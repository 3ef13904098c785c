-- ===== src/Clock/Tests.antt =====
-- Runs of the handlers of 3/clock.c and 3/mygettimeofday.c, and their theorem at one of them.
use linux_homework.Base.{◌+◌, ◌<◌, ◌≡◌, true, [], ◌∷◌, refl, arith}
use linux_homework.Clock.{Timeval, advance, advances, started, expires, delivers, step, run}
use linux_homework.Clock.Ticks.{usecs, InStep, Behind, Even, prompt, signals-count}

abbrev late : Timeval
late = record { tv_sec = 5; tv_usec = 999999 }

signals-count_example :
    ((usecs (advances 2 late) ≡ usecs late + 2) × ((advances 2 late).tv_usec < 1000000))
    × (InStep (run (expires ∷ delivers ∷ expires ∷ []) started).child 2
        × Behind (run (expires ∷ delivers ∷ expires ∷ []) started))
    × Even (run (prompt 2) started)
signals-count_example =
    signals-count 2 late (expires ∷ delivers ∷ expires ∷ []) (omega arith) (omega arith)
      (omega arith) (omega arith)

carry_run : advances 2 late ≡ record { tv_sec = 6; tv_usec = 1 }
unfolding advances advance
carry_run = refl

-- Two seconds pass before the parent handles a signal: it counts one.
merged_run : (run (delivers ∷ delivers ∷ []) (record started { pending = true })).main_sec ≡ 1
unfolding run step
merged_run = refl
