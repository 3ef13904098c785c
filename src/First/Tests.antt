-- ===== src/First/Tests.antt =====
-- Runs of 6/kernel/myevent.c, and its theorem on a list of two events.
use linux_homework.Base.{ℕ, ◌≡◌, none, some, [], ◌∷◌, ◌++◌, arith, refl, List, if◌then◌else◌, ◌==◌}
use linux_homework.Event.Chain.{IsQueue}
use linux_homework.Event.Semaphore.{Op, wait, signal}
use linux_homework.Event.{
  Myevent, Kernel, Run, ok, fault, out_of_fuel, load, store, kfree, write, find_from, scheventnum,
  unlink,
}
use linux_homework.First.Lost.{session, asleep, woken_by, Leaves, session-Leaves}
use linux_homework.First.{sys_myevent_signal, sys_myevent_close}

-- Event 2 at the address 10, on which 7 sleeps, and event 4 at 11.
abbrev first : Myevent
first = record { event_num = 2; value = 0; queue = 7 ∷ []; next = 11 }

abbrev last : Myevent
last = record { event_num = 4; value = 0; queue = 5 ∷ []; next = 0 }

abbrev two : Kernel
two = record {
  cell = λ p. if p == 10 then some first else if p == 11 then some last else none;
  head = 10;
  end = 11;
}

two-IsQueue : IsQueue two ((10, first) ∷ (11, last) ∷ [])
two-IsQueue = record {
  head = refl;
  end = refl;
  chain = (ground arith, refl, refl, refl, (ground arith, refl, refl, refl, tt));
}

-- The second signal finds nobody, and is lost for 9.
abbrev calls : List Op
calls = wait 8 ∷ signal ∷ signal ∷ []

session-Leaves_example :
    Leaves 3 2 [] 10
      ((11, last) ∷ [])
      refl
      (omega arith)
      two
      first
      (session 3 2 calls)
      (woken_by (7 ∷ []) calls)
      (asleep (7 ∷ []) calls)
    × Leaves 3 2 [] 10
        ((11, last) ∷ [])
        refl
        (omega arith)
        two
        first
        (session 3 2 (calls ++ wait 9 ∷ []))
        (woken_by (7 ∷ []) (calls ++ wait 9 ∷ []))
        (9 ∷ asleep (7 ∷ []) calls)
session-Leaves_example =
    session-Leaves 3 2 [] 10 ((11, last) ∷ []) refl (omega arith) first calls 9 two-IsQueue refl

woken_pids : Run (ℕ × List ℕ) → List ℕ
woken_pids (ok (r, ps) s) = ps
woken_pids fault = []
woken_pids out_of_fuel = []

-- Closing the first event leaves its sleeper on a freed queue; closing the last one wakes its
-- sleeper, as it can still be found.
close_runs :
    (woken_pids (sys_myevent_close 3 2 two) ≡ [])
    × (woken_pids (sys_myevent_close 3 4 two) ≡ 5 ∷ [])
unfolding sys_myevent_close sys_myevent_signal scheventnum find_from load store kfree write unlink
    woken_pids
close_runs = (refl, refl)
