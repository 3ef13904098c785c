-- ===== src/Snippt/Tests.antt =====
-- Runs of 6/kernel/snippt2.c, and its theorems on a list of two events.
use linux_homework.Base.{
  ℕ, ◌+◌, length, ◌≡◌, none, some, [], ◌∷◌, arith, refl, List, if◌then◌else◌, ◌==◌,
}
use linux_homework.Event.{
  Myevent, Kernel, Run, ok, out_of_fuel, fault, load, store, write, find_from, scheventnum,
}
use linux_homework.Event.Chain.{IsQueue}
use linux_homework.Event.Semaphore.{Op, wait, signal, signals}
use linux_homework.Snippt.{wait_on, sys_myevent_wait, signal_on, sys_myevent_signal}
use linux_homework.Snippt.Session.{Sells, sale, session, session-Oversold}

-- Event 2 at the address 10, on which 7 sleeps, and event 4 at 11.
abbrev first : Myevent
first = record { event_num = 2; value = 0; queue = 7 ∷ []; next = 11 }

abbrev last : Myevent
last = record { event_num = 4; value = 1; queue = []; next = 0 }

abbrev two : Kernel
two = record {
  cell = λ p. if p == 10 then some first else if p == 11 then some last else none;
  head = 10;
  end = 11;
}

two-IsQueue : IsQueue two ((10, first) ∷ (11, last) ∷ [])
two-IsQueue = record {
  head = refl;
  end = refl;
  chain = (ground arith, refl, refl, refl, (ground arith, refl, refl, refl, tt));
}

-- One signal lets the sleepers 7 and 8 through, and then 9 with the unit that it gave.
abbrev calls : List Op
calls = wait 8 ∷ signal ∷ wait 9 ∷ []

session-Oversold_example :
    Sells 3 2 [] 10
      ((11, last) ∷ [])
      refl
      (omega arith)
      first
      two
      (session 3 2 calls)
      (sale 0 (7 ∷ []) calls)
    × ((sale 0 (7 ∷ []) calls).value + length (sale 0 (7 ∷ []) calls).own ≡ 0 + signals calls)
session-Oversold_example =
    session-Oversold 3 2 [] 10 ((11, last) ∷ []) refl (omega arith) first calls two-IsQueue refl
      (omega arith)

passed : Run (List ℕ × List ℕ) → List ℕ × List ℕ
passed (ok xs s) = xs
passed fault = ([], [])
passed out_of_fuel = ([], [])

session_run : passed (session 3 2 calls two) ≡ (9 ∷ [], 8 ∷ 7 ∷ [])
unfolding passed session sys_myevent_wait sys_myevent_signal wait_on signal_on scheventnum find_from
    load store write
session_run = refl
