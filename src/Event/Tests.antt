-- ===== src/Event/Tests.antt =====
-- Runs of the functions of myevent.c, and its theorems at concrete event lists.
use linux_homework.Base.{
  ℕ, ◌≡◌, Option, none, some, [], ◌∷◌, arith, refl, inr, List, false, if◌then◌else◌, ◌==◌,
}
use linux_homework.Event.{
  Ptr, null, Myevent, Kernel, Run, ok, out_of_fuel, ◌>>=◌, fault, sys_myevent_open,
  sys_myevent_wait, sys_myevent_signal, sys_myevent_close, load, store, kfree, write, find_from,
  scheventnum, wait_on, signal_on, unlink, release,
}
use linux_homework.Event.Chain.{Cells, has_num, IsQueue}
use linux_homework.Event.Open.{open_append-IsQueue, appended}
use linux_homework.Event.Close.{freed, bypassed, close-middle}
use linux_homework.Event.Dangling.{dangling, close-last-dangles}
use linux_homework.Event.Semaphore.{Op, wait, signal, session, Serves, session-Served}

abbrev event : ℕ → ℕ → Ptr → Myevent
event num value next = record { event_num = num; value = value; queue = []; next = next }

-- Three events at the addresses 10, 11 and 12.
abbrev memory : Ptr → Option Myevent
memory p =
    if p == 10
    then some (event 2 1 11)
    else if p == 11
    then some (event 4 0 12)
    else if p == 12
    then some (event 6 5 0)
    else none

abbrev three : Kernel
three = record { cell = memory; head = 10; end = 12 }

abbrev cells : Cells
cells = (10, event 2 1 11) ∷ (11, event 4 0 12) ∷ (12, event 6 5 0) ∷ []

abbrev empty : Kernel
empty = record { cell = λ p. none; head = null; end = null }

three-IsQueue : IsQueue three cells
three-IsQueue = record {
  head = refl;
  end = refl;
  chain = (
    ground arith,
    refl,
    refl,
    refl,
    (ground arith, refl, refl, refl, (ground arith, refl, refl, refl, tt)),
  );
}

empty-IsQueue : IsQueue empty []
empty-IsQueue = record { head = refl; end = refl; chain = tt }

-- The theorems at these lists.
open_append-IsQueue_example :
    (sys_myevent_open 1 13 0 7 three ≡ ok 8 (appended three 12 13 (event 6 5 0) 7))
    × IsQueue
        (appended three 12 13 (event 6 5 0) 7)
        ((10, event 2 1 11) ∷ (11, event 4 0 12) ∷ (12, event 6 5 13) ∷ (13, event 8 7 0) ∷ [])
open_append-IsQueue_example =
    open_append-IsQueue 1 13 7 ((10, event 2 1 11) ∷ (11, event 4 0 12) ∷ []) 12 (event 6 5 0)
      three-IsQueue (ground arith) refl

close-middle_example :
    (sys_myevent_close 2 4 three ≡ ok (4, []) (freed (bypassed three 10 (event 2 1 11) 12) 11))
    × IsQueue
        (freed (bypassed three 10 (event 2 1 11) 12) 11)
        ((10, event 2 1 12) ∷ (12, event 6 5 0) ∷ [])
    × ((freed (bypassed three 10 (event 2 1 11) 12) 11).cell 11 ≡ none)
close-middle_example =
    close-middle 2 4 [] 10 (event 2 1 11) 11 (event 4 0 12) 12 (event 6 5 0) [] three-IsQueue refl
      refl (omega arith)

abbrev two : Cells
two = (10, event 2 1 11) ∷ (11, event 4 0 12) ∷ []

close-last-dangles_example :
    (sys_myevent_close 3 6 three ≡ ok (6, []) (dangling three two 12))
    × ((m pid : ℕ)
        → has_num m two ≡ false
        → (sys_myevent_wait 3 pid m (dangling three two 12) ≡ fault)
          × (sys_myevent_signal 3 m (dangling three two 12) ≡ fault)
          × (sys_myevent_close 3 m (dangling three two 12) ≡ fault))
close-last-dangles_example =
    close-last-dangles 3 6 two 12 (event 6 5 0) three-IsQueue refl refl (omega arith)

-- One unit, three waits and a signal: 7 takes the unit, 8 is woken, and 9 still sleeps.
abbrev calls : List Op
calls = wait 7 ∷ wait 8 ∷ wait 9 ∷ signal ∷ []

session-Served_example :
    Serves 4 2 [] 10
      ((11, event 4 0 12) ∷ (12, event 6 5 0) ∷ [])
      refl
      (omega arith)
      (event 2 1 11)
      three
      (session 4 2 calls)
      (7 ∷ 8 ∷ 9 ∷ [])
      1
session-Served_example =
    session-Served 4 2 [] 10 ((11, event 4 0 12) ∷ (12, event 6 5 0) ∷ []) refl (omega arith)
      (event 2 1 11) calls three-IsQueue refl (inr refl) (omega arith)

-- 7 and 8 pass, in that order.
passed : Run (List ℕ) → List ℕ
passed (ok xs s) = xs
passed fault = []
passed out_of_fuel = []

session_run : passed (session 4 2 calls three) ≡ 7 ∷ 8 ∷ []
unfolding passed session sys_myevent_wait sys_myevent_signal wait_on signal_on scheventnum find_from
    load store write
session_run = refl

close_run : (sys_myevent_close 4 6 >>= (λ r. sys_myevent_wait 4 7 8)) three ≡ fault
unfolding sys_myevent_wait scheventnum find_from load write sys_myevent_close unlink release kfree
close_run = refl
