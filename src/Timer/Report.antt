-- ===== src/Timer/Report.antt =====
-- The times that 3/mytimer.c prints, against those that have passed.
use linux_homework.Base.{
  ℕ, zero, suc, ◌+◌, ◌-◌, ◌*◌, ◌%◌, ◌^◌, ◌≤◌, ◌<◌, ◌≡◌, Option, none, some, List, [], ◌∷◌,
  if◌then◌else◌,
}
use linux_homework.Fibnocci
use linux_homework.Timer.{
  Process, parent, child1, child2, Which, same_timer, Itimerval, setting, Memory, zeroed, signals,
  fibonacci, Printed, Signals, Outcome, usage, ran,
}

-- How often a timer goes off.
abbrev pub times_of : Which → List Which → ℕ
times_of w [] = 0
times_of w (v ∷ ws) = (if same_timer w v then 1 else 0) + times_of w ws

abbrev pub usecs : ℕ × ℕ → ℕ
usecs (s, u) = 1000000 * s + u

abbrev pub left_usecs : Itimerval → ℕ
left_usecs l = usecs (l.value_sec, l.value_usec)

-- How many microseconds a timer set so runs for until it goes off, and then between two times.
abbrev pub first_usecs : Itimerval → ℕ
first_usecs set = usecs (set.value_sec, set.value_usec)

abbrev pub period : Itimerval → ℕ
period set = usecs (set.interval_sec, set.interval_usec)

-- What a timer has run for, after it went off so many times and with `l` left on it.
abbrev pub elapsed : (set : Itimerval) → ℕ → (l : Itimerval) → ℕ
elapsed set zero l = first_usecs set - left_usecs l
elapsed set (suc k) l = first_usecs set + period set * k + (period set - left_usecs l)

-- What `getitimer` can find: no more than the timer was set to, and less than a second of
-- microseconds.
abbrev pub IsLeft : (set l : Itimerval) → Type 0
IsLeft set l =
    (left_usecs l ≤ first_usecs set) × (left_usecs l ≤ period set) × (l.value_usec < 1000000)

abbrev pub printed : Outcome → Process → Option Printed
printed usage p = none
printed (ran f) p = f p

-- The number that a process is to compute, and how often its timers go off: the parent has its
-- signals from the start on, the children from their `fork` on.
abbrev pub argument : (a b c : ℕ) → Process → ℕ
argument a b c parent = c
argument a b c child1 = a
argument a b c child2 = b

abbrev pub expiries : Signals → Process → Which → ℕ
expiries s parent w = times_of w s.before_fork1 + times_of w s.before_fork2 + times_of w s.of_parent
expiries s child1 w = times_of w s.of_child1
expiries s child2 w = times_of w s.of_child2

abbrev pub Prints :
    (fib : ℕ) → (expired : Which → ℕ) → (left : Which → Itimerval) → Option Printed → Type 0
Prints n expired left o =
    (r : Printed) × (o ≡ some r)
    × (r.fib ≡ (Fibnocci.fibonacci n).0 % 2 ^ 32)
    × ((w : Which) → usecs (r.times w) ≡ elapsed (r.set w) (expired w) (left w) + expired w)

module _ (prog a b c : ℕ) (s : Signals) (left : Process → Which → Itimerval)
    (can_be_left : (p : Process) (w : Which) → IsLeft setting (left p w)) where
  at_fork1 : Memory
  at_fork1 = signals parent s.before_fork1 zeroed

  at_fork2 : Memory
  at_fork2 = signals parent s.before_fork2 at_fork1

  ended : Memory
  ended = signals parent s.of_parent at_fork2
