-- ===== src/Timer.antt =====
-- 3/mytimer.c: three processes that each compute a Fibonacci number and report how long they took
-- by three interval timers. A timer's signals come in any order, as lists; what `getitimer` finds
-- left on a timer is a parameter. A long has 32 bits, as in the program that is built.
pub mod Report
mod Tests
use linux_homework.Base.{
  ℕ, zero, suc, ◌+◌, ◌-◌, ◌*◌, ◌%◌, ◌^◌, Bool, true, false, ◌&&◌, Option, none, some, List, [], ◌∷◌,
  ◌++◌, ltb, if◌then◌else◌, length, get_elem?, ◌>>=◌,
}

pub data Process : Type 0 where
  parent child1 child2 : Process

pub data Which : Type 0 where
  real virtual prof : Which

abbrev pub same_process : Process → Process → Bool
same_process parent parent = true
same_process child1 child1 = true
same_process child2 child2 = true
same_process p q = false

abbrev pub same_timer : Which → Which → Bool
same_timer real real = true
same_timer virtual virtual = true
same_timer prof prof = true
same_timer v w = false

-- `struct itimerval`
pub record Itimerval : Type 0 where
  pub interval_sec : ℕ
  pub interval_usec : ℕ
  pub value_sec : ℕ
  pub value_usec : ℕ

-- What every process sets every timer to.
abbrev pub setting : Itimerval
setting = record { interval_sec = 9; interval_usec = 999999; value_sec = 9; value_usec = 999999 }

-- The variables of a process: the seconds of all nine timers (`p_real_secs` to `c2_prof_secs`), and
-- `count_real`, `count_virt` and `count_prof`.
pub record Memory : Type 0 where
  pub secs : Process → Which → ℕ
  pub count : Which → ℕ

abbrev pub zeroed : Memory
zeroed = record { secs = λ p w. 0; count = λ w. 0 }

-- The nine handlers, `psig_real` to `c2sig_prof`.
unfoldable pub handler : Process → Which → Memory → Memory
handler p w m = record {
  secs = λ q v. if same_process q p && same_timer v w then m.secs q v + 10 else m.secs q v;
  count = λ v. if same_timer v w then m.count v + 1 else m.count v;
}

-- The signals that a process gets, in order.
unfoldable pub signals : Process → List Which → Memory → Memory
signals p [] m = m
signals p (w ∷ ws) m = signals p ws (handler p w m)

unfoldable pub fibonacci : ℕ → ℕ
fibonacci zero = 0
fibonacci (suc zero) = 1
fibonacci (suc (suc n)) = (fibonacci (suc n) + fibonacci n) % 2 ^ 32

-- The seconds and microseconds printed for a timer, on which `left` is left.
unfoldable pub report : Process → Which → Memory → (left : Itimerval) → ℕ × ℕ
report p w m left = (m.secs p w + 9 - left.value_sec, 999999 - left.value_usec)

-- What a process does: what it sets its timers to, and what it prints.
pub record Printed : Type 0 where
  pub set : Which → Itimerval
  pub fib : ℕ
  pub times : Which → ℕ × ℕ

-- A process from its calls of `setitimer` on, and its `fibonacci(atoi(argv[i]))`: its variables,
-- the signals that it gets and what is left on its timers; `none` if there is no argument.
unfoldable pub run :
    Process → ℕ → List ℕ → Memory → List Which → (Which → Itimerval) → Option Printed
run p i argv m ws left = elim (get_elem? argv i) [
  | none ↦ none
  | some n ↦ some (record {
    set = λ w. setting;
    fib = fibonacci n;
    times = λ w. report p w (signals p ws m) (left w);
  })
]

-- The signals of the parent before the first and the second `fork` and behind them, and those of
-- the children.
pub record Signals : Type 0 where
  pub before_fork1 : List Which
  pub before_fork2 : List Which
  pub of_parent : List Which
  pub of_child1 : List Which
  pub of_child2 : List Which

-- `main`: the usage, or what the processes print, `none` for one that has no argument. `argv`
-- holds the arguments as `atoi` reads them, the program's name first.
pub data Outcome : Type 0 where
  usage : Outcome
  ran : (Process → Option Printed) → Outcome

unfoldable pub main : List ℕ → Signals → (left : Process → Which → Itimerval) → Outcome
main argv s left =
    let at_fork1 = signals parent s.before_fork1 zeroed in
    let at_fork2 = signals parent s.before_fork2 at_fork1 in
    if ltb (length argv) 3
    then usage
    else ran (λ p. elim p [
      | parent ↦ run parent 3 argv at_fork2 s.of_parent (left parent)
      | child1 ↦ run child1 1 argv at_fork1 s.of_child1 (left child1)
      | child2 ↦ run child2 2 argv at_fork2 s.of_child2 (left child2)
    ])
