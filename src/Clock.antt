-- ===== src/Clock.antt =====
-- 3/clock.c and 3/mygettimeofday.c: a child process whose timer is to go off every microsecond,
-- and what its handler counts. An int and a `time_t` have 32 bits.
pub mod Ticks
mod Tests
use linux_homework.Base.{
  ℕ, zero, suc, ◌+◌, ◌%◌, ◌^◌, Bool, true, false, ◌||◌, List, [], ◌∷◌, if◌then◌else◌, ◌==◌,
}

-- `tv` of clock.c, from the `gettimeofday` of `mygettimeofday` on.
pub record Timeval : Type 0 where
  pub tv_sec : ℕ
  pub tv_usec : ℕ

-- `handle` of clock.c.
unfoldable pub advance : Timeval → Timeval
advance t =
    if t.tv_usec == 999999
    then record { tv_sec = (t.tv_sec + 1) % 2 ^ 32; tv_usec = 0 }
    else record { tv_sec = t.tv_sec; tv_usec = t.tv_usec + 1 }

unfoldable pub advances : ℕ → Timeval → Timeval
advances zero t = t
advances (suc n) t = advances n (advance t)

-- The variables of the child of mygettimeofday.c.
pub record Passed : Type 0 where
  pub passed_sec : ℕ
  pub count : ℕ
  pub passed_usec : ℕ

-- `handle` of mygettimeofday.c: the variables, and whether it sends the parent a signal.
unfoldable pub tick : Passed → Passed × Bool
tick p =
    if p.count + 1 == 100000
    then (record { passed_sec = (p.passed_sec + 1) % 2 ^ 32; count = 0; passed_usec = 0 }, true)
    else (record p { count = p.count + 1; passed_usec = p.passed_usec + 1 }, false)

-- The child, whether a signal to the parent is pending, which a second one does not change, and
-- `main_sec` of the parent.
pub record Processes : Type 0 where
  pub child : Passed
  pub pending : Bool
  pub main_sec : ℕ

abbrev pub started : Processes
started = record {
  child = record { passed_sec = 0; count = 0; passed_usec = 0 };
  pending = false;
  main_sec = 0;
}

-- `action_1s`
abbrev pub action_1s : ℕ → ℕ
action_1s main_sec = (main_sec + 1) % 2 ^ 32

-- The timer of the child goes off, or the parent gets a chance to handle its signal.
pub data Event : Type 0 where
  expires delivers : Event

unfoldable pub step : Event → Processes → Processes
unfolding tick
step expires s = record s { child = (tick s.child).0; pending = s.pending || (tick s.child).1 }
step delivers s =
    if s.pending then record s { pending = false; main_sec = action_1s s.main_sec } else s

unfoldable pub run : List Event → Processes → Processes
unfolding step
run [] s = s
run (e ∷ es) s = run es (step e s)
