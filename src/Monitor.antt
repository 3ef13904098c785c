-- ===== src/Monitor.antt =====
-- 3/inter_moniter.c: three interval timers whose handlers print how many interrupts there were
-- since the last time. A handler opens /proc/stat, reads it into the variable that all share,
-- prints and saves; a signal of another timer can come between. The file is a text, `none` if it
-- cannot be opened.
pub mod Sums
pub mod Debug
mod Tests
use linux_homework.Base.{
  ℕ, zero, suc, ◌+◌, Bool, true, false, ◌&&◌, List, [], ◌∷◌, ◌++◌, ltb, ◌==◌, if◌then◌else◌, Option,
  none, some, length, drop,
}
use linux_homework.Text.{Text, ℤ, pos, negsuc, starts_with, fgets_all, atoi, atol, sub}

pub data Which : Type 0 where
  real virt prof : Which

abbrev pub same : Which → Which → Bool
same real real = true
same virt virt = true
same prof prof = true
same v w = false

-- `read_intr`: an exit without the file, the number behind `intr` and a character, -1 without such
-- a line; or a number behind the end of the line.
pub data Read : Type 0 where
  no_file behind_line : Read
  number : ℤ → Read

abbrev pub intr : Text
intr = 105 ∷ 110 ∷ 116 ∷ 114 ∷ []

unfoldable pub read_lines : List Text → Read
read_lines [] = number (negsuc 0)
read_lines (l ∷ ls) = elim (starts_with intr l) [
  | true ↦ if ltb (length l) 5 then behind_line else number (atoi (drop 5 l))
  | false ↦ read_lines ls
]

-- `read_intr` without a handler that comes between.
unfoldable pub read_intr : Option Text → Read
unfolding read_lines
read_intr none = no_file
read_intr (some file) = read_lines (fgets_all 2047 file)

-- `cur_intr`, and `old_intr_real`, `old_intr_virt` and `old_intr_prof`; and what `procFile` has to
-- read, `none` where it is closed.
pub record State : Type 0 where
  pub proc_file : Option Text
  pub cur : ℤ
  pub old : Which → ℤ

-- The steps of `sigh_real`, `sigh_virt` and `sigh_prof`: the `fopen` of `read_intr`, its reading
-- and `fclose` with the test of `cur_intr`, the `printf`, and the assignment to the handler's own
-- variable. A handler that comes between the lines closes the file of the one it interrupts, as if
-- it had come before the first line.
pub data Event : Type 0 where
  opens : Which → Option Text → Event
  reads prints saves : Which → Event

-- A number that a handler prints, the first of the three.
abbrev pub Printed : Type 0
Printed = List (Which × ℤ)

-- How a sequence of steps ends: the program still runs, or it has exited, or it has read behind a
-- line or from a closed file.
pub data Ran : Type 0 where
  running : Printed → State → Ran
  exited astray : Printed → Ran

abbrev pub is_failed : ℤ → Bool
is_failed (pos n) = false
is_failed (negsuc n) = n == 0

abbrev pub save : Which → State → State
save w s = record {
  proc_file = s.proc_file;
  cur = s.cur;
  old = λ v. if same v w then s.cur else s.old v;
}

unfoldable pub also : Which × ℤ → Ran → Ran
also p (running ps s) = running (p ∷ ps) s
also p (exited ps) = exited (p ∷ ps)
also p (astray ps) = astray (p ∷ ps)

unfoldable pub run : List Event → State → Ran
unfolding also read_lines sub
run [] s = running [] s
run (opens w none ∷ es) s = exited []
run (opens w (some file) ∷ es) s = run es (record s { proc_file = some file })
run (reads w ∷ es) s = elim s.proc_file [
  | none ↦ astray []
  | some file ↦ elim (read_lines (fgets_all 2047 file)) [
    | no_file ↦ exited []
    | behind_line ↦ astray []
    | number n ↦ elim (is_failed n) [
      | true ↦ exited []
      | false ↦ run es (record { proc_file = none; cur = n; old = s.old })
    ]
  ]
]
run (prints w ∷ es) s = also (w, sub s.cur (s.old w)) (run es s)
run (saves w ∷ es) s = run es (save w s)

-- `main` up to its loop: the usage, an exit, or the state and the timers' intervals in seconds and
-- microseconds; each timer's first value is (0, 1250), whatever the arguments.
pub data Started : Type 0 where
  usage exits strays : Started
  started : State → (interval value : ℤ × ℤ) → Started

abbrev pub read_first : Read → (interval : ℤ × ℤ) → Started
read_first no_file interval = exits
read_first behind_line interval = strays
read_first (number n) interval =
    started (record { proc_file = none; cur = n; old = λ w. n }) interval (pos 0, pos 1250)

unfoldable pub main : (argv : List Text) → Option Text → Started
unfolding read_intr
main [] file = read_first (read_intr file) (pos 0, pos 1250)
main (prog ∷ []) file = read_first (read_intr file) (pos 0, pos 1250)
main (prog ∷ sec ∷ usec ∷ []) file = read_first (read_intr file) (atol sec, atol usec)
main (prog ∷ sec ∷ argv) file = usage
