-- ===== src/Shell/Exec/External.antt =====
-- Commands of 2/parseline.c that are not built in, and how `do_simple_cmd` runs them.
use linux_homework.Base.{ℕ, ◌+◌, ◌≡◌, Bool, not, Option, none, some, List, [], ◌∷◌, refl}
use linux_homework.Shell.{Token, Job, Opened, scan_redirect}
use linux_homework.Shell.Lists.{jobs}
use linux_homework.Shell.Exec.{
  Table, Ends, connect_input, connect_output, close_read, close_write, get_cmd_handle, in_child,
  redirected, do_simple_cmd,
}

-- A command that is there and is no built-in one.
abbrev pub External : List Token → Type 0
External [] = ⊥
External (name ∷ rest) = get_cmd_handle name ≡ none

-- The pipes of consecutive commands fit.
abbrev pub Linked : Option ℕ → List Job → Type 0
Linked inp [] = inp ≡ none
Linked inp (j ∷ js) = External j.cmd × Linked j.postfd js

abbrev pub Externals : List (List Token) → Type 0
Externals [] = Unit {0}
Externals (c ∷ cs) = External c × Externals cs

pub jobs-Linked :
    (bg : Bool) (inp : Option ℕ) (n : ℕ) (c : List Token) (cs : List (List Token))
    → External c
    → Externals cs
    → Linked inp (jobs bg inp n c cs)
jobs-Linked bg inp n c [] one rest = (one, refl)
jobs-Linked bg inp n c (d ∷ cs) one (two, rest) =
    (one, jobs-Linked bg (some n) (n + 1) d cs two rest)

pub do_simple_cmd-External :
    (lowest : Table → ℕ) (sizeof_ptr : ℕ) (can_open : Opened → Bool) (cmd : List Token)
    (prefd postfd : Option Ends) (bg : Bool) (t : Table)
    → External cmd
    → do_simple_cmd lowest sizeof_ptr can_open cmd prefd postfd bg t
      ≡ in_child
          (scan_redirect sizeof_ptr can_open cmd)
          (connect_output postfd (close_read postfd (connect_input prefd t)))
          (redirected lowest sizeof_ptr can_open
            (scan_redirect sizeof_ptr can_open cmd)
            (connect_output postfd (close_read postfd (connect_input prefd t))))
          (close_read prefd (close_write postfd t))
          (not bg)
unfolding do_simple_cmd
do_simple_cmd-External lowest sizeof_ptr can_open [] prefd postfd bg t external = elim external [ ]
do_simple_cmd-External lowest sizeof_ptr can_open (name ∷ rest) prefd postfd bg t external =
    rw (external, do_simple_cmd) refl
