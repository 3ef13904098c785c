-- ===== src/Shell/Exec.antt =====
-- `do_simple_cmd` of 2/parseline.c, the built-in commands, and a pipeline with its descriptors. A
-- process has a table of descriptors; `lowest` finds the descriptor that the next `open` or `pipe`
-- returns, and is a parameter.
pub mod External
pub mod Tables
pub mod Leaks
pub mod Samples
mod Tests
use linux_homework.Base.{
  ℕ, ◌+◌, Bool, true, false, not, Option, none, some, List, [], ◌∷◌, ◌++◌, ◌==◌, if◌then◌else◌,
}
use linux_homework.Shell.{
  Token, same, Job, do_pipe_cmd, Opened, input, output, Scan, scanned, exits, opens_null, overruns,
  scan_redirect,
}

-- What a descriptor stands for: pipes are numbered as in `do_pipe_cmd`.
pub data Object : Type 0 where
  terminal : Object
  pipe_read : ℕ → Object
  pipe_write : ℕ → Object
  file : Opened → Object

abbrev pub Table : Type 0
Table = ℕ → Option Object

unfoldable pub put : Table → ℕ → Option Object → Table
put t fd o q = if q == fd then o else t q

unfoldable pub close : ℕ → Table → Table
unfolding put
close fd t = put t fd none

unfoldable pub dup2 : (oldfd newfd : ℕ) → Table → Table
unfolding put
dup2 oldfd newfd t = elim (t oldfd) [ none ↦ t | some o ↦ put t newfd (some o) ]

-- The two descriptors of a pipe.
pub record Ends : Type 0 where
  pub read : ℕ
  pub write : ℕ

-- `dup2(prefd[0], STDIN_FILENO); close(prefd[0]);`
unfoldable pub connect_input : Option Ends → Table → Table
unfolding close dup2
connect_input none t = t
connect_input (some e) t = close e.read (dup2 e.read 0 t)

-- `dup2(postfd[1], STDOUT_FILENO); close(postfd[1]);`
unfoldable pub connect_output : Option Ends → Table → Table
unfolding close dup2
connect_output none t = t
connect_output (some e) t = close e.write (dup2 e.write 1 t)

-- `close(postfd[0])` of the child, and what the parent closes.
unfoldable pub close_read : Option Ends → Table → Table
unfolding close
close_read none t = t
close_read (some e) t = close e.read t

unfoldable pub close_write : Option Ends → Table → Table
unfolding close
close_write none t = t
close_write (some e) t = close e.write t

-- `buildin_cmd_table`
pub data Builtin : Type 0 where
  exit cd echo export : Builtin

abbrev pub get_cmd_handle : Token → Option Builtin
get_cmd_handle cmd =
    if same cmd (101 ∷ 120 ∷ 105 ∷ 116 ∷ [])
    then some exit
    else if same cmd (99 ∷ 100 ∷ [])
    then some cd
    else if same cmd (101 ∷ 99 ∷ 104 ∷ 111 ∷ [])
    then some echo
    else if same cmd (101 ∷ 120 ∷ 112 ∷ 111 ∷ 114 ∷ 116 ∷ [])
    then some export
    else none

-- What a built-in command does: it ends the shell, with its argument, or it prints, a space behind
-- each argument and a newline at the end, or it does nothing.
pub data Effect : Type 0 where
  exits_shell : Option Token → Effect
  prints : Token → Effect
  nothing : Effect

abbrev pub second : List Token → Option Token
second (t ∷ u ∷ argv) = some u
second argv = none

abbrev pub spaced : List Token → Token
spaced [] = 10 ∷ []
spaced (t ∷ argv) = t ++ (32 ∷ spaced argv)

abbrev pub arguments : List Token → List Token
arguments [] = []
arguments (t ∷ argv) = argv

unfoldable pub do_builtin : Builtin → List Token → Effect
do_builtin exit argv = exits_shell (second argv)
do_builtin cd argv = nothing
do_builtin export argv = nothing
do_builtin echo argv = prints (spaced (arguments argv))

-- How a simple command ends: at `strcmp` with NULL, in the shell, or in a child.
pub data Simple : Type 0 where
  null_name : Simple
  -- the handler's effect, `none` where `scan_redirect` ends the shell; the shell's descriptors
  in_shell : Option Effect → Table → Simple
  -- what the child executes, its descriptors as the pipes are connected and behind the
  -- redirections; those of the shell; whether the shell waits
  in_child : Scan → (connected redirected : Table) → (shell : Table) → (waits : Bool) → Simple

abbrev pub effect : Builtin → Scan → Option Effect
effect b (scanned argv os) = some (do_builtin b argv)
effect b s = none

abbrev pub shell_table : Simple → Table → Table
shell_table null_name t = t
shell_table (in_shell e u) t = u
shell_table (in_child s c r u w) t = u

-- The shell's process ends: at NULL, by `scan_redirect`, or by `exit`.
abbrev pub ends_shell : Simple → Bool
ends_shell null_name = true
ends_shell (in_shell none u) = true
ends_shell (in_shell (some (exits_shell a)) u) = true
ends_shell (in_shell (some (prints text)) u) = false
ends_shell (in_shell (some nothing) u) = false
ends_shell (in_child s c r u w) = false

-- `pipe(postfd)`, for the pipe with this number.
unfoldable pub pipe : (lowest : Table → ℕ) → ℕ → Table → Ends × Table
unfolding put
pipe lowest n t =
    let r = lowest t in
    let t' = put t r (some (pipe_read n)) in
    let w = lowest t' in (record { read = r; write = w }, put t' w (some (pipe_write n)))

module _ (lowest : Table → ℕ) (sizeof_ptr : ℕ) (can_open : Opened → Bool) where
  -- `close(STDIN_FILENO)` or `close(STDOUT_FILENO)`, and `fopen`.
  abbrev pub reopen : Opened → Table → Table
  reopen (input f) t = put (close 0 t) (lowest (close 0 t)) (some (file (input f)))
  reopen (output f) t = put (close 1 t) (lowest (close 1 t)) (some (file (output f)))

  abbrev pub reopen_all : List Opened → Table → Table
  reopen_all [] t = t
  reopen_all (o ∷ os) t = reopen_all os (reopen o t)

  abbrev pub redirected : Scan → Table → Table
  redirected (scanned argv os) t = reopen_all os t
  redirected (exits os) t = reopen_all os t
  redirected opens_null t = t
  redirected overruns t = t

  unfoldable pub do_simple_cmd : List Token → (prefd postfd : Option Ends) → Bool → Table → Simple
  do_simple_cmd [] prefd postfd bg t = null_name
  do_simple_cmd (name ∷ rest) prefd postfd bg t =
      let scan = scan_redirect sizeof_ptr can_open (name ∷ rest) in
      let own = connect_output postfd (connect_input prefd t) in
      let child = connect_output postfd (close_read postfd (connect_input prefd t)) in
      elim (get_cmd_handle name) [
        | some b ↦ in_shell (effect b scan) (redirected scan own)
        | none ↦
            in_child scan child (redirected scan child) (close_read prefd (close_write postfd t))
              (not bg)
      ]

  -- The calls of `do_simple_cmd` that `do_pipe_cmd` makes, each behind its `pipe`, until one ends
  -- the shell; `prefd` is the pipe before.
  unfoldable pub run_jobs : List Job → (prefd : Option Ends) → Table → List Simple × Table
  run_jobs [] prefd t = ([], t)
  run_jobs (j ∷ js) prefd t = elim j.postfd [
    | none ↦
        let s = do_simple_cmd j.cmd prefd none j.bg t in
        let (ss, u) = run_jobs js none (shell_table s t) in
        if ends_shell s then (s ∷ [], shell_table s t) else (s ∷ ss, u)
    | some n ↦
        let (e, t') = pipe lowest n t in
        let s = do_simple_cmd j.cmd prefd (some e) j.bg t' in
        let (ss, u) = run_jobs js (some e) (shell_table s t') in
        if ends_shell s then (s ∷ [], shell_table s t') else (s ∷ ss, u)
  ]

  unfoldable pub run_pipeline : List Token → Bool → Table → List Simple × Table
  run_pipeline pipeline bg t = run_jobs (do_pipe_cmd pipeline bg) none t
