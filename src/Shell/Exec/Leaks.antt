-- ===== src/Shell/Exec/Leaks.antt =====
-- A built-in command of 2/parseline.c in front of a pipe: it runs in the shell, whose own output is
-- connected to the pipe and stays there.
use linux_homework.Base.{
  ℕ, ◌≡◌, Bool, false, none, some, List, [], ◌∷◌, ◌++◌, ◌==◌, if◌then◌else◌, arith, refl, ◌∙◌,
}
use linux_homework.Shell.Exec.External.{External, Externals, Linked, jobs-Linked}
use linux_homework.Shell.Exec.Tables.{Finds, Room, At, pipe-New_near, Runs, run_jobs-Runs}
use linux_homework.Shell.Exec.{
  Object, pipe_read, pipe_write, Table, put, close, dup2, Ends, connect_input, connect_output,
  Builtin, exit, cd, echo, export, do_builtin, get_cmd_handle, Simple, in_shell, ends_shell, pipe,
  do_simple_cmd, run_jobs, run_pipeline,
}
use linux_homework.Shell.Lists.{Barless, Commands, bars, jobs, do_pipe_cmd-jobs}
use linux_homework.Shell.{Token, Opened, scanned, scan_redirect, Job}

-- A built-in command that does not end the shell.
abbrev pub Stays : Builtin → Type 0
Stays exit = ⊥
Stays cd = Unit {0}
Stays echo = Unit {0}
Stays export = Unit {0}

Stays-ends_shell :
    (b : Builtin) (argv : List Token) (t : Table)
    → Stays b
    → ends_shell (in_shell (some (do_builtin b argv)) t) ≡ false
unfolding do_builtin
Stays-ends_shell exit argv t k = elim k [ ]
Stays-ends_shell cd argv t k = refl
Stays-ends_shell echo argv t k = refl
Stays-ends_shell export argv t k = refl

-- The shell's table with its output in the first pipe.
abbrev pub leaking : Table → Table
leaking t fd = if fd == 1 then some (pipe_write 0) else t fd

module _ (lowest : Table → ℕ) (limit : ℕ) (fresh : Finds lowest limit) (shell : Table)
    {i o : Object} (stdin : shell 0 ≡ some i) (stdout : shell 1 ≡ some o) (room : Room shell limit)
    (sizeof_ptr : ℕ) (can_open : Opened → Bool) where
  pub leaking-Room : Room (leaking shell) limit
  leaking-Room =
      let (p, q, r, pq, qr, small, p_free, q_free, r_free) = room in
      (
        p,
        q,
        r,
        pq,
        qr,
        small,
        ground (arith, p_free, stdout),
        ground (arith, q_free, stdout),
        ground (arith, r_free, stdout),
      )

  -- The table behind the built-in command.
  abbrev behind : Table → (r w : ℕ) → Table
  behind t r w =
      connect_output (some (record { read = r; write = w }))
        (put (put t r (some (pipe_read 0))) w (some (pipe_write 0)))

  behind-At :
      (r w : ℕ)
      → (shell r ≡ none) × (shell w ≡ none) × ((w == r) ≡ false)
      → At lowest limit fresh
          (leaking shell)
          stdin
          refl
          leaking-Room
          (some 0)
          (some (record { read = r; write = w }))
          (behind shell r w)
  unfolding connect_output close dup2 put
  behind-At r w (r_free, w_free, ne) = (
    ground (arith, r_free, stdout),
    ground (arith, r_free, stdout, ne),
    λ fd ne'. ground (arith, w_free),
  )

  do_simple_cmd-builtin :
      (name : Token) (args argv : List Token) (b : Builtin) (bg : Bool) (e : Ends) (t : Table)
      → get_cmd_handle name ≡ some b
      → scan_redirect sizeof_ptr can_open (name ∷ args) ≡ scanned argv []
      → do_simple_cmd lowest sizeof_ptr can_open (name ∷ args) none (some e) bg t
        ≡ in_shell (some (do_builtin b argv)) (connect_output (some e) t)
  unfolding do_simple_cmd connect_input
  do_simple_cmd-builtin name args argv b bg e t is plain = rw (is, do_simple_cmd, plain) refl

  -- What the calls leave: the output of the built-in command, the commands behind it, and the
  -- shell with its output in the pipe.
  abbrev pub Leaks : Builtin → List Token → List Job → List Simple × Table → Type 0
  Leaks b argv js (ss, u) =
      (t : Table) × (rest : List Simple) × (ss ≡ in_shell (some (do_builtin b argv)) t ∷ rest)
      × Runs lowest limit fresh (leaking shell) stdin refl leaking-Room sizeof_ptr can_open (some 0)
          js rest
      × (u 1 ≡ some (pipe_write 0))
      × ((fd : ℕ) → (fd == 1) ≡ false → u fd ≡ shell fd)

  run_jobs-Leaks :
      (name : Token) (args argv : List Token) (b : Builtin) (bg : Bool) (js : List Job)
      → get_cmd_handle name ≡ some b
      → Stays b
      → scan_redirect sizeof_ptr can_open (name ∷ args) ≡ scanned argv []
      → Linked (some 0) js
      → let j : Job = record { cmd = name ∷ args; prefd = none; postfd = some 0; bg = bg } in
        Leaks b argv js (run_jobs lowest sizeof_ptr can_open (j ∷ js) none shell)
  unfolding run_jobs pipe
  run_jobs-Leaks name args argv b bg js is stays plain linked =
      let e = (pipe lowest 0 shell).0 in
      let new =
        pipe-New_near lowest limit fresh shell stdin stdout room shell 0 0 (λ fd ne. refl) in
      let own = behind shell e.read e.write in
      let (runs, kept) =
        run_jobs-Runs lowest limit fresh (leaking shell) stdin refl leaking-Room sizeof_ptr can_open
          (some 0) (some e) js own linked (behind-At e.read e.write new) in
      rw
        (
          run_jobs,
          do_simple_cmd-builtin name args argv b bg e (pipe lowest 0 shell).1 is plain,
          Stays-ends_shell b argv own stays,
        )
        (own, _, refl, runs, kept 1, λ fd ne. kept fd ∙ ground (arith, ne))

  -- Where a free descriptor below the limit is found if there is one, in a shell with a standard
  -- input and output and three free descriptors below the limit: a pipeline that starts with a
  -- built-in command other than `exit`, without redirections, and goes on with commands that are
  -- not built in runs these as if the shell's output were the first pipe, and leaves the shell's
  -- own output there; its other descriptors are as before.
  pub run_pipeline-Leaks :
      (name : Token) (args argv : List Token) (b : Builtin) (bg : Bool) (c : List Token)
      (cs : List (List Token))
      → get_cmd_handle name ≡ some b
      → Stays b
      → scan_redirect sizeof_ptr can_open (name ∷ args) ≡ scanned argv []
      → Barless (name ∷ args)
      → Commands (c ∷ cs)
      → External c
      → Externals cs
      → Leaks b argv
          (jobs bg (some 0) 1 c cs)
          (run_pipeline lowest sizeof_ptr can_open ((name ∷ args) ++ bars (c ∷ cs)) bg shell)
  unfolding run_pipeline
  run_pipeline-Leaks name args argv b bg c cs is stays plain free frees one rest =
      rw (run_pipeline, do_pipe_cmd-jobs bg (name ∷ args) (c ∷ cs) free frees)
        (run_jobs-Leaks name args argv b bg (jobs bg (some 0) 1 c cs) is stays plain
          (jobs-Linked bg (some 0) 1 c cs one rest))
