-- ===== src/Shell/Exec/Tables.antt =====
-- Descriptors of a pipeline of 2/parseline.c: what the commands have, and what the shell is left
-- with.
use linux_homework.Base.{
  ℕ, ◌<◌, ◌≡◌, inl, inr, ◌||◌, Bool-cases, Bool, false, not, Option, none, some, List, [], ◌∷◌,
  ◌++◌, ◌==◌, if◌then◌else◌, arith, refl, ◌∙◌,
}
use linux_homework.Shell.{Token, Job, Opened, scan_redirect}
use linux_homework.Shell.Lists.{Barless, Commands, bars, jobs, do_pipe_cmd-jobs}
use linux_homework.Shell.Exec.{
  Object, pipe_read, pipe_write, Table, put, close, dup2, Ends, connect_input, connect_output,
  close_read, close_write, Simple, null_name, in_shell, in_child, redirected, pipe, run_jobs,
  run_pipeline,
}
use linux_homework.Shell.Exec.External.{
  External, Externals, Linked, jobs-Linked, do_simple_cmd-External,
}

-- What a command of a pipeline is to have: standard input and output from the pipes before and
-- behind it, where it has these, and else what the shell has.
abbrev pub from_pipe : Option Object → Option ℕ → Option Object
from_pipe o none = o
from_pipe o (some n) = some (pipe_read n)

abbrev pub to_pipe : Option Object → Option ℕ → Option Object
to_pipe o none = o
to_pipe o (some n) = some (pipe_write n)

abbrev pub wired : Table → (inp out : Option ℕ) → Table
wired t inp out fd =
    if fd == 0 then from_pipe (t 0) inp else if fd == 1 then to_pipe (t 1) out else t fd

-- A process can have so many descriptors; where one of these is free, `lowest` finds a free one.
abbrev pub Finds : (Table → ℕ) → (limit : ℕ) → Type 0
Finds lowest limit = (t : Table) (fd : ℕ) → fd < limit → t fd ≡ none → t (lowest t) ≡ none

-- Three descriptors are free.
abbrev pub Room : Table → (limit : ℕ) → Type 0
Room t limit =
    (p q r : ℕ) × (p < q) × (q < r) × (r < limit) × (t p ≡ none) × (t q ≡ none) × (t r ≡ none)

-- One of them is neither of two.
room_beside :
    (t : Table) (limit x y : ℕ)
    → Room t limit
    → (fd : ℕ) × (fd < limit) × (t fd ≡ none) × ((fd == x) ≡ false) × ((fd == y) ≡ false)
room_beside t limit x y (p, q, r, pq, qr, small, p_free, q_free, r_free) =
    elim (Bool-cases (p == x || p == y)) [
      | inr clear ↦ (p, ground arith, p_free, ground (arith, clear), ground (arith, clear))
      | inl hit ↦ elim (Bool-cases (q == x || q == y)) [
        | inr clear ↦ (q, ground arith, q_free, ground (arith, clear), ground (arith, clear))
        | inl taken ↦ (r, small, r_free, ground (arith, hit, taken), ground (arith, hit, taken))
      ]
    ]

module _ (lowest : Table → ℕ) (limit : ℕ) (fresh : Finds lowest limit) (shell : Table)
    {i o : Object} (stdin : shell 0 ≡ some i) (stdout : shell 1 ≡ some o)
    (room : Room shell limit) where
  -- The shell between two commands: it has its own descriptors and the read end of the last pipe.
  abbrev pub At : Option ℕ → Option Ends → Table → Type 0
  At none none t = (fd : ℕ) → t fd ≡ shell fd
  At none (some e) t = ⊥
  At (some n) none t = ⊥
  At (some n) (some e) t =
      (shell e.read ≡ none)
      × (t e.read ≡ some (pipe_read n))
      × ((fd : ℕ) → (fd == e.read) ≡ false → t fd ≡ shell fd)

  last-wired :
      (inp : Option ℕ) (prefd : Option Ends) (t : Table) (fd : ℕ)
      → At inp prefd t
      → connect_input prefd t fd ≡ wired shell inp none fd
  unfolding connect_input close dup2 put
  last-wired none none t fd at = ground (arith, at fd)
  last-wired none (some e) t fd at = elim at [ ]
  last-wired (some n) none t fd at = elim at [ ]
  last-wired (some n) (some e) t fd (closed, here, rest) = ground (arith, rest fd)

  last-At :
      (inp : Option ℕ) (prefd : Option Ends) (t : Table)
      → At inp prefd t
      → At none none (close_read prefd t)
  unfolding close_read close put
  last-At none none t at fd = at fd
  last-At none (some e) t at fd = elim at [ ]
  last-At (some n) none t at fd = elim at [ ]
  last-At (some n) (some e) t (closed, here, rest) fd = ground (arith, rest fd)

  -- The two descriptors of a new pipe.
  abbrev pub New : Table → (r w : ℕ) → Type 0
  New t r w = (t r ≡ none) × (t w ≡ none) × ((w == r) ≡ false)

  abbrev piped : Table → (n r w : ℕ) → Table
  piped t n r w = put (put t r (some (pipe_read n))) w (some (pipe_write n))

  -- What differs from the shell's table in one descriptor at most has two that are free.
  pub pipe-New_near :
      (t : Table) (n x : ℕ)
      → ((fd : ℕ) → (fd == x) ≡ false → t fd ≡ shell fd)
      → New t (pipe lowest n t).0.read (pipe lowest n t).0.write
  unfolding pipe put
  pipe-New_near t n x near =
      let r = lowest t in
      let (f, f_small, f_free, f_x, f_x') = room_beside shell limit x x room in
      let r_free = fresh t f f_small (near f f_x ∙ f_free) in
      let (g, g_small, g_free, g_x, g_r) = room_beside shell limit x r room in
      let w_free =
        fresh (put t r (some (pipe_read n))) g g_small (ground (arith, g_r, near g g_x, g_free)) in
      ground (arith, r_free, w_free)

  pipe-New :
      (inp : Option ℕ) (prefd : Option Ends) (t : Table) (n : ℕ)
      → At inp prefd t
      → New t (pipe lowest n t).0.read (pipe lowest n t).0.write
  pipe-New none none t n at = pipe-New_near t n 0 (λ fd ne. at fd)
  pipe-New none (some e) t n at = elim at [ ]
  pipe-New (some m) none t n at = elim at [ ]
  pipe-New (some m) (some e) t n (closed, here, rest) = pipe-New_near t n e.read rest

  piped-wired :
      (inp : Option ℕ) (prefd : Option Ends) (t : Table) (n r w fd : ℕ)
      → At inp prefd t
      → New t r w
      → let e : Ends = record { read = r; write = w } in
        connect_output (some e) (close_read (some e) (connect_input prefd (piped t n r w))) fd
        ≡ wired shell inp (some n) fd
  unfolding connect_output connect_input close_read close dup2 put
  piped-wired none none t n r w fd at new = ground (arith, at fd, at 0, at 1, at r, at w)
  piped-wired none (some e) t n r w fd at new = elim at [ ]
  piped-wired (some m) none t n r w fd at new = elim at [ ]
  piped-wired (some m) (some e) t n r w fd (closed, here, rest) new =
      ground (arith, rest fd, rest 0, rest 1, rest r, rest w)

  piped-At :
      (inp : Option ℕ) (prefd : Option Ends) (t : Table) (n r w : ℕ)
      → At inp prefd t
      → New t r w
      → let e : Ends = record { read = r; write = w } in
        At (some n) (some e) (close_read prefd (close_write (some e) (piped t n r w)))
  unfolding close_read close_write close put
  piped-At none none t n r w at new =
      (ground (arith, at r), ground arith, λ fd ne. ground (arith, at fd, at w))
  piped-At none (some e) t n r w at new = elim at [ ]
  piped-At (some m) none t n r w at new = elim at [ ]
  piped-At (some m) (some e) t n r w (closed, here, rest) new =
      (ground (arith, rest r), ground arith, λ fd ne. ground (arith, rest fd, rest w))

  module _ (sizeof_ptr : ℕ) (can_open : Opened → Bool) where
    -- Each command runs in a child that has the descriptors wanted and executes what
    -- `scan_redirect` makes of it, and is waited for unless it is in the background.
    abbrev pub Runs : Option ℕ → List Job → List Simple → Type 0
    Runs inp [] [] = Unit {0}
    Runs inp [] (s ∷ ss) = ⊥
    Runs inp (j ∷ js) [] = ⊥
    Runs inp (j ∷ js) (null_name ∷ ss) = ⊥
    Runs inp (j ∷ js) (in_shell e t ∷ ss) = ⊥
    Runs inp (j ∷ js) (in_child scan connected after t waits ∷ ss) =
        (scan ≡ scan_redirect sizeof_ptr can_open j.cmd)
        × ((fd : ℕ) → connected fd ≡ wired shell inp j.postfd fd)
        × (after ≡ redirected lowest sizeof_ptr can_open scan connected)
        × (waits ≡ not j.bg)
        × Runs j.postfd js ss

    -- What a sequence of calls leaves.
    abbrev pub EndsWell : Option ℕ → List Job → List Simple × Table → Type 0
    EndsWell inp js (ss, u) = Runs inp js ss × ((fd : ℕ) → u fd ≡ shell fd)

    run_job-Runs :
        (inp : Option ℕ) (prefd : Option Ends) (cmd : List Token) (pre post : Option ℕ) (bg : Bool)
        (js : List Job) (t : Table)
        → External cmd
        → At inp prefd t
        → ((e : Option Ends) (u : Table)
            → At post e u
            → EndsWell post js (run_jobs lowest sizeof_ptr can_open js e u))
        → let j : Job = record { cmd = cmd; prefd = pre; postfd = post; bg = bg } in
          EndsWell inp (j ∷ js) (run_jobs lowest sizeof_ptr can_open (j ∷ js) prefd t)
    unfolding run_jobs pipe connect_output close_read close_write
    run_job-Runs inp prefd cmd pre none bg js t external at rest =
        let (runs, kept) = rest none (close_read prefd t) (last-At inp prefd t at) in
        rw
          (run_jobs, do_simple_cmd-External lowest sizeof_ptr can_open cmd prefd none bg t external)
          ((refl, λ fd. last-wired inp prefd t fd at, refl, refl, runs), kept)
    run_job-Runs inp prefd cmd pre (some n) bg js t external at rest =
        let e = (pipe lowest n t).0 in
        let new = pipe-New inp prefd t n at in
        let (runs, kept) =
          rest (some e) (close_read prefd (close_write (some e) (piped t n e.read e.write)))
            (piped-At inp prefd t n e.read e.write at new) in
        rw
          (
            run_jobs,
            do_simple_cmd-External lowest sizeof_ptr can_open cmd prefd (some (pipe lowest n t).0)
                bg (pipe lowest n t).1 external,
          )
          ((refl, λ fd. piped-wired inp prefd t n e.read e.write fd at new, refl, refl, runs), kept)

    pub run_jobs-Runs :
        (inp : Option ℕ) (prefd : Option Ends) (js : List Job) (t : Table)
        → Linked inp js
        → At inp prefd t
        → EndsWell inp js (run_jobs lowest sizeof_ptr can_open js prefd t)
    unfolding run_jobs
    run_jobs-Runs none none [] t linked at = (tt, at)
    run_jobs-Runs none (some e) [] t linked at = elim at [ ]
    run_jobs-Runs (some n) e [] t linked at = cc
    run_jobs-Runs inp prefd (j ∷ js) t (external, linked) at =
        run_job-Runs inp prefd j.cmd j.prefd j.postfd j.bg js t external at
          (λ e u at'. run_jobs-Runs j.postfd e js u linked at')

    -- The same calls from a table with the shell's own descriptors.
    pub run_jobs_clean :
        (js : List Job) (t : Table)
        → Linked none js
        → ((fd : ℕ) → t fd ≡ shell fd)
        → let (ss, u) = run_jobs lowest sizeof_ptr can_open js none t in
          Runs none js ss × ((fd : ℕ) → u fd ≡ shell fd)
    run_jobs_clean js t linked at = run_jobs-Runs none none js t linked at

    -- Where a free descriptor below the limit is found if there is one, in a shell with a standard
    -- input and output and three free descriptors below the limit: a pipeline of commands that are
    -- not built in runs each one in a child whose input and output are the pipes before and behind
    -- it and which has no other end of a pipe, and leaves the shell the descriptors that it had.
    pub run_pipeline-Runs :
        (bg : Bool) (c : List Token) (cs : List (List Token))
        → Barless c
        → Commands cs
        → External c
        → Externals cs
        → let (ss, u) = run_pipeline lowest sizeof_ptr can_open (c ++ bars cs) bg shell in
          Runs none (jobs bg none 0 c cs) ss × ((fd : ℕ) → u fd ≡ shell fd)
    unfolding run_pipeline
    run_pipeline-Runs bg c cs free frees one rest =
        rw (run_pipeline, do_pipe_cmd-jobs bg c cs free frees)
          (run_jobs-Runs none none (jobs bg none 0 c cs) shell (jobs-Linked bg none 0 c cs one rest)
            (λ fd. refl))
