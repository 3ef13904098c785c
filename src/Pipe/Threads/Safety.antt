-- ===== src/Pipe/Threads/Safety.antt =====
-- What every interleaving of readers and writers of scull_pipe.c keeps, from an open and empty
-- device on.
use linux_homework.Base.{
  ℕ, ◌<◌, ◌≡◌, ◌≢◌, ◌⊎◌, inl, inr, true, ◌++◌, arith, refl, sym, ap, subst, ◌∙◌, Bool-cases, length,
}
use linux_homework.Pipe.{Pipe, Reply}
use linux_homework.Pipe.Valid.{stored-lt}
use linux_homework.Pipe.Contents.{contents}
use linux_homework.Pipe.Queue.{length-contents}
use linux_homework.Pipe.Threads.{
  Call, Pc, must_wait, other, locked, unlocked, asleep, waking, Env, Next, next, crash, blocked,
  step, up, System, start, Reach, here, later,
}
use linux_homework.Pipe.Threads.Step.{locked_part-Body}
use linux_homework.Pipe.Threads.Outcome.{
  quiet_next, step-Outcome, step-ne-crash, step-blocked, locked_of_holds, waking-step,
}
use linux_homework.Pipe.Threads.Invariant.{Inv, Inv-apply}
use linux_homework.Pipe.Open.{Opened}

-- A process that holds the semaphore, or is about to wake others.
abbrev pub Busy : Pc → Type 0
Busy (locked c) = Unit {0}
Busy (waking c r) = Unit {0}
Busy pc = ⊥

module _ {size : ℕ} {p : Pipe} (open_device : Opened size p) (free : p.sem ≡ 1) where
  Inv-start : Inv size (start p)
  Inv-start = record {
    bytes = open_device.bytes;
    valid = open_device.valid;
    sized = open_device.sized;
    fifo = sym open_device.empty;
    lock = record {
      le_one = omega arith;
      free = λ k i. refl;
      owner = λ z. absurd (omega arith);
      unique = λ i j a b. cc;
    };
    alert = λ i c e. cc;
  }

  Reach-Inv : {s : System} → Reach (start p) s → Inv size s
  Reach-Inv here = Inv-start
  Reach-Inv (later {t} i env nx r e) =
      let v = Reach-Inv r in Inv-apply t i nx v (step-Outcome v.valid env (t.pc i) e)

  -- In every state reached from an open device whose semaphore is free, the bytes that writers were
  -- told are accepted are, in order, those delivered to readers and then those stored, which always
  -- leave a byte of the buffer free.
  pub fifo :
      {s : System}
      → Reach (start p) s
      → (s.accepted ≡ s.delivered ++ contents s.pipe) × (length (contents s.pipe) < size)
  fifo r =
      let v = Reach-Inv r in
      (v.fifo, omega (arith, v.sized, length-contents v.valid, stored-lt v.valid))

  -- In every state reached from an open device whose semaphore is free, at most one process holds
  -- the semaphore, and no step of any process reads or writes outside the buffer.
  pub mutual_exclusion :
      {s : System}
      → Reach (start p) s
      → ((i j : ℕ) (c d : Call) → s.pc i ≡ locked c → s.pc j ≡ locked d → i ≡ j)
        × ((i : ℕ) (env : Env) → step env s.pipe (s.pc i) ≢ crash)
  mutual_exclusion {s} r =
      let v = Reach-Inv r in
      (
        λ i j c d a b. v.lock.unique i j (ground arith) (ground arith),
        λ i env. step-ne-crash v.valid env (s.pc i),
      )

  -- In every state reached from an open device whose semaphore is free, a process sleeps only where
  -- it has to: a reader while the device is empty and a writer while it is full, or else a process
  -- of the other kind is about to wake it.
  pub no_lost_wakeup :
      {s : System}
      → Reach (start p) s
      → (i : ℕ) (c : Call) → s.pc i ≡ asleep c
      → (must_wait c s.pipe ≡ true)
        ⊎ ((j : ℕ) × (d : Call) × (r : Reply) × (s.pc j ≡ waking d r) × (other d c ≡ true))
  no_lost_wakeup r i c e = (Reach-Inv r).alert i c e

  holder_steps :
      {s : System} (v : Inv size s) (env : Env) (c : Call)
      → (nx : Next) × (step env s.pipe (locked c) ≡ next nx)
  unfolding step
  holder_steps {s} v env c = elim (Bool-cases (must_wait c s.pipe)) [
    | inl w ↦ (quiet_next (up s.pipe) (unlocked c), rw w)
    | inr w ↦ let (nx, e, is) = locked_part-Body v.valid env c w in (nx, rw w e)
  ]

  -- In every state reached from an open device whose semaphore is free, a process that cannot step
  -- sleeps while it has to, or one that holds the semaphore or is about to wake others can step
  -- now.
  pub deadlock_free :
      {s : System}
      → Reach (start p) s
      → (env : Env) (i : ℕ) → step env s.pipe (s.pc i) ≡ blocked
      → ((c : Call) × (s.pc i ≡ asleep c) × (must_wait c s.pipe ≡ true))
        ⊎ ((j : ℕ) × Busy (s.pc j) × (nx : Next) × (step env s.pipe (s.pc j) ≡ next nx))
  deadlock_free {s} r env i e =
      let v = Reach-Inv r in
      elim (step-blocked env s.pipe (s.pc i) e) [
        | inl (c, at, none_left) ↦
            let (j, h) = v.lock.owner none_left in
            let (d, at_d) = locked_of_holds (s.pc j) h in
            let (nx, now) = holder_steps v env d in
            inr (j, subst Busy (sym at_d) tt, nx, ap (step env s.pipe) at_d ∙ now)
        | inr (c, at) ↦ elim (v.alert i c at) [
          | inl w ↦ inl (c, at, w)
          | inr (j, d, r, at_j, o) ↦ inr (
            j,
            subst Busy (sym at_j) tt,
            _,
            ap (step env s.pipe) at_j ∙ waking-step env s.pipe d r,
          )
        ]
      ]
