-- ===== src/Scull/Threads.antt =====
-- 7/main.c: processes inside `scull_open`, `scull_read`, `scull_write` and `scull_llseek` on one
-- device, interleaved at the semaphore. A read or write looks at the device's `quantum` and `qset`
-- before it takes the semaphore, and uses these numbers behind it. A step runs one process from one
-- such point to the next; each call has a position of its own.
pub mod Step
pub mod Safety
use linux_homework.Base.{
  ℕ, ◌+◌, ◌-◌, ◌≡◌, Bool, true, false, Option, none, some, List, ◌==◌, if◌then◌else◌,
}
use linux_homework.Scull.Access.{
  Outcome, done, stray, wild, beyond, scull_read, scull_write, scull_llseek,
}
use linux_homework.Scull.{Dev, Reply, ret, error, restartsys, scull_trim}

-- What is done with the semaphore held: a read or a write from `pos` on, or the trim of an open for
-- writing only.
pub data Call : Type 0 where
  reading writing : (pos count : ℕ) → Call
  trimming : Call

-- A call, with the semaphore or without.
pub data Request : Type 0 where
  locks : Call → Request
  opening : Request
  seeking : (f_pos off whence : ℕ) → Request

-- Where a process stands; behind the entry it has its copies of `quantum` and `qset`.
pub data Pc : Type 0 where
  idle : Pc
  enter : Call → (quantum qset : ℕ) → Pc  -- at `down_interruptible`
  locked : Call → (quantum qset : ℕ) → Pc  -- holds the semaphore
  returned : Reply → Pc

-- What the surroundings choose for a step: the next call, whether a signal is pending, which
-- allocations succeed, and how many bytes a copy moves.
pub record Env : Type 0 where
  pub call : Request
  pub signal : Bool
  pub answers : List Bool
  pub moved : ℕ

-- What a step comes to: it cannot be made now, it copies over the list of the items, it reaches
-- outside of an array, its numbers are out of range, or it is made.
pub data Result : Type 0 where
  blocked overwrites wild_access out_of_range : Result
  next : Dev → (sem : ℕ) → Pc → Result

-- `up` and the return behind a read or write of `d` with the copies of the numbers.
unfoldable pub leave : Dev → (sem : ℕ) → Outcome → Result
leave d sem (done r d' p) =
    next (record d { items = d'.items; size = d'.size }) (sem + 1) (returned r)
leave d sem (stray d' p n) = overwrites
leave d sem wild = wild_access
leave d sem beyond = out_of_range

-- `up` and the return behind `scull_trim`.
unfoldable pub leave_open : (sem : ℕ) → Option (ℕ × Dev) → Result
leave_open sem none = wild_access
leave_open sem (some (n, d)) = next d (sem + 1) (returned (ret 0))

abbrev pub with_sizes : Dev → (quantum qset : ℕ) → Dev
with_sizes d q s = record d { quantum = q; qset = s }

-- The first step of a call: a seek, and an open that is not for writing only, do not lock.
unfoldable pub begin : Dev → (sem : ℕ) → Request → Result
begin d sem (locks c) = next d sem (enter c d.quantum d.qset)
begin d sem opening = next d sem (returned (ret 0))
begin d sem (seeking f_pos off whence) =
    next d sem (returned (scull_llseek d.size f_pos off whence).0)

-- With the module parameters, which do not change.
module _ (scull_quantum scull_qset : ℕ) where
  -- The part with the semaphore held.
  unfoldable pub locked_part : Env → Dev → (sem : ℕ) → Call → (quantum qset : ℕ) → Result
  unfolding leave leave_open
  locked_part env d sem (reading pos count) q s =
      leave d sem (scull_read (with_sizes d q s) env.answers pos count env.moved)
  locked_part env d sem (writing pos count) q s =
      leave d sem (scull_write (with_sizes d q s) env.answers pos count env.moved)
  locked_part env d sem trimming q s = leave_open sem (scull_trim scull_quantum scull_qset d)

  unfoldable pub step : Env → Dev → (sem : ℕ) → Pc → Result
  unfolding locked_part begin
  step env d sem idle = begin d sem env.call
  step env d sem (enter c q s) =
      if sem == 0
      then if env.signal then next d sem (returned (error restartsys)) else blocked
      else next d (sem - 1) (locked c q s)
  step env d sem (locked c q s) = locked_part env d sem c q s
  step env d sem (returned r) = next d sem idle

-- The device, its semaphore, and the processes.
pub record System : Type 0 where
  pub dev : Dev
  pub sem : ℕ
  pub pc : ℕ → Pc

abbrev pub apply : System → ℕ → Dev → (sem : ℕ) → Pc → System
apply s i d sem pc = record { dev = d; sem = sem; pc = λ j. if j == i then pc else s.pc j }

abbrev pub start : Dev → System
start d = record { dev = d; sem = 1; pc = λ _. idle }

pub data Reach (scull_quantum scull_qset : ℕ) (s : System) : System → Type 0 where
  here : Reach scull_quantum scull_qset s s
  later :
      {t : System} (i : ℕ) (env : Env) (d : Dev) (sem : ℕ) (pc : Pc)
      → Reach scull_quantum scull_qset s t
      → step scull_quantum scull_qset env t.dev t.sem (t.pc i) ≡ next d sem pc
      → Reach scull_quantum scull_qset s (apply t i d sem pc)
