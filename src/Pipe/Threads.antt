-- ===== src/Pipe/Threads.antt =====
-- 7/pipe/scull_pipe.c: processes inside `scull_p_read`, `scull_getwritespace` and `scull_p_write`
-- on one open device, interleaved at the semaphore and at the wait queues. A step runs one process
-- from one such point to the next.
pub mod Step
pub mod Outcome
pub mod Alert
pub mod Safety
pub mod Invariant
use linux_homework.Base.{
  ℕ, ◌+◌, ◌-◌, ◌≡◌, Bool, true, false, Option, none, some, List, [], ◌++◌, ◌==◌, if◌then◌else◌,
}
use linux_homework.Pipe.{
  Pipe, Reply, ret, error, restartsys, again, Moved, Copy, spacefree, read_locked, write_locked,
}

-- A call of `scull_p_read` or `scull_p_write`, with the `O_NONBLOCK` bit of its file.
pub data Call : Type 0 where
  reading : (count : ℕ) → (nonblock : Bool) → Call
  writing : (src : List ℕ) → (nonblock : Bool) → Call

abbrev pub nonblock : Call → Bool
nonblock (reading n b) = b
nonblock (writing src b) = b

-- The tests `rp == wp` and `spacefree(dev) == 0`.
unfoldable pub must_wait : Call → Pipe → Bool
must_wait (reading n b) p = p.rp == p.wp
must_wait (writing src b) p = spacefree p == 0

-- Where a process stands.
pub data Pc : Type 0 where
  idle : Pc
  enter : Call → Pc  -- at `down_interruptible`
  locked : Call → Pc  -- holds the semaphore, at the test of the loop
  unlocked : Call → Pc  -- behind the `up` in the loop
  queued : Call → Pc  -- on its wait queue, before the test of the condition
  asleep : Call → Pc  -- in `schedule`
  awake : Call → Pc  -- behind `schedule`
  waking : Call → Reply → Pc  -- behind the last `up`, before `wake_up_interruptible`
  done : Reply → Pc

-- What the surroundings choose for a step: whether a signal is pending, whether a copy fails, the
-- next call.
pub record Env : Type 0 where
  pub signal : Bool
  pub fault : Bool
  pub copy : Copy
  pub call : Call

-- What a step of one process leaves: the bytes that it put in and took out, and whether it wakes a
-- queue, by the call of the process that wakes.
pub record Next : Type 0 where
  pub pipe : Pipe
  pub pc : Pc
  pub accepted : List ℕ
  pub delivered : List ℕ
  pub wakes : Option Call

-- A step that cannot be made now, one that reaches outside the buffer, and one that is made.
pub data Result : Type 0 where
  blocked : Result
  crash : Result
  next : Next → Result

abbrev pub quiet : Pipe → Pc → Result
quiet p pc = next (record { pipe = p; pc = pc; accepted = []; delivered = []; wakes = none })

abbrev pub up : Pipe → Pipe
up p = record p { sem = p.sem + 1 }

-- Where the reply of the locked part leads: an error returns at once.
abbrev pub after : Call → Reply → Pc
after c (ret n) = waking c (ret n)
after c (error e) = done (error e)

-- `up` and the way on from the locked part of a call.
unfoldable pub commit : Call → Option Moved → Result
commit c none = crash
commit (reading n b) (some m) = next (record {
  pipe = up m.pipe;
  pc = after (reading n b) m.reply;
  accepted = [];
  delivered = m.bytes;
  wakes = none;
})
commit (writing src b) (some m) = next (record {
  pipe = up m.pipe;
  pc = after (writing src b) m.reply;
  accepted = m.bytes;
  delivered = [];
  wakes = none;
})

unfoldable pub locked_part : Env → Pipe → Call → Result
unfolding commit
locked_part env p (reading n b) = commit (reading n b) (read_locked p n env.fault)
locked_part env p (writing src b) = commit (writing src b) (write_locked p src env.copy)

unfoldable pub step : Env → Pipe → Pc → Result
unfolding must_wait
step env p idle = quiet p (enter env.call)
step env p (enter c) =
    if p.sem == 0
    then if env.signal then quiet p (done (error restartsys)) else blocked
    else quiet (record p { sem = p.sem - 1 }) (locked c)
step env p (locked c) = if must_wait c p then quiet (up p) (unlocked c) else locked_part env p c
step env p (unlocked c) = if nonblock c then quiet p (done (error again)) else quiet p (queued c)
step env p (queued (reading n b)) =
    if must_wait (reading n b) p
    then if env.signal then quiet p (done (error restartsys)) else quiet p (asleep (reading n b))
    else quiet p (enter (reading n b))
step env p (queued (writing src b)) =
    if must_wait (writing src b) p
    then quiet p (asleep (writing src b))
    else quiet p (awake (writing src b))
step env p (asleep c) = if env.signal then quiet p (awake c) else blocked
step env p (awake (reading n b)) = quiet p (queued (reading n b))
step env p (awake (writing src b)) =
    if env.signal then quiet p (done (error restartsys)) else quiet p (enter (writing src b))
step env p (waking c r) =
    next (record { pipe = p; pc = done r; accepted = []; delivered = []; wakes = some c })
step env p (done r) = quiet p idle

-- Whether two calls are of different kinds: each kind waits on a queue that the other wakes.
abbrev pub other : Call → Call → Bool
other (reading m b) (reading n c) = false
other (reading m b) (writing src c) = true
other (writing src b) (reading n c) = true
other (writing src b) (writing ys c) = false

-- A process on the queue that a call of the other kind wakes.
unfoldable pub woken : Call → Pc → Pc
woken c (asleep d) = if other c d then awake d else asleep d
woken c (queued d) = if other c d then awake d else queued d
woken c idle = idle
woken c pc = pc

unfoldable pub wake : Option Call → Pc → Pc
unfolding woken
wake none pc = pc
wake (some c) pc = woken c pc

-- The device, the processes, and all bytes accepted from writers and delivered to readers so far.
pub record System : Type 0 where
  pub pipe : Pipe
  pub pc : ℕ → Pc
  pub accepted : List ℕ
  pub delivered : List ℕ

unfoldable pub apply : System → ℕ → Next → System
unfolding wake
apply s i nx = record {
  pipe = nx.pipe;
  pc = λ j. if j == i then nx.pc else wake nx.wakes (s.pc j);
  accepted = s.accepted ++ nx.accepted;
  delivered = s.delivered ++ nx.delivered;
}

-- The device as the opens have left it.
abbrev pub start : Pipe → System
start p = record { pipe = p; pc = λ _. idle; accepted = []; delivered = [] }

pub data Reach (s : System) : System → Type 0 where
  here : Reach s s
  later :
      {t : System} (i : ℕ) (env : Env) (nx : Next)
      → Reach s t
      → step env t.pipe (t.pc i) ≡ next nx
      → Reach s (apply t i nx)
