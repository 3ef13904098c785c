-- ===== src/Pipe/Tests.antt =====
-- Runs of the pipe device of scull_pipe.c on a buffer of four bytes, and its theorems at them.
use linux_homework.Base.{
  ℕ, ◌<◌, ◌≡◌, ◌≢◌, ◌⊎◌, refl, true, false, Option, some, List, [], ◌∷◌, ◌++◌, arith, length,
}
use linux_homework.Pipe.{
  Pipe, Reply, ret, Moved, File, copied, initial, open_started, read_at, write_at, read_locked,
  write_locked,
}
use linux_homework.Pipe.Contents.{contents}
use linux_homework.Pipe.Queue.{Read, Written, read_locked-Read, write_locked-Written}
use linux_homework.Pipe.Valid.{IsValid}
use linux_homework.Pipe.Open.{Opened, open_started-Opened}
use linux_homework.Pipe.Threads.{
  Call, reading, writing, must_wait, other, locked, asleep, waking, Env, Next, Result, blocked,
  crash, next, step, System, locked_part, apply, start, Reach, here, later,
}
use linux_homework.Pipe.Threads.Safety.{Busy, fifo, mutual_exclusion, no_lost_wakeup, deadlock_free}
use linux_homework.Pipe.Module.{scull_p_init, scull_p_cleanup, nothing_held}

abbrev both : File
both = record { id = 7; reads = true; writes = true; nonblock = false }

abbrev device : Pipe
device = open_started 4 (0 ∷ 0 ∷ 0 ∷ 0 ∷ []) both initial

device-Opened : Opened 4 device
device-Opened =
    open_started-Opened 4 (0 ∷ 0 ∷ 0 ∷ 0 ∷ []) both initial (omega arith) (omega arith) refl

device-free : device.sem ≡ 1
unfolding open_started initial
device-free = refl

abbrev go : Call → Env
go c = record { signal = false; fault = false; copy = copied; call = c }

abbrev put : List ℕ → Env
put xs = go (writing xs false)

abbrev get : ℕ → Env
get n = go (reading n false)

record Run (s : System) : Type 0 where
  last : System
  reach : Reach s last

turn : {s : System} → Run s → ℕ × Env → Run s
turn {s} r (i, env) = made (step env r.last.pipe (r.last.pc i)) refl
  where
    made : (x : Result) → step env r.last.pipe (r.last.pc i) ≡ x → Run s
    made (next nx) e = record { last = apply r.last i nx; reach = later i env nx r.reach e }
    made blocked e = r
    made crash e = r

run : (s : System) → List (ℕ × Env) → Run s
unfolding turn step locked_part apply read_locked write_locked read_at write_at open_started initial
run s [] = record { last = s; reach = here }
run s (x ∷ xs) = turn (run s xs) x

-- Process 0 waits for data and falls asleep. The last turn stands first.
abbrev asleep_turns : List (ℕ × Env)
asleep_turns = (0, get 2) ∷ (0, get 2) ∷ (0, get 2) ∷ (0, get 2) ∷ (0, get 2) ∷ []

-- Process 1 then writes five bytes, of which three find room, and is about to wake process 0.
abbrev written_turns : List (ℕ × Env)
written_turns =
    (1, put (5 ∷ 6 ∷ 7 ∷ 8 ∷ 9 ∷ []))
    ∷ (1, put [])
    ∷ (1, put (5 ∷ 6 ∷ 7 ∷ 8 ∷ 9 ∷ []))
    ∷ asleep_turns

-- Process 0 wakes and reads two bytes.
abbrev read_turns : List (ℕ × Env)
read_turns = (0, get 2) ∷ (0, get 2) ∷ (0, get 2) ∷ (0, get 2) ∷ (1, put []) ∷ written_turns

abbrev waiting : Run (start device)
waiting = run (start device) asleep_turns

abbrev written : Run (start device)
written = run (start device) written_turns

abbrev finished : Run (start device)
finished = run (start device) read_turns

waiting-asleep : waiting.last.pc 0 ≡ asleep (reading 2 false)
unfolding run
waiting-asleep = refl

written-waking : written.last.pc 1 ≡ waking (writing (5 ∷ 6 ∷ 7 ∷ 8 ∷ 9 ∷ []) false) (ret 3)
unfolding run
written-waking = refl

finished_bytes :
    (finished.last.accepted ≡ 5 ∷ 6 ∷ 7 ∷ [])
    × (finished.last.delivered ≡ 5 ∷ 6 ∷ [])
    × (contents finished.last.pipe ≡ 7 ∷ [])
unfolding run contents
finished_bytes = (refl, refl, refl)

-- A second open of the device drops the byte that is stored.
reopened : contents (open_started 4 (0 ∷ 0 ∷ 0 ∷ 0 ∷ []) both finished.last.pipe) ≡ []
unfolding open_started contents
reopened = refl

fifo_example :
    (finished.last.accepted ≡ finished.last.delivered ++ contents finished.last.pipe)
    × (length (contents finished.last.pipe) < 4)
fifo_example = fifo device-Opened device-free finished.reach

mutual_exclusion_example :
    ((i j : ℕ) (c d : Call) → finished.last.pc i ≡ locked c → finished.last.pc j ≡ locked d → i ≡ j)
    × ((i : ℕ) (env : Env) → step env finished.last.pipe (finished.last.pc i) ≢ crash)
mutual_exclusion_example = mutual_exclusion device-Opened device-free finished.reach

no_lost_wakeup_example :
    (must_wait (reading 2 false) written.last.pipe ≡ true)
    ⊎ ((j : ℕ) × (d : Call) × (r : Reply) × (written.last.pc j ≡ waking d r)
        × (other d (reading 2 false) ≡ true))
unfolding run
no_lost_wakeup_example =
    no_lost_wakeup device-Opened device-free written.reach 0 (reading 2 false) refl

deadlock_free_example :
    ((c : Call) × (waiting.last.pc 0 ≡ asleep c) × (must_wait c waiting.last.pipe ≡ true))
    ⊎ ((j : ℕ) × Busy (waiting.last.pc j)
        × (nx : Next) × (step (get 1) waiting.last.pipe (waiting.last.pc j) ≡ next nx))
unfolding run
deadlock_free_example = deadlock_free device-Opened device-free waiting.reach (get 1) 0 refl

abbrev memory : Option (List ℕ)
memory = some (1 ∷ 2 ∷ 3 ∷ 4 ∷ [])

-- Three bytes round the end of a buffer of four.
abbrev ring : List ℕ
ring = 8 ∷ 0 ∷ 6 ∷ 7 ∷ []

abbrev wrapped : Pipe
wrapped = record {
  buffer = some ring;
  end = 4;
  buffersize = 4;
  rp = 2;
  wp = 1;
  nreaders = 1;
  nwriters = 1;
  async_queue = [];
  sem = 0;
}

abbrev wrapped-IsValid : IsValid ring wrapped
wrapped-IsValid = record {
  allocated = refl;
  sized = refl;
  ended = refl;
  rp_in = omega arith;
  wp_in = omega arith;
  small = omega arith;
}

read_locked-Read_example :
    (m : Moved) × (read_locked wrapped 9 false ≡ some m) × Read ring wrapped 9 m
read_locked-Read_example = read_locked-Read wrapped-IsValid 9 (ground arith)

write_locked-Written_example :
    (m : Moved) × (write_locked wrapped (1 ∷ []) copied ≡ some m) × Written ring wrapped (1 ∷ []) m
write_locked-Written_example = write_locked-Written wrapped-IsValid (1 ∷ [])

-- A device without buffer and one with a buffer: the block of both, and one buffer.
cleanup_run :
    scull_p_cleanup (record { region = true; devices = some (initial ∷ device ∷ []) })
    ≡ (2, nothing_held)
unfolding scull_p_cleanup initial open_started
cleanup_run = refl

-- The kernel takes a result other than 0 for a mistake.
init_run : (scull_p_init 4 true true).0 ≡ 4
unfolding scull_p_init
init_run = refl
