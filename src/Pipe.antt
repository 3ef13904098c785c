-- ===== src/Pipe.antt =====
-- 7/pipe/scull_pipe.c: `struct scull_pipe` and the bodies of its file operations that run with the
-- device semaphore held. A pointer into the buffer is its offset from `buffer`. An `int` that is
-- only counted up and down is its 32-bit pattern; a `size_t` is a number below 2 ^ 64.
pub mod Contents
pub mod Valid
pub mod Queue
pub mod Fault
pub mod Open
pub mod Poll
pub mod Module
mod Tests
pub mod Threads
use linux_homework.Base.{
  ℕ, ◌+◌, ◌-◌, ◌%◌, ◌^◌, Bool, true, false, ◌&&◌, Option, none, some, List, [], ◌++◌, min, ltb, leb,
  ◌==◌, if◌then◌else◌, length, take, drop, replicate,
}

-- The error codes that the handlers return.
pub data Errno : Type 0 where
  restartsys again fault nomem : Errno

-- What a system call returns: a count, or `-errno`.
pub data Reply : Type 0 where
  ret : ℕ → Reply
  error : Errno → Reply

-- `buffer` is `none` for NULL. The wait queues are the states of the waiting processes, see
-- Threads.
pub record Pipe : Type 0 where
  pub buffer : Option (List ℕ)
  pub end : ℕ
  pub buffersize : ℕ
  pub rp : ℕ
  pub wp : ℕ
  pub nreaders : ℕ
  pub nwriters : ℕ
  pub async_queue : List ℕ
  pub sem : ℕ

-- `f_mode` and the `O_NONBLOCK` bit of `f_flags`, and the file's identity.
pub record File : Type 0 where
  pub id : ℕ
  pub reads : Bool
  pub writes : Bool
  pub nonblock : Bool

abbrev pub size_max : ℕ
size_max = 2 ^ 64

-- `(size_t)(p - q)` for two pointers into the buffer.
abbrev pub ptr_diff : ℕ → ℕ → ℕ
ptr_diff p q = (p + size_max - q) % size_max

-- The bytes `[i, i + n)`; `none` if they are not all inside the buffer.
unfoldable pub read_at : Option (List ℕ) → ℕ → ℕ → Option (List ℕ)
read_at none i n = none
read_at (some l) i n = if leb (i + n) (length l) then some (take n (drop i l)) else none

-- Overwrites from `i`; `none` if that goes beyond the buffer.
unfoldable pub write_at : Option (List ℕ) → ℕ → List ℕ → Option (List ℕ)
write_at none i ys = none
write_at (some l) i ys =
    if leb (i + length ys) (length l)
    then some (take i l ++ (ys ++ drop (i + length ys) l))
    else none

-- How much space is free, as the `size_t` that the callers take it for.
unfoldable pub spacefree : Pipe → ℕ
spacefree p =
    if p.rp == p.wp
    then ptr_diff p.buffersize 1
    else ptr_diff ((p.rp + p.buffersize - p.wp) % p.buffersize) 1

-- The count that a read is cut to, at most one run of bytes up to `end`.
unfoldable pub read_count : Pipe → ℕ → ℕ
read_count p count =
    if ltb p.rp p.wp then min count (ptr_diff p.wp p.rp) else min count (ptr_diff p.end p.rp)

-- `dev->rp += count`, wrapped at the end.
unfoldable pub advance : Pipe → ℕ → ℕ → ℕ
advance p at count = if at + count == p.end then 0 else at + count

-- What a handler's locked part leaves: its reply, the device, and the bytes moved.
pub record Moved : Type 0 where
  pub reply : Reply
  pub pipe : Pipe
  pub bytes : List ℕ

-- `scull_p_read` from the test of `wp > rp` on, up to `up`. `faulted` says that `copy_to_user`
-- fails. `none` is an access outside the buffer.
unfoldable pub read_locked : Pipe → ℕ → Bool → Option Moved
unfolding read_count advance
read_locked p count faulted =
    let n = read_count p count in
    let moved = λ (ys : List ℕ).
      if faulted
      then some (record { reply = error fault; pipe = p; bytes = [] })
      else some (record { reply = ret n; pipe = record p { rp = advance p p.rp n }; bytes = ys }) in
    elim (read_at p.buffer p.rp n) [ none ↦ none | some ys ↦ moved ys ]

-- The count that a write is cut to.
unfoldable pub write_count : Pipe → ℕ → ℕ
write_count p count =
    let n = min count (spacefree p) in
    if leb p.rp p.wp then min n (ptr_diff p.end p.wp) else min n (ptr_diff p.rp (p.wp + 1))

-- How `copy_from_user` ends: it copies all, or it fails and leaves some bytes at the destination.
pub data Copy : Type 0 where
  copied : Copy
  left : List ℕ → Copy

-- `scull_p_write` from `count = min(...)` on, up to `up`; `count` is the length of `src`.
unfoldable pub write_locked : Pipe → List ℕ → Copy → Option Moved
unfolding write_count spacefree advance
write_locked p src copied =
    let ys = take (write_count p (length src)) src in
    let n = length ys in
    elim (write_at p.buffer p.wp ys) [
      | none ↦ none
      | some b ↦ some (record {
        reply = ret n;
        pipe = record p { buffer = some b; wp = advance p p.wp n };
        bytes = ys;
      })
    ]
write_locked p src (left junk) =
    elim (write_at p.buffer p.wp (take (write_count p (length src)) junk)) [
      | none ↦ none
      | some b ↦
          some (record { reply = error fault; pipe = record p { buffer = some b }; bytes = [] })
    ]

-- 32-bit `++` and `--`.
abbrev pub inc : ℕ → ℕ
inc n = (n + 1) % 2 ^ 32

abbrev pub dec : ℕ → ℕ
dec n = (n + 2 ^ 32 - 1) % 2 ^ 32

-- `scull_p_open` behind the allocation, with the buffer `b`.
unfoldable pub open_started : ℕ → List ℕ → File → Pipe → Pipe
open_started scull_p_buffer b f p = record p {
  buffer = some b;
  buffersize = scull_p_buffer;
  end = scull_p_buffer;
  rp = 0;
  wp = 0;
  nreaders = if f.reads then inc p.nreaders else p.nreaders;
  nwriters = if f.writes then inc p.nwriters else p.nwriters;
}

-- `scull_p_open` with the semaphore held. `scull_p_buffer` is the module parameter; `fresh` is what
-- `kmalloc` returns for it.
unfoldable pub open_locked : ℕ → Option (List ℕ) → File → Pipe → Reply × Pipe
unfolding open_started
open_locked scull_p_buffer fresh f p = elim p.buffer [
  | some b ↦ (ret 0, open_started scull_p_buffer b f p)
  | none ↦ elim fresh [
    | none ↦ (error nomem, p)
    | some b ↦ (ret 0, open_started scull_p_buffer b f p)
  ]
]

-- `scull_p_release` with the semaphore held; `unregister` is `fasync_helper(-1, filp, 0)` on the
-- queue of asynchronous readers.
unfoldable pub release_locked : (ℕ → List ℕ → List ℕ) → File → Pipe → Pipe
release_locked unregister f p =
    let nr = if f.reads then dec p.nreaders else p.nreaders in
    let nw = if f.writes then dec p.nwriters else p.nwriters in
    record p {
      async_queue = unregister f.id p.async_queue;
      nreaders = nr;
      nwriters = nw;
      buffer = if (nr + nw) % 2 ^ 32 == 0 then none else p.buffer;
    }

-- `scull_p_poll`: readable (POLLIN | POLLRDNORM) and writable (POLLOUT | POLLWRNORM).
unfoldable pub poll : Pipe → Bool × Bool
poll p = (if p.rp == p.wp then false else true, if spacefree p == 0 then false else true)

-- A device as `scull_p_init` leaves it: zeroed, its semaphore free.
unfoldable pub initial : Pipe
initial = record {
  buffer = none;
  end = 0;
  buffersize = 0;
  rp = 0;
  wp = 0;
  nreaders = 0;
  nwriters = 0;
  async_queue = [];
  sem = 1;
}
