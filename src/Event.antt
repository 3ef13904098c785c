-- ===== src/Event.antt =====
-- 6/kernel/modified/myevent.c: events as system calls, a counting semaphore each, kept in a singly
-- linked list of kmalloc'd nodes. The functions follow the C over an explicit memory; an access at
-- NULL or at a freed address is a fault. `int` and `atomic_t` values are their 32-bit patterns.
pub mod Chain
pub mod Find
pub mod Open
pub mod Close
pub mod Dangling
pub mod Semaphore
mod Tests
pub mod Calls
use linux_homework.Base.{
  ℕ, zero, suc, ◌+◌, ◌-◌, ◌%◌, ◌^◌, Bool, true, false, ◌&&◌, Option, none, some, List, [], ◌∷◌,
  ◌++◌, ltb, ◌==◌, if◌then◌else◌,
}

abbrev pub Ptr : Type 0
Ptr = ℕ

abbrev pub null : Ptr
null = 0

-- `myevent_t`: `queue` is the list of the processes that wait on `p`, in the order of their
-- arrival.
pub record Myevent : Type 0 where
  pub event_num : ℕ
  pub value : ℕ
  pub queue : List ℕ
  pub next : Ptr

-- The memory of the nodes, `lpmyevent_head` and `lpmyevent_end`.
pub record Kernel : Type 0 where
  pub cell : Ptr → Option Myevent
  pub head : Ptr
  pub end : Ptr

-- How a piece of kernel code runs.
pub data Run (A : Type 0) : Type 0 where
  ok : A → Kernel → Run A
  fault : Run A
  out_of_fuel : Run A

abbrev pub Cmd : Type 0 → Type 0
Cmd A = Kernel → Run A

abbrev pub pure : {A : Type 0} → A → Cmd A
pure a s = ok a s

-- What follows a run: the rest, unless it has ended.
abbrev pub resume : {A B : Type 0} → (A → Cmd B) → Run A → Run B
resume f (ok a s) = f a s
resume f fault = fault
resume f out_of_fuel = out_of_fuel

infixl 5 ◌>>=◌ ◌>>◌
abbrev pub ◌>>=◌ : {A B : Type 0} → Cmd A → (A → Cmd B) → Cmd B
m >>= f = λ s. resume f (m s)

abbrev pub ◌>>◌ : {B : Type 0} → Cmd (Unit {0}) → Cmd B → Cmd B
m >> k = m >>= λ _. k

unfoldable pub write : (Ptr → Option Myevent) → Ptr → Option Myevent → Ptr → Option Myevent
write h p c q = if q == p then c else h q

-- `*p`, the write of the node at `p`, and `kfree`.
unfoldable pub load : Ptr → Cmd Myevent
load p s = if p == null then fault else elim (s.cell p) [ none ↦ fault | some e ↦ ok e s ]

unfoldable pub store : Ptr → Myevent → Cmd (Unit {0})
store p e s = if p == null then fault else elim (s.cell p) [
  | none ↦ fault
  | some old ↦ ok tt (record s { cell = write s.cell p (some e) })
]

unfoldable pub kfree : Ptr → Cmd (Unit {0})
kfree p s = if p == null then fault else elim (s.cell p) [
  | none ↦ fault
  | some old ↦ ok tt (record s { cell = write s.cell p none })
]

abbrev pub get : Cmd Kernel
get s = ok s s

abbrev pub set_head : Ptr → Cmd (Unit {0})
set_head p s = ok tt (record s { head = p })

abbrev pub set_end : Ptr → Cmd (Unit {0})
set_end p s = ok tt (record s { end = p })

-- The loop of `scheventNum`: the node found, NULL if there is none, and `*prev`.
unfoldable pub find_from : ℕ → ℕ → (prev tmp : Ptr) → Cmd (Ptr × Ptr)
find_from zero num prev tmp = λ s. out_of_fuel
find_from (suc k) num prev tmp =
    if tmp == null
    then pure (null, prev)
    else load tmp >>= λ e.
        if e.event_num == num then pure (tmp, prev) else find_from k num tmp e.next

-- `scheventNum`; `k` bounds the rounds of the loop.
unfoldable pub scheventnum : ℕ → ℕ → Cmd (Ptr × Ptr)
scheventnum k num = do s ← get; find_from k num null s.head

-- The new node of `sys_myevent_open` where `kmalloc` returned it: its fields are set one by one.
unfoldable pub make_event : Ptr → Myevent → Cmd (Unit {0})
make_event fresh e s =
    if fresh == null then fault else ok tt (record s { cell = write s.cell fresh (some e) })

abbrev pub fresh_event : ℕ → ℕ → Myevent
fresh_event num value = record { event_num = num; value = value; queue = []; next = null }

-- The two branches that make an event: the first one, and one behind the last.
unfoldable pub open_first : Ptr → ℕ → Cmd ℕ
open_first fresh value = do
  make_event fresh (fresh_event 2 value)
  set_head fresh
  set_end fresh
  pure 2

unfoldable pub open_append : Ptr → ℕ → Cmd ℕ
open_append fresh value = do
  s ← get
  last ← load s.end
  make_event fresh (fresh_event ((last.event_num + 2) % 2 ^ 32) value)
  store s.end (record last { next = fresh })
  set_end fresh
  pure ((last.event_num + 2) % 2 ^ 32)

-- `sys_myevent_open(eventNum, value)`; `fresh` is what `kmalloc` returns, which is not tested.
unfoldable pub sys_myevent_open : ℕ → Ptr → (event_num value : ℕ) → Cmd ℕ
sys_myevent_open k fresh zero value = do
  s ← get
  if s.head == null then open_first fresh value else open_append fresh value
sys_myevent_open k fresh (suc n) value = do
  (item, prev) ← scheventnum k (suc n)
  pure (if item == null then 0 else suc n)

-- `atomic_read(...) > 0`
abbrev pub is_positive : ℕ → Bool
is_positive v = ltb 0 v && ltb v (2 ^ 31)

abbrev pub inc : ℕ → ℕ
inc v = (v + 1) % 2 ^ 32

abbrev pub dec : ℕ → ℕ
dec v = (v + 2 ^ 32 - 1) % 2 ^ 32

-- What `sys_myevent_wait` has come to: it returned, or the process sleeps on the event's queue.
pub data Waited : Type 0 where
  returned : ℕ → Waited
  sleeps : (tmp : Ptr) → Waited

-- `sys_myevent_wait` of the process `pid`, up to `schedule`.
unfoldable pub wait_on : Ptr → (pid event_num : ℕ) → Cmd Waited
wait_on tmp pid event_num = do
  e ← load tmp
  if is_positive e.value
      then (store tmp (record e { value = dec e.value }) >> pure (returned event_num))
      else (store tmp (record e { queue = e.queue ++ pid ∷ [] }) >> pure (sleeps tmp))

unfoldable pub sys_myevent_wait : ℕ → (pid event_num : ℕ) → Cmd Waited
sys_myevent_wait k pid event_num = do
  (tmp, prev) ← scheventnum k event_num
  if tmp == null then pure (returned 0) else wait_on tmp pid event_num

-- `sys_myevent_wait` behind `schedule`: `finish_wait` takes the process off the queue where it is
-- still on it, and the value is read once more to be printed.
abbrev pub without : ℕ → List ℕ → List ℕ
without pid [] = []
without pid (q ∷ qs) = if q == pid then qs else q ∷ without pid qs

unfoldable pub wait_resumed : Ptr → (pid event_num : ℕ) → Cmd ℕ
wait_resumed tmp pid event_num = do
  e ← load tmp
  store tmp (record e { queue = without pid e.queue })
  pure event_num

-- `sys_myevent_signal`: its result, and the processes that it wakes.
abbrev pub signalled : Myevent → Myevent × List ℕ
signalled e = elim e.queue [
  | [] ↦ (record e { value = inc e.value }, [])
  | pid ∷ rest ↦ (record e { queue = rest }, pid ∷ [])
]

unfoldable pub signal_on : Ptr → ℕ → Cmd (ℕ × List ℕ)
signal_on tmp event_num = do
  e ← load tmp
  store tmp (signalled e).0
  pure (event_num, (signalled e).1)

unfoldable pub sys_myevent_signal : ℕ → ℕ → Cmd (ℕ × List ℕ)
sys_myevent_signal k event_num = do
  (tmp, prev) ← scheventnum k event_num
  if tmp == null then pure (0, []) else signal_on tmp event_num

-- The unlinking in `sys_myevent_close`: of the last event, of the first, of one in between.
unfoldable pub unlink : (item prev : Ptr) → Cmd (Unit {0})
unlink item prev = do
  s ← get
  if item == s.end
      then set_end prev
      else if item == s.head
      then (load s.head >>= λ first. set_head first.next)
      else load item >>= λ e. load prev >>= λ before. store prev (record before { next = e.next })

-- `wake_up_all` and `kfree`.
unfoldable pub release : Ptr → ℕ → Cmd (ℕ × List ℕ)
release item event_num = do e ← load item; kfree item; pure (event_num, e.queue)

-- `sys_myevent_close`: its result, and the processes that it wakes.
unfoldable pub sys_myevent_close : ℕ → ℕ → Cmd (ℕ × List ℕ)
sys_myevent_close k event_num = do
  (item, prev) ← scheventnum k event_num
  if item == null then pure (0, []) else (unlink item prev >> release item event_num)
