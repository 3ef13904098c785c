-- ===== src/First/Lost.antt =====
-- What a sequence of waits and signals on one event of the first myevent.c comes to.
use linux_homework.Base.{ℕ, ◌<◌, ◌≡◌, false, some, List, [], ◌∷◌, ◌++◌, arith, length, refl, ◌==◌}
use linux_homework.Event.{Ptr, null, Myevent, Kernel, Cmd, ok, pure, ◌>>=◌, write}
use linux_homework.Event.Chain.{Cells, has_num, IsQueue, Chain-tail}
use linux_homework.Event.Find.{load-ok, store-ok, scheventnum-found}
use linux_homework.Event.Calls.{IsQueue-replace}
use linux_homework.Event.Semaphore.{Op, wait, signal}
use linux_homework.First.{sys_myevent_wait, sys_myevent_signal}

abbrev pub apply : (k event_num : ℕ) → Op → Cmd (List ℕ)
apply k event_num (wait pid) = do w ← sys_myevent_wait k pid event_num; pure []
apply k event_num signal = do (result, woken) ← sys_myevent_signal k event_num; pure woken

-- A sequence of calls: the processes that are woken, in their order.
unfoldable pub session : (k event_num : ℕ) → List Op → Cmd (List ℕ)
session k event_num [] = pure []
session k event_num (op ∷ ops) = do
  woken ← apply k event_num op
  wokens ← session k event_num ops
  pure (woken ++ wokens)

-- Who sleeps at the end, and who is woken, where a signal wakes all that came before it and is then
-- forgotten.
abbrev pub asleep : (queue : List ℕ) → List Op → List ℕ
asleep queue [] = queue
asleep queue (wait pid ∷ ops) = asleep (pid ∷ queue) ops
asleep queue (signal ∷ ops) = asleep [] ops

abbrev pub woken_by : (queue : List ℕ) → List Op → List ℕ
woken_by queue [] = []
woken_by queue (wait pid ∷ ops) = woken_by (pid ∷ queue) ops
woken_by queue (signal ∷ ops) = queue ++ woken_by [] ops

asleep_last :
    (queue : List ℕ) (ops : List Op) (pid : ℕ)
    → asleep queue (ops ++ wait pid ∷ []) ≡ pid ∷ asleep queue ops
asleep_last queue [] pid = refl
asleep_last queue (wait q ∷ ops) pid = asleep_last (q ∷ queue) ops pid
asleep_last queue (signal ∷ ops) pid = asleep_last [] ops pid

module _ (k num : ℕ) (xs : Cells) (a : Ptr) (ys : Cells) (out : has_num num xs ≡ false)
    (fuel : length xs < k) where
  abbrev at_queue : Kernel → Myevent → List ℕ → Kernel
  at_queue s e queue = record s { cell = write s.cell a (some (record e { queue = queue })) }

  wait-ok :
      {s : Kernel} (e : Myevent) (pid : ℕ)
      → IsQueue s (xs ++ (a, e) ∷ ys)
      → e.event_num ≡ num
      → apply k num (wait pid) s ≡ ok [] (at_queue s e (pid ∷ e.queue))
  unfolding sys_myevent_wait
  wait-ok {s} e pid q is =
      let (ne, at, nx, off, l) = Chain-tail s.cell xs ((a, e) ∷ ys) q.chain in
      let not_null : (a == null) ≡ false = ground arith in
      rw (scheventnum-found s k num xs a e ys q out is fuel, not_null, load-ok s a e ne at)
        (rw (store-ok s a e (record e { queue = pid ∷ e.queue }) ne at) refl)

  signal-ok :
      {s : Kernel} (e : Myevent)
      → IsQueue s (xs ++ (a, e) ∷ ys)
      → e.event_num ≡ num
      → apply k num signal s ≡ ok e.queue (at_queue s e [])
  unfolding sys_myevent_signal
  signal-ok {s} e q is =
      let (ne, at, nx, off, l) = Chain-tail s.cell xs ((a, e) ∷ ys) q.chain in
      let not_null : (a == null) ≡ false = ground arith in
      rw (scheventnum-found s k num xs a e ys q out is fuel, not_null, load-ok s a e ne at)
        (rw (store-ok s a e (record e { queue = [] }) ne at) refl)

  -- What a command on the event leaves.
  abbrev pub Leaves : Kernel → Myevent → Cmd (List ℕ) → (woken queue : List ℕ) → Type 0
  Leaves s e m woken queue =
      (t : Kernel) × (m s ≡ ok woken t) × IsQueue t (xs ++ (a, record e { queue = queue }) ∷ ys)

  session-asleep :
      (e : Myevent) (ops : List Op) {s : Kernel}
      → IsQueue s (xs ++ (a, e) ∷ ys)
      → e.event_num ≡ num
      → Leaves s e (session k num ops) (woken_by e.queue ops) (asleep e.queue ops)
  unfolding session
  session-asleep e [] {s} q is = (s, refl, q)
  session-asleep e (wait pid ∷ ops) {s} q is =
      let (t, ran, kept) =
        session-asleep (record e { queue = pid ∷ e.queue }) ops
          (IsQueue-replace xs a e ys q (record e { queue = pid ∷ e.queue }) refl) is in
      (t, rw (wait-ok e pid q is, ran) refl, kept)
  session-asleep e (signal ∷ ops) {s} q is =
      let (t, ran, kept) =
        session-asleep (record e { queue = [] }) ops
          (IsQueue-replace xs a e ys q (record e { queue = [] }) refl) is in
      (t, rw (signal-ok e q is, ran) refl, kept)

  -- On an event of a well-formed list, with fuel for the search, a sequence of calls leaves the
  -- list well formed; each signal wakes all that sleep and leaves nothing, so that the processes
  -- asleep are those that came behind the last signal. A process that waits at the end sleeps,
  -- however many signals came before it.
  pub session-Leaves :
      (e : Myevent) (ops : List Op) (pid : ℕ) {s : Kernel}
      → IsQueue s (xs ++ (a, e) ∷ ys)
      → e.event_num ≡ num
      → Leaves s e (session k num ops) (woken_by e.queue ops) (asleep e.queue ops)
        × Leaves s e
            (session k num (ops ++ wait pid ∷ []))
            (woken_by e.queue (ops ++ wait pid ∷ []))
            (pid ∷ asleep e.queue ops)
  session-Leaves e ops pid q is = (
    session-asleep e ops q is,
    rw (← asleep_last e.queue ops pid) (session-asleep e (ops ++ wait pid ∷ []) q is),
  )
