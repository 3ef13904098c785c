-- ===== src/First.antt =====
-- 6/kernel/myevent.c: the first event calls, whose events have no value, over the memory, the
-- search, the making of events and the unlinking of Event, which are the same there; the field
-- `value` of a node is not read. A sleeper is not exclusive: it joins the queue in front, and a
-- wake-up takes all of them off.
pub mod Lost
mod Tests
use linux_homework.Base.{ℕ, List, [], ◌∷◌, ◌==◌, if◌then◌else◌}
use linux_homework.Event.{
  Ptr, null, Myevent, Cmd, pure, ◌>>=◌, ◌>>◌, load, store, kfree, scheventnum, unlink, Waited,
  returned, sleeps, sys_myevent_open as open_valued,
}

-- `sys_myevent_open`; `fresh` is what `kmalloc` returns.
unfoldable pub sys_myevent_open : ℕ → Ptr → (event_num : ℕ) → Cmd ℕ
sys_myevent_open k fresh event_num = open_valued k fresh event_num 0

-- `sys_myevent_wait` of the process `pid`, up to `schedule`.
unfoldable pub sys_myevent_wait : ℕ → (pid event_num : ℕ) → Cmd Waited
sys_myevent_wait k pid event_num = do
  (tmp, prev) ← scheventnum k event_num
  if tmp == null
      then pure (returned 0)
      else (load tmp >>= λ e. store tmp (record e { queue = pid ∷ e.queue }) >> pure (sleeps tmp))

-- `sys_myevent_signal`: its result, and the processes that it wakes.
unfoldable pub sys_myevent_signal : ℕ → ℕ → Cmd (ℕ × List ℕ)
sys_myevent_signal k event_num = do
  (tmp, prev) ← scheventnum k event_num
  if tmp == null
      then pure (0, [])
      else (load tmp >>= λ e. store tmp (record e { queue = [] }) >> pure (event_num, e.queue))

-- `sys_myevent_close`: its result, and the processes that it wakes by the signal to the number.
unfoldable pub sys_myevent_close : ℕ → ℕ → Cmd (ℕ × List ℕ)
sys_myevent_close k event_num = do
  (item, prev) ← scheventnum k event_num
  if item == null
      then pure (0, [])
      else (unlink item prev >> sys_myevent_signal k event_num >>= λ answer.
          kfree item >> pure (event_num, answer.1))
