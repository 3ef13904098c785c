-- ===== src/Snippt.antt =====
-- 6/kernel/snippt2.c: the event calls before those of 6/kernel/modified/myevent.c, over the
-- memory, the search and the unlinking of Event. A sleeper is not exclusive: it joins the queue in
-- front, and a wake-up takes all of them off.
pub mod Session
pub mod Close
mod Tests
use linux_homework.Base.{ℕ, Bool, true, false, List, [], ◌∷◌, if◌then◌else◌, ◌==◌}
use linux_homework.Event.{
  Ptr, null, Myevent, Cmd, pure, ◌>>=◌, ◌>>◌, load, store, kfree, scheventnum, unlink, is_positive,
  inc, dec, Waited, returned, sleeps,
}

-- `sys_myevent_wait` of the process `pid`, up to `schedule`: with a unit left it returns 0, as it
-- does where there is no such event.
unfoldable pub wait_on : Ptr → (pid : ℕ) → Cmd Waited
wait_on tmp pid = do
  e ← load tmp
  if is_positive e.value
      then (store tmp (record e { value = dec e.value }) >> pure (returned 0))
      else (store tmp (record e { queue = pid ∷ e.queue }) >> pure (sleeps tmp))

unfoldable pub sys_myevent_wait : ℕ → (pid event_num : ℕ) → Cmd Waited
unfolding wait_on
sys_myevent_wait k pid event_num = do
  (tmp, prev) ← scheventnum k event_num
  if tmp == null then pure (returned 0) else wait_on tmp pid

-- `sys_myevent_signal`: its result, and the processes that it wakes.
unfoldable pub signal_on : Ptr → ℕ → Cmd (ℕ × List ℕ)
signal_on tmp event_num = do
  e ← load tmp
  store tmp (record e { value = inc e.value; queue = [] })
  pure (event_num, e.queue)

unfoldable pub sys_myevent_signal : ℕ → ℕ → Cmd (ℕ × List ℕ)
unfolding signal_on
sys_myevent_signal k event_num = do
  (tmp, prev) ← scheventnum k event_num
  if tmp == null then pure (0, []) else signal_on tmp event_num

-- `sys_myevent_close`: its result, and the processes that it wakes by the signal to the number.
unfoldable pub sys_myevent_close : ℕ → ℕ → Cmd (ℕ × List ℕ)
unfolding sys_myevent_signal
sys_myevent_close k event_num = do
  (item, prev) ← scheventnum k event_num
  if item == null
      then pure (0, [])
      else (unlink item prev >> sys_myevent_signal k event_num >>= λ answer.
          kfree item >> pure (event_num, answer.1))
