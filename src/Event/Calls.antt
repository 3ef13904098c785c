-- ===== src/Event/Calls.antt =====
-- `sys_myevent_wait` and `sys_myevent_signal` of myevent.c on a well-formed event list.
use linux_homework.Base.{
  Bool-cases, inl, inr, ℕ, ◌-◌, ◌<◌, ◌≡◌, ◌≢◌, true, false, some, [], ◌∷◌, ◌++◌, arith, length,
  ◌==◌, if◌then◌else◌, ◌∙◌, sym,
}
use linux_homework.Event.{
  Ptr, null, Myevent, Kernel, ok, write, is_positive, dec, returned, sleeps, wait_on,
  sys_myevent_wait, signalled, signal_on, sys_myevent_signal,
}
use linux_homework.Event.Chain.{
  Cells, has_num, Chain-relink, Chain-tail, Chain-apart, IsQueue, head-append, last-append,
}
use linux_homework.Event.Find.{store-ok, load-ok, scheventnum-found}

-- A counting semaphore: taking a unit or joining the queue, and giving a unit or waking the first.
unfoldable pub waited : ℕ → Myevent → Myevent
waited pid e =
    if is_positive e.value
    then record e { value = e.value - 1 }
    else record e { queue = e.queue ++ pid ∷ [] }

next-waited : (pid : ℕ) (e : Myevent) → (waited pid e).next ≡ e.next
unfolding waited
next-waited pid e = ground arith

dec-positive : (v : ℕ) → is_positive v ≡ true → dec v ≡ v - 1
dec-positive v h = ground arith

module _ {s : Kernel} (xs : Cells) (a : Ptr) (e : Myevent) (ys : Cells)
    (q : IsQueue s (xs ++ (a, e) ∷ ys)) where
  cell-at : (a ≢ null) × (s.cell a ≡ some e)
  cell-at = let (ne, at, nx, off, l) = Chain-tail s.cell xs ((a, e) ∷ ys) q.chain in (ne, at)

  pub IsQueue-replace :
      (f : Myevent)
      → f.next ≡ e.next
      → IsQueue (record s { cell = write s.cell a (some f) }) (xs ++ (a, f) ∷ ys)
  IsQueue-replace f same =
      let (ne, at, nx, off, l) = Chain-tail s.cell xs ((a, e) ∷ ys) q.chain in
      record {
        head = q.head ∙ head-append xs a e f ys ys;
        end = q.end ∙ last-append null xs a e ys ∙ sym (last-append null xs a f ys);
        chain =
            Chain-relink s.cell xs a e f ys ys q.chain (same ∙ nx) off l
              (λ b on. ground (arith, Chain-apart s.cell b xs ((a, e) ∷ ys) q.chain on));
      }

  module _ (k num : ℕ) (out : has_num num xs ≡ false) (is : e.event_num ≡ num)
      (fuel : length xs < k) where
    not_null : (a == null) ≡ false
    not_null = let (ne, at) = cell-at in ground arith

    wait_on-ok :
        (pid : ℕ)
        → wait_on a pid num s
          ≡ ok
              (if is_positive e.value then returned num else sleeps a)
              (record s { cell = write s.cell a (some (waited pid e)) })
    unfolding wait_on waited
    wait_on-ok pid =
        let (ne, at) = cell-at in
        rw (load-ok s a e ne at) (elim (Bool-cases (is_positive e.value)) [
          | inl p ↦ rw (p, dec-positive e.value p, store-ok s a e _ ne at)
          | inr p ↦ rw (p, store-ok s a e _ ne at)
        ])

    pub sys_myevent_wait-found :
        (pid : ℕ)
        → (sys_myevent_wait k pid num s
            ≡ ok
                (if is_positive e.value then returned num else sleeps a)
                (record s { cell = write s.cell a (some (waited pid e)) }))
          × IsQueue
              (record s { cell = write s.cell a (some (waited pid e)) })
              (xs ++ (a, waited pid e) ∷ ys)
    unfolding sys_myevent_wait
    sys_myevent_wait-found pid = (
      rw (scheventnum-found s k num xs a e ys q out is fuel, not_null) (wait_on-ok pid),
      IsQueue-replace (waited pid e) (next-waited pid e),
    )

    signal_on-ok :
        signal_on a num s
        ≡ ok (num, (signalled e).1) (record s { cell = write s.cell a (some (signalled e).0) })
    unfolding signal_on
    signal_on-ok =
        let (ne, at) = cell-at in
        rw (load-ok s a e ne at) (rw (store-ok s a e (signalled e).0 ne at))

    pub sys_myevent_signal-found :
        (sys_myevent_signal k num s
          ≡ ok (num, (signalled e).1) (record s { cell = write s.cell a (some (signalled e).0) }))
        × IsQueue
            (record s { cell = write s.cell a (some (signalled e).0) })
            (xs ++ (a, (signalled e).0) ∷ ys)
    unfolding sys_myevent_signal
    sys_myevent_signal-found =
        let (ne, at) = cell-at in
        (
          rw (scheventnum-found s k num xs a e ys q out is fuel, not_null) signal_on-ok,
          IsQueue-replace (signalled e).0 (ground arith),
        )
