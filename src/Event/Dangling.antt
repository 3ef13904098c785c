-- ===== src/Event/Dangling.antt =====
-- `sys_myevent_close` of myevent.c of the last event of the list: of the freed node, the list keeps
-- a pointer.
use linux_homework.Base.{
  ℕ, zero, suc, ◌<◌, ◌≡◌, true, false, none, [], ◌∷◌, ◌++◌, arith, length, ◌==◌, ap, ◌∙◌,
}
use linux_homework.Event.{
  Ptr, null, Myevent, Kernel, ok, fault, write, unlink, load, find_from, scheventnum,
  sys_myevent_wait, sys_myevent_signal, sys_myevent_close,
}
use linux_homework.Event.Chain.{
  Cells, head_of, last_of, has_num, has-append, Chain, Chain-tail, IsQueue, last-append,
}
use linux_homework.Event.Close.{freed, close-ok}
use linux_homework.Event.Find.{scheventnum-found}

-- The list behind a close of the last event: the node is gone, the pointer to it is not.
abbrev pub dangling : Kernel → Cells → Ptr → Kernel
dangling s xs a = freed (record s { end = last_of null xs }) a

search-dangling :
    (s : Kernel) (k num : ℕ) (prev : Ptr) (xs : Cells) (a : Ptr) (e : Myevent) (last : Ptr)
    → Chain s.cell (xs ++ (a, e) ∷ [])
    → has_num num xs ≡ false
    → length xs < k
    → find_from k num prev
        (head_of (xs ++ (a, e) ∷ []))
        (record s { cell = write s.cell a none; end = last })
      ≡ fault
unfolding find_from load write
search-dangling s zero num prev xs a e last l out fuel = absurd (omega arith)
search-dangling s (suc k) num prev [] a e last (ne, at, nx, off, l) out fuel = ground arith
search-dangling s (suc k) num prev ((b, f) ∷ xs) a e last (ne, at, nx, off, l) out fuel =
    ground (arith, has-append b xs ((a, e) ∷ []), search-dangling s k num b xs a e last l)

scheventnum-dangling :
    (s : Kernel) (xs : Cells) (a : Ptr) (e : Myevent) (k m : ℕ)
    → IsQueue s (xs ++ (a, e) ∷ [])
    → has_num m xs ≡ false
    → length xs < k
    → scheventnum k m (dangling s xs a) ≡ fault
unfolding scheventnum
scheventnum-dangling s xs a e k m q out fuel =
    ap (λ p. find_from k m null p (dangling s xs a)) q.head
    ∙ search-dangling s k m null xs a e (last_of null xs) q.chain out fuel

unlink-last : (s : Kernel) (a p : Ptr) → s.end ≡ a → unlink a p s ≡ ok tt (record s { end = p })
unfolding unlink
unlink-last s a p last = let is_last : (a == s.end) ≡ true = ground arith in rw is_last

-- Closing the last event of a well-formed list, with fuel for the way, returns as if all were well,
-- but leaves the pointer to the freed node in the list: from then on, every wait, signal and close
-- of a number that none of the other events has reads freed memory.
pub close-last-dangles :
    {s : Kernel} (k num : ℕ) (xs : Cells) (a : Ptr) (e : Myevent)
    → IsQueue s (xs ++ (a, e) ∷ [])
    → has_num num xs ≡ false
    → e.event_num ≡ num
    → length xs < k
    → (sys_myevent_close k num s ≡ ok (num, e.queue) (dangling s xs a))
      × ((m pid : ℕ)
          → has_num m xs ≡ false
          → (sys_myevent_wait k pid m (dangling s xs a) ≡ fault)
            × (sys_myevent_signal k m (dangling s xs a) ≡ fault)
            × (sys_myevent_close k m (dangling s xs a) ≡ fault))
unfolding sys_myevent_wait sys_myevent_signal sys_myevent_close
close-last-dangles {s} k num xs a e q out is fuel =
    let (ne, at, nx, off, l) = Chain-tail s.cell xs ((a, e) ∷ []) q.chain in
    (
      close-ok s (record s { end = last_of null xs }) k num a (last_of null xs) e
          (scheventnum-found s k num xs a e [] q out is fuel) ne
          (unlink-last s a (last_of null xs) (q.end ∙ last-append null xs a e [])) at,
      λ m pid free.
          let broken : scheventnum k m (dangling s xs a) ≡ fault =
            scheventnum-dangling s xs a e k m q free fuel in
          (rw broken, rw broken, rw broken),
    )
