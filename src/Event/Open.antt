-- ===== src/Event/Open.antt =====
-- `sys_myevent_open` of myevent.c, and the calls for a number that no event has.
use linux_homework.Base.{
  ℕ, zero, suc, ◌+◌, ◌%◌, ◌^◌, ◌<◌, ◌≡◌, ◌≢◌, Option, true, false, some, [], ◌∷◌, ◌++◌, arith,
  length, refl, ◌==◌, ap, ◌∙◌, sym,
}
use linux_homework.Event.{
  Ptr, null, Myevent, Kernel, ok, write, fresh_event, returned, open_first, open_append, make_event,
  sys_myevent_open, sys_myevent_wait, sys_myevent_signal, sys_myevent_close, scheventnum,
}
use linux_homework.Event.Chain.{
  Cells, head_of, last_of, has_num, has, has-append, Chain, Chain-write, Chain-relink, Chain-tail,
  IsQueue, head-append, last-append,
}
use linux_homework.Event.Find.{load-ok, store-ok, scheventnum-absent}

open-absent :
    {s : Kernel} (k fresh num value : ℕ) {p : Ptr}
    → 0 < num
    → scheventnum k num s ≡ ok (null, p) s
    → sys_myevent_open k fresh num value s ≡ ok 0 s
unfolding sys_myevent_open
open-absent k fresh zero value pos gone = absurd (omega arith)
open-absent k fresh (suc n) value pos gone = rw gone

-- In a well-formed list, with fuel for its length, for a number that no event has, every call
-- returns 0 and changes nothing.
pub absent-zero :
    {s : Kernel} (xs : Cells) (k num : ℕ)
    → IsQueue s xs
    → has_num num xs ≡ false
    → length xs < k
    → ((pid : ℕ) → sys_myevent_wait k pid num s ≡ ok (returned 0) s)
      × (sys_myevent_signal k num s ≡ ok (0, []) s)
      × (sys_myevent_close k num s ≡ ok (0, []) s)
      × ((fresh value : ℕ) → 0 < num → sys_myevent_open k fresh num value s ≡ ok 0 s)
unfolding sys_myevent_wait sys_myevent_signal sys_myevent_close
absent-zero {s} xs k num q out fuel =
    (λ pid. rw gone, rw gone, rw gone, λ fresh value pos. open-absent k fresh num value pos gone)
  where
    gone : scheventnum k num s ≡ ok (null, last_of null xs) s
    gone = scheventnum-absent s k num xs q out fuel

-- The state behind the first branch and behind the second.
abbrev pub first_opened : Kernel → Ptr → ℕ → Kernel
first_opened s fresh value = record {
  cell = write s.cell fresh (some (fresh_event 2 value));
  head = fresh;
  end = fresh;
}

-- Opening with 0 on an empty list makes event 2, the only one, where the allocation succeeds.
pub open_first-IsQueue :
    {s : Kernel} (k : ℕ) (fresh value : ℕ)
    → IsQueue s []
    → fresh ≢ null
    → (sys_myevent_open k fresh 0 value s ≡ ok 2 (first_opened s fresh value))
      × IsQueue (first_opened s fresh value) ((fresh, fresh_event 2 value) ∷ [])
unfolding sys_myevent_open open_first make_event write
open_first-IsQueue {s} k fresh value q ne =
    let here : (fresh == null) ≡ false = ground arith in
    let empty : (s.head == null) ≡ true = ground (arith, q.head) in
    (
      rw (empty, here),
      record { head = refl; end = refl; chain = (ne, ground arith, refl, refl, tt) },
    )

abbrev pub appended : Kernel → Ptr → Ptr → Myevent → ℕ → Kernel
appended s a fresh e value = record {
  cell =
      write (write s.cell fresh (some (fresh_event ((e.event_num + 2) % 2 ^ 32) value))) a
        (some (record e { next = fresh }));
  head = s.head;
  end = fresh;
}

open_append-ok :
    (s : Kernel) (fresh value : ℕ) (e : Myevent)
    → fresh ≢ null
    → s.end ≢ null
    → s.cell s.end ≡ some e
    → s.end ≢ fresh
    → open_append fresh value s ≡ ok ((e.event_num + 2) % 2 ^ 32) (appended s s.end fresh e value)
unfolding open_append make_event
open_append-ok s fresh value e ne here at apart =
    let nonnull : (fresh == null) ≡ false = ground arith in
    rw (load-ok s s.end e here at, nonnull)
      (rw (
        store-ok (record s { cell = write s.cell fresh (some new) }) s.end e
          (record e { next = fresh }) here there))
  where
    new : Myevent
    new = fresh_event ((e.event_num + 2) % 2 ^ 32) value

    there : write s.cell fresh (some new) s.end ≡ some e
    there = unfold write in ground arith

head-ne-null :
    (h : Ptr → Option Myevent) (xs : Cells) (a : Ptr) (e : Myevent) (ys : Cells)
    → Chain h (xs ++ (a, e) ∷ ys)
    → head_of (xs ++ (a, e) ∷ ys) ≢ null
head-ne-null h [] a e ys l = l.0
head-ne-null h (x ∷ xs) a e ys l = l.0

-- Opening with 0 appends an event to a well-formed list, numbered two above the last one, where the
-- allocation gives an address that is not in the list.
pub open_append-IsQueue :
    {s : Kernel} (k : ℕ) (fresh value : ℕ) (xs : Cells) (a : Ptr) (e : Myevent)
    → IsQueue s (xs ++ (a, e) ∷ [])
    → fresh ≢ null
    → has fresh (xs ++ (a, e) ∷ []) ≡ false
    → (sys_myevent_open k fresh 0 value s
        ≡ ok ((e.event_num + 2) % 2 ^ 32) (appended s a fresh e value))
      × IsQueue (appended s a fresh e value) (
          xs
          ++ (a, record e { next = fresh })
            ∷ (fresh, fresh_event ((e.event_num + 2) % 2 ^ 32) value)
            ∷ [])
unfolding sys_myevent_open
open_append-IsQueue {s} k fresh value xs a e q ne out = (
  rw listed (
      open_append-ok s fresh value e ne (ground (arith, at_end, here)) (ap s.cell at_end ∙ at)
        (ground (arith, at_end, apart))
      ∙ ap (λ p. ok ((e.event_num + 2) % 2 ^ 32) (appended s p fresh e value)) at_end),
  record {
    head = q.head ∙ head-append xs a e (record e { next = fresh }) [] _;
    end = sym (last-append null xs a (record e { next = fresh }) _);
    chain =
        Chain-relink (write s.cell fresh (some new)) xs a e (record e { next = fresh }) []
          ((fresh, new) ∷ []) (Chain-write s.cell (xs ++ (a, e) ∷ []) fresh (some new) q.chain out)
          refl (ground (arith, apart)) (ne, unfold write in ground arith, refl, refl, tt)
          (λ b on. ground (arith, has-append fresh xs ((a, e) ∷ [])));
  },
)
  where
    new : Myevent
    new = fresh_event ((e.event_num + 2) % 2 ^ 32) value

    at : s.cell a ≡ some e
    at = (Chain-tail s.cell xs ((a, e) ∷ []) q.chain).1

    here : a ≢ null
    here = (Chain-tail s.cell xs ((a, e) ∷ []) q.chain).0

    at_end : s.end ≡ a
    at_end = q.end ∙ last-append null xs a e []

    apart : a ≢ fresh
    apart = ground (arith, has-append fresh xs ((a, e) ∷ []))

    listed : (s.head == null) ≡ false
    listed = ground (arith, q.head, head-ne-null s.cell xs a e [] q.chain)
