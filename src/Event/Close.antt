-- ===== src/Event/Close.antt =====
-- `sys_myevent_close` of myevent.c of an event that is not the last one of the list.
use linux_homework.Base.{
  ℕ, ◌<◌, ◌≡◌, ◌≢◌, true, false, none, some, [], ◌∷◌, ◌++◌, arith, length, refl, ◌==◌, ap,
  append_assoc, subst, ◌∙◌, sym,
}
use linux_homework.Event.{
  Ptr, null, Myevent, Kernel, ok, write, unlink, release, scheventnum, sys_myevent_close,
}
use linux_homework.Event.Chain.{
  Cells, head_of, last_of, has_num, has, has-append, Chain, Chain-write, Chain-relink, Chain-tail,
  Chain-apart, IsQueue, head-append, last-append,
}
use linux_homework.Event.Find.{load-ok, store-ok, kfree-ok, scheventnum-found}

-- The state behind the unlinking, and the node freed.
abbrev pub freed : Kernel → Ptr → Kernel
freed s a = record s { cell = write s.cell a none }

release-ok :
    (s : Kernel) (a num : ℕ) (e : Myevent)
    → a ≢ null
    → s.cell a ≡ some e
    → release a num s ≡ ok (num, e.queue) (freed s a)
unfolding release
release-ok s a num e ne at = rw (load-ok s a e ne at) (rw (kfree-ok s a e ne at))

-- A close that finds its event unlinks it, frees it and wakes its queue.
pub close-ok :
    (s t : Kernel) (k num : ℕ) (a p : Ptr) (e : Myevent)
    → scheventnum k num s ≡ ok (a, p) s
    → a ≢ null
    → unlink a p s ≡ ok tt t
    → t.cell a ≡ some e
    → sys_myevent_close k num s ≡ ok (num, e.queue) (freed t a)
unfolding sys_myevent_close
close-ok s t k num a p e found ne cut at =
    let nonnull : (a == null) ≡ false = ground arith in
    rw (found, nonnull, cut) (release-ok t a num e ne at)

pub unlink-first :
    (s : Kernel) (a p : ℕ) (e : Myevent)
    → a ≢ s.end
    → s.head ≡ a
    → a ≢ null
    → s.cell a ≡ some e
    → unlink a p s ≡ ok tt (record s { head = e.next })
unfolding unlink
unlink-first s a p e last first ne at =
    let not_last : (a == s.end) ≡ false = ground arith in
    let is_first : (a == s.head) ≡ true = ground arith in
    rw (not_last, is_first) (rw (load-ok s s.head e (ground arith) (ap s.cell first ∙ at)))

last-has :
    (d : Ptr) (xs : Cells) (a : Ptr) (e : Myevent)
    → has (last_of d ((a, e) ∷ xs)) ((a, e) ∷ xs) ≡ true
last-has d [] a e = ground arith
last-has d ((b, f) ∷ xs) a e = ground (arith, last-has a xs b f)

-- A node that is not the last one is not `lpmyevent_end`.
pub ne-end :
    {s : Kernel} (xs : Cells) (a : Ptr) (e : Myevent) (b : Ptr) (f : Myevent) (ys : Cells)
    → IsQueue s (xs ++ (a, e) ∷ (b, f) ∷ ys)
    → a ≢ s.end
ne-end {s} xs a e b f ys q =
    let (ne, at, nx, off, l) = Chain-tail s.cell xs ((a, e) ∷ (b, f) ∷ ys) q.chain in
    ground (arith, off, q.end, last-append null xs a e ((b, f) ∷ ys), last-has a ys b f)

-- In a well-formed list, with fuel, closing the first of several events unlinks it and frees it,
-- and wakes the processes on its queue.
pub close-first :
    {s : Kernel} (k num : ℕ) (a : Ptr) (e : Myevent) (b : Ptr) (f : Myevent) (ys : Cells)
    → IsQueue s ((a, e) ∷ (b, f) ∷ ys)
    → e.event_num ≡ num
    → 0 < k
    → (sys_myevent_close k num s ≡ ok (num, e.queue) (freed (record s { head = b }) a))
      × IsQueue (freed (record s { head = b }) a) ((b, f) ∷ ys)
      × ((freed (record s { head = b }) a).cell a ≡ none)
unfolding write
close-first {s} k num a e b f ys q is fuel =
    let (ne, at, nx, off, l) = q.chain in
    (
      close-ok s (record s { head = b }) k num a null e
          (scheventnum-found s k num [] a e ((b, f) ∷ ys) q refl is fuel) ne
          (unlink-first s a null e (ne-end [] a e b f ys q) q.head ne at
            ∙ ap (λ p. ok tt (record s { head = p })) nx)
          at,
      record { head = refl; end = q.end; chain = Chain-write s.cell ((b, f) ∷ ys) a none l off },
      ground arith,
    )

-- The state behind the unlinking of the node behind `p`.
abbrev pub bypassed : Kernel → Ptr → Myevent → Ptr → Kernel
bypassed s p f b = record s { cell = write s.cell p (some (record f { next = b })) }

unlink-middle :
    (s : Kernel) (p : Ptr) (f : Myevent) (a : Ptr) (e : Myevent)
    → a ≢ s.end
    → a ≢ s.head
    → a ≢ null
    → s.cell a ≡ some e
    → p ≢ null
    → s.cell p ≡ some f
    → unlink a p s ≡ ok tt (bypassed s p f e.next)
unfolding unlink
unlink-middle s p f a e last first ne at here on =
    let not_last : (a == s.end) ≡ false = ground arith in
    let not_first : (a == s.head) ≡ false = ground arith in
    rw (not_last, not_first)
      (rw (load-ok s a e ne at)
        (rw (load-ok s p f here on) (store-ok s p f (record f { next = e.next }) here on)))

-- A search passes over the node before the one that it finds.
last-snoc : (d : Ptr) (xs : Cells) (p : Ptr) (f : Myevent) → last_of d (xs ++ (p, f) ∷ []) ≡ p
last-snoc d xs p f = last-append d xs p f []

head-has :
    (xs : Cells) (p : Ptr) (f : Myevent) (ys : Cells)
    → has (head_of (xs ++ (p, f) ∷ ys)) (xs ++ (p, f) ∷ []) ≡ true
head-has [] p f ys = ground arith
head-has ((b, g) ∷ xs) p f ys = ground arith

-- In a well-formed list, with fuel for the way, closing an event between two others takes it out of
-- the list, frees it and wakes the processes on its queue; the other events keep their order.
pub close-middle :
    {s : Kernel} (k num : ℕ) (xs : Cells) (p : Ptr) (f : Myevent) (a : Ptr) (e : Myevent) (b : Ptr)
    (g : Myevent) (ys : Cells)
    → IsQueue s (xs ++ (p, f) ∷ (a, e) ∷ (b, g) ∷ ys)
    → has_num num (xs ++ (p, f) ∷ []) ≡ false
    → e.event_num ≡ num
    → length (xs ++ (p, f) ∷ []) < k
    → (sys_myevent_close k num s ≡ ok (num, e.queue) (freed (bypassed s p f b) a))
      × IsQueue (freed (bypassed s p f b) a) (xs ++ (p, record f { next = b }) ∷ (b, g) ∷ ys)
      × ((freed (bypassed s p f b) a).cell a ≡ none)
unfolding write
close-middle {s} k num xs p f a e b g ys q out is fuel = (
  close-ok s (bypassed s p f b) k num a p e
      (scheventnum-found s k num (xs ++ (p, f) ∷ []) a e ((b, g) ∷ ys) regrouped out is fuel
        ∙ ap (λ v. ok (a, v) s) (last-snoc null xs p f))
      ne
      (unlink-middle s p f a e (ne-end (xs ++ (p, f) ∷ []) a e b g ys regrouped) not_head ne at here
          on
        ∙ ap (λ v. ok tt (bypassed s p f v)) nx)
      (ground (arith, at, off_p)),
  record {
    head = q.head ∙ head-append xs p f (record f { next = b }) _ _;
    end =
        q.end
        ∙ last-append null xs p f ((a, e) ∷ (b, g) ∷ ys)
        ∙ sym (last-append null xs p (record f { next = b }) ((b, g) ∷ ys));
    chain =
        Chain-write (bypassed s p f b).cell (xs ++ (p, record f { next = b }) ∷ (b, g) ∷ ys) a none
          (Chain-relink s.cell xs p f (record f { next = b }) _ ((b, g) ∷ ys) q.chain refl
            (ground (arith, off_p)) l
            (λ c in_xs. ground (arith, Chain-apart s.cell c xs _ q.chain in_xs)))
          (ground (
            arith,
            has-append a xs ((p, record f { next = b }) ∷ (b, g) ∷ ys),
            off_xs,
            off_p,
            off_a,
          ));
  },
  ground arith,
)
  where
    regrouped : IsQueue s ((xs ++ (p, f) ∷ []) ++ (a, e) ∷ (b, g) ∷ ys)
    regrouped = subst (IsQueue s) (sym (append_assoc xs ((p, f) ∷ []) ((a, e) ∷ (b, g) ∷ ys))) q

    cells : Chain s.cell ((p, f) ∷ (a, e) ∷ (b, g) ∷ ys)
    cells = Chain-tail s.cell xs ((p, f) ∷ (a, e) ∷ (b, g) ∷ ys) q.chain

    here : p ≢ null
    here = cells.0

    on : s.cell p ≡ some f
    on = cells.1

    tail : Chain s.cell ((a, e) ∷ (b, g) ∷ ys)
    tail = cells.4

    ne : a ≢ null
    ne = tail.0

    at : s.cell a ≡ some e
    at = tail.1

    nx : e.next ≡ b
    nx = tail.2

    l : Chain s.cell ((b, g) ∷ ys)
    l = tail.4

    off_p : has p ((a, e) ∷ (b, g) ∷ ys) ≡ false
    off_p = cells.3

    off_a : has a ((b, g) ∷ ys) ≡ false
    off_a = tail.3

    off_xs : has a xs ≡ false
    off_xs = ground (arith, Chain-apart s.cell a xs ((p, f) ∷ (a, e) ∷ (b, g) ∷ ys) q.chain)

    not_head : a ≢ s.head
    not_head same = ground (
      arith,
      head-has xs p f ((a, e) ∷ (b, g) ∷ ys),
      has-append a xs ((p, f) ∷ []),
      off_xs,
      off_p,
      q.head,
      same,
    )
