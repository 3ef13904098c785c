-- ===== src/Snippt/Close.antt =====
-- `sys_myevent_close` of snippt2.c of the first of several events.
use linux_homework.Base.{
  ℕ, ◌<◌, ◌≡◌, ◌≢◌, false, none, some, [], ◌∷◌, arith, length, refl, ◌==◌, ap, ◌∙◌,
}
use linux_homework.Event.{Ptr, null, Myevent, Kernel, ok, write, unlink, scheventnum}
use linux_homework.Event.Chain.{Cells, has_num, Chain-write, IsQueue}
use linux_homework.Event.Find.{kfree-ok, scheventnum-found, scheventnum-absent}
use linux_homework.Event.Close.{freed, unlink-first, ne-end}
use linux_homework.Snippt.{sys_myevent_signal, sys_myevent_close}

signal-absent :
    (s : Kernel) (k num p : ℕ)
    → scheventnum k num s ≡ ok (null, p) s
    → sys_myevent_signal k num s ≡ ok (0, []) s
unfolding sys_myevent_signal
signal-absent s k num p absent = rw (absent) refl

close-ok :
    (s t : Kernel) (k num : ℕ) (a p r : Ptr) (e : Myevent)
    → scheventnum k num s ≡ ok (a, p) s
    → a ≢ null
    → unlink a p s ≡ ok tt t
    → scheventnum k num t ≡ ok (null, r) t
    → t.cell a ≡ some e
    → sys_myevent_close k num s ≡ ok (num, []) (freed t a)
unfolding sys_myevent_close
close-ok s t k num a p r e found ne cut absent at =
    let nonnull : (a == null) ≡ false = ground arith in
    rw (found, nonnull, cut) (rw (signal-absent t k num r absent) (rw (kfree-ok t a e ne at) refl))

-- In a well-formed list, with fuel, closing the first of several events, the only one with its
-- number, unlinks it and frees it, but wakes none of the processes on its queue: the signal is to
-- a number that is no longer there.
pub close-first_silent :
    {s : Kernel} (k num : ℕ) (a : Ptr) (e : Myevent) (b : Ptr) (f : Myevent) (ys : Cells)
    → IsQueue s ((a, e) ∷ (b, f) ∷ ys)
    → e.event_num ≡ num
    → has_num num ((b, f) ∷ ys) ≡ false
    → length ((b, f) ∷ ys) < k
    → (sys_myevent_close k num s ≡ ok (num, []) (freed (record s { head = b }) a))
      × IsQueue (freed (record s { head = b }) a) ((b, f) ∷ ys)
      × ((freed (record s { head = b }) a).cell a ≡ none)
unfolding write
close-first_silent {s} k num a e b f ys q is alone fuel =
    let (ne, at, nx, off, l) = q.chain in
    let behind : IsQueue (record s { head = b }) ((b, f) ∷ ys) = record {
      head = refl;
      end = q.end;
      chain = l;
    } in
    (
      close-ok s (record s { head = b }) k num a null _ e
          (scheventnum-found s k num [] a e ((b, f) ∷ ys) q refl is (ground (arith, fuel))) ne
          (unlink-first s a null e (ne-end [] a e b f ys q) q.head ne at
            ∙ ap (λ p. ok tt (record s { head = p })) nx)
          (scheventnum-absent (record s { head = b }) k num ((b, f) ∷ ys) behind alone fuel) at,
      record { head = refl; end = q.end; chain = Chain-write s.cell ((b, f) ∷ ys) a none l off },
      ground arith,
    )
