-- ===== src/Event/Find.antt =====
-- `scheventNum` of myevent.c: the first event with the number, and the node before it.
use linux_homework.Base.{
  ap, ◌∙◌, ℕ, zero, suc, ◌<◌, ◌≡◌, ◌≢◌, false, none, some, [], ◌∷◌, ◌++◌, arith, length, refl,
}
use linux_homework.Event.{
  Ptr, null, Myevent, Kernel, ok, load, find_from, scheventnum, store, kfree, write, Cmd, ◌>>=◌,
}
use linux_homework.Event.Chain.{Cells, head_of, last_of, has_num, Chain, IsQueue}

-- One round of `do`.
pub bind-ok :
    {A B : Type 0} (m : Cmd A) (f : A → Cmd B) {s t : Kernel} {a : A}
    → m s ≡ ok a t
    → (m >>= f) s ≡ f a t
bind-ok m f e = rw e

module _ (s : Kernel) where
  pub store-ok :
      (a : Ptr) (e f : Myevent)
      → a ≢ null
      → s.cell a ≡ some e
      → store a f s ≡ ok tt (record s { cell = write s.cell a (some f) })
  unfolding store
  store-ok a e f ne at = ground arith

  pub kfree-ok :
      (a : Ptr) (e : Myevent)
      → a ≢ null
      → s.cell a ≡ some e
      → kfree a s ≡ ok tt (record s { cell = write s.cell a none })
  unfolding kfree
  kfree-ok a e ne at = ground arith

  pub load-ok : (a : Ptr) (e : Myevent) → a ≢ null → s.cell a ≡ some e → load a s ≡ ok e s
  unfolding load
  load-ok a e ne at = ground arith

  find_from-found :
      (k num : ℕ) (prev : Ptr) (xs : Cells) (a : Ptr) (e : Myevent) (ys : Cells)
      → Chain s.cell (xs ++ (a, e) ∷ ys)
      → has_num num xs ≡ false
      → e.event_num ≡ num
      → length xs < k
      → find_from k num prev (head_of (xs ++ (a, e) ∷ ys)) s ≡ ok (a, last_of prev xs) s
  unfolding find_from
  find_from-found zero num prev xs a e ys l out is fuel = absurd (omega arith)
  find_from-found (suc k) num prev [] a e ys (ne, at, nx, off, l) out is fuel =
      ground (arith, load-ok a e ne at)
  find_from-found (suc k) num prev ((b, f) ∷ xs) a e ys (ne, at, nx, off, l) out is fuel =
      ground (arith, load-ok b f ne at, find_from-found k num b xs a e ys l)

  find_from-absent :
      (k num : ℕ) (prev : Ptr) (xs : Cells)
      → Chain s.cell xs
      → has_num num xs ≡ false
      → length xs < k
      → find_from k num prev (head_of xs) s ≡ ok (null, last_of prev xs) s
  unfolding find_from
  find_from-absent zero num prev xs l out fuel = absurd (omega arith)
  find_from-absent (suc k) num prev [] l out fuel = refl
  find_from-absent (suc k) num prev ((b, f) ∷ xs) (ne, at, nx, off, l) out fuel =
      ground (arith, load-ok b f ne at, find_from-absent k num b xs l)

  -- The first event with the number is found, with the node before it.
  pub scheventnum-found :
      (k num : ℕ) (xs : Cells) (a : Ptr) (e : Myevent) (ys : Cells)
      → IsQueue s (xs ++ (a, e) ∷ ys)
      → has_num num xs ≡ false
      → e.event_num ≡ num
      → length xs < k
      → scheventnum k num s ≡ ok (a, last_of null xs) s
  unfolding scheventnum
  scheventnum-found k num xs a e ys q out is fuel =
      ap (λ p. find_from k num null p s) q.head
      ∙ find_from-found k num null xs a e ys q.chain out is fuel

  pub scheventnum-absent :
      (k num : ℕ) (xs : Cells)
      → IsQueue s xs
      → has_num num xs ≡ false
      → length xs < k
      → scheventnum k num s ≡ ok (null, last_of null xs) s
  unfolding scheventnum
  scheventnum-absent k num xs q out fuel =
      ap (λ p. find_from k num null p s) q.head ∙ find_from-absent k num null xs q.chain out fuel
