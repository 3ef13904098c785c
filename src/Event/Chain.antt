-- ===== src/Event/Chain.antt =====
-- The event list of myevent.c: a chain of distinct nodes from `lpmyevent_head` to NULL, whose last
-- one is `lpmyevent_end`.
use linux_homework.Base.{
  ℕ, ◌≡◌, ◌≢◌, Bool, true, false, ◌||◌, Option, some, List, [], ◌∷◌, ◌++◌, arith, ◌==◌, refl, ◌∙◌,
}
use linux_homework.Event.{Ptr, null, Myevent, Kernel, write}

-- Addresses and events in the order of the list.
abbrev pub Cells : Type 0
Cells = List (Ptr × Myevent)

-- The address of the first node, and that of the last one, `d` and NULL if there is none.
abbrev pub head_of : Cells → Ptr
head_of [] = null
head_of ((a, e) ∷ xs) = a

abbrev pub last_of : Ptr → Cells → Ptr
last_of d [] = d
last_of d ((a, e) ∷ xs) = last_of a xs

abbrev pub has : Ptr → Cells → Bool
has a [] = false
has a ((b, e) ∷ xs) = (b == a) || has a xs

abbrev pub has_num : ℕ → Cells → Bool
has_num n [] = false
has_num n ((b, e) ∷ xs) = (e.event_num == n) || has_num n xs

abbrev pub Chain : (Ptr → Option Myevent) → Cells → Type 0
Chain h [] = Unit {0}
Chain h ((a, e) ∷ xs) =
    (a ≢ null) × (h a ≡ some e) × (e.next ≡ head_of xs) × (has a xs ≡ false) × Chain h xs

pub record IsQueue (s : Kernel) (xs : Cells) : Type 0 where
  pub head : s.head ≡ head_of xs
  pub end : s.end ≡ last_of null xs
  pub chain : Chain s.cell xs

pub head-append :
    (xs : Cells) (a : Ptr) (e f : Myevent) (ys zs : Cells)
    → head_of (xs ++ (a, e) ∷ ys) ≡ head_of (xs ++ (a, f) ∷ zs)
head-append [] a e f ys zs = refl
head-append (x ∷ xs) a e f ys zs = refl

pub last-append :
    (d : Ptr) (xs : Cells) (a : Ptr) (e : Myevent) (ys : Cells)
    → last_of d (xs ++ (a, e) ∷ ys) ≡ last_of a ys
last-append d [] a e ys = refl
last-append d ((b, f) ∷ xs) a e ys = last-append b xs a e ys

pub has-append : (b : Ptr) (xs ys : Cells) → has b (xs ++ ys) ≡ (has b xs || has b ys)
has-append b [] ys = refl
has-append b ((c, f) ∷ xs) ys = ground (arith, has-append b xs ys)

module _ (h : Ptr → Option Myevent) where
  -- A write elsewhere leaves a chain alone.
  pub Chain-write :
      (xs : Cells) (a : Ptr) (c : Option Myevent)
      → Chain h xs
      → has a xs ≡ false
      → Chain (write h a c) xs
  unfolding write
  Chain-write [] a c l out = tt
  Chain-write ((b, e) ∷ xs) a c (ne, at, nx, off, l) out =
      (ne, ground arith, nx, off, Chain-write xs a c l (ground arith))

  pub Chain-tail : (xs ys : Cells) → Chain h (xs ++ ys) → Chain h ys
  Chain-tail [] ys l = l
  Chain-tail (x ∷ xs) ys (ne, at, nx, off, l) = Chain-tail xs ys l

  -- The nodes of a chain are distinct.
  pub Chain-apart :
      (b : Ptr) (xs ys : Cells) → Chain h (xs ++ ys) → has b xs ≡ true → has b ys ≡ false
  Chain-apart b [] ys l on = cc
  Chain-apart b ((c, f) ∷ xs) ys (ne, at, nx, off, l) on =
      ground (arith, has-append c xs ys, Chain-apart b xs ys l)

  -- A node in the middle of a chain may change and lead on to another chain.
  pub Chain-relink :
      (xs : Cells) (a : Ptr) (e f : Myevent) (ys zs : Cells)
      → Chain h (xs ++ (a, e) ∷ ys)
      → f.next ≡ head_of zs
      → has a zs ≡ false
      → Chain h zs
      → ((b : Ptr) → has b xs ≡ true → has b zs ≡ false)
      → Chain (write h a (some f)) (xs ++ (a, f) ∷ zs)
  unfolding write
  Chain-relink [] a e f ys zs (ne, at, nx, off, l) to out m apart =
      (ne, ground arith, to, out, Chain-write zs a (some f) m out)
  Chain-relink ((b, g) ∷ xs) a e f ys zs (ne, at, nx, off, l) to out m apart = (
    ne,
    ground (arith, has-append b xs ((a, e) ∷ ys)),
    nx ∙ head-append xs a e f ys zs,
    ground (arith, has-append b xs ((a, e) ∷ ys), has-append b xs ((a, f) ∷ zs), apart b),
    Chain-relink xs a e f ys zs l to out m (λ c on. apart c (ground arith)),
  )
