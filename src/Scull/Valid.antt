-- ===== src/Scull/Valid.antt =====
-- Well-formed devices of 7/main.c: every array has `qset` entries and every quantum `quantum`
-- bytes.
use linux_homework.Base.{
  ℕ, zero, suc, ◌+◌, ◌<◌, ◌≡◌, Option, none, some, List, [], ◌∷◌, ◌++◌, arith, length, refl,
  replicate, set, get_elem?, ◌>>=◌,
}
use linux_homework.Scull.{Qset, Dev, empty_qset, held, free_quanta, free_items, scull_trim}

abbrev pub Quanta : ℕ → List (Option ℕ) → Type 0
Quanta quantum [] = Unit {0}
Quanta quantum (none ∷ ps) = Quanta quantum ps
Quanta quantum (some n ∷ ps) = (n ≡ quantum) × Quanta quantum ps

abbrev pub Array : (quantum qset : ℕ) → Option (List (Option ℕ)) → Type 0
Array quantum qset none = Unit {0}
Array quantum qset (some ps) = (length ps ≡ qset) × Quanta quantum ps

abbrev pub Items : (quantum qset : ℕ) → List Qset → Type 0
Items quantum qset [] = Unit {0}
Items quantum qset (q ∷ qs) = Array quantum qset q.array × Items quantum qset qs

pub record IsValid (d : Dev) : Type 0 where
  pub quantum : 0 < d.quantum
  pub qset : 0 < d.qset
  pub items : Items d.quantum d.qset d.items

-- How many blocks are allocated.
abbrev pub array_blocks : Option (List (Option ℕ)) → ℕ
array_blocks none = 0
array_blocks (some ps) = 1 + held ps

abbrev pub blocks : List Qset → ℕ
blocks [] = 0
blocks (q ∷ qs) = 1 + array_blocks q.array + blocks qs

free_quanta-held :
    (n : ℕ) (ps : List (Option ℕ)) → length ps ≡ n → free_quanta n ps ≡ some (held ps)
unfolding free_quanta
free_quanta-held zero [] e = refl
free_quanta-held zero (p ∷ ps) e = absurd (omega (arith, e))
free_quanta-held (suc n) [] e = absurd (omega (arith, e))
free_quanta-held (suc n) (none ∷ ps) e = free_quanta-held n ps (omega (arith, e))
free_quanta-held (suc n) (some x ∷ ps) e = rw (free_quanta-held n ps (omega (arith, e))) refl

free_ptrs-blocks :
    (quantum qset : ℕ) (array : Option (List (Option ℕ)))
    → Array quantum qset array
    → (elim array [ none ↦ some 0 | some ps ↦ free_quanta qset ps >>= λ n. some (1 + n) ])
      ≡ some (array_blocks array)
free_ptrs-blocks quantum qset none v = refl
free_ptrs-blocks quantum qset (some ps) (len, v) = rw (free_quanta-held qset ps len) refl

free_items-blocks :
    (quantum qset : ℕ) (qs : List Qset)
    → Items quantum qset qs
    → free_items qset qs ≡ some (blocks qs)
unfolding free_items
free_items-blocks quantum qset [] v = refl
free_items-blocks quantum qset (q ∷ qs) (a, v) =
    rw (free_ptrs-blocks quantum qset q.array a, free_items-blocks quantum qset qs v) refl

-- Trimming a well-formed device frees every block that it has, stays inside the arrays, and leaves
-- an empty device with the sizes of the module parameters.
pub scull_trim-frees :
    (scull_quantum scull_qset : ℕ) (d : Dev)
    → IsValid d
    → scull_trim scull_quantum scull_qset d
      ≡ some (
        blocks d.items,
        record { items = []; quantum = scull_quantum; qset = scull_qset; size = 0 },
      )
unfolding scull_trim
scull_trim-frees scull_quantum scull_qset d v =
    rw (free_items-blocks d.quantum d.qset d.items v.items) refl

pub Items-append :
    (quantum qset : ℕ) (xs ys : List Qset)
    → Items quantum qset xs
    → Items quantum qset ys
    → Items quantum qset (xs ++ ys)
Items-append quantum qset [] ys v w = w
Items-append quantum qset (x ∷ xs) ys (a, v) w = (a, Items-append quantum qset xs ys v w)

pub Items-replicate : (quantum qset n : ℕ) → Items quantum qset (replicate n empty_qset)
Items-replicate quantum qset zero = tt
Items-replicate quantum qset (suc n) = (tt, Items-replicate quantum qset n)

pub Items-set :
    (quantum qset : ℕ) (xs : List Qset) (i : ℕ) (q : Qset)
    → Items quantum qset xs
    → Array quantum qset q.array
    → Items quantum qset (set xs i q)
Items-set quantum qset [] i q v w = tt
Items-set quantum qset (x ∷ xs) zero q (a, v) w = (w, v)
Items-set quantum qset (x ∷ xs) (suc i) q (a, v) w = (a, Items-set quantum qset xs i q v w)

pub Items-get_elem? :
    (quantum qset : ℕ) (xs : List Qset) (i : ℕ)
    → Items quantum qset xs
    → i < length xs
    → (q : Qset) × (get_elem? xs i ≡ some q) × Array quantum qset q.array
Items-get_elem? quantum qset [] i v h = absurd (omega (arith, h))
Items-get_elem? quantum qset (x ∷ xs) zero (a, v) h = (x, refl, a)
Items-get_elem? quantum qset (x ∷ xs) (suc i) (a, v) h =
    Items-get_elem? quantum qset xs i v (omega (arith, h))

pub Quanta-replicate : (quantum n : ℕ) → Quanta quantum (replicate n none)
Quanta-replicate quantum zero = tt
Quanta-replicate quantum (suc n) = Quanta-replicate quantum n

pub Quanta-set :
    (quantum : ℕ) (ps : List (Option ℕ)) (i : ℕ)
    → Quanta quantum ps
    → Quanta quantum (set ps i (some quantum))
Quanta-set quantum [] i v = tt
Quanta-set quantum (none ∷ ps) zero v = (refl, v)
Quanta-set quantum (some x ∷ ps) zero (e, v) = (refl, v)
Quanta-set quantum (none ∷ ps) (suc i) v = Quanta-set quantum ps i v
Quanta-set quantum (some x ∷ ps) (suc i) (e, v) = (e, Quanta-set quantum ps i v)
