-- ===== src/Scull/Sound.antt =====
-- `scull_read` and `scull_write` of 7/main.c on a well-formed device.
use linux_homework.Base.{
  ℕ, ◌<◌, ◌≡◌, ◌⊎◌, inl, inr, Bool, Bool-cases, true, false, Option, none, some, List, [], ◌∷◌,
  arith, refl, replicate, set, length-replicate, length-set, min, ltb, ltb→lt, leb, Option-cases,
  get_elem?-some, ◌==◌, if◌then◌else◌, subst, sym, ◌∙◌,
}
use linux_homework.Scull.{Qset, Dev, ret, error, fault, nomem, Followed, scull_follow}
use linux_homework.Scull.Access.{
  Outcome, done, stray, wild, beyond, in_range, grown_size, item, s_pos, transfer, read_item,
  scull_read, write_quantum, write_item, scull_write,
}
use linux_homework.Scull.Place.{place_lem}
use linux_homework.Scull.Follow.{Extended, scull_follow-Extended}
use linux_homework.Scull.Valid.{
  Array, Items, IsValid, Items-append, Items-replicate, Items-set, Items-get_elem?,
  Quanta-replicate, Quanta-set,
}

abbrev pub SameSizes : Dev → Dev → Type 0
SameSizes d d' = (d'.size ≡ d.size) × (d'.quantum ≡ d.quantum) × (d'.qset ≡ d.qset)

-- How a read or write of `d` at `pos` may end: without a byte moved, with the device well-formed
-- and the position where it was, the size being `size` where it returns 0 and what it was else;
-- with a copy over the list of the items; or, where a number is out of range, not followed.
abbrev pub Sound : Dev → (size pos : ℕ) → Outcome → Type 0
Sound d size pos (done r d' p) =
    IsValid d'
    × (d'.quantum ≡ d.quantum)
    × (d'.qset ≡ d.qset)
    × (p ≡ pos)
    × (((r ≡ ret 0) × (d'.size ≡ size))
        ⊎ (((r ≡ error fault) ⊎ (r ≡ error nomem)) × (d'.size ≡ d.size)))
Sound d size pos (stray d' p n) = IsValid d' × SameSizes d d' × (p ≡ pos) × (0 < n)
Sound d size pos wild = ⊥
Sound d size pos beyond = in_range d pos ≡ false

transfer-Sound :
    (d d' : Dev) (size pos count moved : ℕ)
    → IsValid d'
    → SameSizes d d'
    → Sound d size pos (transfer d' size pos count moved)
unfolding transfer
transfer-Sound d d' size pos count moved v e = elim (Bool-cases (ltb 0 (min moved count))) [
  | inl h ↦ rw h (v, e, refl, omega (arith, ltb→lt 0 _ h))
  | inr h ↦ rw h (elim (Bool-cases (count == 0)) [
    | inl z ↦ rw z (
      record { quantum = v.quantum; qset = v.qset; items = v.items },
      e.1,
      e.2,
      refl,
      inl (refl, refl),
    )
    | inr z ↦ rw z (v, e.1, e.2, refl, inr (inl refl, e.0))
  ])
]

-- The items behind a walk.
pub followed-IsValid :
    {d : Dev} {f : Followed} {n : ℕ}
    → IsValid d
    → Extended n d.items f
    → IsValid (record d { items = f.items })
followed-IsValid {d} v x = record {
  quantum = v.quantum;
  qset = v.qset;
  items =
      subst (Items d.quantum d.qset) (sym x.kept) (
        Items-append d.quantum d.qset d.items _ v.items (Items-replicate d.quantum d.qset x.grown));
}

read_array-Sound :
    (d d' : Dev) (pos count moved : ℕ) (a : Option (List (Option ℕ)))
    → IsValid d'
    → SameSizes d d'
    → Array d'.quantum d'.qset a
    → Sound d d'.size pos (read_item d' pos count moved (some (record { array = a })))
unfolding read_item
read_array-Sound d d' pos count moved none v e w = (v, e.1, e.2, refl, inl (refl, refl))
read_array-Sound d d' pos count moved (some ps) v e (len, w) =
    let (_, in_range, _) = place_lem d' pos v.quantum v.qset in
    let (p, at) = get_elem?-some ps (s_pos d' pos) (omega (arith, in_range, len)) in
    elim (Option-cases p) [
      | inl z ↦ rw (read_item, at, z) (v, e.1, e.2, refl, inl (refl, refl))
      | inr (n, z) ↦ rw (read_item, at, z) (transfer-Sound d d' d'.size pos _ moved v e)
    ]

-- On a well-formed device, a read ends with 0 or an error and an unchanged position, or it copies
-- from the list of the items; it stays within the arrays and keeps the device well-formed and its
-- sizes.
pub scull_read-Sound :
    {d : Dev} (answers : List Bool) (pos count moved : ℕ)
    → IsValid d
    → Sound d d.size pos (scull_read d answers pos count moved)
unfolding scull_read
scull_read-Sound {d} answers pos count moved v = elim (Bool-cases (leb d.size pos)) [
  | inl h ↦ rw h (v, refl, refl, refl, inl (refl, refl))
  | inr h ↦ rw h (elim (Bool-cases (in_range d pos)) [
    | inr out ↦ rw out out
    | inl within ↦ rw within (elim (Bool-cases f.found) [
      | inr missing ↦ rw missing (w, refl, refl, refl, inl (refl, refl))
      | inl found ↦
          let (q, at, a) =
            Items-get_elem? d.quantum d.qset f.items (item d pos) w.items (x.enough found) in
          rw (found, at) (read_array-Sound d d' pos _ moved q.array w (refl, refl, refl) a)
    ])
  ])
]
  where
    f : Followed
    f = scull_follow (item d pos) answers d.items

    d' : Dev
    d' = record d { items = f.items }

    x : Extended (item d pos) d.items f
    x = scull_follow-Extended (item d pos) answers d.items

    w : IsValid d'
    w = followed-IsValid v x

-- The device with an array put in.
abbrev with_array : Dev → List Qset → ℕ → List (Option ℕ) → Dev
with_array d items pos ps = record d { items = set items (item d pos) (record { array = some ps }) }

array-IsValid :
    (d : Dev) (items : List Qset) (pos : ℕ) (ps : List (Option ℕ))
    → IsValid (record d { items = items })
    → Array d.quantum d.qset (some ps)
    → IsValid (with_array d items pos ps)
array-IsValid d items pos ps v w = record {
  quantum = v.quantum;
  qset = v.qset;
  items = Items-set d.quantum d.qset items (item d pos) (record { array = some ps }) v.items w;
}

-- An allocation that fails or succeeds.
answers-Sound :
    (d : Dev) (size pos : ℕ) (answers : List Bool) (o : Outcome) (go : List Bool → Outcome)
    → Sound d size pos o
    → ((rest : List Bool) → Sound d size pos (go rest))
    → Sound d size pos (elim answers [ [] ↦ o | a ∷ rest ↦ if a then go rest else o ])
answers-Sound d size pos [] o go v w = v
answers-Sound d size pos (true ∷ rest) o go v w = w rest
answers-Sound d size pos (false ∷ rest) o go v w = v

write_quantum-Sound :
    (d : Dev) (items : List Qset) (answers : List Bool) (pos count moved : ℕ) (ps : List (Option ℕ))
    → IsValid (record d { items = items })
    → Array d.quantum d.qset (some ps)
    → Sound d (grown_size d.size pos) pos (write_quantum d items answers pos count moved ps)
unfolding write_quantum
write_quantum-Sound d items answers pos count moved ps v (len, w) =
    let (_, in_range, _) = place_lem d pos v.quantum v.qset in
    let (p, at) = get_elem?-some ps (s_pos d pos) (omega (arith, in_range, len)) in
    elim (Option-cases p) [
      | inr (n, z) ↦
          rw (write_quantum, at, z)
            (transfer-Sound d (record d { items = items }) (grown_size d.size pos) pos _ moved v
              (refl, refl, refl))
      | inl z ↦
          rw (write_quantum, at, z)
            (answers-Sound d (grown_size d.size pos) pos answers _ _
              (v, refl, refl, refl, inr (inr refl, refl))
              (λ rest.
                transfer-Sound d (with_array d items pos (set ps (s_pos d pos) (some d.quantum)))
                  (grown_size d.size pos) pos _ moved
                  (array-IsValid d items pos (set ps (s_pos d pos) (some d.quantum)) v (
                    length-set ps (s_pos d pos) (some d.quantum) ∙ len,
                    Quanta-set d.quantum ps (s_pos d pos) w,
                  ))
                  (refl, refl, refl)))
    ]

write_array-Sound :
    (d : Dev) (items : List Qset) (answers : List Bool) (pos count moved : ℕ)
    (a : Option (List (Option ℕ)))
    → IsValid (record d { items = items })
    → Array d.quantum d.qset a
    → Sound d
        (grown_size d.size pos)
        pos
        (write_item d items answers pos count moved (some (record { array = a })))
unfolding write_item
write_array-Sound d items answers pos count moved (some ps) v w =
    write_quantum-Sound d items answers pos count moved ps v w
write_array-Sound d items answers pos count moved none v w =
    answers-Sound d (grown_size d.size pos) pos answers _ _
      (v, refl, refl, refl, inr (inr refl, refl))
      (λ rest.
        write_quantum-Sound d (with_array d items pos (replicate d.qset none)).items rest pos count
          moved (replicate d.qset none) (array-IsValid d items pos (replicate d.qset none) v new)
          new)
  where
    new : Array d.quantum d.qset (some (replicate d.qset none))
    new = (length-replicate d.qset none, Quanta-replicate d.quantum d.qset)

pub scull_write-Sound :
    {d : Dev} (answers : List Bool) (pos count moved : ℕ)
    → IsValid d
    → Sound d (if ltb d.size pos then pos else d.size) pos (scull_write d answers pos count moved)
unfolding scull_write
scull_write-Sound {d} answers pos count moved v = elim (Bool-cases (in_range d pos)) [
  | inr out ↦ rw out out
  | inl within ↦ rw within (elim (Bool-cases f.found) [
    | inr missing ↦ rw missing (w, refl, refl, refl, inr (inr refl, refl))
    | inl found ↦
        let (q, at, a) =
          Items-get_elem? d.quantum d.qset f.items (item d pos) w.items (x.enough found) in
        rw (found, at) (write_array-Sound d f.items f.answers pos count moved q.array w a)
  ])
]
  where
    f : Followed
    f = scull_follow (item d pos) answers d.items

    x : Extended (item d pos) d.items f
    x = scull_follow-Extended (item d pos) answers d.items

    w : IsValid (record d { items = f.items })
    w = followed-IsValid v x
