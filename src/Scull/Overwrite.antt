-- ===== src/Scull/Overwrite.antt =====
-- `scull_write` of 7/main.c where all allocations succeed: what it copies, and where to.
use linux_homework.Base.{
  ℕ, suc, ◌+◌, ◌-◌, ◌*◌, ◌^◌, ◌<◌, ◌≤◌, ◌≡◌, ◌≢◌, inl, inr, true, Option, none, some, List, arith,
  length, refl, replicate, get_elem?, length-replicate, min, lt→ltb, Option-cases, get_elem?-some,
  ap, ◌∙◌,
}
use linux_homework.Scull.{Qset, Dev, Followed, scull_follow}
use linux_homework.Scull.Access.{
  Outcome, stray, in_range, item, s_pos, q_pos, transfer, to_quantum_end, write_limit,
  write_quantum, write_item, scull_write,
}
use linux_homework.Scull.Place.{place_lem}
use linux_homework.Scull.Follow.{Extended, scull_follow-Extended, Succeeds, scull_follow-Succeeds}
use linux_homework.Scull.Valid.{Array, IsValid, Items-get_elem?}
use linux_homework.Scull.Sound.{followed-IsValid}

-- A copy of `n` bytes over the list of the items.
abbrev pub Overwrites : (pos n : ℕ) → Outcome → Type 0
Overwrites pos n o = (d : Dev) × (o ≡ stray d pos n)

transfer-Overwrites :
    (d : Dev) (size pos count moved : ℕ)
    → 0 < min moved count
    → Overwrites pos (min moved count) (transfer d size pos count moved)
unfolding transfer
transfer-Overwrites d size pos count moved h = (d, rw (lt→ltb 0 (min moved count) h) refl)

module _ (d : Dev) (pos count moved : ℕ) (quantum : 0 < d.quantum) (qset : 0 < d.qset)
    (some_bytes : 0 < min moved (write_limit d pos count)) where
  write_quantum-Overwrites :
      (items : List Qset) (j : ℕ) (ps : List (Option ℕ))
      → length ps ≡ d.qset
      → Overwrites pos
          (min moved (write_limit d pos count))
          (write_quantum d items (replicate (suc j) true) pos count moved ps)
  unfolding write_quantum
  write_quantum-Overwrites items j ps len =
      let (_, in_range, _) = place_lem d pos quantum qset in
      let (p, at) = get_elem?-some ps (s_pos d pos) (omega (arith, in_range, len)) in
      elim (Option-cases p) [
        | inl z ↦ rw (write_quantum, at, z) (transfer-Overwrites _ _ pos _ moved some_bytes)
        | inr (n, z) ↦ rw (write_quantum, at, z) (transfer-Overwrites _ _ pos _ moved some_bytes)
      ]

  write_item-Overwrites :
      (items : List Qset) (j : ℕ) (a : Option (List (Option ℕ)))
      → Array d.quantum d.qset a
      → Overwrites pos (min moved (write_limit d pos count)) (
          write_item d items
            (replicate (suc (suc j)) true)
            pos
            count
            moved
            (some (record { array = a })))
  unfolding write_item
  write_item-Overwrites items j none w =
      write_quantum-Overwrites _ j (replicate d.qset none) (length-replicate d.qset none)
  write_item-Overwrites items j (some ps) (len, w) = write_quantum-Overwrites items (suc j) ps len

-- On a well-formed device, where the allocations succeed, a write of some bytes at a position other
-- than 16 copies bytes over the list of the items. The limit is, up to position 15, what is asked
-- for and fits up to SCULL_DATA_SIZE and the end of the quantum, and behind 16 it is 2^32 less the
-- distance to 16; `moved`, which is not 0, bounds what the copy
-- moves. The position and the product of the sizes are below 2^31, the entries of an array below
-- 2^30.
pub scull_write-Overwrites :
    {d : Dev} (pos count moved m : ℕ)
    → IsValid d
    → item d pos + 3 ≤ m
    → 0 < count
    → 0 < moved
    → pos < 2 ^ 31
    → d.quantum * d.qset < 2 ^ 31
    → d.qset < 2 ^ 30
    → pos ≢ 16
    → Overwrites pos
        (min moved (write_limit d pos count))
        (scull_write d (replicate m true) pos count moved)
      × (0 < write_limit d pos count)
      × (pos < 16 → write_limit d pos count ≡ min (to_quantum_end d pos count) (16 - pos))
      × (16 < pos → write_limit d pos count + pos ≡ 2 ^ 32 + 16)
unfolding scull_write in_range
scull_write-Overwrites {d} pos count moved m v fuel some_count some_moved low product narrow ne = (
  rw (within, found, at, answers)
      (write_item-Overwrites d pos count moved v.quantum v.qset
        (omega (arith, positive, some_moved)) f.items (succeeds.1.0 - 2) q.array a),
  positive,
  λ h. ground (arith, in_quantum),
  λ h. ground (arith, in_quantum),
)
  where
    within : in_range d pos ≡ true
    within = ground (arith, low, product, narrow)

    f : Followed
    f = scull_follow (item d pos) (replicate m true) d.items

    succeeds : Succeeds 2 f
    succeeds = scull_follow-Succeeds (item d pos) 2 m d.items (omega (arith, fuel))

    x : Extended (item d pos) d.items f
    x = scull_follow-Extended (item d pos) (replicate m true) d.items

    in_quantum : q_pos d pos < d.quantum
    in_quantum = (place_lem d pos v.quantum v.qset).2

    positive : 0 < write_limit d pos count
    positive = ground (arith, in_quantum)

    found : f.found ≡ true
    found = succeeds.0

    answers : f.answers ≡ replicate (suc (suc (succeeds.1.0 - 2))) true
    answers =
        let two_left : succeeds.1.0 ≡ suc (suc (succeeds.1.0 - 2)) = omega (arith, succeeds.1.1) in
        succeeds.1.2 ∙ ap (λ j. replicate j true) two_left

    here : (q : Qset) × (get_elem? f.items (item d pos) ≡ some q) × Array d.quantum d.qset q.array
    here =
        Items-get_elem? d.quantum d.qset f.items (item d pos) (followed-IsValid v x).items
          (x.enough found)

    q : Qset
    q = here.0

    at : get_elem? f.items (item d pos) ≡ some q
    at = here.1

    a : Array d.quantum d.qset q.array
    a = here.2
