-- ===== src/Scull/Access.antt =====
-- `scull_read`, `scull_write` and `scull_llseek` of 7/main.c, the first two with the device
-- semaphore held. An int, a long, a pointer and a `size_t` have 32 bits, as the module is built
-- with -m32, a position has 64.
use linux_homework.Base.{
  ℕ, zero, suc, ◌+◌, ◌-◌, ◌*◌, ◌/◌, ◌%◌, ◌^◌, ◌&&◌, Bool, Option, none, some, List, [], ◌∷◌, min,
  ltb, leb, ◌==◌, not, if◌then◌else◌, replicate, get_elem?, set,
}
use linux_homework.Scull.{
  inval, fault, nomem, Reply, ret, error, Qset, Dev, scull_data_size, scull_follow,
}

-- Where a position lies: `item`, `s_pos` and `q_pos`.
abbrev pub itemsize : Dev → ℕ
itemsize d = d.quantum * d.qset

abbrev pub item : Dev → ℕ → ℕ
item d pos = pos / itemsize d

abbrev pub s_pos : Dev → ℕ → ℕ
s_pos d pos = (pos % itemsize d) / d.quantum

abbrev pub q_pos : Dev → ℕ → ℕ
q_pos d pos = (pos % itemsize d) % d.quantum

-- Whether `(long) *f_pos`, the int `itemsize` and the size of an array in bytes are what they are
-- without a bound on integers.
unfoldable pub in_range : Dev → (pos : ℕ) → Bool
in_range d pos = ltb pos (2 ^ 31) && ltb (itemsize d) (2 ^ 31) && ltb d.qset (2 ^ 30)

-- How the locked part of a read or write ends: normally, with a copy of `n` bytes at `dev->data +
-- pos`, the list of the items and not a quantum, with an access outside of the array of an item, or
-- with numbers out of range, from which on it is not followed.
pub data Outcome : Type 0 where
  done : Reply → Dev → (pos : ℕ) → Outcome
  stray : Dev → (pos n : ℕ) → Outcome
  wild beyond : Outcome

-- The copy of `count` bytes, and the advance of `*f_pos`; `size` is that of the device where it
-- succeeds.
unfoldable pub transfer : Dev → (size pos count moved : ℕ) → Outcome
transfer d size pos count moved =
    if ltb 0 (min moved count)
    then stray d pos (min moved count)
    else if count == 0
    then done (ret 0) (record d { size = size }) pos
    else done (error fault) d pos

-- `count`, cut to the end of the data and to the end of the quantum.
abbrev pub read_limit : Dev → (pos count : ℕ) → ℕ
read_limit d pos count = if ltb d.size (pos + count) then d.size - pos else count

abbrev pub to_quantum_end : Dev → (pos count : ℕ) → ℕ
to_quantum_end d pos count = min count (d.quantum - q_pos d pos)

-- What `scull_read` does with the item found.
unfoldable pub read_item : Dev → (pos count moved : ℕ) → Option Qset → Outcome
read_item d pos count moved none = wild
read_item d pos count moved (some q) = elim q.array [
  | none ↦ done (ret 0) d pos
  | some ps ↦ elim (get_elem? ps (s_pos d pos)) [
    | none ↦ wild
    | some none ↦ done (ret 0) d pos
    | some (some n) ↦ transfer d d.size pos (to_quantum_end d pos count) moved
  ]
]

-- `scull_read` with the semaphore held.
unfoldable pub scull_read : Dev → (answers : List Bool) → (pos count moved : ℕ) → Outcome
unfolding in_range
scull_read d answers pos count moved =
    let f = scull_follow (item d pos) answers d.items in
    let d' = record d { items = f.items } in
    if leb d.size pos
    then done (ret 0) d pos
    else if not (in_range d pos)
    then beyond
    else if f.found
    then read_item d' pos (read_limit d pos count) moved (get_elem? f.items (item d pos))
    else done (ret 0) d' pos

-- The count that `scull_write` copies: to the end of the quantum, and then to SCULL_DATA_SIZE,
-- where `SCULL_DATA_SIZE - *f_pos` becomes a `size_t`.
abbrev pub write_limit : Dev → (pos count : ℕ) → ℕ
write_limit d pos count =
    let n = to_quantum_end d pos count in
    if ltb scull_data_size (pos + n) then (scull_data_size + 2 ^ 32 - pos) % 2 ^ 32 else n

-- The size behind a write that ends at `pos`.
abbrev pub grown_size : (size pos : ℕ) → ℕ
grown_size size pos = if ltb size pos then pos else size

-- What `scull_write` does with the array of the item: it makes sure of the quantum, and copies.
unfoldable pub write_quantum :
    Dev → (items : List Qset) → List Bool → (pos count moved : ℕ) → List (Option ℕ) → Outcome
write_quantum d items answers pos count moved ps =
    let d' = record d {
      items =
          set items (item d pos) (record { array = some (set ps (s_pos d pos) (some d.quantum)) });
    } in
    elim (get_elem? ps (s_pos d pos)) [
      | none ↦ wild
      | some (some n) ↦
          transfer (record d { items = items }) (grown_size d.size pos) pos
            (write_limit d pos count) moved
      | some none ↦ elim answers [
        | [] ↦ done (error nomem) (record d { items = items }) pos
        | a ∷ rest ↦
            if a
            then transfer d' (grown_size d.size pos) pos (write_limit d pos count) moved
            else done (error nomem) (record d { items = items }) pos
      ]
    ]

-- What `scull_write` does with the item: it makes sure of the array.
unfoldable pub write_item :
    Dev → (items : List Qset) → List Bool → (pos count moved : ℕ) → Option Qset → Outcome
write_item d items answers pos count moved none = wild
write_item d items answers pos count moved (some q) =
    let ps = replicate d.qset none in
    let items' = set items (item d pos) (record { array = some ps }) in
    elim q.array [
      | some ps ↦ write_quantum d items answers pos count moved ps
      | none ↦ elim answers [
        | [] ↦ done (error nomem) (record d { items = items }) pos
        | a ∷ rest ↦
            if a
            then write_quantum d items' rest pos count moved ps
            else done (error nomem) (record d { items = items }) pos
      ]
    ]

-- `scull_write` with the semaphore held.
unfoldable pub scull_write : Dev → (answers : List Bool) → (pos count moved : ℕ) → Outcome
unfolding in_range
scull_write d answers pos count moved =
    let f = scull_follow (item d pos) answers d.items in
    if not (in_range d pos)
    then beyond
    else if f.found
    then write_item d f.items f.answers pos count moved (get_elem? f.items (item d pos))
    else done (error nomem) (record d { items = f.items }) pos

-- `scull_llseek`: the reply and `filp->f_pos`. Positions and offsets are 64-bit patterns, negative
-- from 2^63 on.
unfoldable pub seek : (newpos f_pos : ℕ) → Reply × ℕ
seek newpos f_pos = if leb (2 ^ 63) newpos then (error inval, f_pos) else (ret newpos, newpos)

unfoldable pub scull_llseek : (size f_pos off whence : ℕ) → Reply × ℕ
unfolding seek
scull_llseek size f_pos off zero = seek (off % 2 ^ 64) f_pos
scull_llseek size f_pos off (suc zero) = seek ((f_pos + off) % 2 ^ 64) f_pos
scull_llseek size f_pos off (suc (suc zero)) = seek ((size + off) % 2 ^ 64) f_pos
scull_llseek size f_pos off (suc (suc (suc n))) = (error inval, f_pos)
