-- ===== src/Scull.antt =====
-- 7/main.c and the structures of 7/scull.h: the bare scull device, a list of quantum sets. The
-- functions are the parts that run with the device semaphore held. `kmalloc` and the copies from
-- and to user space are parameters: the list `answers` says which of the next allocations succeed,
-- and `moved` how many bytes a copy moves.
pub mod Access
pub mod Place
pub mod Follow
pub mod Valid
pub mod Seek
pub mod Sound
pub mod Overwrite
pub mod Module
pub mod Threads
mod Tests
use linux_homework.Base.{
  ℕ, zero, suc, ◌+◌, ◌-◌, ◌*◌, ◌/◌, ◌%◌, ◌^◌, Bool, true, false, ◌||◌, Option, none, some, ◌>>=◌,
  List, [], ◌∷◌, min, ltb, leb, ◌==◌, if◌then◌else◌, replicate, get_elem?, set,
}

pub data Errno : Type 0 where
  restartsys inval fault nomem : Errno

pub data Reply : Type 0 where
  ret : ℕ → Reply
  error : Errno → Reply

-- `struct scull_qset`: `array` (`data` in the source) is NULL or an array of pointers to quanta,
-- each NULL or the size of the block. No byte of a quantum is ever read or written.
pub record Qset : Type 0 where
  pub array : Option (List (Option ℕ))

-- `struct scull_dev`: `items` (`data` in the source) is the list, in the order of their `next`.
pub record Dev : Type 0 where
  pub items : List Qset
  pub quantum : ℕ
  pub qset : ℕ
  pub size : ℕ

abbrev pub empty_qset : Qset
empty_qset = record { array = none }

abbrev pub scull_data_size : ℕ
scull_data_size = 16

-- How many of the pointers are not NULL.
abbrev pub held : List (Option ℕ) → ℕ
held [] = 0
held (none ∷ ps) = held ps
held (some n ∷ ps) = 1 + held ps

-- `for (i = 0; i < qset; i++) kfree(dptr->data[i])`: how many blocks it frees; `none` if it reads
-- behind the array.
unfoldable pub free_quanta : ℕ → List (Option ℕ) → Option ℕ
free_quanta zero ps = some 0
free_quanta (suc i) [] = none
free_quanta (suc i) (none ∷ ps) = free_quanta i ps
free_quanta (suc i) (some n ∷ ps) = do m ← free_quanta i ps; some (1 + m)

-- The loop of `scull_trim` over the items: the blocks of an item are its quanta, its array and
-- itself.
unfoldable pub free_items : ℕ → List Qset → Option ℕ
free_items qset [] = some 0
free_items qset (q ∷ qs) = do
  m ← elim q.array [ none ↦ some 0 | some ps ↦ do n ← free_quanta qset ps; some (1 + n) ]
  n ← free_items qset qs
  some (1 + m + n)

-- `scull_trim`, with the module parameters: how many blocks it frees, and the device.
unfoldable pub scull_trim : (scull_quantum scull_qset : ℕ) → Dev → Option (ℕ × Dev)
scull_trim scull_quantum scull_qset d = do
  n ← free_items d.qset d.items
  some (n, record { items = []; quantum = scull_quantum; qset = scull_qset; size = 0 })

-- `scull_open`: a device that is opened for writing only is trimmed, unless a signal comes first.
unfoldable pub scull_open :
    (scull_quantum scull_qset : ℕ) → (write_only signal : Bool) → Dev → Option (Reply × Dev)
scull_open scull_quantum scull_qset false signal d = some (ret 0, d)
scull_open scull_quantum scull_qset true true d = some (error restartsys, d)
scull_open scull_quantum scull_qset true false d = do
  (n, d') ← scull_trim scull_quantum scull_qset d
  some (ret 0, d')

-- What `scull_follow` leaves: the items, and whether it found the one asked for.
pub record Followed : Type 0 where
  pub items : List Qset
  pub answers : List Bool
  pub found : Bool

abbrev pub behind : Qset → Followed → Followed
behind q f = record { items = q ∷ f.items; answers = f.answers; found = f.found }

-- The loop `while (n--)`, from the item `q` with the items `qs` behind it.
unfoldable pub follow_from : ℕ → List Bool → Qset → List Qset → Followed
follow_from zero answers q qs = record { items = q ∷ qs; answers = answers; found = true }
follow_from (suc n) answers q (r ∷ qs) = behind q (follow_from n answers r qs)
follow_from (suc n) [] q [] = record { items = q ∷ []; answers = []; found = false }
follow_from (suc n) (false ∷ answers) q [] = record {
  items = q ∷ [];
  answers = answers;
  found = false;
}
follow_from (suc n) (true ∷ answers) q [] = behind q (follow_from n answers empty_qset [])

-- `scull_follow`.
unfoldable pub scull_follow : ℕ → List Bool → List Qset → Followed
scull_follow n answers (q ∷ qs) = follow_from n answers q qs
scull_follow n [] [] = record { items = []; answers = []; found = false }
scull_follow n (false ∷ answers) [] = record { items = []; answers = answers; found = false }
scull_follow n (true ∷ answers) [] = follow_from n answers empty_qset []
