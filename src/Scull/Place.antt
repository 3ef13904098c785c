-- ===== src/Scull/Place.antt =====
-- The place of a position in the bare device of 7/main.c.
use linux_homework.Base.{ℕ, ◌+◌, ◌*◌, ◌/◌, ◌%◌, ◌<◌, ◌≡◌, arith}
use native.Mathlib.Nat.{div-add-mod', div-lt_iff_lt-mul, mod-lt, mul-pos}
use linux_homework.Scull.{Dev}
use linux_homework.Scull.Access.{itemsize, s_pos, q_pos}

-- Where the sizes are positive, item, quantum and offset make up the position again, and the
-- quantum and the offset are in range.
pub place_lem :
    (d : Dev) (pos : ℕ)
    → 0 < d.quantum
    → 0 < d.qset
    → ((pos / itemsize d) * itemsize d + s_pos d pos * d.quantum + q_pos d pos ≡ pos)
      × (s_pos d pos < d.qset)
      × (q_pos d pos < d.quantum)
place_lem d pos quantum qset = (
  omega (arith, div-add-mod' pos (itemsize d), div-add-mod' (pos % itemsize d) d.quantum),
  (div-lt_iff_lt-mul quantum).1 (omega (arith, mod-lt pos positive)),
  mod-lt (pos % itemsize d) quantum,
)
  where
    positive : 0 < itemsize d
    positive = mul-pos quantum qset
