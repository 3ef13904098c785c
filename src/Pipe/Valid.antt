-- ===== src/Pipe/Valid.antt =====
-- The representation invariant of an open pipe device of scull_pipe.c, and the arithmetic of its
-- counts under it.
use native.Mathlib.Nat.{mod-eq_of_lt, mod-eq-sub-mod}
use linux_homework.Base.{
  ◌∙◌, inl, inr, Bool-cases, ℕ, ◌+◌, ◌-◌, ◌%◌, ◌^◌, ◌≤◌, ◌<◌, ◌≡◌, ◌≢◌, some, List, arith, leb,
  if◌then◌else◌, length,
}
use linux_homework.Pipe.{Pipe, spacefree, read_count, write_count, advance}

-- The buffer is allocated and holds the bytes `b`; both pointers are inside it.
pub record IsValid (b : List ℕ) (p : Pipe) : Type 0 where
  pub allocated : p.buffer ≡ some b
  pub sized : length b ≡ p.buffersize
  pub ended : p.end ≡ p.buffersize
  pub rp_in : p.rp < p.buffersize
  pub wp_in : p.wp < p.buffersize
  pub small : p.buffersize < 2 ^ 31

-- The distance from `w` to `r` round a ring of `n`.
wrap_diff : (r w n : ℕ) → r < n → w < n → (r + n - w) % n ≡ (if leb w r then r - w else r + n - w)
wrap_diff r w n hr hw = elim (Bool-cases (leb w r)) [
  | inl le ↦
      rw (le, mod-eq-sub-mod {n = r + n - w} {m = n} (ground arith))
        (mod-eq_of_lt (ground arith) ∙ ground arith)
  | inr gt ↦ rw gt (mod-eq_of_lt (ground arith))
]

-- How many bytes are stored.
unfoldable pub stored : Pipe → ℕ
stored p = if leb p.rp p.wp then p.wp - p.rp else p.end - p.rp + p.wp

pub stored-run : (p : Pipe) → p.rp ≤ p.wp → stored p ≡ p.wp - p.rp
unfolding stored
stored-run p h = ground arith

module _ {b : List ℕ} {p : Pipe} (v : IsValid b p) where
  pub stored-lt : stored p < p.buffersize
  unfolding stored
  stored-lt = ground arith

  pub stored-split : p.wp < p.rp → stored p + p.rp ≡ p.buffersize + p.wp
  unfolding stored
  stored-split h = ground arith

  pub stored-eq-zero : p.rp ≡ p.wp → stored p ≡ 0
  unfolding stored
  stored-eq-zero e = ground arith

  pub stored-pos : p.rp ≢ p.wp → 0 < stored p
  unfolding stored
  stored-pos e = ground arith

  pub spacefree-add-stored : spacefree p + stored p + 1 ≡ p.buffersize
  unfolding spacefree stored
  spacefree-add-stored = ground (arith, wrap_diff p.rp p.wp p.buffersize rp_in wp_in)
    where
      open v use {rp_in, wp_in}

  pub read_count-le : (count : ℕ) → read_count p count ≤ count
  unfolding read_count
  read_count-le count = ground arith

  pub read_count-fits : (count : ℕ) → p.rp + read_count p count ≤ length b
  unfolding read_count
  read_count-fits count = ground arith

  pub write_count-fits : (count : ℕ) → p.wp + write_count p count ≤ length b
  unfolding write_count
  write_count-fits count = ground arith

  pub write_count-le : (count : ℕ) → write_count p count ≤ count
  unfolding write_count
  write_count-le count = ground arith

  pub write_count-gap : (count : ℕ) → p.wp < p.rp → p.wp + write_count p count < p.rp
  unfolding write_count
  write_count-gap count h = ground arith

  pub write_count-le-spacefree : (count : ℕ) → write_count p count ≤ spacefree p
  unfolding write_count
  write_count-le-spacefree count = ground arith

  pub advance-lt : (at n : ℕ) → at + n ≤ p.buffersize → advance p at n < p.buffersize
  unfolding advance
  advance-lt at n h = ground arith
