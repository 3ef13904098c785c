-- ===== src/Scull/Seek.antt =====
-- `scull_llseek` of 7/main.c.
use linux_homework.Base.{
  ℕ, suc, zero, ◌+◌, ◌-◌, ◌^◌, ◌<◌, ◌≤◌, ◌≡◌, arith, refl, leb, if◌then◌else◌,
}
use linux_homework.Scull.{ret, error, inval}
use linux_homework.Scull.Access.{scull_llseek, seek}

-- Where `whence` counts from.
abbrev pub base : (size f_pos whence : ℕ) → ℕ
base size f_pos zero = 0
base size f_pos (suc zero) = f_pos
base size f_pos (suc (suc n)) = size

forward :
    (size f_pos off whence : ℕ)
    → whence < 3
    → size < 2 ^ 63
    → f_pos < 2 ^ 63
    → base size f_pos whence + off < 2 ^ 63
    → scull_llseek size f_pos off whence
      ≡ (ret (base size f_pos whence + off), base size f_pos whence + off)
unfolding scull_llseek seek
forward size f_pos off zero known s p h = ground arith
forward size f_pos off (suc zero) known s p h = ground arith
forward size f_pos off (suc (suc zero)) known s p h = ground arith
forward size f_pos off (suc (suc (suc n))) known s p h = absurd (omega arith)

backward :
    (size f_pos k whence : ℕ)
    → whence < 3
    → size < 2 ^ 63
    → f_pos < 2 ^ 63
    → 0 < k
    → k ≤ 2 ^ 63
    → scull_llseek size f_pos (2 ^ 64 - k) whence ≡ (
        if leb k (base size f_pos whence)
        then (ret (base size f_pos whence - k), base size f_pos whence - k)
        else (error inval, f_pos))
unfolding scull_llseek seek
backward size f_pos k zero known s p pos small = ground arith
backward size f_pos k (suc zero) known s p pos small = ground arith
backward size f_pos k (suc (suc zero)) known s p pos small = ground arith
backward size f_pos k (suc (suc (suc n))) known s p pos small = absurd (omega arith)

unknown :
    (size f_pos off whence : ℕ)
    → 3 ≤ whence
    → scull_llseek size f_pos off whence ≡ (error inval, f_pos)
unfolding scull_llseek
unknown size f_pos off zero h = absurd (omega arith)
unknown size f_pos off (suc zero) h = absurd (omega arith)
unknown size f_pos off (suc (suc zero)) h = absurd (omega arith)
unknown size f_pos off (suc (suc (suc n))) h = refl

-- A seek moves the position forward or backward from the start, the position or the end, as
-- `whence` says; a position before the start and an unknown `whence` are refused and leave the
-- position alone. The size, the position and the sum are below 2^63.
pub scull_llseek_lem :
    (size f_pos : ℕ)
    → size < 2 ^ 63
    → f_pos < 2 ^ 63
    → ((off whence : ℕ)
        → whence < 3
        → base size f_pos whence + off < 2 ^ 63
        → scull_llseek size f_pos off whence
          ≡ (ret (base size f_pos whence + off), base size f_pos whence + off))
      × ((k whence : ℕ)
          → whence < 3
          → 0 < k
          → k ≤ 2 ^ 63
          → scull_llseek size f_pos (2 ^ 64 - k) whence ≡ (
              if leb k (base size f_pos whence)
              then (ret (base size f_pos whence - k), base size f_pos whence - k)
              else (error inval, f_pos)))
      × ((off whence : ℕ) → 3 ≤ whence → scull_llseek size f_pos off whence ≡ (error inval, f_pos))
scull_llseek_lem size f_pos s p = (
  λ off whence known h. forward size f_pos off whence known s p h,
  λ k whence known pos small. backward size f_pos k whence known s p pos small,
  unknown size f_pos,
)
