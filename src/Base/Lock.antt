-- ===== src/Base/Lock.antt =====
-- Who holds a semaphore: at most one process, and then the count is 0. Used for 7/main.c and
-- 7/pipe/scull_pipe.c.
use linux_homework.Base.{ℕ, ◌+◌, ◌-◌, ◌≤◌, ◌<◌, ◌≡◌, Bool, true, false, arith, ◌==◌, if◌then◌else◌}

-- `h j` says whether process `j` holds it.
pub record Lock (sem : ℕ) (h : ℕ → Bool) : Type 0 where
  pub le_one : sem ≤ 1
  pub free : 0 < sem → (i : ℕ) → h i ≡ false
  pub owner : sem ≡ 0 → (i : ℕ) × (h i ≡ true)
  pub unique : (i j : ℕ) → h i ≡ true → h j ≡ true → i ≡ j

module _ {sem : ℕ} {h g : ℕ → Bool} (l : Lock sem h) where
  pub Lock-same : {k : ℕ} → k ≡ sem → ((j : ℕ) → g j ≡ h j) → Lock k g
  Lock-same e same = record {
    le_one = omega (arith, l.le_one);
    free = λ m i. ground (arith, same i, l.free (omega arith) i);
    owner = λ z. let (i, e) = l.owner (omega arith) in (i, ground (arith, same i));
    unique = λ i j a b. l.unique i j (ground (arith, same i)) (ground (arith, same j));
  }

  module _ (i : ℕ) (on : Bool) (at : (j : ℕ) → g j ≡ (if j == i then on else h j)) {k : ℕ} where
    pub Lock-acquire : k ≡ sem - 1 → on ≡ true → 0 < sem → Lock k g
    Lock-acquire c e pos = record {
      le_one = omega (arith, l.le_one);
      free = λ k j. absurd (omega (arith, l.le_one));
      owner = λ z. (i, ground (arith, at i));
      unique = λ j k a b. ground (arith, at j, at k, l.free pos j, l.free pos k);
    }

    pub Lock-release : k ≡ sem + 1 → on ≡ false → h i ≡ true → Lock k g
    Lock-release c e held = record {
      le_one = ground (arith, l.le_one, λ (pos : 0 < sem). l.free pos i);
      free = λ k j. ground (arith, at j, l.unique i j);
      owner = λ z. absurd (omega arith);
      unique = λ j k a b. ground (arith, at j, at k, l.unique j k);
    }
