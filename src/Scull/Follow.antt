-- ===== src/Scull/Follow.antt =====
-- `scull_follow` of 7/main.c: it appends empty items as far as it has to.
use linux_homework.Base.{
  ℕ, zero, suc, ◌+◌, ◌-◌, ◌<◌, ◌≤◌, ◌≡◌, Bool, true, false, List, [], ◌∷◌, ◌++◌, arith, length,
  refl, replicate, ap, append-nil, sym,
}
use linux_homework.Scull.{Qset, Followed, empty_qset, follow_from, scull_follow}

-- What a walk to the item `n` leaves of the items: none is lost or changed, and there are enough of
-- them exactly if it found the one asked for.
pub record Extended (n : ℕ) (items : List Qset) (f : Followed) : Type 0 where
  pub grown : ℕ
  pub kept : f.items ≡ items ++ replicate grown empty_qset
  pub enough : f.found ≡ true → n < length f.items
  pub short : f.found ≡ false → length f.items ≤ n
  pub least : length f.items ≤ length items + (suc n - length items)

follow_from-Extended :
    (n : ℕ) (answers : List Bool) (q : Qset) (qs : List Qset)
    → Extended n (q ∷ qs) (follow_from n answers q qs)
unfolding follow_from
follow_from-Extended zero answers q qs = record {
  grown = 0;
  kept = sym (append-nil (q ∷ qs));
  enough = λ e. omega arith;
  short = λ e. cc;
  least = omega arith;
}
follow_from-Extended (suc n) answers q (r ∷ qs) =
    let x = follow_from-Extended n answers r qs in
    record {
      grown = x.grown;
      kept = ap (λ v. q ∷ v) x.kept;
      enough = λ e. omega (arith, x.enough e);
      short = λ e. omega (arith, x.short e);
      least = omega (arith, x.least);
    }
follow_from-Extended (suc n) [] q [] = record {
  grown = 0;
  kept = refl;
  enough = λ e. cc;
  short = λ e. omega arith;
  least = omega arith;
}
follow_from-Extended (suc n) (false ∷ answers) q [] = record {
  grown = 0;
  kept = refl;
  enough = λ e. cc;
  short = λ e. omega arith;
  least = omega arith;
}
follow_from-Extended (suc n) (true ∷ answers) q [] =
    let x = follow_from-Extended n answers empty_qset [] in
    record {
      grown = suc x.grown;
      kept = ap (λ v. q ∷ v) x.kept;
      enough = λ e. omega (arith, x.enough e);
      short = λ e. omega (arith, x.short e);
      least = omega (arith, x.least);
    }

-- A walk keeps the items and appends empty ones, no more than it needs; it fails exactly if it
-- could not append enough.
pub scull_follow-Extended :
    (n : ℕ) (answers : List Bool) (items : List Qset)
    → Extended n items (scull_follow n answers items)
unfolding scull_follow
scull_follow-Extended n answers (q ∷ qs) = follow_from-Extended n answers q qs
scull_follow-Extended n [] [] = record {
  grown = 0;
  kept = refl;
  enough = λ e. cc;
  short = λ e. omega arith;
  least = omega arith;
}
scull_follow-Extended n (false ∷ answers) [] = record {
  grown = 0;
  kept = refl;
  enough = λ e. cc;
  short = λ e. omega arith;
  least = omega arith;
}
scull_follow-Extended n (true ∷ answers) [] =
    let x = follow_from-Extended n answers empty_qset [] in
    record {
      grown = suc x.grown;
      kept = x.kept;
      enough = x.enough;
      short = x.short;
      least = omega (arith, x.least);
    }

-- What a walk leaves where the next `m` allocations succeed and `k` of them are not needed.
abbrev pub Succeeds : ℕ → Followed → Type 0
Succeeds k f = (f.found ≡ true) × ((j : ℕ) × (k ≤ j) × (f.answers ≡ replicate j true))

follow_from-Succeeds :
    (n k m : ℕ) (q : Qset) (qs : List Qset)
    → n + k ≤ m
    → Succeeds k (follow_from n (replicate m true) q qs)
unfolding follow_from
follow_from-Succeeds zero k m q qs h = (refl, (m, omega (arith, h), refl))
follow_from-Succeeds (suc n) k m q (r ∷ qs) h = follow_from-Succeeds n k m r qs (omega (arith, h))
follow_from-Succeeds (suc n) k zero q [] h = absurd (omega (arith, h))
follow_from-Succeeds (suc n) k (suc m) q [] h =
    follow_from-Succeeds n k m empty_qset [] (omega (arith, h))

pub scull_follow-Succeeds :
    (n k m : ℕ) (items : List Qset)
    → n + 1 + k ≤ m
    → Succeeds k (scull_follow n (replicate m true) items)
unfolding scull_follow
scull_follow-Succeeds n k m (q ∷ qs) h = follow_from-Succeeds n k m q qs (omega (arith, h))
scull_follow-Succeeds n k zero [] h = absurd (omega (arith, h))
scull_follow-Succeeds n k (suc m) [] h = follow_from-Succeeds n k m empty_qset [] (omega (arith, h))
