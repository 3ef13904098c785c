-- ===== src/Text/Print.antt =====
-- An `int` that is printed and read back.
use linux_homework.Base.{
  ℕ, zero, suc, ◌+◌, ◌*◌, ◌/◌, ◌%◌, ◌^◌, ◌≤◌, ◌<◌, ◌≡◌, true, [], ◌∷◌, ◌++◌, ltb, leb, length, refl,
  ap, ◌∙◌, arith, Bool-cases, inl, inr,
}
use linux_homework.Text.{
  Text, ℤ, pos, negsuc, is_digit, skip_spaces, long_neg, atol, atoi, to_int, is_int, show_from,
  show_int,
}
use linux_homework.Text.Lines.{IsLine}
use linux_homework.Text.Numbers.{Digits, Stops, value_from, value, digits_from-value, atol-value}

abbrev limit : ℕ → ℕ
limit zero = 1
limit (suc k) = 10 * limit k

-- A digit, and more of them.
abbrev pub Numeral : Text → Type 0
Numeral [] = ⊥
Numeral (d ∷ ds) = (is_digit d ≡ true) × Digits ds

show_from-value :
    (k n : ℕ) (acc : Text)
    → n < limit k
    → 0 < k
    → value_from 0 (show_from k n acc) ≡ value_from n acc
unfolding show_from
show_from-value zero n acc small some_fuel = absurd (omega (arith, some_fuel))
show_from-value (suc zero) n acc small some_fuel =
    let single : ltb n 10 ≡ true = ground (arith, small) in
    rw (single, show_from) (ap (λ m. value_from m acc) (omega arith))
show_from-value (suc (suc k)) n acc small some_fuel = elim (Bool-cases (ltb n 10)) [
  | inl single ↦ rw (single, show_from) (ap (λ m. value_from m acc) (omega arith))
  | inr more ↦
      rw (more, show_from)
        (show_from-value (suc k) (n / 10) ((48 + n % 10) ∷ acc) (omega (arith, small)) (omega arith)
          ∙ ap (λ m. value_from m acc) (omega arith))
]

show_from-Numeral :
    (k n : ℕ) (acc : Text) → Digits acc → 0 < k → n < limit k → Numeral (show_from k n acc)
unfolding show_from
show_from-Numeral zero n acc digits some_fuel small = absurd (omega (arith, some_fuel))
show_from-Numeral (suc zero) n acc digits some_fuel small =
    let single : ltb n 10 ≡ true = ground (arith, small) in
    rw (single, show_from) (ground (arith, small), digits)
show_from-Numeral (suc (suc k)) n acc digits some_fuel small = elim (Bool-cases (ltb n 10)) [
  | inl single ↦ rw (single, show_from) (ground (arith, single), digits)
  | inr more ↦
      rw (more, show_from)
        (show_from-Numeral (suc k) (n / 10) ((48 + n % 10) ∷ acc) (ground arith, digits)
          (omega arith) (omega (arith, small)))
]

length-show_from : (k n : ℕ) (acc : Text) → length (show_from k n acc) ≤ k + length acc
unfolding show_from
length-show_from zero n acc = omega arith
length-show_from (suc k) n acc = elim (Bool-cases (ltb n 10)) [
  | inl single ↦ rw (single, show_from) (omega arith)
  | inr more ↦
      rw (more, show_from) (omega (arith, length-show_from k (n / 10) ((48 + n % 10) ∷ acc)))
]

Digits-IsLine : (ds : Text) → Digits ds → IsLine ds
Digits-IsLine [] digits = tt
Digits-IsLine (d ∷ ds) (digit, digits) = (ground (arith, digit), Digits-IsLine ds digits)

Numeral-IsLine : (ds : Text) → Numeral ds → IsLine ds
Numeral-IsLine [] numeral = tt
Numeral-IsLine (d ∷ ds) numeral = Digits-IsLine (d ∷ ds) numeral

pub show_int-IsLine : (z : ℤ) → is_int z ≡ true → IsLine (show_int z)
unfolding show_int is_int
show_int-IsLine (pos n) small =
    Numeral-IsLine (show_from 10 n [])
      (show_from-Numeral 10 n [] tt (omega arith) (ground (arith, small)))
show_int-IsLine (negsuc n) small = (
  refl,
  Numeral-IsLine (show_from 10 (suc n) [])
      (show_from-Numeral 10 (suc n) [] tt (omega arith) (ground (arith, small))),
)

pub length-show_int : (z : ℤ) → length (show_int z) ≤ 11
unfolding show_int
length-show_int (pos n) = omega (arith, length-show_from 10 n [])
length-show_int (negsuc n) = omega (arith, length-show_from 10 (suc n) [])

atol-Numeral :
    (ds s : Text) → Numeral ds → Stops s → value ds < 2 ^ 63 → atol (ds ++ s) ≡ pos (value ds)
atol-Numeral [] s numeral stop small = elim numeral [ ]
atol-Numeral (d ∷ ds) s (digit, digits) stop small = atol-value d ds s digit digits stop small

Numeral-Digits : (ds : Text) → Numeral ds → Digits ds
Numeral-Digits [] numeral = tt
Numeral-Digits (d ∷ ds) numeral = numeral

atol-minus :
    (ds s : Text) (n : ℕ)
    → Numeral ds
    → Stops s
    → value ds ≡ suc n
    → n < 2 ^ 31
    → atol (45 ∷ ds ++ s) ≡ negsuc n
unfolding atol skip_spaces
atol-minus ds s n numeral stop same small =
    let fits : leb (suc n) (2 ^ 63) ≡ true = ground (arith, small) in
    ap long_neg (digits_from-value 0 ds s (Numeral-Digits ds numeral) stop ∙ same) ∙ rw (fits) refl

to_int-is_int : (z : ℤ) → is_int z ≡ true → to_int z ≡ z
unfolding is_int
to_int-is_int (pos n) small =
    let low : n % 2 ^ 32 ≡ n = ground (arith, small) in rw (low, small) refl
to_int-is_int (negsuc n) small =
    let low : n % 2 ^ 32 ≡ n = ground (arith, small) in rw (low, small) refl

-- What `%d` prints, `atoi` reads, whatever follows that is no digit.
pub atoi-show_int : (z : ℤ) (s : Text) → is_int z ≡ true → Stops s → atoi (show_int z ++ s) ≡ z
unfolding atoi show_int is_int
atoi-show_int (pos n) s small stop =
    let below : n < 10000000000 = ground (arith, small) in
    let same = show_from-value 10 n [] below (omega arith) in
    ap to_int (
      atol-Numeral (show_from 10 n []) s (show_from-Numeral 10 n [] tt (omega arith) below) stop
        (ground (arith, same, small))
      ∙ ap pos same)
    ∙ to_int-is_int (pos n) small
atoi-show_int (negsuc n) s small stop =
    let below : suc n < 10000000000 = ground (arith, small) in
    ap to_int (
      atol-minus (show_from 10 (suc n) []) s n
        (show_from-Numeral 10 (suc n) [] tt (omega arith) below) stop
        (show_from-value 10 (suc n) [] below (omega arith)) (ground (arith, small)))
    ∙ to_int-is_int (negsuc n) small
