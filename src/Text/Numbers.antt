-- ===== src/Text/Numbers.antt =====
-- Numbers that are written in digits.
use linux_homework.Base.{
  ℕ, ◌+◌, ◌-◌, ◌*◌, ◌%◌, ◌^◌, ◌<◌, ◌≡◌, true, false, [], ◌∷◌, ◌++◌, ltb, ◌==◌, refl, ap, ◌∙◌, arith,
}
use linux_homework.Text.{
  Text, pos, is_digit, is_space, digits_from, skip_spaces, signed, atol, atoi, to_int,
}

abbrev pub Digits : Text → Type 0
Digits [] = Unit {0}
Digits (c ∷ s) = (is_digit c ≡ true) × Digits s

-- Their value, the first one foremost.
abbrev pub value_from : ℕ → Text → ℕ
value_from acc [] = acc
value_from acc (c ∷ s) = value_from (acc * 10 + (c - 48)) s

abbrev pub value : Text → ℕ
value s = value_from 0 s

-- What ends a number.
abbrev pub Stops : Text → Type 0
Stops [] = Unit {0}
Stops (c ∷ s) = is_digit c ≡ false

pub digits_from-value :
    (acc : ℕ) (ds s : Text) → Digits ds → Stops s → digits_from acc (ds ++ s) ≡ value_from acc ds
unfolding digits_from
digits_from-value acc [] [] digits stop = refl
digits_from-value acc [] (c ∷ s) digits stop = rw (stop, digits_from) refl
digits_from-value acc (d ∷ ds) s (digit, digits) stop =
    rw (digit, digits_from) (digits_from-value (acc * 10 + (d - 48)) ds s digits stop)

skip_spaces-digit : (d : ℕ) (s : Text) → is_digit d ≡ true → skip_spaces (d ∷ s) ≡ d ∷ s
unfolding skip_spaces
skip_spaces-digit d s digit =
    let dark : is_space d ≡ false = ground (arith, digit) in rw (skip_spaces, dark) refl

signed-value :
    (d : ℕ) (ds s : Text)
    → is_digit d ≡ true
    → Digits ds
    → Stops s
    → value (d ∷ ds) < 2 ^ 63
    → signed (d ∷ ds ++ s) ≡ pos (value (d ∷ ds))
signed-value d ds s digit digits stop small =
    let minus : (d == 45) ≡ false = ground (arith, digit) in
    let plus : (d == 43) ≡ false = ground (arith, digit) in
    let same = digits_from-value 0 (d ∷ ds) s (digit, digits) stop in
    let fits : ltb (value (d ∷ ds)) (2 ^ 63) ≡ true = ground (arith, small) in
    rw (minus, plus, same, fits) refl

pub atol-value :
    (d : ℕ) (ds s : Text)
    → is_digit d ≡ true
    → Digits ds
    → Stops s
    → value (d ∷ ds) < 2 ^ 63
    → atol (d ∷ ds ++ s) ≡ pos (value (d ∷ ds))
unfolding atol
atol-value d ds s digit digits stop small =
    ap signed (skip_spaces-digit d (ds ++ s) digit) ∙ signed-value d ds s digit digits stop small

pub atoi-value_bare :
    (d : ℕ) (ds s : Text)
    → is_digit d ≡ true
    → Digits ds
    → Stops s
    → value (d ∷ ds) < 2 ^ 31
    → atoi (d ∷ ds ++ s) ≡ pos (value (d ∷ ds))
unfolding atoi
atoi-value_bare d ds s digit digits stop small =
    let here = atol-value d ds s digit digits stop (omega (arith, small)) in
    let fits : ltb (value (d ∷ ds) % 2 ^ 32) (2 ^ 31) ≡ true = ground (arith, small) in
    let low : value (d ∷ ds) % 2 ^ 32 ≡ value (d ∷ ds) = omega (arith, small) in
    ap to_int here ∙ rw (fits) (ap pos low)

-- A space in front is skipped.
pub atoi-value :
    (d : ℕ) (ds s : Text)
    → is_digit d ≡ true
    → Digits ds
    → Stops s
    → value (d ∷ ds) < 2 ^ 31
    → atoi (32 ∷ d ∷ ds ++ s) ≡ pos (value (d ∷ ds))
unfolding atoi atol skip_spaces
atoi-value d ds s digit digits stop small = atoi-value_bare d ds s digit digits stop small
