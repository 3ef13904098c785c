-- ===== src/Myproc/Jiffies.antt =====
-- `proc_read` of 4/m1/pm1.c and 4/m1/m11/pm11.c, which print the kernel's clocks, and how a number
-- that they print is read back.
use linux_homework.Base.{
  ℕ, zero, suc, ◌+◌, ◌-◌, ◌*◌, ◌/◌, ◌%◌, ◌^◌, ◌<◌, ◌≤◌, ◌≡◌, Bool, Bool-cases, inl, inr, true,
  false, [], ◌∷◌, ◌++◌, arith, refl, ap, ◌∙◌, length, ltb, if◌then◌else◌, replicate, length-append,
  length-replicate, sym, append_assoc,
}
use linux_homework.Text.{Text, pos, hex_digit, show_hex_from, show_hex, show_int, padded}

-- What a read returns: the text, whether `*eof` is set, and whether `*start` is.
pub record Answer : Type 0 where
  pub text : Text
  pub eof : Bool
  pub start : Bool

abbrev pub hex_prefix : Text
hex_prefix = 48 ∷ 120 ∷ []

unfoldable pub pm1_read : (jiffies : ℕ) → Answer
pm1_read jiffies = record {
  text = hex_prefix ++ (show_hex 8 jiffies ++ 10 ∷ []);
  eof = true;
  start = false;
}

-- With the time of `do_gettimeofday`, as numbers that are not negative.
unfoldable pub pm11_read : (tv_sec tv_usec jiffies jiffies_64 : ℕ) → Answer
pm11_read tv_sec tv_usec jiffies jiffies_64 = record {
  text =
      padded 32 10 (show_int (pos tv_sec))
      ++ (46
          ∷ (padded 48 6 (show_int (pos tv_usec))
              ++ (10
                  ∷ (hex_prefix
                      ++ (show_hex 8 jiffies
                          ++ (32 ∷ (hex_prefix ++ (show_hex 16 jiffies_64 ++ 10 ∷ []))))))));
  eof = false;
  start = true;
}

-- The number that hexadecimal digits stand for, behind `v`.
abbrev pub hex_value : ℕ → ℕ
hex_value c = if ltb c 58 then c - 48 else c - 87

abbrev pub of_hex : (v : ℕ) → Text → ℕ
of_hex v [] = v
of_hex v (c ∷ s) = of_hex (v * 16 + hex_value c) s

abbrev sixteens : ℕ → ℕ
sixteens zero = 1
sixteens (suc n) = 16 * sixteens n

hex_value-hex_digit : (d : ℕ) → d < 16 → hex_value (hex_digit d) ≡ d
hex_value-hex_digit d small = ground (arith, small)

of_hex-show_hex_from :
    (fuel n : ℕ) (acc : Text)
    → n < sixteens fuel
    → of_hex 0 (show_hex_from fuel n acc) ≡ of_hex n acc
unfolding show_hex_from
of_hex-show_hex_from zero n acc small = ap (λ v. of_hex v acc) (omega (arith, small))
of_hex-show_hex_from (suc fuel) n acc small = elim (Bool-cases (ltb n 16)) [
  | inl one ↦
      rw (show_hex_from, one)
        (ap (λ v. of_hex v acc)
          (let digit = hex_value-hex_digit n (ground (arith, one)) in omega (arith, digit)))
  | inr more ↦
      rw (show_hex_from, more)
        (of_hex-show_hex_from fuel (n / 16) (hex_digit (n % 16) ∷ acc) (omega (arith, small))
          ∙ ap (λ v. of_hex v acc)
              (let digit = hex_value-hex_digit (n % 16) (omega arith) in omega (arith, digit)))
]

of_hex-replicate : (k : ℕ) (s : Text) → of_hex 0 (replicate k 48 ++ s) ≡ of_hex 0 s
of_hex-replicate zero s = refl
of_hex-replicate (suc k) s = of_hex-replicate k s

pub of_hex-show_hex : (width n : ℕ) → n < 2 ^ 64 → of_hex 0 (show_hex width n) ≡ n
unfolding show_hex
of_hex-show_hex width n small =
    of_hex-replicate (width - length (show_hex_from 16 n [])) (show_hex_from 16 n [])
    ∙ of_hex-show_hex_from 16 n [] small

length-show_hex : (width n : ℕ) → width ≤ length (show_hex width n)
unfolding show_hex
length-show_hex width n =
    let s = show_hex_from 16 n [] in
    omega (
      arith,
      length-append (replicate (width - length s) 48) s,
      length-replicate {A = ℕ} (width - length s) 48,
    )

-- The jiffies that either module prints are read back from at least eight hexadecimal digits behind
-- `0x`, and the 64-bit ones from at least sixteen, if they have 64 bits.
pub proc_read-of_hex :
    (tv_sec tv_usec jiffies jiffies_64 : ℕ)
    → jiffies < 2 ^ 64
    → jiffies_64 < 2 ^ 64
    → (h : Text) × (g : Text) × (time : Text) × ((pm1_read jiffies).text
        ≡ hex_prefix ++ (h ++ 10 ∷ []))
      × ((pm11_read tv_sec tv_usec jiffies jiffies_64).text
          ≡ time ++ (10 ∷ (hex_prefix ++ (h ++ (32 ∷ (hex_prefix ++ (g ++ 10 ∷ [])))))))
      × (of_hex 0 h ≡ jiffies)
      × (8 ≤ length h)
      × (of_hex 0 g ≡ jiffies_64)
      × (16 ≤ length g)
unfolding pm1_read pm11_read
proc_read-of_hex tv_sec tv_usec jiffies jiffies_64 small small' =
    let sec = padded 32 10 (show_int (pos tv_sec)) in
    let usec = padded 48 6 (show_int (pos tv_usec)) in
    (
      show_hex 8 jiffies,
      show_hex 16 jiffies_64,
      sec ++ (46 ∷ usec),
      refl,
      sym (append_assoc sec (46 ∷ usec) _),
      of_hex-show_hex 8 jiffies small,
      length-show_hex 8 jiffies,
      of_hex-show_hex 16 jiffies_64 small',
      length-show_hex 16 jiffies_64,
    )
