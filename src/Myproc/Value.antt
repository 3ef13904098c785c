-- ===== src/Myproc/Value.antt =====
-- What a write to the file of pm1.c, pm11.c or pm2.c of 4/ leaves in `mydata.value`.
use linux_homework.Base.{
  ℕ, zero, suc, ◌-◌, ◌≤◌, ◌<◌, ◌≡◌, List, [], ◌∷◌, ◌++◌, ◌==◌, if◌then◌else◌, set, take, drop,
  length, some, refl, ap, ◌∙◌, arith, length-append, length-take, length-drop, length-set,
  take-append_le,
}
use linux_homework.Text.{Text}
use linux_homework.Myproc.{
  mydata_len, Copy, Write, wrote, write_len, terminated, proc_write, c_string,
}

-- `copy_from_user` of a text that can be read copies it.
abbrev pub Copies : Text → Copy → Type 0
Copies user copy =
    (to : List ℕ) (n : ℕ) → n ≤ length user → copy to n ≡ (take n user ++ drop n to, 0)

abbrev pub until_nul : List ℕ → Text
until_nul [] = []
until_nul (zero ∷ cs) = []
until_nul (suc c ∷ cs) = suc c ∷ until_nul cs

take-take_le : (m n : ℕ) (xs : List ℕ) → m ≤ n → take m (take n xs) ≡ take m xs
take-take_le zero n xs less = refl
take-take_le (suc m) zero xs less = absurd (omega (arith, less))
take-take_le (suc m) (suc n) [] less = refl
take-take_le (suc m) (suc n) (x ∷ xs) less =
    ap (λ l. x ∷ l) (take-take_le m n xs (omega (arith, less)))

c_string-set :
    (xs : List ℕ) (m : ℕ) → m < length xs → c_string (set xs m 0) ≡ some (until_nul (take m xs))
unfolding c_string
c_string-set [] m inside = absurd (omega (arith, inside))
c_string-set (x ∷ xs) zero inside = refl
c_string-set (zero ∷ xs) (suc m) inside = refl
c_string-set (suc c ∷ xs) (suc m) inside =
    rw (c_string, c_string-set xs m (omega (arith, inside))) refl

-- What is asked of a value: the text up to its NUL, in 16 bytes.
abbrev pub Holds : Text → List ℕ → Type 0
Holds s value = (length value ≡ mydata_len) × (c_string value ≡ some s)

written-Holds :
    (user value : List ℕ) (m : ℕ)
    → length value ≡ mydata_len
    → suc m ≤ mydata_len
    → suc m ≤ length user
    → Holds (until_nul (take m user)) (set (take (suc m) user ++ drop (suc m) value) m 0)
written-Holds user value m full fits there =
    let whole : length (take (suc m) user ++ drop (suc m) value) ≡ mydata_len = omega (
      arith,
      length-append (take (suc m) user) (drop (suc m) value),
      length-take (suc m) user,
      length-drop (suc m) value,
      full,
      fits,
      there,
    ) in
    let inside : m ≤ length (take (suc m) user) = omega (arith, length-take (suc m) user, there) in
    (
      length-set (take (suc m) user ++ drop (suc m) value) m 0 ∙ whole,
      c_string-set (take (suc m) user ++ drop (suc m) value) m (omega (arith, whole, fits))
          ∙ ap (λ l. some (until_nul l))
              (take-append_le m (take (suc m) user) (drop (suc m) value) inside
                ∙ take-take_le m (suc m) user (omega arith)),
    )

terminated-wrote :
    (len : ℕ) (value : List ℕ) → 0 < len → terminated len value ≡ wrote len (set value (len - 1) 0)
terminated-wrote zero value some_bytes = absurd (omega (arith, some_bytes))
terminated-wrote (suc n) value some_bytes = ap (λ j. wrote (suc n) (set value j 0)) (omega arith)

write-Holds :
    (user : Text) (copy : Copy) (len : ℕ) (value : List ℕ)
    → Copies user copy
    → length value ≡ mydata_len
    → 0 < len
    → len ≤ mydata_len
    → len ≤ length user
    → (value' : List ℕ) × ((let (v, left) = copy value len in
          if left == 0 then terminated len v else Write.efault v)
        ≡ wrote len value')
      × Holds (until_nul (take (len - 1) user)) value'
write-Holds user copy zero value copies full some_bytes fits there =
    absurd (omega (arith, some_bytes))
write-Holds user copy (suc m) value copies full some_bytes fits there =
    let less : suc m - 1 ≡ m = omega arith in
    (
      set (take (suc m) user ++ drop (suc m) value) m 0,
      rw (copies value (suc m) there) refl,
      rw (less) (written-Holds user value m full fits there),
    )

-- A write of at least one byte that can be read takes 16 bytes of it at most and returns how many;
-- `value` then holds, ended by a NUL, those in front of the last one, up to a NUL among them.
pub proc_write-Holds :
    (user : Text) (copy : Copy) (count : ℕ) (value : List ℕ)
    → Copies user copy
    → length value ≡ mydata_len
    → 0 < count
    → write_len count ≤ length user
    → (value' : List ℕ) × (proc_write copy count value ≡ wrote (write_len count) value')
      × Holds (until_nul (take (write_len count - 1) user)) value'
unfolding proc_write
proc_write-Holds user copy count value copies full some_bytes there =
    write-Holds user copy (write_len count) value copies full (ground (arith, some_bytes))
      (ground arith) there
