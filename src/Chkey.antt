-- ===== src/Chkey.antt =====
-- 1/chkey.c: reads or changes the numbers in the files /proc/sys/kernel/sysrq and ctrl-alt-del. A
-- file is its text, `none` if it cannot be opened.
pub mod Reverse
mod Tests
use linux_homework.Base.{
  ℕ, zero, suc, ◌+◌, ◌-◌, ◌*◌, ◌/◌, ◌%◌, Bool, true, false, ◌&&◌, ◌||◌, List, [], ◌∷◌, ltb, leb,
  ◌==◌, if◌then◌else◌, Option, none, some,
}
use linux_homework.Text.{
  Text, ℤ, pos, negsuc, fgets_all, skip_spaces, atoi, long_pos, long_neg, to_int,
}

-- `fgets(buf, BUFSIZE, file)`, which leaves `buf` at the end of the file.
abbrev pub first_line : (buf : Text) → List Text → Text
first_line buf [] = buf
first_line buf (l ∷ ls) = l

-- `readSysrq` and `readCad`, with what `buf` is before and after; `none` if the program exits.
unfoldable pub read_file : (buf : Text) → Option Text → Option (ℤ × Text)
read_file buf none = none
read_file buf (some file) = let line = first_line buf (fgets_all 31 file) in some (atoi line, line)

-- `0xff ^ value`
abbrev pub flip : ℕ → ℕ
flip n = n / 256 * 256 + (255 - n % 256)

unfoldable pub reverse : ℤ → ℤ
reverse (pos n) = pos (flip n)
reverse (negsuc n) = negsuc (flip n)

-- `strtol`. What is no digit has the value 36.
abbrev pub digit_value : ℕ → ℕ
digit_value c =
    if leb 48 c && leb c 57
    then c - 48
    else if leb 97 c && leb c 122
    then c - 87
    else if leb 65 c && leb c 90
    then c - 55
    else 36

unfoldable pub digits_base : (base acc : ℕ) → Text → ℕ
digits_base base acc [] = acc
digits_base base acc (c ∷ s) = elim (ltb (digit_value c) base) [
  | true ↦ digits_base base (acc * base + digit_value c) s
  | false ↦ acc
]

-- `0x` in front of a digit of base 16.
abbrev pub has_prefix : Text → Bool
has_prefix (z ∷ x ∷ d ∷ s) = (z == 48) && ((x == 120) || (x == 88)) && ltb (digit_value d) 16
has_prefix s = false

abbrev pub behind_prefix : Text → Text
behind_prefix (z ∷ x ∷ s) = s
behind_prefix s = s

abbrev pub starts_zero : Text → Bool
starts_zero [] = false
starts_zero (c ∷ s) = c == 48

-- The base 0 is for that of the prefix.
unfoldable pub unsigned : (base : ℕ) → Text → ℕ
unfolding digits_base
unsigned base s =
    if has_prefix s && ((base == 0) || (base == 16))
    then digits_base 16 0 (behind_prefix s)
    else digits_base (if base == 0 then if starts_zero s then 8 else 10 else base) 0 s

abbrev pub strtol_signed : (base : ℕ) → Text → ℤ
strtol_signed base [] = pos 0
strtol_signed base (c ∷ s) =
    if c == 45
    then long_neg (unsigned base s)
    else if c == 43
    then long_pos (unsigned base s)
    else long_pos (unsigned base (c ∷ s))

unfoldable pub strtol : (base : ℕ) → Text → ℤ
unfolding unsigned
strtol base s = strtol_signed base (skip_spaces s)

abbrev pub starts_0x : Text → Bool
starts_0x (z ∷ x ∷ s) = (z == 48) && (x == 120)
starts_0x s = false

-- `tmp` of `main`, with the third argument.
unfoldable pub parse : Text → ℤ
unfolding strtol
parse s = to_int (if starts_0x s then strtol 16 s else strtol 0 s)

pub data Switch : Type 0 where
  sysrq ctrl_alt_del : Switch

-- How `main` ends: with a text of help and its code; an exit without a file; a character that the
-- argument does not have; a number printed; one written; a file that cannot be written, noticed or
-- not; or nothing.
pub data Result : Type 0 where
  help_failed help_done exits unset nothing cannot_write null_file : Result
  shows writes : Switch → ℤ → Result

abbrev pub char_at : ℕ → Text → Option ℕ
char_at n [] = none
char_at zero (c ∷ s) = some c
char_at (suc n) (c ∷ s) = char_at n s

-- `write_cad` tests `sysrqFile`, which `readSysrq` has set.
unfoldable pub write_sysrq : (can_write : Bool) → ℤ → Result
write_sysrq false value = cannot_write
write_sysrq true value = writes sysrq value

unfoldable pub write_cad : (can_write : Bool) → ℤ → Result
write_cad false value = null_file
write_cad true value = writes ctrl_alt_del value

abbrev pub show_value : (c3 : ℕ) → (sysrq_value cad_value : ℤ) → Result
show_value c3 sysrq_value cad_value =
    if c3 == 115
    then shows sysrq sysrq_value
    else if c3 == 99
    then shows ctrl_alt_del cad_value
    else help_done

abbrev pub new_value : (third : Option Text) → ℤ → ℤ
new_value none old = reverse old
new_value (some s) old = parse s

abbrev pub write_value :
    (c3 : ℕ)
    → (third : Option Text) → (sysrq_value cad_value : ℤ) → (writes_sysrq writes_cad : Bool)
    → Result
write_value c3 third sysrq_value cad_value writes_sysrq writes_cad =
    if c3 == 115
    then write_sysrq writes_sysrq (new_value third sysrq_value)
    else if c3 == 99
    then write_cad writes_cad (new_value third cad_value)
    else nothing

-- By the first three characters of the argument.
unfoldable pub by_option :
    Text
    → (third : Option Text) → (sysrq_value cad_value : ℤ) → (writes_sysrq writes_cad : Bool)
    → Result
unfolding write_sysrq write_cad reverse parse
by_option arg third sysrq_value cad_value writes_sysrq writes_cad = elim (char_at 0 arg) [
  | none ↦ unset
  | some c1 ↦
      if c1 == 45
      then elim (char_at 1 arg) [
        | none ↦ unset
        | some c2 ↦ elim (char_at 2 arg) [
          | none ↦ if (c2 == 114) || (c2 == 119) then unset else nothing
          | some c3 ↦
              if c2 == 114
              then show_value c3 sysrq_value cad_value
              else if c2 == 119
              then write_value c3 third sysrq_value cad_value writes_sysrq writes_cad
              else nothing
        ]
      ]
      else help_failed
]

-- The files as they are read, and whether they can be opened for writing.
pub record Files : Type 0 where
  pub sysrq_text : Option Text
  pub cad_text : Option Text
  pub writes_sysrq : Bool
  pub writes_cad : Bool

unfoldable pub with_files : Text → (third : Option Text) → Files → Result
with_files arg third f = elim (read_file [] f.sysrq_text) [
  | none ↦ exits
  | some (sysrq_value, buf) ↦ elim (read_file buf f.cad_text) [
    | none ↦ exits
    | some (cad_value, buf') ↦ by_option arg third sysrq_value cad_value f.writes_sysrq f.writes_cad
  ]
]

-- With the arguments behind the program's name.
unfoldable pub main : List Text → Files → Result
unfolding with_files
main [] f = help_failed
main (arg ∷ []) f = with_files arg none f
main (arg ∷ third ∷ []) f = with_files arg (some third) f
main (arg ∷ third ∷ fourth ∷ rest) f = help_failed
