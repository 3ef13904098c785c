-- ===== src/Text.antt =====
-- C strings and files as lists of character codes, and the library functions that the programs read
-- files with: `fgets`, `strtok`, `strncmp`, `atol` and `atoi`.
pub mod Lines
pub mod Numbers
pub mod Print
use linux_homework.Base.{
  ℕ, zero, suc, ◌+◌, ◌-◌, ◌*◌, ◌/◌, ◌%◌, ◌^◌, Bool, true, false, ◌&&◌, ◌||◌, List, [], ◌∷◌, ◌++◌,
  ltb, leb, ◌==◌, if◌then◌else◌, length, replicate, Option, none, some,
}

abbrev pub Text : Type 0
Text = List ℕ

-- `int` and `long`: `negsuc n` is -(n + 1).
pub data ℤ : Type 0 where
  pos : ℕ → ℤ
  negsuc : ℕ → ℤ

-- `strncmp(s, prefix, strlen(prefix)) == 0`
unfoldable pub starts_with : (prefix s : Text) → Bool
starts_with [] s = true
starts_with (p ∷ ps) [] = false
starts_with (p ∷ ps) (c ∷ s) = (c == p) && starts_with ps s

-- Repeated `fgets` of a buffer of `suc size` bytes: `room` more characters fit behind `cur`.
unfoldable pub fgets_from : (size room : ℕ) → (cur file : Text) → List Text
fgets_from size room [] [] = []
fgets_from size room (b ∷ cur) [] = (b ∷ cur) ∷ []
fgets_from size room cur (c ∷ file) = elim ((c == 10) || leb room 1) [
  | true ↦ (cur ++ c ∷ []) ∷ fgets_from size size [] file
  | false ↦ fgets_from size (room - 1) (cur ++ c ∷ []) file
]

unfoldable pub fgets_all : (size : ℕ) → Text → List Text
unfolding fgets_from
fgets_all size file = fgets_from size size [] file

-- `strtok(s, " ")`, and `strtok(NULL, " ")` until it returns NULL: the words between spaces.
unfoldable pub strtok_from : (cur s : Text) → List Text
strtok_from [] [] = []
strtok_from (b ∷ cur) [] = (b ∷ cur) ∷ []
strtok_from [] (c ∷ s) = elim (c == 32) [ true ↦ strtok_from [] s | false ↦ strtok_from (c ∷ []) s ]
strtok_from (b ∷ cur) (c ∷ s) = elim (c == 32) [
  | true ↦ (b ∷ cur) ∷ strtok_from [] s
  | false ↦ strtok_from (b ∷ cur ++ c ∷ []) s
]

unfoldable pub strtok_all : Text → List Text
unfolding strtok_from
strtok_all s = strtok_from [] s

-- One call of `strtok` with a set of delimiters: the word, and what stands behind the delimiter
-- that ends it; `none` if there is no word.
unfoldable pub take_token : (delim : ℕ → Bool) → (cur s : Text) → Text × Text
take_token delim cur [] = (cur, [])
take_token delim cur (c ∷ s) = elim (delim c) [
  | true ↦ (cur, s)
  | false ↦ take_token delim (cur ++ c ∷ []) s
]

unfoldable pub strtok : (delim : ℕ → Bool) → Text → Option (Text × Text)
unfolding take_token
strtok delim [] = none
strtok delim (c ∷ s) = elim (delim c) [
  | true ↦ strtok delim s
  | false ↦ some (take_token delim (c ∷ []) s)
]

abbrev pub is_digit : ℕ → Bool
is_digit c = leb 48 c && leb c 57

abbrev pub is_space : ℕ → Bool
is_space c = (c == 32) || (leb 9 c && leb c 13)

-- The digits at the start, behind the value `acc`.
unfoldable pub digits_from : ℕ → Text → ℕ
digits_from acc [] = acc
digits_from acc (c ∷ s) = elim (is_digit c) [
  | true ↦ digits_from (acc * 10 + (c - 48)) s
  | false ↦ acc
]

abbrev pub neg : ℕ → ℤ
neg zero = pos 0
neg (suc n) = negsuc n

-- `long` has 64 bits, and `strtol` stops at its bounds.
abbrev pub long_pos : ℕ → ℤ
long_pos n = if ltb n (2 ^ 63) then pos n else pos (2 ^ 63 - 1)

abbrev pub long_neg : ℕ → ℤ
long_neg n = if leb n (2 ^ 63) then neg n else negsuc (2 ^ 63 - 1)

abbrev pub signed : Text → ℤ
signed [] = pos 0
signed (c ∷ s) =
    if c == 45
    then long_neg (digits_from 0 s)
    else if c == 43
    then long_pos (digits_from 0 s)
    else long_pos (digits_from 0 (c ∷ s))

unfoldable pub skip_spaces : Text → Text
skip_spaces [] = []
skip_spaces (c ∷ s) = elim (is_space c) [ true ↦ skip_spaces s | false ↦ c ∷ s ]

unfoldable pub atol : Text → ℤ
unfolding digits_from skip_spaces
atol s = signed (skip_spaces s)

-- A `long` that is assigned to an `int` keeps its low 32 bits.
abbrev pub to_int : ℤ → ℤ
to_int (pos n) =
    let low = n % 2 ^ 32 in if ltb low (2 ^ 31) then pos low else negsuc (2 ^ 32 - 1 - low)
to_int (negsuc n) =
    let low = n % 2 ^ 32 in if ltb low (2 ^ 31) then negsuc low else pos (2 ^ 32 - 1 - low)

unfoldable pub atoi : Text → ℤ
unfolding atol
atoi s = to_int (atol s)

abbrev pub minus : ℕ → ℕ → ℤ
minus a b = if leb b a then pos (a - b) else negsuc (b - a - 1)

-- Sum and order of integers without a bound.
unfoldable pub add : ℤ → ℤ → ℤ
add (pos a) (pos b) = pos (a + b)
add (pos a) (negsuc b) = minus a (suc b)
add (negsuc a) (pos b) = minus b (suc a)
add (negsuc a) (negsuc b) = negsuc (a + b + 1)

unfoldable pub less_than : ℤ → ℤ → Bool
less_than (pos a) (pos b) = ltb a b
less_than (pos a) (negsuc b) = false
less_than (negsuc a) (pos b) = true
less_than (negsuc a) (negsuc b) = ltb b a

-- An `int` can hold it.
unfoldable pub is_int : ℤ → Bool
is_int (pos n) = ltb n (2 ^ 31)
is_int (negsuc n) = ltb n (2 ^ 31)

-- Division of C, towards zero.
unfoldable pub div : ℤ → ℕ → ℤ
div (pos a) b = pos (a / b)
div (negsuc a) b = neg (suc a / b)

unfoldable pub rem : ℤ → ℕ → ℤ
rem (pos a) b = pos (a % b)
rem (negsuc a) b = neg (suc a % b)

unfoldable pub opposite : ℤ → ℤ
opposite (pos n) = neg n
opposite (negsuc n) = pos (suc n)

-- Division of two `long`; `none` where it faults, by 0 and of the least one by -1.
unfoldable pub div_long : ℤ → ℤ → Option ℤ
unfolding div opposite
div_long a (pos zero) = none
div_long a (pos (suc b)) = some (div a (suc b))
div_long (pos a) (negsuc b) = some (opposite (div (pos a) (suc b)))
div_long (negsuc a) (negsuc b) =
    if (b == 0) && (a == 2 ^ 63 - 1) then none else some (opposite (div (negsuc a) (suc b)))

unfoldable pub sub : ℤ → ℤ → ℤ
unfolding add opposite
sub a b = add a (opposite b)

-- `%d` of an `int`, which has ten digits at most.
unfoldable pub show_from : (fuel n : ℕ) → Text → Text
show_from zero n acc = acc
show_from (suc fuel) n acc = elim (ltb n 10) [
  | true ↦ (48 + n) ∷ acc
  | false ↦ show_from fuel (n / 10) ((48 + n % 10) ∷ acc)
]

unfoldable pub show_int : ℤ → Text
unfolding show_from
show_int (pos n) = show_from 10 n []
show_int (negsuc n) = 45 ∷ show_from 10 (suc n) []

-- A digit of `%x`, and `%x` of a number that has `fuel` digits at most.
abbrev pub hex_digit : ℕ → ℕ
hex_digit d = if ltb d 10 then 48 + d else 87 + d

unfoldable pub show_hex_from : (fuel n : ℕ) → Text → Text
show_hex_from zero n acc = acc
show_hex_from (suc fuel) n acc = elim (ltb n 16) [
  | true ↦ hex_digit n ∷ acc
  | false ↦ show_hex_from fuel (n / 16) (hex_digit (n % 16) ∷ acc)
]

-- `%0`, a width, and `lx`, for an `unsigned long` of 64 bits; and a number or a text of at least so
-- many characters.
abbrev pub padded : (c width : ℕ) → Text → Text
padded c width s = replicate (width - length s) c ++ s

unfoldable pub show_hex : (width n : ℕ) → Text
unfolding show_hex_from
show_hex width n = padded 48 width (show_hex_from 16 n [])
