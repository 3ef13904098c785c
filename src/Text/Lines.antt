-- ===== src/Text/Lines.antt =====
-- What repeated `fgets` and `strtok` make of a text.
use linux_homework.Base.{
  ℕ, ◌-◌, ◌<◌, ◌≡◌, false, true, List, [], ◌∷◌, ◌++◌, map, leb, ◌==◌, refl, ap, sym, ◌∙◌, arith,
  length, append-nil, append_assoc,
}
use linux_homework.Text.{Text, fgets_from, fgets_all, strtok_from, strtok_all}

abbrev pub concat : List Text → Text
concat [] = []
concat (t ∷ ts) = t ++ concat ts

-- A line's characters, without its newline.
abbrev pub IsLine : Text → Type 0
IsLine [] = Unit {0}
IsLine (c ∷ s) = ((c == 10) ≡ false) × IsLine s

abbrev pub with_newline : Text → Text
with_newline s = s ++ 10 ∷ []

-- Lines that fit into a buffer with `size` characters, their newlines included.
abbrev pub Fit : (size : ℕ) → List Text → Type 0
Fit size [] = Unit {0}
Fit size (s ∷ ss) = IsLine s × (length s < size) × Fit size ss

pub fgets_from-line :
    (size room : ℕ) (cur s file : Text)
    → IsLine s
    → length s < room
    → fgets_from size room cur (with_newline s ++ file)
      ≡ (cur ++ with_newline s) ∷ fgets_from size size [] file
unfolding fgets_from
fgets_from-line size room [] [] file line fits = refl
fgets_from-line size room (b ∷ cur) [] file line fits = refl
fgets_from-line size room [] (c ∷ s) file (plain, line) fits =
    let more : leb room 1 ≡ false = ground (arith, fits) in
    rw (fgets_from, plain, more)
      (fgets_from-line size (room - 1) (c ∷ []) s file line (omega (arith, fits)))
fgets_from-line size room (b ∷ cur) (c ∷ s) file (plain, line) fits =
    let more : leb room 1 ≡ false = ground (arith, fits) in
    rw (fgets_from, plain, more)
      (fgets_from-line size (room - 1) (b ∷ cur ++ c ∷ []) s file line (omega (arith, fits))
        ∙ ap (λ l. l ∷ fgets_from size size [] file)
            (append_assoc (b ∷ cur) (c ∷ []) (with_newline s)))

-- A line that does not fit is read up to the end of the buffer.
pub fgets_from-full :
    (size room : ℕ) (cur s file : Text)
    → IsLine s
    → length s ≡ room
    → 0 < room
    → fgets_from size room cur (s ++ file) ≡ (cur ++ s) ∷ fgets_from size size [] file
unfolding fgets_from
fgets_from-full size room cur [] file line full some_room = absurd (omega (arith, full, some_room))
fgets_from-full size room [] (c ∷ []) file (plain, line) full some_room =
    let last : leb room 1 ≡ true = ground (arith, full) in rw (fgets_from, plain, last) refl
fgets_from-full size room (b ∷ cur) (c ∷ []) file (plain, line) full some_room =
    let last : leb room 1 ≡ true = ground (arith, full) in rw (fgets_from, plain, last) refl
fgets_from-full size room [] (c ∷ d ∷ s) file (plain, line) full some_room =
    let more : leb room 1 ≡ false = ground (arith, full) in
    rw (fgets_from, plain, more)
      (fgets_from-full size (room - 1) (c ∷ []) (d ∷ s) file line (omega (arith, full))
        (omega (arith, full)))
fgets_from-full size room (b ∷ cur) (c ∷ d ∷ s) file (plain, line) full some_room =
    let more : leb room 1 ≡ false = ground (arith, full) in
    rw (fgets_from, plain, more)
      (fgets_from-full size (room - 1) (b ∷ cur ++ c ∷ []) (d ∷ s) file line (omega (arith, full))
          (omega (arith, full))
        ∙ ap (λ l. l ∷ fgets_from size size [] file) (append_assoc (b ∷ cur) (c ∷ []) (d ∷ s)))

-- Each line that fits is read whole.
pub fgets_all-lines :
    (size : ℕ) (ss : List Text)
    → Fit size ss
    → fgets_all size (concat (map with_newline ss)) ≡ map with_newline ss
unfolding fgets_all
fgets_all-lines size [] fit = refl
fgets_all-lines size (s ∷ ss) (line, fits, fit) =
    fgets_from-line size size [] s (concat (map with_newline ss)) line fits
    ∙ ap (λ l. with_newline s ∷ l) (fgets_all-lines size ss fit)

-- A word has a character, and none is a space.
abbrev pub IsSolid : Text → Type 0
IsSolid [] = Unit {0}
IsSolid (c ∷ s) = ((c == 32) ≡ false) × IsSolid s

abbrev pub IsWord : Text → Type 0
IsWord [] = ⊥
IsWord (c ∷ s) = IsSolid (c ∷ s)

abbrev pub Words : List Text → Type 0
Words [] = Unit {0}
Words (w ∷ ws) = IsWord w × Words ws

abbrev pub spaced : List Text → Text
spaced [] = []
spaced (w ∷ ws) = 32 ∷ w ++ spaced ws

strtok_from-rest :
    (b : ℕ) (cur w s : Text)
    → IsSolid w
    → strtok_from (b ∷ cur) (w ++ 32 ∷ s) ≡ (b ∷ cur ++ w) ∷ strtok_from [] s
unfolding strtok_from
strtok_from-rest b cur [] s solid = ap (λ l. (b ∷ l) ∷ strtok_from [] s) (sym (append-nil cur))
strtok_from-rest b cur (c ∷ w) s (dark, solid) =
    rw (strtok_from, dark)
      (strtok_from-rest b (cur ++ c ∷ []) w s solid
        ∙ ap (λ l. (b ∷ l) ∷ strtok_from [] s) (append_assoc cur (c ∷ []) w))

strtok_from-last :
    (b : ℕ) (cur w : Text) → IsSolid w → strtok_from (b ∷ cur) w ≡ (b ∷ cur ++ w) ∷ []
unfolding strtok_from
strtok_from-last b cur [] solid = ap (λ l. (b ∷ l) ∷ []) (sym (append-nil cur))
strtok_from-last b cur (c ∷ w) (dark, solid) =
    rw (strtok_from, dark)
      (strtok_from-last b (cur ++ c ∷ []) w solid
        ∙ ap (λ l. (b ∷ l) ∷ []) (append_assoc cur (c ∷ []) w))

pub strtok_all-words :
    (w : Text) (ws : List Text) → IsWord w → Words ws → strtok_all (w ++ spaced ws) ≡ w ∷ ws
unfolding strtok_all strtok_from
strtok_all-words [] ws word words = elim word [ ]
strtok_all-words (c ∷ w) [] (dark, solid) words =
    rw (dark, append-nil w, strtok_from) (strtok_from-last c [] w solid)
strtok_all-words (c ∷ w) (v ∷ vs) (dark, solid) (word, words) =
    rw (dark, strtok_from)
      (strtok_from-rest c [] w (v ++ spaced vs) solid
        ∙ ap (λ l. (c ∷ w) ∷ l) (strtok_all-words v vs word words))
