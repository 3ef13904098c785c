-- ===== src/Monitor/Debug.antt =====
-- What `read_intr` of 3/inter_moniter.c copies for debugging: each handler has a counter of its
-- calls and a file, into which each line is written behind the counter and the line's place. A call
-- here is one that no handler comes between.
use linux_homework.Base.{
  ℕ, ◌+◌, ◌≡◌, true, false, Option, none, some, List, [], ◌∷◌, ◌++◌, refl, ap, length,
  if◌then◌else◌,
}
use linux_homework.Monitor.{Which, same, Read, intr, read_intr}
use linux_homework.Text.{Text, starts_with, fgets_all}

-- A line as it is copied, and the text for a file without the line `intr`.
pub data Entry : Type 0 where
  copied : (counter place : ℕ) → Text → Entry
  never_here : Entry

-- `c0`, `c1` and `c2`, and the files of the three handlers.
pub record Log : Type 0 where
  pub counter : Which → ℕ
  pub file : Which → List Entry

unfoldable pub copy_lines : (counter place : ℕ) → List Text → List Entry
copy_lines counter place [] = never_here ∷ []
copy_lines counter place (l ∷ ls) =
    let rest = copy_lines counter (place + length l) ls in
    copied counter place l ∷ (if starts_with intr l then [] else rest)

abbrev pub update : {A : Type 0} → Which → A → (Which → A) → Which → A
update w a f v = if same v w then a else f v

-- A call for the handler `w`; without /proc/stat the program exits before it counts.
unfoldable pub logged : Which → Option Text → Log → Log
logged w none g = g
logged w (some stat) g = record {
  counter = update w (g.counter w + 1) g.counter;
  file = update w (g.file w ++ copy_lines (g.counter w + 1) 0 (fgets_all 2047 stat)) g.file;
}

unfoldable pub read_intr_logged : Which → Option Text → Log → Read × Log
read_intr_logged w stat g = (read_intr stat, logged w stat g)

-- `map_timer`
unfoldable pub map_timer : Which → ℕ
map_timer Which.real = 0
map_timer Which.virt = 1
map_timer Which.prof = 2

-- Lines with the places where they begin.
abbrev pub placed : (counter place : ℕ) → List Text → List Entry
placed counter place [] = []
placed counter place (l ∷ ls) = copied counter place l ∷ placed counter (place + length l) ls

abbrev pub Without : List Text → Type 0
Without [] = Unit {0}
Without (l ∷ ls) = (starts_with intr l ≡ false) × Without ls

-- The lines up to the first one of the interrupts are copied with it, each with its place, and
-- nothing behind it; without such a line all of them are, and the text that should never be there.
pub copy_lines-placed :
    (counter place : ℕ) (ls : List Text) (l : Text) (rest : List Text)
    → Without ls
    → starts_with intr l ≡ true
    → (copy_lines counter place (ls ++ l ∷ rest) ≡ placed counter place (ls ++ l ∷ []))
      × (copy_lines counter place ls ≡ placed counter place ls ++ never_here ∷ [])
unfolding copy_lines
copy_lines-placed counter place [] l rest v h = (rw h refl, refl)
copy_lines-placed counter place (k ∷ ls) l rest (other, v) h =
    let (found, missed) = copy_lines-placed counter (place + length k) ls l rest v h in
    rw other
      (ap (λ es. copied counter place k ∷ es) found, ap (λ es. copied counter place k ∷ es) missed)
