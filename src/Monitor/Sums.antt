-- ===== src/Monitor/Sums.antt =====
-- The differences that 3/inter_moniter.c prints, added up.
use linux_homework.Base.{
  ℕ, zero, suc, ◌+◌, ◌^◌, ◌<◌, ◌≡◌, ltb, length, true, false, List, [], ◌∷◌, ◌++◌, map,
  if◌then◌else◌, none, some, arith, Bool-cases, inl, inr, refl, ap, ◌∙◌, append_assoc,
}
use linux_homework.Text.{
  Text, ℤ, pos, negsuc, add, opposite, sub, atoi, starts_with, fgets_all, is_digit,
}
use linux_homework.Text.Lines.{concat, with_newline, Fit, spaced, fgets_all-lines}
use linux_homework.Text.Numbers.{Digits, Stops, value, atoi-value_bare}
use linux_homework.Monitor.{
  Which, real, virt, prof, same, number, intr, read_lines, State, Event, opens, reads, prints,
  saves, Printed, running, astray, save, also, run,
}

map-append : (f : Text → Text) (xs ys : List Text) → map f (xs ++ ys) ≡ map f xs ++ map f ys
map-append f [] ys = refl
map-append f (x ∷ xs) ys = ap (λ zs. f x ∷ zs) (map-append f xs ys)

-- A number as the difference of two natural ones.
abbrev pub up : ℤ → ℕ
up (pos n) = n
up (negsuc n) = 0

abbrev pub down : ℤ → ℕ
down (pos n) = 0
down (negsuc n) = suc n

sub_lem : (a b : ℤ) → up (sub a b) + down a + up b ≡ down (sub a b) + up a + down b
unfolding sub add opposite
sub_lem (pos a) (pos zero) = omega arith
sub_lem (pos a) (pos (suc b)) = ground arith
sub_lem (pos a) (negsuc b) = omega arith
sub_lem (negsuc a) (pos zero) = ground arith
sub_lem (negsuc a) (pos (suc b)) = omega arith
sub_lem (negsuc a) (negsuc b) = ground arith

-- What one timer's handler prints in all, counted up and down.
abbrev pub ups : Which → Printed → ℕ
ups w [] = 0
ups w ((v, d) ∷ ps) = (if same w v then up d else 0) + ups w ps

abbrev pub downs : Which → Printed → ℕ
downs w [] = 0
downs w ((v, d) ∷ ps) = (if same w v then down d else 0) + downs w ps

-- The printed numbers of a handler come to what its variable has changed by.
abbrev pub Sums : State → Printed → State → Type 0
Sums s ps t =
    (w : Which)
    → ups w ps + up (s.old w) + down (t.old w) ≡ downs w ps + down (s.old w) + up (t.old w)

-- A file as the kernel writes it: other lines, and the one of the interrupts with their number in
-- front of others, `intr 17 4 9`.
pub record Stat : Type 0 where
  pub before : List Text
  pub first : ℕ
  pub digits : Text
  pub others : List Text
  pub behind : List Text

abbrev pub interrupts : Stat → ℕ
interrupts f = value (f.first ∷ f.digits)

abbrev pub intr_line : Stat → Text
intr_line f = 105 ∷ 110 ∷ 116 ∷ 114 ∷ 32 ∷ f.first ∷ f.digits ++ spaced f.others

abbrev pub stat_lines : Stat → List Text
stat_lines f = f.before ++ intr_line f ∷ f.behind

abbrev pub text : Stat → Text
text f = concat (map with_newline (stat_lines f))

abbrev pub Quiet : List Text → Type 0
Quiet [] = Unit {0}
Quiet (l ∷ ls) = (starts_with intr (with_newline l) ≡ false) × Quiet ls

pub record Proper (f : Stat) : Type 0 where
  pub quiet : Quiet f.before
  pub fit : Fit 2047 (stat_lines f)
  pub digit : is_digit f.first ≡ true
  pub digits : Digits f.digits
  pub small : interrupts f < 2 ^ 31

spaced-Stops : (ws : List Text) → Stops (spaced ws ++ 10 ∷ [])
spaced-Stops [] = refl
spaced-Stops (w ∷ ws) = refl

read_lines-intr :
    (f : Stat)
    → Proper f
    → (rest : List Text)
    → read_lines (with_newline (intr_line f) ∷ rest) ≡ number (pos (interrupts f))
unfolding read_lines starts_with
read_lines-intr f v rest =
    let long : ltb (length (with_newline (intr_line f))) 5 ≡ false = ground arith in
    rw (read_lines, long)
      (ap number (
        ap (λ l. atoi (f.first ∷ l)) (append_assoc f.digits (spaced f.others) (10 ∷ []))
        ∙ atoi-value_bare f.first f.digits (spaced f.others ++ 10 ∷ []) v.digit v.digits
            (spaced-Stops f.others) v.small))

read_lines-quiet :
    (ls rest : List Text) → Quiet ls → read_lines (map with_newline ls ++ rest) ≡ read_lines rest
unfolding read_lines
read_lines-quiet [] rest v = refl
read_lines-quiet (l ∷ ls) rest (other, v) = rw (read_lines, other) (read_lines-quiet ls rest v)

read_lines-text :
    (f : Stat) → Proper f → read_lines (fgets_all 2047 (text f)) ≡ number (pos (interrupts f))
read_lines-text f v =
    ap read_lines (
      fgets_all-lines 2047 (stat_lines f) v.fit
      ∙ map-append with_newline f.before (intr_line f ∷ f.behind))
    ∙ read_lines-quiet f.before (map with_newline (intr_line f ∷ f.behind)) v.quiet
    ∙ read_lines-intr f v (map with_newline f.behind)

-- Opening and reading, or printing and saving, with nothing between.
pub data Block : Type 0 where
  read : Which → Stat → Block
  report : Which → Block

abbrev pub Propers : List Block → Type 0
Propers [] = Unit {0}
Propers (read w f ∷ bs) = Proper f × Propers bs
Propers (report w ∷ bs) = Propers bs

abbrev pub events : List Block → List Event
events [] = []
events (read w f ∷ bs) = opens w (some (text f)) ∷ reads w ∷ events bs
events (report w ∷ bs) = prints w ∷ saves w ∷ events bs

-- What the timers' variables are to hold in the end: the number that was read last before the
-- timer's handler printed.
abbrev pub last_read : (cur : ℤ) → (old : Which → ℤ) → List Block → Which → ℤ
last_read cur old [] v = old v
last_read cur old (read w f ∷ bs) v = last_read (pos (interrupts f)) old bs v
last_read cur old (report w ∷ bs) v = last_read cur (λ u. if same u w then cur else old u) bs v

-- The program runs, has printed numbers that add up, and holds these numbers.
abbrev pub Tells : State → List Block → Type 0
Tells s bs =
    (ps : Printed) × (t : State) × (run (events bs) s ≡ running ps t)
    × Sums s ps t
    × ((v : Which) → t.old v ≡ last_read s.cur s.old bs v)

own_sums :
    (w v : Which)
    → same v w ≡ true
    → (s : State) (ps : Printed) (t : State)
    → ups v ps + up ((save w s).old v) + down (t.old v)
      ≡ downs v ps + down ((save w s).old v) + up (t.old v)
    → ups v ((w, sub s.cur (s.old w)) ∷ ps) + up (s.old v) + down (t.old v)
      ≡ downs v ((w, sub s.cur (s.old w)) ∷ ps) + down (s.old v) + up (t.old v)
own_sums real real own s ps t sums = omega (arith, sums, sub_lem s.cur (s.old real))
own_sums virt virt own s ps t sums = omega (arith, sums, sub_lem s.cur (s.old virt))
own_sums prof prof own s ps t sums = omega (arith, sums, sub_lem s.cur (s.old prof))
own_sums real virt own s ps t sums = ground (arith, own)
own_sums real prof own s ps t sums = ground (arith, own)
own_sums virt real own s ps t sums = ground (arith, own)
own_sums virt prof own s ps t sums = ground (arith, own)
own_sums prof real own s ps t sums = ground (arith, own)
own_sums prof virt own s ps t sums = ground (arith, own)

Sums-report :
    (w : Which) (s : State) (ps : Printed) (t : State)
    → Sums (save w s) ps t
    → Sums s ((w, sub s.cur (s.old w)) ∷ ps) t
Sums-report w s ps t sums = λ v. elim (Bool-cases (same v w)) [
  | inl own ↦ own_sums w v own s ps t (sums v)
  | inr other ↦ ground (arith, other, sums v)
]

run-Tells : (bs : List Block) (s : State) → Propers bs → Tells s bs
unfolding run also
run-Tells [] s v = ([], s, refl, λ w. omega arith, λ w. refl)
run-Tells (read w f ∷ bs) s (k, v) =
    let (ps, t, ran, sums, held) =
      run-Tells bs (record { proc_file = none; cur = pos (interrupts f); old = s.old }) v in
    (ps, t, rw (run, read_lines-text f k) ran, sums, held)
run-Tells (report w ∷ bs) s v =
    let (ps, t, ran, sums, held) = run-Tells bs (save w s) v in
    (
      (w, sub s.cur (s.old w)) ∷ ps,
      t,
      ap (also (w, sub s.cur (s.old w))) ran,
      Sums-report w s ps t sums,
      held,
    )

-- However the handlers of the three timers come between each other, but for the time from `fopen`
-- to the test of `cur_intr` and that from printing to saving of each: the program runs on, what a
-- timer's handler has printed in all is what its variable has changed by, and that is the number of
-- interrupts in the file that was read last before it printed. A handler that comes while another
-- reads closes the other's file, which then reads from a closed one. The files have a line of the
-- interrupts with a number below 2^31, and lines that fit into the buffer.
pub run-Sums :
    (bs : List Block) (s : State)
    → Propers bs
    → Tells s bs
      × ((v w : Which) (f g : Stat) (es : List Event)
          → Proper g
          → run (opens v (some (text f)) ∷ opens w (some (text g)) ∷ reads w ∷ reads v ∷ es) s
            ≡ astray [])
unfolding run also
run-Sums bs s v = (run-Tells bs s v, λ u w f g es k. rw (run, read_lines-text g k) refl)
