-- ===== src/Shell/Exec/Samples.antt =====
-- A table of descriptors in which the lowest free one is found, and words, for the runs of the
-- shell of 2/parseline.c.
use linux_homework.Base.{
  ℕ, zero, suc, ◌+◌, ◌≤◌, ◌<◌, ◌≡◌, Bool, true, none, some, [], ◌∷◌, ◌==◌, if◌then◌else◌, refl,
  arith, inl, inr, Option-cases,
}
use linux_homework.Shell.{Token, Opened}
use linux_homework.Shell.Exec.{terminal, Table}
use linux_homework.Shell.Exec.Tables.{Finds, Room}

-- The first free descriptor from `fd` on, among `k`.
abbrev first_free : ℕ → ℕ → Table → ℕ
first_free zero fd t = fd
first_free (suc k) fd t = elim (t fd) [ none ↦ fd | some o ↦ first_free k (suc fd) t ]

first_free-Finds :
    (k fd : ℕ) (t : Table) (free : ℕ)
    → fd ≤ free
    → free < fd + k
    → t free ≡ none
    → t (first_free k fd t) ≡ none
first_free-Finds zero fd t free above below here = absurd (omega (arith, above, below))
first_free-Finds (suc k) fd t free above below here = elim (Option-cases (t fd)) [
  | inl gone ↦ rw (gone, first_free) gone
  | inr (o, there) ↦
      let later : suc fd ≤ free = ground (arith, above, there, here) in
      rw (there, first_free) (first_free-Finds k (suc fd) t free later (omega (arith, below)) here)
]

abbrev pub limit : ℕ
limit = 16

abbrev pub lowest : Table → ℕ
lowest = first_free 16 0

pub lowest-Finds : Finds lowest limit
lowest-Finds t fd small here = first_free-Finds 16 0 t fd (omega arith) (omega (arith, small)) here

-- A shell with standard input, output and error.
abbrev pub at_start : Table
at_start fd =
    if fd == 0
    then some terminal
    else if fd == 1
    then some terminal
    else if fd == 2
    then some terminal
    else none

pub at_start-Room : Room at_start limit
at_start-Room = (3, 4, 5, omega arith, omega arith, omega arith, refl, refl, refl)

abbrev pub can_open : Opened → Bool
can_open o = true

abbrev pub ls : Token
ls = 108 ∷ 115 ∷ []

abbrev pub wc : Token
wc = 119 ∷ 99 ∷ []

abbrev pub echo_word : Token
echo_word = 101 ∷ 99 ∷ 104 ∷ 111 ∷ []
