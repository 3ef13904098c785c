-- ===== src/Syscall/Table.antt =====
-- The table of system calls while the module of 5/syscall.c is loaded, and behind.
use linux_homework.Base.{
  ℕ, zero, suc, ◌+◌, ◌-◌, ◌≤◌, ◌<◌, ◌≡◌, true, false, ◌==◌, Option, none, some, refl, ap, subst,
  arith, Bool-cases, inl, inr,
}
use linux_homework.Syscall.{
  Words, nr_mysyscall, find_from, find_sys_call_table, store, Module, init_addsyscall,
  exit_addsyscall,
}

module _ (nr_close sys_close : ℕ) (m : Words) where
  -- The first of the words from `start` on behind which the address of `sys_close` stands.
  abbrev pub IsFirst : (start stop p : ℕ) → Type 0
  IsFirst start stop p =
      (start ≤ p)
      × (p < stop)
      × (m (p + nr_close) ≡ sys_close)
      × ((q : ℕ) → start ≤ q → q < p → (m (q + nr_close) == sys_close) ≡ false)

  abbrev pub Finds : (start stop : ℕ) → Option ℕ → Type 0
  Finds start stop none = (q : ℕ) → start ≤ q → q < stop → (m (q + nr_close) == sys_close) ≡ false
  Finds start stop (some p) = IsFirst start stop p

  Finds-later :
      (k p : ℕ) (found : Option ℕ)
      → (m (p + nr_close) == sys_close) ≡ false
      → Finds (p + 1) (p + 1 + k) found
      → Finds p (p + suc k) found
  Finds-later k p none other later = λ q from to. elim (Bool-cases (q == p)) [
    | inl here ↦ ground (arith, here, other)
    | inr apart ↦ later q (ground (arith, apart, from)) (omega (arith, to))
  ]
  Finds-later k p (some r) other (from, to, there, before) = (
    omega (arith, from),
    omega (arith, to),
    there,
    λ q from' to'. elim (Bool-cases (q == p)) [
      | inl here ↦ ground (arith, here, other)
      | inr apart ↦ before q (ground (arith, apart, from')) to'
    ],
  )

  find_from-Finds : (k p : ℕ) → Finds p (p + k) (find_from nr_close sys_close m k p)
  unfolding find_from
  find_from-Finds zero p = λ q from to. absurd (omega (arith, from, to))
  find_from-Finds (suc k) p = elim (Bool-cases (m (p + nr_close) == sys_close)) [
    | inl here ↦
        rw (here, find_from)
          (
            omega arith,
            omega arith,
            ground (arith, here),
            λ q from to. absurd (omega (arith, from, to)),
          )
    | inr other ↦
        rw (other, find_from)
          (Finds-later k p (find_from nr_close sys_close m k (p + 1)) other
            (find_from-Finds k (p + 1)))
  ]

-- What loading and removing the module do: it fails where no table is found; else the table is the
-- first one, its call 349 is the module's own and nothing else has changed; and the memory is as
-- it was when the module is removed.
abbrev pub Adds : (nr_close sys_close sys_mysyscall start stop : ℕ) → Words → Option Module → Type 0
Adds nr_close sys_close sys_mysyscall start stop m none = Finds nr_close sys_close m start stop none
Adds nr_close sys_close sys_mysyscall start stop m (some s) =
    IsFirst nr_close sys_close m start stop s.sys_call_table
    × (s.memory (s.sys_call_table + nr_mysyscall) ≡ sys_mysyscall)
    × ((q : ℕ) → (q == s.sys_call_table + nr_mysyscall) ≡ false → s.memory q ≡ m q)
    × ((q : ℕ) → exit_addsyscall s s.memory q ≡ m q)

-- The module that is loaded with a table at `p`.
abbrev installed : (p sys_mysyscall : ℕ) → Words → Module
installed p sys_mysyscall m = record {
  sys_call_table = p;
  anything_saved = m (p + nr_mysyscall);
  memory = store (p + nr_mysyscall) sys_mysyscall m;
}

removed :
    (p sys_mysyscall : ℕ) (m : Words) (q : ℕ)
    → exit_addsyscall (installed p sys_mysyscall m) (store (p + nr_mysyscall) sys_mysyscall m) q
      ≡ m q
unfolding exit_addsyscall
removed p sys_mysyscall m q = elim (Bool-cases (q == p + nr_mysyscall)) [
  | inl here ↦ rw (here) (ap m (ground (arith, here)))
  | inr apart ↦ rw (apart, store) refl
]

init_addsyscall-found :
    (nr_close sys_close sys_mysyscall start stop : ℕ) (m : Words) (found : Option ℕ)
    → Finds nr_close sys_close m start stop found
    → Adds nr_close sys_close sys_mysyscall start stop m
        (elim found [ none ↦ none | some p ↦ some (installed p sys_mysyscall m) ])
init_addsyscall-found nr_close sys_close sys_mysyscall start stop m none finds = finds
init_addsyscall-found nr_close sys_close sys_mysyscall start stop m (some p) finds =
    let there : (p + nr_mysyscall == p + nr_mysyscall) ≡ true = ground arith in
    (finds, rw (there) refl, λ q apart. rw (apart) refl, removed p sys_mysyscall m)

-- Loading the module fails if no word between the two addresses has that of `sys_close` behind it,
-- at the number of that call. Else the first such word is the table: its call 349 is the module's
-- own, nothing else has changed, and the memory is as it was when the module is removed.
pub init_addsyscall-Adds :
    (nr_close sys_close sys_mysyscall start stop : ℕ) (m : Words)
    → start ≤ stop
    → Adds nr_close sys_close sys_mysyscall start stop m
        (init_addsyscall nr_close sys_close sys_mysyscall start stop m)
unfolding init_addsyscall find_sys_call_table
init_addsyscall-Adds nr_close sys_close sys_mysyscall start stop m ordered =
    let all : start + (stop - start) ≡ stop = omega (arith, ordered) in
    let found = find_from nr_close sys_close m (stop - start) start in
    init_addsyscall-found nr_close sys_close sys_mysyscall start stop m found (
      subst (λ e. Finds nr_close sys_close m start e found) all
        (find_from-Finds nr_close sys_close m (stop - start) start))
