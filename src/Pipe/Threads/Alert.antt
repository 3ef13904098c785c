-- ===== src/Pipe/Threads/Alert.antt =====
-- Sleeping processes of scull_pipe.c: each one waits for something that is not there, or a process
-- is about to wake its queue. A step of any process keeps that.
use linux_homework.Base.{
  ℕ, ◌+◌, ◌-◌, ◌≡◌, ◌⊎◌, inl, inr, true, false, none, some, Option, arith, ◌==◌, refl, sym, ap, ◌∙◌,
  Bool-cases, ==_iff,
}
use linux_homework.Pipe.{Pipe, Reply}
use linux_homework.Pipe.Threads.{
  Call, reading, writing, must_wait, other, Pc, idle, queued, asleep, waking, Next, woken, wake,
  System, apply,
}
use linux_homework.Pipe.Threads.Step.{must_wait-sem}
use linux_homework.Pipe.Threads.Outcome.{is_waking, Outcome, plain, acquire, release, body, notify}

-- Some process is about to wake the queue on which a call `c` waits.
abbrev pub Waker : System → Call → Type 0
Waker s c = (j : ℕ) × (d : Call) × (r : Reply) × (s.pc j ≡ waking d r) × (other d c ≡ true)

-- A process that still sleeps slept before, and was not on the queue that the step woke.
pub asleep-of_wake : (w : Option Call) (pc : Pc) (c : Call) → wake w pc ≡ asleep c → pc ≡ asleep c
unfolding wake woken
asleep-of_wake none pc c e = e
asleep-of_wake (some d) (asleep a) c e = ground arith
asleep-of_wake (some d) (queued a) c e = absurd (ground arith)
asleep-of_wake (some d) idle c e = e
asleep-of_wake (some d) pc c e = e

not-other_of_wake :
    (d : Call) (pc : Pc) (c : Call) → wake (some d) pc ≡ asleep c → other d c ≡ false
unfolding wake woken
not-other_of_wake d (asleep a) c e = ground arith
not-other_of_wake d (queued a) c e = absurd (ground arith)
not-other_of_wake d idle c e = cc
not-other_of_wake d pc c e = cc

waking-wake : (w : Option Call) (d : Call) (r : Reply) → wake w (waking d r) ≡ waking d r
unfolding wake woken
waking-wake none d r = refl
waking-wake (some c) d r = refl

-- Calls of one kind wait for the same thing.
must_wait-of_kind : (c d : Call) (p : Pipe) → other c d ≡ false → must_wait c p ≡ must_wait d p
unfolding must_wait
must_wait-of_kind (reading n a) (reading m b) p e = refl
must_wait-of_kind (writing x a) (writing y b) p e = refl
must_wait-of_kind (reading n a) (writing y b) p e = cc
must_wait-of_kind (writing x a) (reading m b) p e = cc

-- A process that sleeps waits for something that is not there, or is about to be woken.
abbrev pub Alert : Pipe → System → Call → Type 0
Alert p s c = (must_wait c p ≡ true) ⊎ Waker s c

module _ (s : System) (i : ℕ) (nx : Next) where
  pub pc-apply_eq : (j : ℕ) → (j == i) ≡ true → (apply s i nx).pc j ≡ nx.pc
  unfolding apply
  pc-apply_eq j e = rw e

  pub pc-apply_ne : (j : ℕ) → (j == i) ≡ false → (apply s i nx).pc j ≡ wake nx.wakes (s.pc j)
  unfolding apply
  pc-apply_ne j e = rw e

  -- A process that is about to wake a queue stays so while another one steps.
  Waker-apply : (c : Call) → is_waking (s.pc i) ≡ false → Waker s c → Waker (apply s i nx) c
  Waker-apply c quiet (j, d, r, e, o) = elim (Bool-cases (j == i)) [
    | inl same ↦ absurd (ground arith)
    | inr ne ↦ (j, d, r, pc-apply_ne j ne ∙ ap (wake nx.wakes) e ∙ waking-wake nx.wakes d r, o)
  ]

  pub Alert-others :
      (j : ℕ) (c : Call)
      → (j == i) ≡ false
      → s.pc j ≡ asleep c
      → wake nx.wakes (s.pc j) ≡ asleep c
      → Outcome s.pipe (s.pc i) nx
      → Alert s.pipe s c
      → Alert nx.pipe (apply s i nx) c
  Alert-others j c ne was still (plain pc' e a b quiet d) (inl w) =
      inl (ap (λ (n : Next). must_wait c n.pipe) e ∙ w)
  Alert-others j c ne was still (plain pc' e a b quiet d) (inr w) = inr (Waker-apply c quiet w)
  Alert-others j c ne was still (acquire d e pos eq) (inl w) =
      inl (ap (λ (n : Next). must_wait c n.pipe) eq ∙ must_wait-sem c s.pipe (s.pipe.sem - 1) ∙ w)
  Alert-others j c ne was still (acquire d e pos eq) (inr w) =
      inr (Waker-apply c (ap is_waking e) w)
  Alert-others j c ne was still (release d e eq) (inl w) =
      inl (ap (λ (n : Next). must_wait c n.pipe) eq ∙ must_wait-sem c s.pipe (s.pipe.sem + 1) ∙ w)
  Alert-others j c ne was still (release d e eq) (inr w) = inr (Waker-apply c (ap is_waking e) w)
  Alert-others j c ne was still (body d e free is) (inl w) = elim is.ends [
    | inl (r, wakes) ↦ elim (Bool-cases (other d c)) [
      | inl o ↦ inr (i, d, r, pc-apply_eq i ((==_iff i i).1 refl) ∙ wakes, o)
      | inr o ↦ absurd (ground (arith, must_wait-of_kind d c s.pipe o))
    ]
    | inr (end, same) ↦ inl (same c ∙ w)
  ]
  Alert-others j c ne was still (body d e free is) (inr w) = inr (Waker-apply c (ap is_waking e) w)
  Alert-others j c ne was still (notify d r e eq) (inl w) =
      inl (ap (λ (n : Next). must_wait c n.pipe) eq ∙ w)
  Alert-others j c ne was still (notify d r e eq) (inr (k, d', r', e', o)) =
      elim (Bool-cases (k == i)) [
        | inl same ↦
            let off : other d c ≡ false =
              not-other_of_wake d (s.pc j) c
                (ap (λ (n : Next). wake n.wakes (s.pc j)) (sym eq) ∙ still) in
            absurd (ground arith)
        | inr off ↦
            inr
              (k, d', r', pc-apply_ne k off ∙ ap (wake nx.wakes) e' ∙ waking-wake nx.wakes d' r', o)
      ]

  pub Alert-self :
      (c : Call) → nx.pc ≡ asleep c → Outcome s.pipe (s.pc i) nx → must_wait c nx.pipe ≡ true
  Alert-self c e (plain pc' eq a b quiet d) =
      ap (λ (n : Next). must_wait c n.pipe) eq ∙ d c (ap (λ (n : Next). n.pc) (sym eq) ∙ e)
  Alert-self c e (acquire d at pos eq) = absurd (ground arith)
  Alert-self c e (release d at eq) = absurd (ground arith)
  Alert-self c e (body d at free is) = absurd (ground (arith, is.ends))
  Alert-self c e (notify d r at eq) = absurd (ground arith)
