-- ===== src/Scull/Threads/Step.antt =====
-- What a step of a process of 7/main.c keeps.
use linux_homework.Base.{
  ℕ, ◌+◌, ◌-◌, ◌<◌, ◌≡◌, Bool, true, false, refl, arith, ◌==◌, sym, ◌∙◌, subst, Bool-cases, inl,
  inr,
}
use linux_homework.Scull.Access.{Outcome, done, stray, wild, beyond, grown_size}
use linux_homework.Scull.Sound.{Sound, scull_read-Sound, scull_write-Sound}
use linux_homework.Scull.Threads.{
  Call, reading, writing, trimming, Request, locks, opening, seeking, Pc, idle, enter, locked,
  returned, Env, Result, blocked, overwrites, wild_access, out_of_range, next, leave, leave_open,
  with_sizes, begin, locked_part, step,
}
use linux_homework.Scull.Valid.{IsValid, Items, scull_trim-frees}
use linux_homework.Scull.{Dev, scull_trim}

abbrev pub holds : Pc → Bool
holds (locked c q s) = true
holds idle = false
holds (enter c q s) = false
holds (returned r) = false

-- How the semaphore goes from one step to the next, with who holds it.
pub data Turn (sem sem' : ℕ) (was is : Bool) : Type 0 where
  stays : sem' ≡ sem → is ≡ was → Turn sem sem' was is
  takes : 0 < sem → sem' ≡ sem - 1 → is ≡ true → Turn sem sem' was is
  gives : sem' ≡ sem + 1 → was ≡ true → is ≡ false → Turn sem sem' was is

module _ (quantum qset : ℕ) where
  -- The copies of the numbers are those of the module.
  abbrev pub Fresh : Pc → Type 0
  Fresh idle = Unit {0}
  Fresh (returned r) = Unit {0}
  Fresh (enter c q s) = (q ≡ quantum) × (s ≡ qset)
  Fresh (locked c q s) = (q ≡ quantum) × (s ≡ qset)

  pub record Sized (d : Dev) : Type 0 where
    pub valid : IsValid d
    pub same_quantum : d.quantum ≡ quantum
    pub same_qset : d.qset ≡ qset

  abbrev pub Good : (sem : ℕ) → Pc → Result → Type 0
  Good sem pc blocked = Unit {0}
  Good sem pc overwrites = Unit {0}
  Good sem pc wild_access = ⊥
  Good sem pc out_of_range = Unit {0}
  Good sem pc (next d sem' pc') = Sized d × Fresh pc' × Turn sem sem' (holds pc) (holds pc')

  Sized-with_sizes :
      (d : Dev) (q s : ℕ) → Sized d → q ≡ quantum → s ≡ qset → IsValid (with_sizes d q s)
  Sized-with_sizes d q s v e f = record {
    quantum = ground (arith, v.valid.quantum, v.same_quantum, e);
    qset = ground (arith, v.valid.qset, v.same_qset, f);
    items = rw (e, f, ← v.same_quantum, ← v.same_qset) v.valid.items;
  }

  leave-Good :
      (d : Dev) (sem size pos q s : ℕ) (c : Call) (o : Outcome)
      → Sized d
      → q ≡ quantum
      → s ≡ qset
      → Sound (with_sizes d q s) size pos o
      → Good sem (locked c q s) (leave d sem o)
  unfolding leave
  leave-Good d sem size pos q s c wild v e f k = k
  leave-Good d sem size pos q s c beyond v e f k = tt
  leave-Good d sem size pos q s c (stray d' p n) v e f k = tt
  leave-Good d sem size pos q s c (done r d' p) v e f (w, same_q, same_s, at, rest) = (
    record {
      valid = record {
        quantum = v.valid.quantum;
        qset = v.valid.qset;
        items =
            subst (λ n. Items n d.qset d'.items) (same_q ∙ e ∙ sym v.same_quantum)
              (subst (λ n. Items d'.quantum n d'.items) (same_s ∙ f ∙ sym v.same_qset) w.items);
      };
      same_quantum = v.same_quantum;
      same_qset = v.same_qset;
    },
    tt,
    gives refl refl refl,
  )

  leave_open-Good :
      (d : Dev) (sem q s : ℕ)
      → 0 < quantum
      → 0 < qset
      → Sized d
      → Good sem (locked trimming q s) (leave_open sem (scull_trim quantum qset d))
  unfolding leave_open
  leave_open-Good d sem q s some_q some_s v =
      rw (leave_open, scull_trim-frees quantum qset d v.valid)
        (
          record {
            valid = record { quantum = some_q; qset = some_s; items = tt };
            same_quantum = refl;
            same_qset = refl;
          },
          tt,
          gives refl refl refl,
        )

  begin-Good : (d : Dev) (sem : ℕ) (r : Request) → Sized d → Good sem idle (begin d sem r)
  unfolding begin
  begin-Good d sem (locks c) v = (v, (v.same_quantum, v.same_qset), stays refl refl)
  begin-Good d sem opening v = (v, tt, stays refl refl)
  begin-Good d sem (seeking f_pos off whence) v = (v, tt, stays refl refl)

  enter-Good :
      (env : Env) (d : Dev) (sem q s : ℕ) (c : Call)
      → Sized d
      → q ≡ quantum
      → s ≡ qset
      → Good sem (enter c q s) (step quantum qset env d sem (enter c q s))
  unfolding step
  enter-Good env d sem q s c v e f = elim (Bool-cases (sem == 0)) [
    | inr free ↦ rw free (v, (e, f), takes (ground (arith, free)) refl refl)
    | inl taken ↦ rw taken (elim (Bool-cases env.signal) [
      | inl pending ↦ rw pending (v, tt, stays refl refl)
      | inr none_pending ↦ rw none_pending tt
    ])
  ]

  pub step-Good :
      (env : Env) (d : Dev) (sem : ℕ) (pc : Pc)
      → 0 < quantum
      → 0 < qset
      → Sized d
      → Fresh pc
      → Good sem pc (step quantum qset env d sem pc)
  unfolding step locked_part
  step-Good env d sem idle some_q some_s v k = begin-Good d sem env.call v
  step-Good env d sem (enter c q s) some_q some_s v (e, f) = enter-Good env d sem q s c v e f
  step-Good env d sem (returned r) some_q some_s v k = (v, tt, stays refl refl)
  step-Good env d sem (locked (reading pos count) q s) some_q some_s v (e, f) =
      leave-Good d sem d.size pos q s (reading pos count) _ v e f
        (scull_read-Sound env.answers pos count env.moved (Sized-with_sizes d q s v e f))
  step-Good env d sem (locked (writing pos count) q s) some_q some_s v (e, f) =
      leave-Good d sem (grown_size d.size pos) pos q s (writing pos count) _ v e f
        (scull_write-Sound env.answers pos count env.moved (Sized-with_sizes d q s v e f))
  step-Good env d sem (locked trimming q s) some_q some_s v k =
      leave_open-Good d sem q s some_q some_s v
