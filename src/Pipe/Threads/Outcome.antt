-- ===== src/Pipe/Threads/Outcome.antt =====
-- The kinds of steps that a process of scull_pipe.c makes on a valid device.
use linux_homework.Base.{
  ◌⊎◌, ℕ, ◌-◌, ◌<◌, ◌≡◌, ◌≢◌, Bool, true, false, none, some, List, [], arith, ◌==◌, refl, subst,
  Bool-cases, inl, inr,
}
use linux_homework.Pipe.{Pipe, Reply, error, restartsys, again}
use linux_homework.Pipe.Valid.{IsValid}
use linux_homework.Pipe.Threads.{
  Call, reading, writing, nonblock, must_wait, Pc, idle, enter, locked, unlocked, queued, asleep,
  awake, waking, done, Env, Next, blocked, crash, next, quiet, up, locked_part, step,
}
use linux_homework.Pipe.Threads.Step.{Body, locked_part-Body}

-- Whether a process holds the semaphore.
abbrev pub holds : Pc → Bool
holds (locked c) = true
holds idle = false
holds pc = false

abbrev pub is_waking : Pc → Bool
is_waking (waking c r) = true
is_waking idle = false
is_waking pc = false

abbrev pub quiet_next : Pipe → Pc → Next
quiet_next p pc = record { pipe = p; pc = pc; accepted = []; delivered = []; wakes = none }

pub data Outcome (p : Pipe) (pc : Pc) (nx : Next) : Type 0 where
  plain :
      (pc' : Pc)
      → nx ≡ quiet_next p pc'
      → holds pc ≡ false
      → holds pc' ≡ false
      → is_waking pc ≡ false
      → ((c : Call) → pc' ≡ asleep c → must_wait c p ≡ true)
      → Outcome p pc nx
  acquire :
      (c : Call)
      → pc ≡ enter c
      → 0 < p.sem
      → nx ≡ quiet_next (record p { sem = p.sem - 1 }) (locked c)
      → Outcome p pc nx
  release : (c : Call) → pc ≡ locked c → nx ≡ quiet_next (up p) (unlocked c) → Outcome p pc nx
  body : (c : Call) → pc ≡ locked c → must_wait c p ≡ false → Body p c nx → Outcome p pc nx
  notify :
      (c : Call) (r : Reply)
      → pc ≡ waking c r
      → nx ≡ record { pipe = p; pc = done r; accepted = []; delivered = []; wakes = some c }
      → Outcome p pc nx

asleep-injective : {c d : Call} → asleep c ≡ asleep d → c ≡ d
asleep-injective e = cc

quiet-plain :
    {p : Pipe} {nx : Next} (pc pc' : Pc)
    → quiet p pc' ≡ next nx
    → holds pc ≡ false
    → holds pc' ≡ false
    → is_waking pc ≡ false
    → ((c : Call) → pc' ≡ asleep c → must_wait c p ≡ true)
    → Outcome p pc nx
quiet-plain pc pc' e a b c d = plain pc' (cc) a b c d

module _ {b : List ℕ} {p : Pipe} (v : IsValid b p) (env : Env) where
  pub step-Outcome : {nx : Next} (pc : Pc) → step env p pc ≡ next nx → Outcome p pc nx
  unfolding step
  step-Outcome idle h = quiet-plain idle (enter env.call) h refl refl refl (λ c e. cc)
  step-Outcome (enter c) h = elim (Bool-cases (p.sem == 0)) [
    | inl z ↦ elim (Bool-cases env.signal) [
      | inl s ↦
          quiet-plain (enter c) (done (error restartsys)) (ground arith) refl refl refl (λ c e. cc)
      | inr s ↦ absurd (ground arith)
    ]
    | inr f ↦ acquire c refl (ground arith) (ground arith)
  ]
  step-Outcome (locked c) h = elim (Bool-cases (must_wait c p)) [
    | inl w ↦ release c refl (ground arith)
    | inr w ↦
        let (nx', e, is) = locked_part-Body v env c w in
        body c refl w (subst (Body p c) (ground arith) is)
  ]
  step-Outcome (unlocked c) h = elim (Bool-cases (nonblock c)) [
    | inl nb ↦
        quiet-plain (unlocked c) (done (error again)) (ground arith) refl refl refl (λ c e. cc)
    | inr nb ↦ quiet-plain (unlocked c) (queued c) (ground arith) refl refl refl (λ c e. cc)
  ]
  step-Outcome (queued (reading n nb)) h = elim (Bool-cases (must_wait (reading n nb) p)) [
    | inl w ↦ elim (Bool-cases env.signal) [
      | inl s ↦ quiet-plain _ (done (error restartsys)) (ground arith) refl refl refl (λ c e. cc)
      | inr s ↦
          quiet-plain _ (asleep (reading n nb)) (ground arith) refl refl refl
            (λ c e. subst (λ d. must_wait d p ≡ true) (asleep-injective e) w)
    ]
    | inr w ↦ quiet-plain _ (enter (reading n nb)) (ground arith) refl refl refl (λ c e. cc)
  ]
  step-Outcome (queued (writing src nb)) h = elim (Bool-cases (must_wait (writing src nb) p)) [
    | inl w ↦
        quiet-plain _ (asleep (writing src nb)) (ground arith) refl refl refl
          (λ c e. subst (λ d. must_wait d p ≡ true) (asleep-injective e) w)
    | inr w ↦ quiet-plain _ (awake (writing src nb)) (ground arith) refl refl refl (λ c e. cc)
  ]
  step-Outcome (asleep c) h = elim (Bool-cases env.signal) [
    | inl s ↦ quiet-plain _ (awake c) (ground arith) refl refl refl (λ c e. cc)
    | inr s ↦ absurd (ground arith)
  ]
  step-Outcome (awake (reading n nb)) h =
      quiet-plain _ (queued (reading n nb)) h refl refl refl (λ c e. cc)
  step-Outcome (awake (writing src nb)) h = elim (Bool-cases env.signal) [
    | inl s ↦ quiet-plain _ (done (error restartsys)) (ground arith) refl refl refl (λ c e. cc)
    | inr s ↦ quiet-plain _ (enter (writing src nb)) (ground arith) refl refl refl (λ c e. cc)
  ]
  step-Outcome (waking c r) h = notify c r refl (cc)
  step-Outcome (done r) h = quiet-plain _ idle h refl refl refl (λ c e. cc)

  -- No step of a process on a valid device reaches outside the buffer.
  pub step-ne-crash : (pc : Pc) → step env p pc ≢ crash
  unfolding step
  step-ne-crash (locked c) h = elim (Bool-cases (must_wait c p)) [
    | inl w ↦ ground arith
    | inr w ↦ let (nx', e, is) = locked_part-Body v env c w in ground arith
  ]
  step-ne-crash (queued (reading n nb)) h = ground arith
  step-ne-crash (queued (writing src nb)) h = ground arith
  step-ne-crash (awake (reading n nb)) h = ground arith
  step-ne-crash (awake (writing src nb)) h = ground arith
  step-ne-crash pc h = ground arith

-- What a step that cannot be made waits for.
pub step-blocked :
    (env : Env) (p : Pipe) (pc : Pc)
    → step env p pc ≡ blocked
    → ((c : Call) × (pc ≡ enter c) × (p.sem ≡ 0)) ⊎ ((c : Call) × (pc ≡ asleep c))
unfolding step locked_part
step-blocked env p (enter c) h = inl (c, refl, ground arith)
step-blocked env p (asleep c) h = inr (c, refl)
step-blocked env p (locked (reading n nb)) h = absurd (ground arith)
step-blocked env p (locked (writing src nb)) h = absurd (ground arith)
step-blocked env p (queued (reading n nb)) h = absurd (ground arith)
step-blocked env p (queued (writing src nb)) h = absurd (ground arith)
step-blocked env p (awake (reading n nb)) h = absurd (ground arith)
step-blocked env p (awake (writing src nb)) h = absurd (ground arith)
step-blocked env p pc h = absurd (ground arith)

pub locked_of_holds : (pc : Pc) → holds pc ≡ true → (c : Call) × (pc ≡ locked c)
locked_of_holds (locked c) h = (c, refl)
locked_of_holds idle h = absurd (ground arith)
locked_of_holds pc h = absurd (ground arith)

pub waking-step :
    (env : Env) (p : Pipe) (c : Call) (r : Reply)
    → step env p (waking c r)
      ≡ next (record { pipe = p; pc = done r; accepted = []; delivered = []; wakes = some c })
unfolding step
waking-step env p c r = refl
