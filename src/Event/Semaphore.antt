-- ===== src/Event/Semaphore.antt =====
-- The event of myevent.c as a counting semaphore: what a sequence of waits and signals on one event
-- comes to, as long as no sleeper is interrupted.
use linux_homework.Base.{
  Bool, Bool-cases, inl, inr, ◌⊎◌, ℕ, ◌+◌, ◌^◌, ◌<◌, ◌≤◌, ◌≡◌, true, false, some, List, [], ◌∷◌,
  ◌++◌, arith, length, refl, if◌then◌else◌, append_assoc, append-nil, length-append, ap, ◌∙◌, sym,
}
use linux_homework.Event.{
  Ptr, Myevent, Kernel, Cmd, ok, pure, ◌>>=◌, write, is_positive, Waited, returned, sleeps,
  sys_myevent_wait, signalled, sys_myevent_signal,
}
use linux_homework.Event.Chain.{Cells, has_num, IsQueue}
use linux_homework.Event.Calls.{waited, sys_myevent_wait-found, sys_myevent_signal-found}

-- The calls that processes make on one event.
pub data Op : Type 0 where
  wait : (pid : ℕ) → Op
  signal : Op

abbrev pub arrivals : List Op → List ℕ
arrivals [] = []
arrivals (wait pid ∷ ops) = pid ∷ arrivals ops
arrivals (signal ∷ ops) = arrivals ops

abbrev pub signals : List Op → ℕ
signals [] = 0
signals (wait pid ∷ ops) = signals ops
signals (signal ∷ ops) = 1 + signals ops

pub arrivals-cons :
    (op : Op) (ops : List Op) → arrivals (op ∷ ops) ≡ arrivals (op ∷ []) ++ arrivals ops
arrivals-cons (wait pid) ops = refl
arrivals-cons signal ops = refl

pub signals-cons : (op : Op) (ops : List Op) → signals (op ∷ ops) ≡ signals (op ∷ []) + signals ops
signals-cons (wait pid) ops = omega arith
signals-cons signal ops = omega arith

pub signals-one : (op : Op) → signals (op ∷ []) ≤ 1
signals-one (wait pid) = omega arith
signals-one signal = omega arith

-- The processes that a call lets through: the caller, or the one that it wakes.
abbrev pub let_through : ℕ → Waited → List ℕ
let_through pid (returned r) = pid ∷ []
let_through pid (sleeps tmp) = []

abbrev pub apply : (k event_num : ℕ) → Op → Cmd (List ℕ)
apply k event_num (wait pid) = do w ← sys_myevent_wait k pid event_num; pure (let_through pid w)
apply k event_num signal = do (result, woken) ← sys_myevent_signal k event_num; pure woken

let_through-if :
    (pid num : ℕ) (a : Ptr) (b : Bool)
    → let_through pid (if b then returned num else sleeps a) ≡ (if b then pid ∷ [] else [])
let_through-if pid num a true = refl
let_through-if pid num a false = refl

-- A sequence of calls, and the processes that it lets through, in order.
unfoldable pub session : (k event_num : ℕ) → List Op → Cmd (List ℕ)
session k event_num [] = pure []
session k event_num (op ∷ ops) = do
  first ← apply k event_num op
  rest ← session k event_num ops
  pure (first ++ rest)

-- Nobody waits for an event that has a unit left.
abbrev pub IsFair : Myevent → Type 0
IsFair e = (e.value ≡ 0) ⊎ (e.queue ≡ [])

-- From `e` to `f`, letting `passed` through, with `came` arrivals and `given` signals.
pub record Served (e f : Myevent) (passed came : List ℕ) (given : ℕ) : Type 0 where
  pub number : f.event_num ≡ e.event_num
  pub order : passed ++ f.queue ≡ e.queue ++ came
  pub count : f.value + length passed ≡ e.value + given
  pub fair : IsFair f

waited-Served :
    (e : Myevent) (pid : ℕ)
    → IsFair e
    → e.value < 2 ^ 31
    → Served e (waited pid e) (if is_positive e.value then pid ∷ [] else []) (pid ∷ []) 0
unfolding waited
waited-Served e pid (inl none_left) small =
    let positive : is_positive e.value ≡ false = ground arith in
    rw positive (record { number = refl; order = refl; count = ground arith; fair = inl none_left })
waited-Served e pid (inr nobody) small = elim (Bool-cases (is_positive e.value)) [
  | inl p ↦
      rw p (record { number = refl; order = rw nobody; count = ground arith; fair = inr nobody })
  | inr p ↦
      rw p (record { number = refl; order = refl; count = ground arith; fair = inl (ground arith) })
]

signalled-Served :
    (n v : ℕ) (queue : List ℕ) (x : Ptr)
    → IsFair (record { event_num = n; value = v; queue = queue; next = x })
    → v + 1 < 2 ^ 31
    → let e : Myevent = record { event_num = n; value = v; queue = queue; next = x } in
      Served e (signalled e).0 (signalled e).1 [] 1
signalled-Served n v [] x fair small = record {
  number = refl;
  order = refl;
  count = ground arith;
  fair = inr refl;
}
signalled-Served n v (pid ∷ rest) x (inl none_left) small = record {
  number = refl;
  order = sym (append-nil (pid ∷ rest));
  count = ground arith;
  fair = inl none_left;
}
signalled-Served n v (pid ∷ rest) x (inr nobody) small = cc

-- Calls one after the other.
both-Served :
    {e f g : Myevent} {p q xs ys : List ℕ} {m n : ℕ}
    → Served e f p xs m
    → Served f g q ys n
    → Served e g (p ++ q) (xs ++ ys) (m + n)
both-Served {e} {f} {g} {p} {q} {xs} {ys} one two = record {
  number = two.number ∙ one.number;
  order =
      append_assoc p q g.queue
      ∙ ap (λ v. p ++ v) two.order
      ∙ sym (append_assoc p f.queue ys)
      ∙ ap (λ v. v ++ ys) one.order
      ∙ append_assoc e.queue xs ys;
  count = ground (arith, length-append p q, one.count, two.count);
  fair = two.fair;
}

module _ (k num : ℕ) (xs : Cells) (a : Ptr) (ys : Cells) (out : has_num num xs ≡ false)
    (fuel : length xs < k) where
  -- What a command on the event comes to, from `e`.
  abbrev pub Serves : Myevent → Kernel → Cmd (List ℕ) → (came : List ℕ) (given : ℕ) → Type 0
  Serves e s m came given =
      (passed : List ℕ) × (f : Myevent) × (t : Kernel) × (m s ≡ ok passed t)
      × IsQueue t (xs ++ (a, f) ∷ ys)
      × Served e f passed came given

  apply-Serves :
      {s : Kernel} (e : Myevent) (op : Op)
      → IsQueue s (xs ++ (a, e) ∷ ys)
      → e.event_num ≡ num
      → IsFair e
      → e.value + 1 < 2 ^ 31
      → Serves e s (apply k num op) (arrivals (op ∷ [])) (signals (op ∷ []))
  apply-Serves {s} e (wait pid) q is fair small =
      let (ran, q') = sys_myevent_wait-found xs a e ys q k num out is fuel pid in
      (
        if is_positive e.value then pid ∷ [] else [],
        waited pid e,
        _,
        rw ran (
            ap (λ v. ok v (record s { cell = write s.cell a (some (waited pid e)) }))
              (let_through-if pid num a (is_positive e.value))),
        q',
        waited-Served e pid fair (omega (arith, small)),
      )
  apply-Serves {s} e signal q is fair small =
      let (ran, q') = sys_myevent_signal-found xs a e ys q k num out is fuel in
      (
        (signalled e).1,
        (signalled e).0,
        _,
        rw ran refl,
        q',
        signalled-Served e.event_num e.value e.queue e.next fair small,
      )

  -- On an event of a well-formed list whose waiters have no unit left, a sequence of calls lets
  -- processes through in the order in which they came, as many as there are units and signals for:
  -- the ones that wait at the end came last, and none waits while a unit is left. The value may not
  -- reach 2^31.
  pub session-Served :
      (e : Myevent) (ops : List Op) {s : Kernel}
      → IsQueue s (xs ++ (a, e) ∷ ys)
      → e.event_num ≡ num
      → IsFair e
      → e.value + length ops < 2 ^ 31
      → Serves e s (session k num ops) (arrivals ops) (signals ops)
  unfolding session
  session-Served e [] q is fair small = (
    [],
    e,
    _,
    refl,
    q,
    record { number = refl; order = sym (append-nil e.queue); count = omega arith; fair = fair },
  )
  session-Served e (op ∷ ops) q is fair small =
      let (p, f, t, ran, qf, one) = apply-Serves e op q is fair (omega (arith, small)) in
      let (r, g, u, ran', qg, two) =
        session-Served f ops qf (one.number ∙ is) one.fair
          (omega (arith, one.count, signals-one op, small)) in
      (
        p ++ r,
        g,
        u,
        rw (ran, ran') refl,
        qg,
        rw (arrivals-cons op ops, signals-cons op ops) (both-Served one two),
      )
