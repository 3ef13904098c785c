-- ===== src/Snippt/Session.antt =====
-- What a sequence of waits and signals on one event of snippt2.c comes to.
use linux_homework.Base.{
  Bool, Bool-cases, inl, inr, ℕ, zero, suc, ◌≤◌, ◌+◌, ◌^◌, ◌<◌, ◌≡◌, ◌≢◌, true, false, some, List,
  [], ◌∷◌, ◌++◌, arith, length, refl, if◌then◌else◌, ◌==◌, ap, subst, sym, ◌∙◌,
}
use linux_homework.Event.{
  Ptr, null, Myevent, Kernel, Cmd, ok, pure, ◌>>=◌, write, is_positive, inc, dec, Waited, returned,
  sleeps,
}
use linux_homework.Event.Chain.{Cells, has_num, IsQueue, Chain-tail}
use linux_homework.Event.Find.{load-ok, store-ok, scheventnum-found}
use linux_homework.Event.Calls.{IsQueue-replace}
use linux_homework.Event.Semaphore.{Op, wait, signal, signals}
use linux_homework.Snippt.{wait_on, sys_myevent_wait, signal_on, sys_myevent_signal}

-- The processes that a call lets through on a unit of their own, and those that it wakes.
abbrev pub direct : ℕ → Waited → List ℕ × List ℕ
direct pid (returned r) = (pid ∷ [], [])
direct pid (sleeps tmp) = ([], [])

abbrev pub apply : (k event_num : ℕ) → Op → Cmd (List ℕ × List ℕ)
apply k event_num (wait pid) = do w ← sys_myevent_wait k pid event_num; pure (direct pid w)
apply k event_num signal = do (result, woken) ← sys_myevent_signal k event_num; pure ([], woken)

unfoldable pub session : (k event_num : ℕ) → List Op → Cmd (List ℕ × List ℕ)
session k event_num [] = pure ([], [])
session k event_num (op ∷ ops) = do
  (own, woken) ← apply k event_num op
  (owns, wokens) ← session k event_num ops
  pure (own ++ owns, woken ++ wokens)

-- What a sequence is to come to, from a value and a queue: who is let through on a unit, who is
-- woken, and the value and the queue at the end. A signal wakes all that sleep and gives a unit,
-- and who comes with a unit left takes it.
pub record Sale : Type 0 where
  pub own : List ℕ
  pub woken : List ℕ
  pub value : ℕ
  pub queue : List ℕ

abbrev also : (own woken : List ℕ) → Sale → Sale
also own woken r = record {
  own = own ++ r.own;
  woken = woken ++ r.woken;
  value = r.value;
  queue = r.queue;
}

unfoldable pub sale : (value : ℕ) → (queue : List ℕ) → List Op → Sale
sale v queue [] = record { own = []; woken = []; value = v; queue = queue }
sale zero queue (wait pid ∷ ops) = sale zero (pid ∷ queue) ops
sale (suc v) queue (wait pid ∷ ops) = also (pid ∷ []) [] (sale v queue ops)
sale v queue (signal ∷ ops) = also [] queue (sale (suc v) [] ops)

abbrev after_wait : ℕ → Myevent → Myevent
after_wait pid e =
    if is_positive e.value
    then record e { value = dec e.value }
    else record e { queue = pid ∷ e.queue }

abbrev after_signal : Myevent → Myevent
after_signal e = record e { value = inc e.value; queue = [] }

next-after_wait : (pid : ℕ) (e : Myevent) → (after_wait pid e).next ≡ e.next
next-after_wait pid e = ground arith

number-after_wait : (pid : ℕ) (e : Myevent) → (after_wait pid e).event_num ≡ e.event_num
number-after_wait pid e = ground arith

le-after_wait : (pid : ℕ) (e : Myevent) → e.value < 2 ^ 31 → (after_wait pid e).value ≤ e.value
le-after_wait pid e small = ground (arith, small)

-- The event with what a sequence leaves of its value and its queue.
abbrev pub left : Myevent → Sale → Myevent
left e r = record e { value = r.value; queue = r.queue }

left-after_wait : (pid : ℕ) (e : Myevent) (r : Sale) → left (after_wait pid e) r ≡ left e r
left-after_wait pid e r = elim (Bool-cases (is_positive e.value)) [
  | inl p ↦ rw p refl
  | inr p ↦ rw p refl
]

sale-unit :
    (v : ℕ) (queue : List ℕ) (pid : ℕ) (ops : List Op)
    → is_positive v ≡ true
    → v < 2 ^ 31
    → sale v queue (wait pid ∷ ops) ≡ also (pid ∷ []) [] (sale (dec v) queue ops)
unfolding sale
sale-unit zero queue pid ops p small = absurd (ground (arith, p))
sale-unit (suc v) queue pid ops p small =
    let one_less : v ≡ dec (suc v) = omega (arith, small) in
    ap (λ n. also (pid ∷ []) [] (sale n queue ops)) one_less

sale-none :
    (v : ℕ) (queue : List ℕ) (pid : ℕ) (ops : List Op)
    → is_positive v ≡ false
    → v < 2 ^ 31
    → sale v queue (wait pid ∷ ops) ≡ sale v (pid ∷ queue) ops
unfolding sale
sale-none zero queue pid ops p small = refl
sale-none (suc v) queue pid ops p small = absurd (ground (arith, p, small))

sale-wait :
    (e : Myevent) (pid : ℕ) (ops : List Op)
    → e.value < 2 ^ 31
    → sale e.value e.queue (wait pid ∷ ops)
      ≡ also
          (if is_positive e.value then pid ∷ [] else [])
          []
          (sale (after_wait pid e).value (after_wait pid e).queue ops)
sale-wait e pid ops small = elim (Bool-cases (is_positive e.value)) [
  | inl p ↦ rw p (sale-unit e.value e.queue pid ops p small)
  | inr p ↦ rw p (sale-none e.value e.queue pid ops p small)
]

sale-signal :
    (e : Myevent) (ops : List Op)
    → e.value + 1 < 2 ^ 31
    → sale e.value e.queue (signal ∷ ops) ≡ also [] e.queue (sale (after_signal e).value [] ops)
unfolding sale
sale-signal e ops small =
    let one_more : suc e.value ≡ inc e.value = omega (arith, small) in
    ap (λ n. also [] e.queue (sale n [] ops)) one_more

-- The units: those that were there and those of the signals are left or go to who did not sleep.
sale-units :
    (v : ℕ) (queue : List ℕ) (ops : List Op)
    → (sale v queue ops).value + length (sale v queue ops).own ≡ v + signals ops
unfolding sale
sale-units v queue [] = omega arith
sale-units zero queue (wait pid ∷ ops) = sale-units zero (pid ∷ queue) ops
sale-units (suc v) queue (wait pid ∷ ops) = omega (arith, sale-units v queue ops)
sale-units v queue (signal ∷ ops) = omega (arith, sale-units (suc v) [] ops)

direct-if :
    (pid : ℕ) (a : Ptr) (b : Bool)
    → direct pid (if b then returned 0 else sleeps a) ≡ (if b then pid ∷ [] else [], [])
direct-if pid a true = refl
direct-if pid a false = refl

module _ (k num : ℕ) (xs : Cells) (a : Ptr) (ys : Cells) (out : has_num num xs ≡ false)
    (fuel : length xs < k) where
  -- What a command on the event comes to, from `e`.
  abbrev pub Sells : Myevent → Kernel → Cmd (List ℕ × List ℕ) → Sale → Type 0
  Sells e s m r =
      (t : Kernel) × (m s ≡ ok (r.own, r.woken) t) × IsQueue t (xs ++ (a, left e r) ∷ ys)

  wait_on-ok :
      (s : Kernel) (e : Myevent) (pid : ℕ)
      → a ≢ null
      → s.cell a ≡ some e
      → wait_on a pid s
        ≡ ok
            (if is_positive e.value then returned 0 else sleeps a)
            (record s { cell = write s.cell a (some (after_wait pid e)) })
  unfolding wait_on
  wait_on-ok s e pid ne at = rw (load-ok s a e ne at) (elim (Bool-cases (is_positive e.value)) [
    | inl p ↦ rw (p, store-ok s a e _ ne at) refl
    | inr p ↦ rw (p, store-ok s a e _ ne at) refl
  ])

  signal_on-ok :
      (s : Kernel) (e : Myevent)
      → a ≢ null
      → s.cell a ≡ some e
      → signal_on a num s
        ≡ ok (num, e.queue) (record s { cell = write s.cell a (some (after_signal e)) })
  unfolding signal_on
  signal_on-ok s e ne at =
      rw (load-ok s a e ne at) (rw (store-ok s a e (after_signal e) ne at) refl)

  apply-wait :
      {s : Kernel} (e : Myevent) (pid : ℕ)
      → IsQueue s (xs ++ (a, e) ∷ ys)
      → e.event_num ≡ num
      → apply k num (wait pid) s
        ≡ ok
            (if is_positive e.value then pid ∷ [] else [], [])
            (record s { cell = write s.cell a (some (after_wait pid e)) })
  unfolding sys_myevent_wait
  apply-wait {s} e pid q is =
      let (ne, at, nx, off, l) = Chain-tail s.cell xs ((a, e) ∷ ys) q.chain in
      let not_null : (a == null) ≡ false = ground arith in
      rw (scheventnum-found s k num xs a e ys q out is fuel, not_null, wait_on-ok s e pid ne at)
        (ap (λ v. ok v (record s { cell = write s.cell a (some (after_wait pid e)) }))
          (direct-if pid a (is_positive e.value)))

  apply-signal :
      {s : Kernel} (e : Myevent)
      → IsQueue s (xs ++ (a, e) ∷ ys)
      → e.event_num ≡ num
      → apply k num signal s
        ≡ ok ([], e.queue) (record s { cell = write s.cell a (some (after_signal e)) })
  unfolding sys_myevent_signal
  apply-signal {s} e q is =
      let (ne, at, nx, off, l) = Chain-tail s.cell xs ((a, e) ∷ ys) q.chain in
      let not_null : (a == null) ≡ false = ground arith in
      rw (scheventnum-found s k num xs a e ys q out is fuel, not_null, signal_on-ok s e ne at) refl

  session-Sells :
      (e : Myevent) (ops : List Op) {s : Kernel}
      → IsQueue s (xs ++ (a, e) ∷ ys)
      → e.event_num ≡ num
      → e.value + length ops < 2 ^ 31
      → Sells e s (session k num ops) (sale e.value e.queue ops)
  unfolding session sale
  session-Sells e [] {s} q is small = (s, refl, q)
  session-Sells e (wait pid ∷ ops) {s} q is small =
      let below = le-after_wait pid e (omega (arith, small)) in
      let (t, ran, kept) =
        session-Sells (after_wait pid e) ops
          (IsQueue-replace xs a e ys q (after_wait pid e) (next-after_wait pid e))
          (number-after_wait pid e ∙ is) (omega (arith, small, below)) in
      let r = sale (after_wait pid e).value (after_wait pid e).queue ops in
      subst (Sells e s (session k num (wait pid ∷ ops)))
        (sym (sale-wait e pid ops (omega (arith, small))))
        (
          t,
          rw (apply-wait e pid q is, ran) refl,
          subst (λ f. IsQueue t (xs ++ (a, f) ∷ ys)) (left-after_wait pid e r) kept,
        )
  session-Sells e (signal ∷ ops) {s} q is small =
      let (t, ran, kept) =
        session-Sells (after_signal e) ops (IsQueue-replace xs a e ys q (after_signal e) refl) is
          (omega (arith, small)) in
      subst (Sells e s (session k num (signal ∷ ops)))
        (sym (sale-signal e ops (omega (arith, small))))
        (t, rw (apply-signal e q is, ran) refl, kept)

  -- On an event of a well-formed list, a sequence of calls lets through and wakes whom it is to and
  -- leaves the value and the queue so: each signal wakes all that sleep, the last one first, and
  -- gives a unit nevertheless, which the next one to come takes. The value at the end and the
  -- processes that did not sleep are the units and signals together. The value may not reach 2^31.
  pub session-Oversold :
      (e : Myevent) (ops : List Op) {s : Kernel}
      → IsQueue s (xs ++ (a, e) ∷ ys)
      → e.event_num ≡ num
      → e.value + length ops < 2 ^ 31
      → Sells e s (session k num ops) (sale e.value e.queue ops)
        × ((sale e.value e.queue ops).value + length (sale e.value e.queue ops).own
            ≡ e.value + signals ops)
  session-Oversold e ops q is small =
      (session-Sells e ops q is small, sale-units e.value e.queue ops)
