-- ===== src/Pipe/Threads/Invariant.antt =====
-- What holds in every state that the processes of scull_pipe.c reach, in any order of their steps.
use linux_homework.Base.{
  ℕ, ◌+◌, ◌-◌, ◌≡◌, inl, inr, none, some, Option, List, [], ◌++◌, arith, ◌==◌, if◌then◌else◌, refl,
  sym, ap, ◌∙◌, subst, Bool-cases, append-nil, append_assoc,
}
use linux_homework.Pipe.{Pipe}
use linux_homework.Pipe.Valid.{IsValid}
use linux_homework.Pipe.Contents.{contents}
use linux_homework.Pipe.Threads.{
  Call, Pc, idle, locked, unlocked, queued, asleep, done, Next, woken, wake, System, apply,
}
use linux_homework.Pipe.Threads.Step.{Keeps, contents-sem, IsValid-sem}
use linux_homework.Pipe.Threads.Outcome.{holds, Outcome, plain, acquire, release, body, notify}
use linux_homework.Pipe.Threads.Alert.{
  Alert, Alert-self, Alert-others, asleep-of_wake, pc-apply_eq, pc-apply_ne,
}
use linux_homework.Base.Lock.{Lock, Lock-same, Lock-acquire, Lock-release}

pub record Inv (size : ℕ) (s : System) : Type 0 where
  pub bytes : List ℕ
  pub valid : IsValid bytes s.pipe
  pub sized : s.pipe.buffersize ≡ size
  pub fifo : s.accepted ≡ s.delivered ++ contents s.pipe
  pub lock : Lock s.pipe.sem (λ i. holds (s.pc i))
  pub alert : (i : ℕ) (c : Call) → s.pc i ≡ asleep c → Alert s.pipe s c

holds-wake : (w : Option Call) (pc : Pc) → holds (wake w pc) ≡ holds pc
unfolding wake woken
holds-wake none pc = refl
holds-wake (some c) (asleep d) = ground arith
holds-wake (some c) (queued d) = ground arith
holds-wake (some c) idle = refl
holds-wake (some c) pc = refl

holds-apply :
    (s : System) (i : ℕ) (nx : Next) (j : ℕ)
    → holds ((apply s i nx).pc j) ≡ (if j == i then holds nx.pc else holds (s.pc j))
unfolding apply
holds-apply s i nx j = elim (Bool-cases (j == i)) [
  | inl e ↦ rw e
  | inr e ↦ rw e (holds-wake nx.wakes (s.pc j))
]

Lock-apply :
    (s : System) (i : ℕ) (nx : Next)
    → Lock s.pipe.sem (λ j. holds (s.pc j))
    → Outcome s.pipe (s.pc i) nx
    → Lock nx.pipe.sem (λ j. holds ((apply s i nx).pc j))
Lock-apply s i nx l (plain pc' e was now w a) =
    Lock-same l (ground arith) (λ j. ground (arith, holds-apply s i nx j))
Lock-apply s i nx l (acquire c e pos eq) =
    Lock-acquire l i (holds nx.pc) (holds-apply s i nx) (ground arith) (ground arith) pos
Lock-apply s i nx l (release c e eq) =
    Lock-release l i (holds nx.pc) (holds-apply s i nx) (ground arith) (ground arith) (ground arith)
Lock-apply s i nx l (body c e w is) =
    Lock-release l i (holds nx.pc) (holds-apply s i nx) is.released (ground (arith, is.ends))
      (ground arith)
Lock-apply s i nx l (notify c r e eq) =
    Lock-same l (ground arith) (λ j. ground (arith, holds-apply s i nx j))

-- Validity and the order of the bytes.
Keeps-sem :
    {b : List ℕ} {p : Pipe} (k : ℕ) (pc : Pc) (w : Option Call)
    → IsValid b p
    → Keeps p
        (record { pipe = record p { sem = k }; pc = pc; accepted = []; delivered = []; wakes = w })
Keeps-sem {b} {p} k pc w v = record {
  bytes = b;
  valid = IsValid-sem k v;
  size = refl;
  fifo = append-nil (contents p) ∙ sym (contents-sem p k);
}

Keeps-Outcome :
    {b : List ℕ} {p : Pipe} {pc : Pc} {nx : Next} → IsValid b p → Outcome p pc nx → Keeps p nx
Keeps-Outcome {p} v (plain pc' e was now w a) = subst (Keeps p) (sym e) (Keeps-sem p.sem pc' none v)
Keeps-Outcome {p} v (acquire c e pos eq) =
    subst (Keeps p) (sym eq) (Keeps-sem (p.sem - 1) (locked c) none v)
Keeps-Outcome {p} v (release c e eq) =
    subst (Keeps p) (sym eq) (Keeps-sem (p.sem + 1) (unlocked c) none v)
Keeps-Outcome v (body c e w is) = is.keeps
Keeps-Outcome {p} v (notify c r e eq) =
    subst (Keeps p) (sym eq) (Keeps-sem p.sem (done r) (some c) v)

-- Every step of a process keeps the invariant.
pub Inv-apply :
    {size : ℕ} (s : System) (i : ℕ) (nx : Next)
    → Inv size s
    → Outcome s.pipe (s.pc i) nx
    → Inv size (apply s i nx)
unfolding apply
Inv-apply s i nx v o = record {
  bytes = keeps.bytes;
  valid = keeps.valid;
  sized = keeps.size ∙ v.sized;
  fifo =
      ap (λ l. l ++ nx.accepted) v.fifo
      ∙ append_assoc s.delivered (contents s.pipe) nx.accepted
      ∙ ap (λ l. s.delivered ++ l) keeps.fifo
      ∙ sym (append_assoc s.delivered nx.delivered (contents nx.pipe));
  lock = Lock-apply s i nx v.lock o;
  alert = λ j c e. elim (Bool-cases (j == i)) [
    | inl same ↦ inl (Alert-self s i nx c (sym (pc-apply_eq s i nx j same) ∙ e) o)
    | inr ne ↦
        let still : wake nx.wakes (s.pc j) ≡ asleep c = sym (pc-apply_ne s i nx j ne) ∙ e in
        let was = asleep-of_wake nx.wakes (s.pc j) c still in
        Alert-others s i nx j c ne was still o (v.alert j c was)
  ];
}
  where
    keeps : Keeps s.pipe nx
    keeps = Keeps-Outcome v.valid o
