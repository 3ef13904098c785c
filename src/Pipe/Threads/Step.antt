-- ===== src/Pipe/Threads/Step.antt =====
-- What one step of one process does to a valid device: scull_pipe.c, `scull_p_read` and
-- `scull_p_write` with their waiting.
use linux_homework.Base.{
  ℕ, ◌+◌, ◌≡◌, ◌⊎◌, Bool, none, refl, sym, ap, ◌∙◌, false, List, [], ◌++◌, append-nil, arith,
  Bool-cases, inl, inr, length,
}
use linux_homework.Pipe.{
  Pipe, Reply, ret, error, fault, Moved, Copy, copied, left, spacefree, read_locked, write_locked,
}
use linux_homework.Pipe.Valid.{IsValid}
use linux_homework.Pipe.Contents.{contents}
use linux_homework.Pipe.Fault.{
  moved_left, write_locked-left, contents-moved_left, moved_left-IsValid,
}
use linux_homework.Pipe.Queue.{
  Read, Written, read_locked-ok, read_locked-fault, moved_read-Read, write_locked-ok,
  moved_write-Written,
}
use linux_homework.Pipe.Threads.{
  Call, reading, writing, must_wait, waking, done, Env, Next, next, up, after, commit, locked_part,
}

pub must_wait-sem :
    (d : Call) (p : Pipe) (k : ℕ) → must_wait d (record p { sem = k }) ≡ must_wait d p
unfolding must_wait spacefree
must_wait-sem (reading n b) p k = refl
must_wait-sem (writing src b) p k = refl

-- The device stays valid, and its bytes are those that were there and were put in, less those
-- taken.
pub record Keeps (p : Pipe) (nx : Next) : Type 0 where
  pub bytes : List ℕ
  pub valid : IsValid bytes nx.pipe
  pub size : nx.pipe.buffersize ≡ p.buffersize
  pub fifo : contents p ++ nx.accepted ≡ nx.delivered ++ contents nx.pipe

pub contents-sem : (p : Pipe) (k : ℕ) → contents (record p { sem = k }) ≡ contents p
unfolding contents
contents-sem p k = refl

pub IsValid-sem : {b : List ℕ} {p : Pipe} (k : ℕ) → IsValid b p → IsValid b (record p { sem = k })
IsValid-sem k v = record {
  allocated = v.allocated;
  sized = v.sized;
  ended = v.ended;
  rp_in = v.rp_in;
  wp_in = v.wp_in;
  small = v.small;
}

-- What the locked part of a call leaves.
pub record Body (p : Pipe) (c : Call) (nx : Next) : Type 0 where
  pub keeps : Keeps p nx
  pub released : nx.pipe.sem ≡ p.sem + 1
  pub silent : nx.wakes ≡ none
  pub ends :
      ((r : Reply) × (nx.pc ≡ waking c r))
      ⊎ (((r : Reply) × (nx.pc ≡ done r)) × ((d : Call) → must_wait d nx.pipe ≡ must_wait d p))

must_wait-of_same :
    (d : Call) (p q : Pipe)
    → spacefree p ≡ spacefree q
    → p.rp ≡ q.rp
    → p.wp ≡ q.wp
    → must_wait d p ≡ must_wait d q
unfolding must_wait
must_wait-of_same (reading n b) p q f r w = rw (r, w)
must_wait-of_same (writing src b) p q f r w = rw f

Copy-cases : (c : Copy) → (c ≡ copied) ⊎ ((junk : List ℕ) × (c ≡ left junk))
Copy-cases copied = inl refl
Copy-cases (left junk) = inr (junk, refl)

-- The step behind a copy that succeeds, and behind one that fails.
abbrev read_next : Moved → ℕ → Bool → Next
read_next m n nb = record {
  pipe = up m.pipe;
  pc = after (reading n nb) m.reply;
  accepted = [];
  delivered = m.bytes;
  wakes = none;
}

abbrev write_next : Moved → List ℕ → Bool → Next
write_next m src nb = record {
  pipe = up m.pipe;
  pc = after (writing src nb) m.reply;
  accepted = m.bytes;
  delivered = [];
  wakes = none;
}

module _ {b : List ℕ} {p : Pipe} (v : IsValid b p) where
  read_fault-Body :
      (n : ℕ) (nb : Bool)
      → Body p
          (reading n nb)
          (read_next (record { reply = error fault; pipe = p; bytes = [] }) n nb)
  read_fault-Body n nb = record {
    keeps = record {
      bytes = b;
      valid = IsValid-sem (p.sem + 1) v;
      size = refl;
      fifo = append-nil (contents p) ∙ sym (contents-sem p (p.sem + 1));
    };
    released = refl;
    silent = refl;
    ends = inr ((error fault, refl), λ d. must_wait-sem d p (p.sem + 1));
  }

  reader_done-Body :
      (n : ℕ) (nb : Bool) (m : Moved) → Read b p n m → Body p (reading n nb) (read_next m n nb)
  reader_done-Body n nb m is = record {
    keeps = record {
      bytes = b;
      valid = IsValid-sem (m.pipe.sem + 1) is.valid;
      size = is.size;
      fifo =
          append-nil (contents p)
          ∙ sym is.fifo
          ∙ ap (λ l. m.bytes ++ l) (sym (contents-sem m.pipe (m.pipe.sem + 1)));
    };
    released = ap (λ k. k + 1) is.held;
    silent = refl;
    ends = inl (ret (length m.bytes), ap (after (reading n nb)) is.reply);
  }

  write_done-Body :
      (src : List ℕ) (nb : Bool) (m : Moved)
      → Written b p src m
      → Body p (writing src nb) (write_next m src nb)
  write_done-Body src nb m is = record {
    keeps = record {
      bytes = _;
      valid = IsValid-sem (m.pipe.sem + 1) is.valid;
      size = is.size;
      fifo = sym is.fifo ∙ sym (contents-sem m.pipe (m.pipe.sem + 1));
    };
    released = ap (λ k. k + 1) is.held;
    silent = refl;
    ends = inl (ret (length m.bytes), ap (after (writing src nb)) is.reply);
  }

  write_left-Body :
      (src junk : List ℕ) (nb : Bool)
      → Body p (writing src nb) (write_next (moved_left v src junk) src nb)
  unfolding moved_left spacefree
  write_left-Body src junk nb = record {
    keeps = record {
      bytes = _;
      valid = IsValid-sem (p.sem + 1) (moved_left-IsValid v src junk);
      size = refl;
      fifo =
          append-nil (contents p)
          ∙ sym (contents-moved_left v src junk)
          ∙ sym (contents-sem (moved_left v src junk).pipe (p.sem + 1));
    };
    released = refl;
    silent = refl;
    ends = inr ((error fault, refl), λ d. must_wait-of_same d _ p refl refl refl);
  }

  -- The locked part never reaches outside the buffer.
  pub locked_part-Body :
      (env : Env) (c : Call)
      → must_wait c p ≡ false
      → (nx : Next) × (locked_part env p c ≡ next nx) × Body p c nx
  unfolding locked_part must_wait
  locked_part-Body env (reading n nb) h = elim (Bool-cases env.fault) [
    | inl bad ↦ (
      _,
      ap (commit (reading n nb)) (ap (read_locked p n) bad ∙ read_locked-fault v n),
      read_fault-Body n nb,
    )
    | inr good ↦ (
      _,
      ap (commit (reading n nb)) (ap (read_locked p n) good ∙ read_locked-ok v n),
      reader_done-Body n nb _ (moved_read-Read v n (ground arith)),
    )
  ]
  locked_part-Body env (writing src nb) h = elim (Copy-cases env.copy) [
    | inl good ↦ (
      _,
      ap (commit (writing src nb)) (ap (write_locked p src) good ∙ write_locked-ok v src),
      write_done-Body src nb _ (moved_write-Written v src),
    )
    | inr (junk, bad) ↦ (
      _,
      ap (commit (writing src nb)) (ap (write_locked p src) bad ∙ write_locked-left v src junk),
      write_left-Body src junk nb,
    )
  ]
