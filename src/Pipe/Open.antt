-- ===== src/Pipe/Open.antt =====
-- `scull_p_open` and `scull_p_release` of scull_pipe.c with the semaphore held.
use linux_homework.Base.{
  ℕ, ◌+◌, ◌%◌, ◌^◌, ◌<◌, ◌≡◌, ◌⊎◌, inl, inr, refl, subst, ◌&&◌, true, Option, none, some, List, [],
  ◌==◌, if◌then◌else◌, arith, length, Option-cases,
}
use linux_homework.Pipe.{
  Pipe, Reply, ret, error, nomem, File, open_started, open_locked, release_locked,
}
use linux_homework.Pipe.Valid.{IsValid}
use linux_homework.Pipe.Contents.{contents}

-- The device behind an open: valid, and empty whatever it held.
pub record Opened (size : ℕ) (p : Pipe) : Type 0 where
  pub bytes : List ℕ
  pub valid : IsValid bytes p
  pub sized : p.buffersize ≡ size
  pub at_start : p.rp ≡ p.wp
  pub empty : contents p ≡ []

contents_at_zero : (p : Pipe) → p.rp ≡ 0 → p.wp ≡ 0 → contents p ≡ []
unfolding contents
contents_at_zero p r w = ground arith

pub open_started-Opened :
    (size : ℕ) (b : List ℕ) (f : File) (p : Pipe)
    → 0 < size
    → size < 2 ^ 31
    → length b ≡ size
    → Opened size (open_started size b f p)
unfolding open_started
open_started-Opened size b f p pos small e = record {
  bytes = b;
  valid = record {
    allocated = refl;
    sized = e;
    ended = refl;
    rp_in = pos;
    wp_in = pos;
    small = small;
  };
  sized = refl;
  at_start = refl;
  empty = contents_at_zero _ refl refl;
}

-- What an open that succeeds leaves.
abbrev pub Done : ℕ → File → Pipe → Reply × Pipe → Type 0
Done size f p (r, q) =
    (r ≡ ret 0)
    × Opened size q
    × (q.nreaders ≡ (if f.reads then (p.nreaders + 1) % 2 ^ 32 else p.nreaders))
    × (q.nwriters ≡ (if f.writes then (p.nwriters + 1) % 2 ^ 32 else p.nwriters))

open_started-Done :
    (size : ℕ) (b : List ℕ) (f : File) (p : Pipe)
    → 0 < size
    → size < 2 ^ 31
    → length b ≡ size
    → Done size f p (ret 0, open_started size b f p)
unfolding open_started
open_started-Done size b f p pos small e =
    (refl, open_started-Opened size b f p pos small e, refl, refl)

-- With a positive buffer size below 2^31, an open fails only for want of memory, and then changes
-- nothing; else it returns 0, the device is valid and empty, whatever it held, and the openings are
-- counted by the mode of the file.
pub open_locked-Opened :
    (size : ℕ) (fresh : Option (List ℕ)) (f : File) (p : Pipe)
    → 0 < size
    → size < 2 ^ 31
    → ((b : List ℕ) → fresh ≡ some b → length b ≡ size)
    → ((b : List ℕ) → p.buffer ≡ some b → length b ≡ size)
    → ((open_locked size fresh f p ≡ (error nomem, p)) × (p.buffer ≡ none) × (fresh ≡ none))
      ⊎ Done size f p (open_locked size fresh f p)
unfolding open_locked
open_locked-Opened size fresh f p pos small sized here = elim (Option-cases p.buffer) [
  | inl closed ↦ elim (Option-cases fresh) [
    | inl oom ↦ inl (ground arith, closed, oom)
    | inr (b, e) ↦
        inr (
          subst (Done size f p) (ground arith) (open_started-Done size b f p pos small (sized b e)))
  ]
  | inr (b, e) ↦
      inr (subst (Done size f p) (ground arith) (open_started-Done size b f p pos small (here b e)))
]

-- Where the counts cover the openings of the file and are below 2^31, a release that leaves no
-- opening frees the buffer, and only such a one does; the counts drop by the mode of the file, and
-- the bytes and pointers stay.
pub release_locked-frees :
    (unregister : ℕ → List ℕ → List ℕ) (f : File) (p : Pipe)
    → p.nreaders < 2 ^ 31
    → p.nwriters < 2 ^ 31
    → (f.reads ≡ true → 0 < p.nreaders)
    → (f.writes ≡ true → 0 < p.nwriters)
    → ((release_locked unregister f p).nreaders + (if f.reads then 1 else 0) ≡ p.nreaders)
      × ((release_locked unregister f p).nwriters + (if f.writes then 1 else 0) ≡ p.nwriters)
      × ((release_locked unregister f p).buffer ≡ (
          if (release_locked unregister f p).nreaders == 0
            && (release_locked unregister f p).nwriters == 0
          then none
          else p.buffer))
unfolding release_locked
release_locked-frees unregister f p nr nw r w = ground arith
