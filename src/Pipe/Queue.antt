-- ===== src/Pipe/Queue.antt =====
-- scull_pipe.c as a bounded queue: what the locked parts of a read and of a write do to the stored
-- bytes, and the counts and offsets that they use.
use linux_homework.Base.{
  ℕ, ◌+◌, ◌-◌, ◌≤◌, ◌<◌, ◌≡◌, ◌≢◌, refl, sym, ap, ◌∙◌, true, false, Option, some, List, [], ◌++◌,
  arith, ◌==◌, if◌then◌else◌, length, take, drop, take-append-drop, length-append, length-take,
  length-drop,
}
use linux_homework.Pipe.{
  Pipe, Moved, ret, error, fault, read_at, write_at, spacefree, read_count, write_count, advance,
  read_locked, write_locked, copied,
}
use linux_homework.Pipe.Valid.{
  IsValid, stored, read_count-fits, read_count-le, write_count-fits, write_count-le,
  write_count-gap, write_count-le-spacefree, spacefree-add-stored, stored-run, stored-split,
  advance-lt,
}
use linux_homework.Pipe.Contents.{
  contents, between, spliced, between-read, between-write, length-spliced,
}

-- `contents` holds `stored` bytes.
pub length-contents : {b : List ℕ} {p : Pipe} → IsValid b p → length (contents p) ≡ stored p
unfolding contents between stored
length-contents {b} {p} v = rw v.allocated (
    ground (
      arith,
      length-take (p.wp - p.rp) (drop p.rp b),
      length-drop p.rp b,
      length-take p.wp b,
      length-append (drop p.rp b) (take p.wp b),
    ))

read_at-some :
    (o : Option (List ℕ)) {b : List ℕ} (i n : ℕ)
    → o ≡ some b
    → i + n ≤ length b
    → read_at o i n ≡ some (take n (drop i b))
unfolding read_at
read_at-some o i n e h = ground arith

pub write_at-some :
    (o : Option (List ℕ)) {b : List ℕ} (i : ℕ) (ys : List ℕ)
    → o ≡ some b
    → i + length ys ≤ length b
    → write_at o i ys ≡ some (spliced b i ys)
unfolding write_at
write_at-some o i ys e h = ground arith

pub contents-between :
    (p : Pipe) {b : List ℕ} → p.buffer ≡ some b → contents p ≡ between b p.rp p.wp
unfolding contents
contents-between p e = ground arith

advance-length :
    {b : List ℕ} {p : Pipe} (v : IsValid b p) (at n : ℕ)
    → advance p at n ≡ (if at + n == length b then 0 else at + n)
unfolding advance
advance-length v at n = ground arith

-- What a read leaves, as a record.
pub record Read (b : List ℕ) (p : Pipe) (count : ℕ) (m : Moved) : Type 0 where
  pub reply : m.reply ≡ ret (length m.bytes)
  pub held : m.pipe.sem ≡ p.sem
  pub size : m.pipe.buffersize ≡ p.buffersize
  pub fifo : m.bytes ++ contents m.pipe ≡ contents p
  pub within : length m.bytes ≤ count
  pub some_bytes : 0 < count → 0 < length m.bytes
  pub valid : IsValid b m.pipe

module _ {b : List ℕ} {p : Pipe} (v : IsValid b p) (count : ℕ) where
  -- The run that a read takes: not past the write pointer, and not empty.
  read_count-run : p.rp < p.wp → p.rp + read_count p count ≤ p.wp
  unfolding read_count
  read_count-run h = ground arith

  read_count-pos : 0 < count → 0 < read_count p count
  unfolding read_count
  read_count-pos h = ground arith

  pub moved_read : Moved
  moved_read = record {
    reply = ret (read_count p count);
    pipe = record p { rp = advance p p.rp (read_count p count) };
    bytes = take (read_count p count) (drop p.rp b);
  }

  read_at_run :
      read_at p.buffer p.rp (read_count p count) ≡ some (take (read_count p count) (drop p.rp b))
  read_at_run =
      read_at-some p.buffer p.rp (read_count p count) v.allocated (read_count-fits v count)

  length-moved_read : length moved_read.bytes ≡ read_count p count
  unfolding moved_read
  length-moved_read = omega (
    arith,
    length-take (read_count p count) (drop p.rp b),
    length-drop p.rp b,
    read_count-fits v count,
  )

  pub read_locked-ok : read_locked p count false ≡ some moved_read
  unfolding read_locked moved_read
  read_locked-ok = rw (read_at_run, read_locked)

  pub read_locked-fault :
      read_locked p count true ≡ some (record { reply = error fault; pipe = p; bytes = [] })
  unfolding read_locked
  read_locked-fault = rw (read_at_run, read_locked)

  pub moved_read-Read : p.rp ≢ p.wp → Read b p count moved_read
  unfolding moved_read
  moved_read-Read ne = record {
    reply = ap ret (sym length-moved_read);
    held = refl;
    size = refl;
    fifo =
        ap (λ l. moved_read.bytes ++ l)
          (contents-between moved_read.pipe v.allocated
            ∙ ap (λ k. between b k p.wp) (advance-length v p.rp (read_count p count)))
        ∙ between-read b p.rp p.wp (read_count p count) (omega (arith, v)) (omega (arith, v)) ne
            read_count-run (read_count-fits v count)
        ∙ sym (contents-between p v.allocated);
    within = omega (arith, length-moved_read, read_count-le v count);
    some_bytes = λ h. omega (arith, length-moved_read, read_count-pos h);
    valid = record {
      allocated = v.allocated;
      sized = v.sized;
      ended = v.ended;
      rp_in =
          advance-lt v p.rp (read_count p count) (omega (arith, v.sized, read_count-fits v count));
      wp_in = v.wp_in;
      small = v.small;
    };
  }

-- What a write leaves, as a record; `src` is what the caller gives.
pub record Written (b : List ℕ) (p : Pipe) (src : List ℕ) (m : Moved) : Type 0 where
  pub reply : m.reply ≡ ret (length m.bytes)
  pub held : m.pipe.sem ≡ p.sem
  pub size : m.pipe.buffersize ≡ p.buffersize
  pub prefix : m.bytes ++ drop (length m.bytes) src ≡ src
  pub fifo : contents m.pipe ≡ contents p ++ m.bytes
  pub some_bytes : 0 < length src → 0 < spacefree p → 0 < length m.bytes
  pub valid : IsValid (spliced b p.wp m.bytes) m.pipe

module _ {b : List ℕ} {p : Pipe} (v : IsValid b p) (src : List ℕ) where
  pub n : ℕ
  n = write_count p (length src)

  pub ys : List ℕ
  ys = take n src

  pub moved_write : Moved
  moved_write = record {
    reply = ret (length ys);
    pipe = record p { buffer = some (spliced b p.wp ys); wp = advance p p.wp (length ys) };
    bytes = ys;
  }

  length-ys : length ys ≡ n
  unfolding ys n
  length-ys = omega (arith, length-take n src, write_count-le v (length src))

  ys-fits : p.wp + length ys ≤ length b
  unfolding n
  ys-fits = omega (arith, length-ys, write_count-fits v (length src))

  pub write_locked-ok : write_locked p src copied ≡ some moved_write
  unfolding write_locked moved_write ys n
  write_locked-ok = rw (write_at-some p.buffer p.wp ys v.allocated ys-fits, write_locked)

  n-pos : 0 < length src → 0 < spacefree p → 0 < n
  unfolding n write_count
  n-pos h k = ground (arith, spacefree-add-stored v, stored-split v)

  n-gap : p.wp < p.rp → p.wp + n < p.rp
  unfolding n
  n-gap h = write_count-gap v (length src) h

  n-room : n + stored p + 1 ≤ length b
  unfolding n
  n-room = omega (arith, v.sized, write_count-le-spacefree v (length src), spacefree-add-stored v)

  pub moved_write-Written : Written b p src moved_write
  unfolding moved_write ys
  moved_write-Written = record {
    reply = refl;
    held = refl;
    size = refl;
    prefix = ap (λ k. ys ++ drop k src) length-ys ∙ take-append-drop n src;
    fifo =
        contents-between moved_write.pipe refl
        ∙ ap (λ k. between (spliced b p.wp ys) p.rp k) (advance-length v p.wp (length ys))
        ∙ between-write b p.wp ys ys-fits p.rp (omega (arith, v)) (omega (arith, v)) room gap
        ∙ ap (λ l. l ++ ys) (sym (contents-between p v.allocated));
    some_bytes = λ h k. omega (arith, length-ys, n-pos h k);
    valid = record {
      allocated = refl;
      sized = omega (arith, length-spliced b p.wp ys ys-fits, v.sized);
      ended = v.ended;
      rp_in = v.rp_in;
      wp_in = advance-lt v p.wp (length ys) (omega (arith, v.sized, ys-fits));
      small = v.small;
    };
  }
    where
      room : p.rp ≤ p.wp → length ys + (p.wp - p.rp) + 1 ≤ length b
      room h = ground (arith, n-room, length-ys, stored-run p h)

      gap : p.wp < p.rp → p.wp + length ys < p.rp
      gap h = omega (arith, length-ys, n-gap h)

-- On a valid device with bytes stored, a read whose copy succeeds returns as many bytes as it
-- takes, at least one if any is asked for and no more than asked for; they are the oldest, and the
-- rest stays.
pub read_locked-Read :
    {b : List ℕ} {p : Pipe} (v : IsValid b p) (count : ℕ)
    → p.rp ≢ p.wp
    → (m : Moved) × (read_locked p count false ≡ some m) × Read b p count m
read_locked-Read v count ne =
    (moved_read v count, read_locked-ok v count, moved_read-Read v count ne)

-- On a valid device, a write whose copy succeeds returns as many bytes as it puts in, at least one
-- if it is given any and there is room; they are the first of those given, and come behind those
-- stored.
pub write_locked-Written :
    {b : List ℕ} {p : Pipe} (v : IsValid b p) (src : List ℕ)
    → (m : Moved) × (write_locked p src copied ≡ some m) × Written b p src m
write_locked-Written v src = (moved_write v src, write_locked-ok v src, moved_write-Written v src)
