-- ===== src/Pipe/Fault.antt =====
-- `scull_p_write` of scull_pipe.c where `copy_from_user` fails.
use linux_homework.Base.{
  ℕ, ◌+◌, ◌≤◌, ◌<◌, ◌≡◌, refl, sym, ◌∙◌, some, List, [], arith, length, take, length-take,
}
use linux_homework.Pipe.{Pipe, Moved, error, fault, write_count, write_locked, left}
use linux_homework.Pipe.Valid.{IsValid, write_count-fits, write_count-gap}
use linux_homework.Pipe.Contents.{contents, spliced, between-spliced, length-spliced}
use linux_homework.Pipe.Queue.{write_at-some, contents-between}

-- A write whose copy fails leaves the stored bytes alone, whatever the copy left behind.
module _ {b : List ℕ} {p : Pipe} (v : IsValid b p) (src junk : List ℕ) where
  pub zs : List ℕ
  zs = take (write_count p (length src)) junk

  zs-fits : p.wp + length zs ≤ length b
  unfolding zs
  zs-fits =
      omega (arith, length-take (write_count p (length src)) junk, write_count-fits v (length src))

  unfoldable pub moved_left : Moved
  moved_left = record {
    reply = error fault;
    pipe = record p { buffer = some (spliced b p.wp zs) };
    bytes = [];
  }

  pub write_locked-left : write_locked p src (left junk) ≡ some moved_left
  unfolding write_locked moved_left zs
  write_locked-left = rw (write_at-some p.buffer p.wp zs v.allocated zs-fits, write_locked)

  zs-gap : p.wp < p.rp → p.wp + length zs < p.rp
  unfolding zs
  zs-gap h =
      omega (arith, length-take (write_count p (length src)) junk, write_count-gap v (length src) h)

  pub contents-moved_left : contents moved_left.pipe ≡ contents p
  unfolding moved_left
  contents-moved_left =
      contents-between moved_left.pipe refl
      ∙ between-spliced b p.wp zs zs-fits p.rp zs-gap
      ∙ sym (contents-between p v.allocated)

  pub moved_left-IsValid : IsValid (spliced b p.wp zs) moved_left.pipe
  unfolding moved_left
  moved_left-IsValid = record {
    allocated = refl;
    sized = omega (arith, length-spliced b p.wp zs zs-fits, v.sized);
    ended = v.ended;
    rp_in = v.rp_in;
    wp_in = v.wp_in;
    small = v.small;
  }
