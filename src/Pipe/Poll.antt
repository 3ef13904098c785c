-- ===== src/Pipe/Poll.antt =====
-- `scull_p_poll` of scull_pipe.c against the stored bytes.
use linux_homework.Base.{ℕ, ◌+◌, ◌<◌, ◌≡◌, ◌≢◌, ◌↔◌, true, List, arith, length}
use linux_homework.Pipe.{Pipe, poll}
use linux_homework.Pipe.Valid.{IsValid, stored-eq-zero, stored-pos, spacefree-add-stored}
use linux_homework.Pipe.Contents.{contents}
use linux_homework.Pipe.Queue.{length-contents}

-- A valid device is reported readable exactly when it stores a byte, and writable exactly when
-- there is room for one besides the byte that always stays free.
pub poll_lem :
    {b : List ℕ} {p : Pipe}
    → IsValid b p
    → (((poll p).0 ≡ true) ↔ (0 < length (contents p)))
      × (((poll p).1 ≡ true) ↔ (length (contents p) + 1 < p.buffersize))
unfolding poll
poll_lem {p} v = ground (
  arith,
  length-contents v,
  spacefree-add-stored v,
  stored-eq-zero v,
  λ (ne : p.rp ≢ p.wp). stored-pos v ne,
)
