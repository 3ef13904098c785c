-- ===== src/Limit.antt =====
-- 1/limit_proc.c: the program reads one line of what it opens and takes it for the default number
-- of processes. `fopen` opens the directory /proc/sys/kernel, and `fgets` fails there.
mod Tests
use linux_homework.Base.{ℕ, ◌≡◌, Option, none, some, List, [], ◌∷◌, refl}
use linux_homework.Text.{Text, ℤ, pos, atol, skip_spaces, digits_from, fgets_all, fgets_from}

-- What is behind the name: nothing that can be opened, a directory, or a file.
pub data Node : Type 0 where
  missing directory : Node
  file : Text → Node

-- The program returns -1, or it sets `DEFAULT_PM` from the line buffer.
pub data Ended : Type 0 where
  failed : Ended
  default_pm : ℤ → Ended

-- What `fgets` leaves in the buffer, of which `before` is what stood there.
unfoldable pub buffer : (before : Text) → List Text → Text
buffer before [] = before
buffer before (l ∷ ls) = l

unfoldable pub main : (line_buf : Text) → Node → Ended
unfolding buffer
main line_buf missing = failed
main line_buf directory = default_pm (atol (buffer line_buf []))
main line_buf (file text) = default_pm (atol (buffer line_buf (fgets_all 511 text)))
