-- ===== src/Shell/Main.antt =====
-- The loop of `main` in 2/mysh.c with what `yylex` does in it: a whole line is scanned, cut into
-- pipelines by `do_list_cmd`, and each of their commands is run, before the next line is read. The
-- parameters of `expand` and the descriptors that `lowest` finds are parameters.
pub mod Segments
pub mod Typed
pub mod Runs
mod Tests
use linux_homework.Base.{ℕ, Bool, true, false, ◌||◌, List, [], ◌∷◌, none, if◌then◌else◌}
use linux_homework.Shell.Exec.{Table, Simple, ends_shell, run_jobs}
use linux_homework.Shell.Input.{
  Input, more, lexed as whole, behind_buffer, before_line, set_prompt, read_line,
}
use linux_homework.Shell.Scanner.{Lexed, lexed, failed, refused_line, unfinished, yylex}
use linux_homework.Shell.Tokens.{Params}
use linux_homework.Shell.{Token, Opened, do_list_cmd}

-- A line that is run: its commands, what is left in the scanner's buffer, and the descriptors; or
-- the scanner fails.
pub data Line : Type 0 where
  ran : List Simple → (unread : Token) → Table → Line
  stuck : Lexed → Line

-- A session: the commands of each line, and the state in which `readline` finds no more; or the
-- shell ends before, by a command, in the scanner, or with an access outside of `line_buf`.
pub data Session : Type 0 where
  at_end : Input → (unread : Token) → Table → Session
  line_ran : List Simple → Session → Session
  ended : List Simple → Session
  in_scanner : Lexed → Session
  wrong : Session

abbrev pub any_ends : List Simple → Bool
any_ends [] = false
any_ends (s ∷ ss) = ends_shell s || any_ends ss

-- What follows a line.
abbrev pub after_line : (Token → Table → Session) → Line → Session
after_line again (ran ss unread t) = if any_ends ss then ended ss else line_ran ss (again unread t)
after_line again (stuck x) = in_scanner x

module _ (lowest : Table → ℕ) (sizeof_ptr : ℕ) (can_open : Opened → Bool) (ps : Params) where
  -- The call of `do_list_cmd` in the action of rule 7, with the tokens of a line.
  unfoldable pub run_list : List Token → Table → List Simple × Table
  run_list tokens t = run_jobs lowest sizeof_ptr can_open (do_list_cmd tokens) none t

  abbrev pub run_lexed : Lexed → Table → Line
  run_lexed (lexed tokens unread) t = let (ss, u) = run_list tokens t in ran ss unread u
  run_lexed (failed a) t = stuck (failed a)
  run_lexed refused_line t = stuck refused_line
  run_lexed unfinished t = stuck unfinished

  -- A call of `yylex`.
  unfoldable pub run_line : (text : Token) → (line_len : ℕ) → (unread : Token) → Table → Line
  run_line text line_len unread t = run_lexed (yylex ps text line_len unread) t

  -- The loop, with the lines that `readline` is to return.
  unfoldable pub main : List Token → Input → (unread : Token) → Table → Session
  main [] s unread t = at_end s unread t
  main (l ∷ ls) s unread t = elim (read_line l (set_prompt s).1) [
    | more s' ↦ main ls s' unread t
    | whole text n s' ↦ after_line (λ unread' u. main ls s' unread' u) (run_line text n unread t)
    | behind_buffer ↦ wrong
    | before_line ↦ wrong
  ]
