-- ===== src/Shell/Main/Runs.antt =====
-- The whole shell of 2/mysh.c and 2/parseline.c: from the lines that are typed to the commands that
-- run and their descriptors.
use linux_homework.Base.{
  ℕ, ◌+◌, ◌<◌, ◌≤◌, ◌≡◌, Bool, true, false, Option, none, some, List, [], ◌∷◌, ◌++◌, arith, refl,
  length, ltb, ◌==◌, length-append,
}
use linux_homework.Shell.Exec.Tables.{Finds, Room, Runs, run_jobs_clean}
use linux_homework.Shell.Exec.{Object, Table, Simple, null_name, in_shell, in_child}
use linux_homework.Shell.Input.{backslash, bufsize, last, typed, state, clean}
use linux_homework.Shell.Lists.{line}
use linux_homework.Shell.Main.Segments.{
  Segment, parts, Plainly, calls, do_list_cmd-calls, calls-Linked,
}
use linux_homework.Shell.Main.Typed.{text, main-typed}
use linux_homework.Shell.Main.{
  Session, at_end, line_ran, ended, in_scanner, wrong, any_ends, after_line, run_list, run_line,
  main,
}
use linux_homework.Shell.Scanner.Cut.{Plain, cut, yylex-cut}
use linux_homework.Shell.Scanner.Lexes.{length-written}
use linux_homework.Shell.Scanner.Lines.{Lexeme, mark, gap, word, Tokenized}
use linux_homework.Shell.Scanner.{lexed, end_of_buffer, yylex}
use linux_homework.Shell.Tokens.{Params, tokensz}
use linux_homework.Shell.{Token, newline, Opened, Job}

-- A line that is entered: its pieces, its tokens, and its pipelines.
pub record Entry : Type 0 where
  pub pieces : List Token
  pub end : Token
  pub tokens : List Token
  pub segments : List Segment

-- The line fits into `line_buf`, its last piece ends in a character other than a backslash, and its
-- tokens are those of its pipelines.
abbrev pub Entered : Params → Entry → Type 0
Entered ps e =
    ((c : ℕ) × (last e.end ≡ some c) × ((c == backslash) ≡ false))
    × (length (text e.pieces e.end ++ newline) < bufsize)
    × Plain (text e.pieces e.end)
    × Tokenized ps (cut (text e.pieces e.end)) e.tokens
    × (e.tokens ++ newline ∷ [] ≡ line (parts e.segments))
    × Plainly e.segments

abbrev pub AllEntered : Params → List Entry → Type 0
AllEntered ps [] = Unit {0}
AllEntered ps (e ∷ es) = Entered ps e × AllEntered ps es

abbrev pub typed_all : List Entry → List Token
typed_all [] = []
typed_all (e ∷ es) = typed e.pieces e.end ++ typed_all es

-- A line has no more tokens than characters.
Tokenized-length :
    (ps : Params) (ls : List Lexeme) (ts : List Token) → Tokenized ps ls ts → length ts ≤ length ls
Tokenized-length ps [] [] k = omega arith
Tokenized-length ps [] (t ∷ ts) k = cc
Tokenized-length ps (mark m ∷ ls) [] k = omega arith
Tokenized-length ps (mark m ∷ ls) (t ∷ ts) (e, k) = omega (arith, Tokenized-length ps ls ts k)
Tokenized-length ps (gap g ∷ ls) ts k = omega (arith, Tokenized-length ps ls ts k)
Tokenized-length ps (word c w ∷ ls) [] k = omega arith
Tokenized-length ps (word c w ∷ ls) (t ∷ ts) (e, k) = omega (arith, Tokenized-length ps ls ts k)

-- What fits into `line_buf` has room in `tokens`.
yylex-lexed :
    (ps : Params) (s : Token) (ts : List Token)
    → length (s ++ newline) < bufsize
    → Plain s
    → Tokenized ps (cut s) ts
    → yylex ps (s ++ newline) (length (s ++ newline)) end_of_buffer
      ≡ lexed (ts ++ newline ∷ []) end_of_buffer
yylex-lexed ps s ts short p k =
    let one = length-append s newline in
    let (well, spelled, scanned) = yylex-cut ps s ts p (omega (arith, short, one)) k in
    let few = Tokenized-length ps (cut s) ts k in
    let least : length (cut s) + 0 ≤ length s = rw spelled at (length-written (cut s) []) in
    let fits : ltb (length ts + 1) tokensz ≡ true = ground (arith, short, one, few, least) in
    rw fits at scanned

module _ (lowest : Table → ℕ) (limit : ℕ) (fresh : Finds lowest limit) (shell : Table)
    {i o : Object} (stdin : shell 0 ≡ some i) (stdout : shell 1 ≡ some o) (room : Room shell limit)
    (sizeof_ptr : ℕ) (can_open : Opened → Bool) (ps : Params) where
  Runs-any_ends :
      (inp : Option ℕ) (js : List Job) (ss : List Simple)
      → Runs lowest limit fresh shell stdin stdout room sizeof_ptr can_open inp js ss
      → any_ends ss ≡ false
  Runs-any_ends inp [] [] r = refl
  Runs-any_ends inp [] (s ∷ ss) r = elim r [ ]
  Runs-any_ends inp (j ∷ js) [] r = elim r [ ]
  Runs-any_ends inp (j ∷ js) (null_name ∷ ss) r = elim r [ ]
  Runs-any_ends inp (j ∷ js) (in_shell e t ∷ ss) r = elim r [ ]
  Runs-any_ends inp (j ∷ js) (in_child scan connected after t waits ∷ ss) (a, b, c, d, r) =
      Runs-any_ends j.postfd js ss r

  -- The commands of each line run, and the shell is as before at the end.
  abbrev pub Done : List Entry → Session → Type 0
  Done [] (at_end s unread t) =
      (s ≡ clean) × (unread ≡ end_of_buffer) × ((fd : ℕ) → t fd ≡ shell fd)
  Done [] (line_ran ss x) = ⊥
  Done (e ∷ es) (line_ran ss x) =
      Runs lowest limit fresh shell stdin stdout room sizeof_ptr can_open none (calls e.segments) ss
      × Done es x
  Done (e ∷ es) (at_end s unread t) = ⊥
  Done es (ended ss) = ⊥
  Done es (in_scanner x) = ⊥
  Done es wrong = ⊥

  run_list-Runs :
      (gs : List Segment) (ts : List Token) (t : Table)
      → ts ≡ line (parts gs)
      → Plainly gs
      → ((fd : ℕ) → t fd ≡ shell fd)
      → let (ss, u) = run_list lowest sizeof_ptr can_open ps ts t in
        Runs lowest limit fresh shell stdin stdout room sizeof_ptr can_open none (calls gs) ss
        × ((fd : ℕ) → u fd ≡ shell fd)
  unfolding run_list
  run_list-Runs gs ts t e v at =
      rw (run_list, e, do_list_cmd-calls gs v)
        (run_jobs_clean lowest limit fresh shell stdin stdout room sizeof_ptr can_open (calls gs) t
          (calls-Linked gs v) at)

  -- One line in front of the rest of the session.
  after_line-Done :
      (e : Entry) (es : List Entry) (s : Token) (t : Table) (again : Token → Table → Session)
      → length (s ++ newline) < bufsize
      → Plain s
      → Tokenized ps (cut s) e.tokens
      → e.tokens ++ newline ∷ [] ≡ line (parts e.segments)
      → Plainly e.segments
      → ((fd : ℕ) → t fd ≡ shell fd)
      → ((u : Table) → ((fd : ℕ) → u fd ≡ shell fd) → Done es (again end_of_buffer u))
      → Done (e ∷ es) (
          after_line again (
            run_line lowest sizeof_ptr can_open ps
              (s ++ newline)
              (length (s ++ newline))
              end_of_buffer
              t))
  unfolding run_line
  after_line-Done e es s t again short p k tokens v at go =
      let (runs, kept) = run_list-Runs e.segments (e.tokens ++ newline ∷ []) t tokens v at in
      rw
        (
          run_line,
          yylex-lexed ps s e.tokens short p k,
          Runs-any_ends none (calls e.segments) _ runs,
        )
        (runs, go _ kept)

  main-state :
      (es : List Entry) (t : Table)
      → AllEntered ps es
      → ((fd : ℕ) → t fd ≡ shell fd)
      → Done es
          (main lowest sizeof_ptr can_open ps (typed_all es) (state [] 0 false) end_of_buffer t)
  unfolding main
  main-state [] t v at = (refl, refl, at)
  main-state (e ∷ es) t (((c, final, other), short, p, k, tokens, plain), v) at =
      rw
        (main-typed lowest sizeof_ptr can_open ps (typed_all es) end_of_buffer t false e.pieces
          e.end c final other short)
        (after_line-Done e es (text e.pieces e.end) t _ short p k tokens plain at
          (λ u kept. main-state es u v kept))

  -- Where a free descriptor below the limit is found if there is one, in a shell with a standard
  -- input and output and three free descriptors below the limit: of lines that fit into `line_buf`,
  -- each typed in pieces and made of pipelines of commands that are not built in, the commands are
  -- run line by line and in order, each in a child that has the pipes before and behind it and no
  -- other end of a pipe; at the end of the input the line buffer and the scanner's buffer are empty
  -- and the shell has the descriptors that it had.
  pub main-Done :
      (es : List Entry)
      → AllEntered ps es
      → Done es (main lowest sizeof_ptr can_open ps (typed_all es) clean end_of_buffer shell)
  main-Done es v = main-state es shell v (λ fd. refl)
