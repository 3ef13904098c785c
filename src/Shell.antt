-- ===== src/Shell.antt =====
-- The hand-written part of 2/parseline.c (the user code of 2/parseline.l): how a line of tokens is
-- cut into lists, pipelines and simple commands, and how a simple command's redirections are taken
-- out. A string is the list of its character codes, `tokens` the list up to its NULL; the part from
-- `tokens + j` up to `tokens + i`, which a separator's NULL ends, is the list `seg`.
pub mod Lists
pub mod Redirect
pub mod Tokens
pub mod Expand
pub mod Input
pub mod Exec
pub mod Scanner
pub mod Main
pub mod Start
mod Tests
use linux_homework.Base.{
  ℕ, ◌+◌, Bool, true, false, ◌&&◌, ◌||◌, Option, none, some, List, [], ◌∷◌, ◌++◌, ltb, length, ◌==◌,
  if◌then◌else◌,
}

abbrev pub Token : Type 0
Token = List ℕ

-- `strcmp(s, t) == 0`
unfoldable pub same : Token → Token → Bool
same [] [] = true
same [] (d ∷ t) = false
same (c ∷ s) [] = false
same (c ∷ s) (d ∷ t) = (c == d) && same s t

abbrev pub semicolon : Token
semicolon = 59 ∷ []

abbrev pub newline : Token
newline = 10 ∷ []

abbrev pub ampersand : Token
ampersand = 38 ∷ []

abbrev pub bar : Token
bar = 124 ∷ []

abbrev pub less : Token
less = 60 ∷ []

abbrev pub greater : Token
greater = 62 ∷ []

-- A call of `do_simple_cmd`; the pipes of a pipeline are numbered in the order of their `pipe`.
pub record Job : Type 0 where
  pub cmd : List Token
  pub prefd : Option ℕ
  pub postfd : Option ℕ
  pub bg : Bool

-- The loop of `do_pipe_cmd`, with `prefd`, and `next` the number of the next pipe.
unfoldable pub pipe_from :
    (bg : Bool) → (prefd : Option ℕ) → (next : ℕ) → (seg rest : List Token) → List Job
pipe_from bg prefd next seg [] = record { cmd = seg; prefd = prefd; postfd = none; bg = bg } ∷ []
pipe_from bg prefd next seg (t ∷ rest) =
    let ended = pipe_from bg (some next) (next + 1) [] rest in
    let going = pipe_from bg prefd next (seg ++ t ∷ []) rest in
    if same t bar
    then record { cmd = seg; prefd = prefd; postfd = some next; bg = bg } ∷ ended
    else going

unfoldable pub do_pipe_cmd : List Token → Bool → List Job
do_pipe_cmd pipeline bg = pipe_from bg none 0 [] pipeline

-- `if (j != i) do_pipe_cmd(tokens+j, bg)`
abbrev pub run_segment : List Token → Bool → List Job
run_segment [] bg = []
run_segment (t ∷ seg) bg = do_pipe_cmd (t ∷ seg) bg

-- The loop of `do_list_cmd`. What stands behind the last separator is not run.
unfoldable pub list_from : (seg rest : List Token) → List Job
list_from seg [] = []
list_from seg (t ∷ rest) =
    let ended = list_from [] rest in
    let going = list_from (seg ++ t ∷ []) rest in
    if same t semicolon || same t newline
    then run_segment seg false ++ ended
    else if same t ampersand
    then run_segment seg true ++ ended
    else going

unfoldable pub do_list_cmd : List Token → List Job
do_list_cmd tokens = list_from [] tokens

-- A file that a redirection opens in place of the standard input or output.
pub data Opened : Type 0 where
  input : Token → Opened
  output : Token → Opened

-- How `scan_redirect` ends: with the arguments and the files opened in their order, by `exit` where
-- a file cannot be opened, with `fopen(NULL, ...)`, or with a `strcpy` beyond the block for it.
pub data Scan : Type 0 where
  scanned : (argv : List Token) → List Opened → Scan
  exits : List Opened → Scan
  opens_null : Scan
  overruns : Scan

abbrev pub argument : Token → Scan → Scan
argument t (scanned argv os) = scanned (t ∷ argv) os
argument t (exits os) = exits os
argument t opens_null = opens_null
argument t overruns = overruns

abbrev pub opening : Opened → Scan → Scan
opening o (scanned argv os) = scanned argv (o ∷ os)
opening o (exits os) = exits (o ∷ os)
opening o opens_null = opens_null
opening o overruns = overruns

-- A redirection to the file that the next token names: `go` is the rest of the loop.
abbrev pub redirect : (Opened → Bool) → (Token → Opened) → Token → Scan → Scan
redirect can_open kind f go = if can_open (kind f) then opening (kind f) go else exits []

-- `scan_redirect`; `can_open` says which `fopen` succeed, and an argument is copied into a block of
-- `sizeof(char *) + 1` bytes.
unfoldable pub scan_redirect : (sizeof_ptr : ℕ) → (Opened → Bool) → List Token → Scan
scan_redirect sizeof_ptr can_open [] = scanned [] []
scan_redirect sizeof_ptr can_open (t ∷ []) =
    if same t less || same t greater
    then opens_null
    else if ltb (sizeof_ptr + 1) (length t + 1)
    then overruns
    else scanned (t ∷ []) []
scan_redirect sizeof_ptr can_open (t ∷ u ∷ rest) =
    let behind = scan_redirect sizeof_ptr can_open rest in
    let next = scan_redirect sizeof_ptr can_open (u ∷ rest) in
    if same t less
    then redirect can_open input u behind
    else if same t greater
    then redirect can_open output u behind
    else if ltb (sizeof_ptr + 1) (length t + 1)
    then overruns
    else argument t next
