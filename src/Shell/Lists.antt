-- ===== src/Shell/Lists.antt =====
-- `do_list_cmd` and `do_pipe_cmd` of 2/parseline.c against the grammar of a line.
use linux_homework.Base.{
  ℕ, ◌+◌, ◌≡◌, Bool, true, false, ◌||◌, Option, none, some, List, [], ◌∷◌, ◌++◌, refl, append_assoc,
  append-nil, ap, sym, ◌∙◌,
}
use linux_homework.Shell.{
  Token, same, semicolon, newline, ampersand, bar, Job, pipe_from, do_pipe_cmd, run_segment,
  list_from, do_list_cmd,
}

-- No token of a command is `|`.
abbrev pub Barless : List Token → Type 0
Barless [] = Unit {0}
Barless (t ∷ ts) = (same t bar ≡ false) × Barless ts

pipe_from-command :
    (bg : Bool) (prefd : Option ℕ) (next : ℕ) (seg ts rest : List Token)
    → Barless ts
    → pipe_from bg prefd next seg (ts ++ rest) ≡ pipe_from bg prefd next (seg ++ ts) rest
unfolding pipe_from
pipe_from-command bg prefd next seg [] rest free =
    ap (λ v. pipe_from bg prefd next v rest) (sym (append-nil seg))
pipe_from-command bg prefd next seg (t ∷ ts) rest (word, free) = rw word (
    pipe_from-command bg prefd next (seg ++ t ∷ []) ts rest free
    ∙ ap (λ v. pipe_from bg prefd next v rest) (append_assoc seg (t ∷ []) ts))

-- A pipeline: its first command and those behind a `|`.
abbrev pub bars : List (List Token) → List Token
bars [] = []
bars (c ∷ cs) = bar ∷ (c ++ bars cs)

abbrev pub Commands : List (List Token) → Type 0
Commands [] = Unit {0}
Commands (c ∷ cs) = Barless c × Commands cs

-- The calls that a pipeline is to make: each pipe joins a command to the next one.
abbrev pub jobs :
    (bg : Bool) → (prefd : Option ℕ) → (next : ℕ) → List Token → List (List Token) → List Job
jobs bg prefd next c [] = record { cmd = c; prefd = prefd; postfd = none; bg = bg } ∷ []
jobs bg prefd next c (d ∷ cs) =
    record { cmd = c; prefd = prefd; postfd = some next; bg = bg }
    ∷ jobs bg (some next) (next + 1) d cs

pipe_from-jobs :
    (bg : Bool) (prefd : Option ℕ) (next : ℕ) (c : List Token) (cs : List (List Token))
    → Barless c
    → Commands cs
    → pipe_from bg prefd next [] (c ++ bars cs) ≡ jobs bg prefd next c cs
unfolding pipe_from same
pipe_from-jobs bg prefd next c [] free rest = pipe_from-command bg prefd next [] c [] free
pipe_from-jobs bg prefd next c (d ∷ cs) free (free', rest) =
    pipe_from-command bg prefd next [] c (bars (d ∷ cs)) free
    ∙ ap (λ v. record { cmd = c; prefd = prefd; postfd = some next; bg = bg } ∷ v)
        (pipe_from-jobs bg (some next) (next + 1) d cs free' rest)

-- A pipeline runs its commands in order, the first without a pipe before it, the last without one
-- behind it, and each other pipe between a command and the next one.
pub do_pipe_cmd-jobs :
    (bg : Bool) (c : List Token) (cs : List (List Token))
    → Barless c
    → Commands cs
    → do_pipe_cmd (c ++ bars cs) bg ≡ jobs bg none 0 c cs
unfolding do_pipe_cmd
do_pipe_cmd-jobs bg c cs free rest = pipe_from-jobs bg none 0 c cs free rest

-- The ends of a pipeline in a line.
pub data Sep : Type 0 where
  in_order : Sep
  at_newline : Sep
  in_background : Sep

abbrev pub separator : Sep → Token
separator in_order = semicolon
separator at_newline = newline
separator in_background = ampersand

abbrev pub is_background : Sep → Bool
is_background in_order = false
is_background at_newline = false
is_background in_background = true

abbrev pub Separatorless : List Token → Type 0
Separatorless [] = Unit {0}
Separatorless (t ∷ ts) =
    ((same t semicolon || same t newline) ≡ false) × (same t ampersand ≡ false) × Separatorless ts

-- A line: pipelines, each with its end; one may be empty.
abbrev pub line : List (List Token × Sep) → List Token
line [] = []
line ((p, s) ∷ ls) = p ++ separator s ∷ line ls

abbrev pub Pipelines : List (List Token × Sep) → Type 0
Pipelines [] = Unit {0}
Pipelines ((p, s) ∷ ls) = Separatorless p × Pipelines ls

-- The calls that a line is to make: none for an empty pipeline.
abbrev pub runs : List (List Token × Sep) → List Job
runs [] = []
runs (([], s) ∷ ls) = runs ls
runs ((t ∷ p, s) ∷ ls) = do_pipe_cmd (t ∷ p) (is_background s) ++ runs ls

pub run_segment-runs :
    (p : List Token) (s : Sep) (ls : List (List Token × Sep))
    → run_segment p (is_background s) ++ runs ls ≡ runs ((p, s) ∷ ls)
run_segment-runs [] s ls = refl
run_segment-runs (t ∷ p) s ls = refl

list_from-pipeline :
    (seg p rest : List Token)
    → Separatorless p
    → list_from seg (p ++ rest) ≡ list_from (seg ++ p) rest
unfolding list_from
list_from-pipeline seg [] rest free = ap (λ v. list_from v rest) (sym (append-nil seg))
list_from-pipeline seg (t ∷ p) rest (word, front, free) =
    rw (word, front)
      (list_from-pipeline (seg ++ t ∷ []) p rest free
        ∙ ap (λ v. list_from v rest) (append_assoc seg (t ∷ []) p))

list_from-separator :
    (p : List Token) (s : Sep) (rest : List Token)
    → list_from p (separator s ∷ rest) ≡ run_segment p (is_background s) ++ list_from [] rest
unfolding list_from same
list_from-separator p in_order rest = refl
list_from-separator p at_newline rest = refl
list_from-separator p in_background rest = refl

-- A line of pipelines, each ended by `;`, `&` or a newline, runs the ones that are not empty in
-- their order, those ended by `&` in the background.
pub do_list_cmd-runs :
    (ls : List (List Token × Sep)) → Pipelines ls → do_list_cmd (line ls) ≡ runs ls
unfolding do_list_cmd list_from
do_list_cmd-runs [] v = refl
do_list_cmd-runs ((p, s) ∷ ls) (free, v) =
    list_from-pipeline [] p (separator s ∷ line ls) free
    ∙ list_from-separator p s (line ls)
    ∙ ap (λ v. run_segment p (is_background s) ++ v) (do_list_cmd-runs ls v)
    ∙ run_segment-runs p s ls
