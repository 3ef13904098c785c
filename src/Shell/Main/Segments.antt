-- ===== src/Shell/Main/Segments.antt =====
-- A line of the shell of 2/mysh.c as pipelines, and the commands that it is to run.
use linux_homework.Base.{sym, ℕ, ◌≡◌, Bool, Option, none, some, List, [], ◌∷◌, ◌++◌, refl, ap, ◌∙◌}
use linux_homework.Shell.Exec.External.{External, Linked, Externals, jobs-Linked}
use linux_homework.Shell.Lists.{
  Sep, is_background, Separatorless, Pipelines, runs, line, Barless, bars, Commands, jobs,
  do_pipe_cmd-jobs, do_list_cmd-runs, run_segment-runs,
}
use linux_homework.Shell.{Token, Job, run_segment, do_list_cmd}

-- What stands up to a separator: nothing, or a pipeline with its first command and those behind a
-- `|`.
pub data Segment : Type 0 where
  blank : Sep → Segment
  pipeline : (first : List Token) → (others : List (List Token)) → Sep → Segment

abbrev pub parts : List Segment → List (List Token × Sep)
parts [] = []
parts (blank s ∷ gs) = ([], s) ∷ parts gs
parts (pipeline c cs s ∷ gs) = (c ++ bars cs, s) ∷ parts gs

-- Commands that are not built in, without separators and bars in them.
abbrev pub Plainly : List Segment → Type 0
Plainly [] = Unit {0}
Plainly (blank s ∷ gs) = Plainly gs
Plainly (pipeline c cs s ∷ gs) =
    Separatorless (c ++ bars cs) × Barless c × Commands cs × External c × Externals cs × Plainly gs

-- The calls of `do_simple_cmd` that a line is to make.
abbrev pub calls : List Segment → List Job
calls [] = []
calls (blank s ∷ gs) = calls gs
calls (pipeline c cs s ∷ gs) = jobs (is_background s) none 0 c cs ++ calls gs

parts-Pipelines : (gs : List Segment) → Plainly gs → Pipelines (parts gs)
parts-Pipelines [] v = tt
parts-Pipelines (blank s ∷ gs) v = (tt, parts-Pipelines gs v)
parts-Pipelines (pipeline c cs s ∷ gs) (free, bar, cmds, one, rest, v) =
    (free, parts-Pipelines gs v)

run_segment-jobs :
    (c : List Token) (cs : List (List Token)) (bg : Bool)
    → Barless c
    → Commands cs
    → External c
    → run_segment (c ++ bars cs) bg ≡ jobs bg none 0 c cs
run_segment-jobs [] cs bg bar cmds one = elim one [ ]
run_segment-jobs (t ∷ c) cs bg bar cmds one = do_pipe_cmd-jobs bg (t ∷ c) cs bar cmds

runs-calls : (gs : List Segment) → Plainly gs → runs (parts gs) ≡ calls gs
runs-calls [] v = refl
runs-calls (blank s ∷ gs) v = runs-calls gs v
runs-calls (pipeline c cs s ∷ gs) (free, bar, cmds, one, rest, v) =
    sym (run_segment-runs (c ++ bars cs) s (parts gs))
    ∙ ap (λ js. js ++ runs (parts gs)) (run_segment-jobs c cs (is_background s) bar cmds one)
    ∙ ap (λ js. jobs (is_background s) none 0 c cs ++ js) (runs-calls gs v)

pub do_list_cmd-calls : (gs : List Segment) → Plainly gs → do_list_cmd (line (parts gs)) ≡ calls gs
do_list_cmd-calls gs v = do_list_cmd-runs (parts gs) (parts-Pipelines gs v) ∙ runs-calls gs v

Linked-append :
    (inp : Option ℕ) (js ks : List Job) → Linked inp js → Linked none ks → Linked inp (js ++ ks)
Linked-append none [] ks e l = l
Linked-append (some n) [] ks e l = cc
Linked-append inp (j ∷ js) ks (one, rest) l = (one, Linked-append j.postfd js ks rest l)

pub calls-Linked : (gs : List Segment) → Plainly gs → Linked none (calls gs)
calls-Linked [] v = refl
calls-Linked (blank s ∷ gs) v = calls-Linked gs v
calls-Linked (pipeline c cs s ∷ gs) (free, bar, cmds, one, rest, v) =
    Linked-append none (jobs (is_background s) none 0 c cs) (calls gs)
      (jobs-Linked (is_background s) none 0 c cs one rest) (calls-Linked gs v)
