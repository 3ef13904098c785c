-- ===== src/Shell/Main/Tests.antt =====
-- The theorem on the whole shell of 2/mysh.c and 2/parseline.c at two lines.
use linux_homework.Base.{List, [], ◌∷◌, refl, arith}
use linux_homework.Shell.Exec.Samples.{
  limit, lowest, lowest-Finds, at_start, at_start-Room, can_open, ls, wc,
}
use linux_homework.Shell.Input.{clean}
use linux_homework.Shell.Lists.{at_newline, in_background}
use linux_homework.Shell.Main.Runs.{Entry, typed_all, Done, main-Done}
use linux_homework.Shell.Main.Segments.{blank, pipeline}
use linux_homework.Shell.Main.{main}
use linux_homework.Shell.Scanner.{end_of_buffer}
use linux_homework.Shell.Tokens.{Params, param, expand, expand_from}
use linux_homework.Shell.{same, bar, ampersand}

abbrev params : Params
params = record { pid = 52 ∷ []; pos_param = λ i. ls; argc = 49 ∷ []; exit_status = 48 ∷ [] }

-- `ls|` and `wc` on two lines, and `ls&`.
abbrev entries : List Entry
entries =
    record {
      pieces = (108 ∷ 115 ∷ 124 ∷ []) ∷ [];
      end = wc;
      tokens = ls ∷ bar ∷ wc ∷ [];
      segments = pipeline (ls ∷ []) ((wc ∷ []) ∷ []) at_newline ∷ [];
    }
    ∷ record {
      pieces = [];
      end = 108 ∷ 115 ∷ 38 ∷ [];
      tokens = ls ∷ ampersand ∷ [];
      segments = pipeline (ls ∷ []) [] in_background ∷ blank at_newline ∷ [];
    }
    ∷ []

main-Done_example :
    Done lowest limit lowest-Finds at_start refl refl at_start-Room 8 can_open params entries
      (main lowest 8 can_open params (typed_all entries) clean end_of_buffer at_start)
unfolding same expand expand_from param
main-Done_example =
    main-Done lowest limit lowest-Finds at_start refl refl at_start-Room 8 can_open params entries (
      (
        (99, refl, refl),
        omega arith,
        (refl, (refl, (refl, (refl, (refl, tt))))),
        (refl, (refl, (refl, refl))),
        refl,
        (
          (refl, refl, (refl, refl, (refl, refl, tt))),
          (refl, tt),
          ((refl, tt), tt),
          refl,
          (refl, tt),
          tt,
        ),
      ),
      (
        (
          (38, refl, refl),
          omega arith,
          (refl, (refl, (refl, tt))),
          (refl, (refl, refl)),
          refl,
          ((refl, refl, tt), (refl, tt), tt, refl, tt, tt),
        ),
        tt,
      ),
    )
