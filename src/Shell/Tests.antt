-- ===== src/Shell/Tests.antt =====
-- Runs of the hand-written part of 2/parseline.c and of the loop of 2/mysh.c, and their theorems on
-- short lines.
use linux_homework.Base.{
  ◌≡◌, Bool, true, false, none, some, List, [], ◌∷◌, ◌++◌, refl, arith, length, ltb, if◌then◌else◌,
  replicate,
}
use linux_homework.Shell.{
  Token, same, bar, ampersand, semicolon, newline, less, greater, pipe_from, do_pipe_cmd, list_from,
  do_list_cmd, Opened, scanned, exits, opens_null, overruns, scan_redirect,
}
use linux_homework.Shell.Lists.{
  Sep, in_order, at_newline, in_background, bars, jobs, do_pipe_cmd-jobs, line, runs,
  do_list_cmd-runs,
}
use linux_homework.Shell.Redirect.{
  word, from, to, tokens, words, files, scan_redirect-words, scan_redirect-overruns,
}
use linux_homework.Shell.Tokens.{
  behind_array, add_token, add_tokens, Params, param, expand_from, expand, tokensz,
}
use linux_homework.Shell.Input.{
  read_lines, typed, joined, bufsize, session, wrong, read_lines-joined, read_line, join_line,
  end_line, set_prompt,
}
use linux_homework.Shell.Expand.{char, variable, process_id, position, spelled, value, expand-value}

-- `ls`, `wc` and `cat`.
abbrev ls : Token
ls = 108 ∷ 115 ∷ []

abbrev wc : Token
wc = 119 ∷ 99 ∷ []

abbrev cat : Token
cat = 99 ∷ 97 ∷ 116 ∷ []

do_pipe_cmd-jobs_example :
    do_pipe_cmd ((ls ∷ []) ++ bars ((cat ∷ []) ∷ (wc ∷ []) ∷ [])) true
    ≡ jobs true none 0 (ls ∷ []) ((cat ∷ []) ∷ (wc ∷ []) ∷ [])
unfolding same
do_pipe_cmd-jobs_example =
    do_pipe_cmd-jobs true (ls ∷ []) ((cat ∷ []) ∷ (wc ∷ []) ∷ []) (refl, tt)
      ((refl, tt), ((refl, tt), tt))

-- `ls | wc & cat ; <newline>`
abbrev a_line : List (List Token × Sep)
a_line = (ls ∷ bar ∷ wc ∷ [], in_background) ∷ (cat ∷ [], in_order) ∷ ([], at_newline) ∷ []

do_list_cmd-runs_example : do_list_cmd (line a_line) ≡ runs a_line
unfolding same
do_list_cmd-runs_example =
    do_list_cmd-runs a_line
      ((refl, refl, (refl, refl, (refl, refl, tt))), ((refl, refl, tt), (tt, tt)))

line_run :
    do_list_cmd (ls ∷ bar ∷ wc ∷ ampersand ∷ cat ∷ semicolon ∷ newline ∷ [])
    ≡ record { cmd = ls ∷ []; prefd = none; postfd = some 0; bg = true }
      ∷ record { cmd = wc ∷ []; prefd = some 0; postfd = none; bg = true }
      ∷ record { cmd = cat ∷ []; prefd = none; postfd = none; bg = false }
      ∷ []
unfolding do_list_cmd list_from do_pipe_cmd pipe_from same
line_run = refl

-- Every file can be opened, or none.
abbrev all_open : Opened → Bool
all_open o = true

scan_redirect-words_example :
    scan_redirect 8 all_open (tokens (word cat ∷ from ls ∷ word wc ∷ to ls ∷ []))
    ≡ scanned
        (words (word cat ∷ from ls ∷ word wc ∷ to ls ∷ []))
        (files (word cat ∷ from ls ∷ word wc ∷ to ls ∷ []))
unfolding same
scan_redirect-words_example =
    scan_redirect-words 8 all_open (word cat ∷ from ls ∷ word wc ∷ to ls ∷ [])
      (refl, refl, omega arith, (refl, (refl, refl, omega arith, (refl, tt))))

scan_redirect-overruns_example :
    scan_redirect 8 all_open (tokens (word cat ∷ []) ++ (cat ++ (cat ++ cat)) ∷ ls ∷ []) ≡ overruns
unfolding same
scan_redirect-overruns_example =
    scan_redirect-overruns 8 all_open (word cat ∷ []) (cat ++ (cat ++ cat)) (ls ∷ [])
      (refl, refl, omega arith, tt) refl refl (omega arith)

unopened_run : scan_redirect 8 (λ o. false) (cat ∷ less ∷ ls ∷ greater ∷ []) ≡ exits []
unfolding scan_redirect same
unopened_run = refl

null_run : scan_redirect 8 all_open (cat ∷ less ∷ ls ∷ greater ∷ []) ≡ opens_null
unfolding scan_redirect same
null_run = refl

full_run : add_tokens (replicate 200 ls) [] ≡ behind_array
unfolding add_tokens add_token
full_run = refl

abbrev params : Params
params = record { pid = 52 ∷ 50 ∷ []; pos_param = λ i. ls; argc = 49 ∷ []; exit_status = 48 ∷ [] }

-- `a$$b$1`
expand-value_example :
    expand params (spelled (char 97 ∷ variable process_id ∷ char 98 ∷ variable (position 1) ∷ []))
    ≡ (if ltb
          (length
            (value params (char 97 ∷ variable process_id ∷ char 98 ∷ variable (position 1) ∷ [])))
          tokensz
        then some
            (value params (char 97 ∷ variable process_id ∷ char 98 ∷ variable (position 1) ∷ []))
        else none)
unfolding param
expand-value_example =
    expand-value params (char 97 ∷ variable process_id ∷ char 98 ∷ variable (position 1) ∷ [])
      (refl, (tt, (refl, (omega arith, tt))))

expand_run : expand params (97 ∷ 36 ∷ 36 ∷ 98 ∷ 36 ∷ 120 ∷ []) ≡ some (97 ∷ 52 ∷ 50 ∷ 98 ∷ 120 ∷ [])
unfolding expand expand_from param
expand_run = refl

-- `ls` with its `s` on a line of its own, and a command behind it.
read_lines-joined_example :
    read_lines
      (typed ((108 ∷ []) ∷ []) (115 ∷ []))
      (record { line_buf = []; line_len = 0; flag_cont_line = true })
    ≡ (if ltb (length (joined ((108 ∷ []) ∷ []) (115 ∷ []))) bufsize
        then session
            ((joined ((108 ∷ []) ∷ []) (115 ∷ []), length (joined ((108 ∷ []) ∷ []) (115 ∷ [])))
              ∷ [])
            (record { line_buf = []; line_len = 0; flag_cont_line = false })
        else wrong)
read_lines-joined_example = read_lines-joined true ((108 ∷ []) ∷ []) (115 ∷ []) 115 refl refl

lines_run :
    read_lines
      ((108 ∷ 92 ∷ []) ∷ (115 ∷ []) ∷ wc ∷ [])
      (record { line_buf = []; line_len = 0; flag_cont_line = false })
    ≡ session
        ((108 ∷ 115 ∷ 10 ∷ [], 3) ∷ (119 ∷ 99 ∷ 10 ∷ [], 3) ∷ [])
        (record { line_buf = []; line_len = 0; flag_cont_line = false })
unfolding read_lines read_line join_line end_line set_prompt
lines_run = refl

-- An empty line reads the character in front of it.
empty_run :
    read_lines ([] ∷ []) (record { line_buf = []; line_len = 0; flag_cont_line = false }) ≡ wrong
unfolding read_lines read_line set_prompt
empty_run = refl
