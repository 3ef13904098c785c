-- ===== src/Shell/Exec/Tests.antt =====
-- Runs of `do_simple_cmd` of 2/parseline.c in pipelines, and the theorem on descriptors at one of
-- them.
use linux_homework.Base.{ℕ, ◌≡◌, false, none, some, [], ◌∷◌, ◌++◌, refl}
use linux_homework.Shell.{same, bar, pipe_from, do_pipe_cmd, scan_redirect}
use linux_homework.Shell.Lists.{bars, jobs}
use linux_homework.Shell.Exec.Leaks.{Leaks, run_pipeline-Leaks}
use linux_homework.Shell.Exec.{
  pipe_write, put, null_name, run_jobs, run_pipeline, do_simple_cmd, do_builtin, pipe,
  connect_output, connect_input, close, dup2, close_read, close_write, echo, prints,
}
use linux_homework.Shell.Exec.Samples.{
  limit, lowest, lowest-Finds, at_start, at_start-Room, can_open, ls, wc, echo_word,
}
use linux_homework.Shell.Exec.Tables.{Runs, run_pipeline-Runs}

run_pipeline-Runs_example :
    let (ss, u) = run_pipeline lowest 8 can_open (ls ∷ bar ∷ wc ∷ []) false at_start in
    Runs lowest limit lowest-Finds at_start refl refl at_start-Room 8 can_open none
      (jobs false none 0 (ls ∷ []) ((wc ∷ []) ∷ []))
      ss
    × ((fd : ℕ) → u fd ≡ at_start fd)
unfolding same
run_pipeline-Runs_example =
    run_pipeline-Runs lowest limit lowest-Finds at_start refl refl at_start-Room 8 can_open false
      (ls ∷ []) ((wc ∷ []) ∷ []) (refl, tt) ((refl, tt), tt) refl (refl, tt)

run_pipeline-Leaks_example :
    Leaks lowest limit lowest-Finds at_start refl refl at_start-Room 8 can_open echo
      (echo_word ∷ ls ∷ [])
      (jobs false (some 0) 1 (wc ∷ []) [])
      (run_pipeline lowest 8 can_open
        ((echo_word ∷ ls ∷ []) ++ bars ((wc ∷ []) ∷ []))
        false
        at_start)
unfolding same scan_redirect
run_pipeline-Leaks_example =
    run_pipeline-Leaks lowest limit lowest-Finds at_start refl refl at_start-Room 8 can_open
      echo_word (ls ∷ []) (echo_word ∷ ls ∷ []) echo false (wc ∷ []) [] refl tt refl
      (refl, (refl, tt)) ((refl, tt), tt) refl tt

-- A built-in command in front of a pipe leaves the shell's own output in it.
echo_run :
    (run_pipeline lowest 8 can_open (echo_word ∷ ls ∷ bar ∷ wc ∷ []) false at_start).1 1
    ≡ some (pipe_write 0)
unfolding run_pipeline run_jobs do_simple_cmd do_pipe_cmd pipe connect_output connect_input close
    dup2 put pipe_from same close_read close_write scan_redirect do_builtin
echo_run = refl

echo_prints : do_builtin echo (echo_word ∷ ls ∷ []) ≡ prints (108 ∷ 115 ∷ 32 ∷ 10 ∷ [])
unfolding do_builtin
echo_prints = refl

null_run : do_simple_cmd lowest 8 can_open [] none none false at_start ≡ null_name
unfolding do_simple_cmd
null_run = refl
