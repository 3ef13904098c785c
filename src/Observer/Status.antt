-- ===== src/Observer/Status.antt =====
-- `do_part_C` of 1/observer.c: the lines of /proc/stat that it knows.
use linux_homework.Base.{
  ℕ, ◌+◌, List, [], ◌∷◌, leb, if◌then◌else◌, Option, none, some, length, drop,
}
use linux_homework.Text.{Text, ℤ, starts_with, fgets_all, strtok_all, atoi}

abbrev pub cpu_key : Text
cpu_key = 99 ∷ 112 ∷ 117 ∷ []

abbrev pub ctxt_key : Text
ctxt_key = 99 ∷ 116 ∷ 120 ∷ 116 ∷ []

abbrev pub processes_key : Text
processes_key = 112 ∷ 114 ∷ 111 ∷ 99 ∷ 101 ∷ 115 ∷ 115 ∷ 101 ∷ 115 ∷ []

abbrev pub running_key : Text
running_key = 112 ∷ 114 ∷ 111 ∷ 99 ∷ 115 ∷ 95 ∷ 114 ∷ 117 ∷ 110 ∷ 110 ∷ 105 ∷ 110 ∷ 103 ∷ []

abbrev pub blocked_key : Text
blocked_key = 112 ∷ 114 ∷ 111 ∷ 99 ∷ 115 ∷ 95 ∷ 98 ∷ 108 ∷ 111 ∷ 99 ∷ 107 ∷ 101 ∷ 100 ∷ []

-- What a line is printed as. The line of all processors has the number 0.
pub data Printed : Type 0 where
  cpu : (cpu_count : ℕ) → (user nice system idle : Text) → Printed
  ctxt processes procs_running procs_blocked : ℤ → Printed

-- How the part ends, with what it has printed: words behind the end of `tokens`, `printf` of NULL,
-- or the end of the file.
pub data Stat : Type 0 where
  cannot_open : Stat
  overruns null_word sampled : List Printed → Stat

unfoldable pub also : Printed → Stat → Stat
also p cannot_open = cannot_open
also p (overruns ps) = overruns (p ∷ ps)
also p (null_word ps) = null_word (p ∷ ps)
also p (sampled ps) = sampled (p ∷ ps)

-- The kind of a line, by its first letters in the order of the tests.
pub data Kind : Type 0 where
  of_cpu of_ctxt of_processes of_running of_blocked other : Kind

unfoldable pub kind : Text → Kind
kind line =
    if starts_with cpu_key line
    then of_cpu
    else if starts_with ctxt_key line
    then of_ctxt
    else if starts_with processes_key line
    then of_processes
    else if starts_with running_key line
    then of_running
    else if starts_with blocked_key line
    then of_blocked
    else other

-- `tokens[1]` to `tokens[4]` behind the words of a line, whose NULL has to fit into 16 entries.
pub data Tokens : Type 0 where
  behind_end has_null : Tokens
  four : (t1 t2 t3 t4 : Text) → Tokens

abbrev pub first_words : List Text → Tokens
first_words (t0 ∷ t1 ∷ t2 ∷ t3 ∷ t4 ∷ ts) = four t1 t2 t3 t4
first_words ts = has_null

unfoldable pub tokens : Text → Tokens
tokens line = let ws = strtok_all line in if leb 16 (length ws) then behind_end else first_words ws

abbrev pub print_cpu : ℕ → Tokens → Stat → Stat
print_cpu cpus behind_end rest = overruns []
print_cpu cpus has_null rest = null_word []
print_cpu cpus (four t1 t2 t3 t4) rest = also (cpu cpus t1 t2 t3 t4) rest

-- `cpus` is `cpu_count + 1`.
unfoldable pub stat_from : (cpus : ℕ) → List Text → Stat
stat_from cpus [] = sampled []
stat_from cpus (l ∷ ls) = elim (kind l) [
  | of_cpu ↦ print_cpu cpus (tokens l) (stat_from (cpus + 1) ls)
  | of_ctxt ↦ also (ctxt (atoi (drop 4 l))) (stat_from cpus ls)
  | of_processes ↦ also (processes (atoi (drop 9 l))) (stat_from cpus ls)
  | of_running ↦ also (procs_running (atoi (drop 13 l))) (stat_from cpus ls)
  | of_blocked ↦ also (procs_blocked (atoi (drop 13 l))) (stat_from cpus ls)
  | other ↦ stat_from cpus ls
]

unfoldable pub do_part_c : Option Text → Stat
do_part_c none = cannot_open
do_part_c (some file) = stat_from 0 (fgets_all 80 file)
