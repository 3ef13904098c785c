-- ===== src/Observer.antt =====
-- 1/observer.c: what the program reads from files of /proc and prints. A file is its text, `none`
-- if it cannot be opened.
pub mod Status
pub mod Uptime
pub mod Load
pub mod Lines
pub mod Ends
pub mod Clock
pub mod First
pub mod Versions
mod Tests
use linux_homework.Base.{
  ℕ, zero, suc, ◌+◌, ◌-◌, ◌≤◌, Bool, true, false, List, [], ◌∷◌, ◌++◌, map, leb, ltb, ◌==◌, ◌||◌,
  if◌then◌else◌, Option, none, some, take, drop, length, replicate,
}
use linux_homework.Text.{Text, ℤ, pos, starts_with, fgets_all, atoi}
use linux_homework.Observer.Uptime.{TimeReport, sample_time}
use linux_homework.Observer.Status.{Stat, do_part_c}
use linux_homework.Observer.Load.{Samples, do_part_d}

-- `LB_SIZE`
abbrev pub lb_size : ℕ
lb_size = 80

abbrev pub mem_total_key : Text
mem_total_key = 77 ∷ 101 ∷ 109 ∷ 84 ∷ 111 ∷ 116 ∷ 97 ∷ 108 ∷ []

abbrev pub mem_free_key : Text
mem_free_key = 77 ∷ 101 ∷ 109 ∷ 70 ∷ 114 ∷ 101 ∷ 101 ∷ []

abbrev pub buffers_key : Text
buffers_key = 66 ∷ 117 ∷ 102 ∷ 102 ∷ 101 ∷ 114 ∷ 115 ∷ []

abbrev pub cached_key : Text
cached_key = 67 ∷ 97 ∷ 99 ∷ 104 ∷ 101 ∷ 100 ∷ []

abbrev pub rtc_time_key : Text
rtc_time_key = 114 ∷ 116 ∷ 99 ∷ 95 ∷ 116 ∷ 105 ∷ 109 ∷ 101 ∷ []

abbrev pub rtc_date_key : Text
rtc_date_key = 114 ∷ 116 ∷ 99 ∷ 95 ∷ 100 ∷ 97 ∷ 116 ∷ 101 ∷ []

abbrev pub model_name_key : Text
model_name_key = 109 ∷ 111 ∷ 100 ∷ 101 ∷ 108 ∷ 32 ∷ 110 ∷ 97 ∷ 109 ∷ 101 ∷ []

-- The fields of `struct tm` that are printed.
pub record Tm : Type 0 where
  pub tm_year : ℕ
  pub tm_mon : ℕ
  pub tm_mday : ℕ
  pub tm_hour : ℕ
  pub tm_min : ℕ
  pub tm_sec : ℕ

-- What part A prints: the date as year, month, day and the time, lines of files, and the models of
-- the processors with a number.
pub data Shown : Type 0 where
  date : (year month day hour minute second : ℕ) → Shown
  rtc_time rtc_date text : Text → Shown
  model : ℕ → Text → Shown

unfoldable pub show_date : Tm → Shown
show_date t = date (1900 + t.tm_year) (t.tm_mon + 1) (t.tm_mday + 1) t.tm_hour t.tm_min t.tm_sec

unfoldable pub show_rtc : Text → List Shown
show_rtc line =
    (if starts_with rtc_time_key line then rtc_time (drop 8 line) ∷ [] else [])
    ++ (if starts_with rtc_date_key line then rtc_date (drop 8 line) ∷ [] else [])

unfoldable pub show_rtcs : List Text → List Shown
show_rtcs [] = []
show_rtcs (l ∷ ls) = show_rtc l ++ show_rtcs ls

-- `cpu_count` is the number of the next model.
unfoldable pub show_models : (cpu_count : ℕ) → List Text → List Shown
show_models cpu_count [] = []
show_models cpu_count (l ∷ ls) = elim (starts_with model_name_key l) [
  | true ↦ model cpu_count l ∷ show_models (cpu_count + 1) ls
  | false ↦ show_models cpu_count ls
]

-- The files of part A.
pub record Files : Type 0 where
  pub rtc : Option Text
  pub hostname : Option Text
  pub cpuinfo : Option Text
  pub version : Option Text
  pub version_signature : Option Text

-- How part A ends, with what it has printed: `fgets` with NULL, return -1, return 0.
pub data PartA : Type 0 where
  null_file failed finished : List Shown → PartA

abbrev pub texts : Text → List Shown
texts file = map text (fgets_all lb_size file)

unfoldable pub part_a_version : List Shown → Files → PartA
part_a_version out f = elim f.version [
  | none ↦ null_file out
  | some v ↦ elim f.version_signature [
    | none ↦ null_file (out ++ texts v)
    | some s ↦ finished (out ++ texts v ++ texts s)
  ]
]

unfoldable pub part_a_cpus : List Shown → Files → PartA
unfolding part_a_version
part_a_cpus out f = elim f.cpuinfo [
  | none ↦ failed out
  | some c ↦ part_a_version (out ++ show_models 1 (fgets_all lb_size c)) f
]

unfoldable pub part_a_host : List Shown → Files → PartA
unfolding part_a_cpus
part_a_host out f = elim f.hostname [ none ↦ failed out | some h ↦ part_a_cpus (out ++ texts h) f ]

unfoldable pub do_part_a : Tm → Files → PartA
unfolding part_a_host
do_part_a now f = elim f.rtc [
  | none ↦ null_file (show_date now ∷ [])
  | some r ↦ part_a_host (show_date now ∷ show_rtcs (fgets_all lb_size r)) f
]

-- What part B prints of /proc/meminfo: `%30.30s` of what stands behind the key and one character,
-- `none` where that is behind the end of the line.
pub data Memory : Type 0 where
  mem_total mem_free buffers cached : Option Text → Memory

abbrev pub field : ℕ → Text → Option Text
field n line =
    let s = take 30 (drop n line) in
    if leb n (length line) then some (replicate (30 - length s) 32 ++ s) else none

unfoldable pub show_memory : Text → List Memory
show_memory line =
    (if starts_with mem_total_key line then mem_total (field (8 + 1) line) ∷ [] else [])
    ++ (if starts_with mem_free_key line then mem_free (field (7 + 1) line) ∷ [] else [])
    ++ (if starts_with buffers_key line then buffers (field (7 + 1) line) ∷ [] else [])
    ++ (if starts_with cached_key line then cached (field (6 + 1) line) ∷ [] else [])

unfoldable pub show_memories : List Text → List Memory
show_memories [] = []
show_memories (l ∷ ls) = show_memory l ++ show_memories ls

-- `none` if /proc/meminfo cannot be opened.
unfoldable pub do_part_b :
    (meminfo uptime : Option Text) → (now : ℕ) → Option (List Memory × TimeReport)
do_part_b none uptime now = none
do_part_b (some m) uptime now = some (show_memories (fgets_all lb_size m), sample_time uptime now)

-- What `main` calls. `c1` and `c2` are 0 where `sscanf` finds no character.
pub data Part : Type 0 where
  part_a part_b part_c usage nothing : Part
  part_d : (interval duration : ℤ) → Part

abbrev pub char_at : ℕ → Text → ℕ
char_at n [] = 0
char_at zero (c ∷ s) = c
char_at (suc n) (c ∷ s) = char_at n s

abbrev pub part_of : (c2 : ℕ) → (rest : List Text) → Part
part_of c2 rest =
    if c2 == 98
    then part_b
    else if c2 == 99
    then part_c
    else if c2 == 100
    then intervals rest
    else nothing
  where
    intervals : List Text → Part
    intervals (i ∷ d ∷ rest') = part_d (atoi i) (atoi d)
    intervals rest' = usage

unfoldable pub main : (argv : List Text) → Part
main [] = nothing
main (prog ∷ []) = part_a
main (prog ∷ a ∷ rest) =
    if not_dash (char_at 0 a) || (char_at 1 a == 0) then usage else part_of (char_at 1 a) rest
  where
    not_dash : ℕ → Bool
    not_dash c1 = if c1 == 45 then false else true
