-- ===== src/Observer/Tests.antt =====
-- Runs of 1/observer.c, and its theorems on short files.
use linux_homework.Base.{ℕ, suc, ◌≡◌, none, some, List, [], ◌∷◌, map, refl, arith}
use linux_homework.Text.{
  Text, strtok, take_token, pos, starts_with, fgets_all, fgets_from, strtok_all, strtok_from, add,
  less_than, is_int,
}
use linux_homework.Text.Lines.{concat}
use linux_homework.Observer.{Tm, date, show_date, main, nothing, do_part_a, null_file}
use linux_homework.Observer.Load.{
  shows, sample_load_avg, three_words, overflows, finished, do_part_d, sample_from,
}
use linux_homework.Observer.First as First
use linux_homework.Observer.Versions.{forget, parts-Later}
use linux_homework.Observer.Ends.{Reaches, do_part_d-finishes, do_part_d-goes_on}
use linux_homework.Observer.Uptime.{sample_time}
use linux_homework.Observer.Status.{sampled, null_word, do_part_c, stat_from, kind, tokens}
use linux_homework.Observer.Lines.{
  Entry, processor, counter, noise, forks, whole, expected, do_part_c-expected,
}

do_part_d-finishes_example :
    (k : ℕ) × (do_part_d 8 (pos 2) (pos 7) ≡ some (finished (suc k))) × Reaches 0 2 7 k
do_part_d-finishes_example = do_part_d-finishes 1 7 (omega arith)

goes_on_run : do_part_d 100 (pos 0) (pos 5) ≡ none
goes_on_run = do_part_d-goes_on 100 5 (omega arith) (omega arith)

-- Seven seconds by two: at 0, 2, 4 and 6.
part_d_run : do_part_d 8 (pos 2) (pos 7) ≡ some (finished 4)
unfolding do_part_d sample_from add less_than is_int
part_d_run = refl

-- Two intervals of 1500000000 seconds are more than an `int` holds.
overflow_run : do_part_d 8 (pos 1500000000) (pos 2000000000) ≡ some (overflows 2)
unfolding do_part_d sample_from add less_than is_int
overflow_run = refl

-- `cpu  1 2 3 4 5`, `intr 9` and `processes 42`.
abbrev entries : List Entry
entries =
    processor [] (49 ∷ []) (50 ∷ []) (51 ∷ []) (52 ∷ []) (53 ∷ []) []
    ∷ noise (105 ∷ 110 ∷ 116 ∷ 114 ∷ 32 ∷ 57 ∷ [])
    ∷ counter forks 52 (50 ∷ [])
    ∷ []

do_part_c-expected_example :
    do_part_c (some (concat (map whole entries))) ≡ sampled (expected 0 entries)
unfolding kind starts_with
do_part_c-expected_example =
    do_part_c-expected entries
      (
        (tt, ((refl, tt), ((refl, tt), ((refl, tt), ((refl, tt), ((refl, tt), tt))))), omega arith),
        (refl, (((refl, (refl, tt)), omega arith), tt)),
      )
      (
        (
          (
            refl,
            (
              refl,
              (
                refl,
                (refl, (refl, (refl, (refl, (refl, (refl, (refl, (refl, (refl, (refl, tt)))))))))),
              ),
            ),
          ),
          omega arith,
        ),
        (
          ((refl, (refl, (refl, (refl, (refl, (refl, tt)))))), omega arith),
          (
            (
              (
                refl,
                (
                  refl,
                  (
                    refl,
                    (refl, (refl, (refl, (refl, (refl, (refl, (refl, (refl, (refl, tt))))))))),
                  ),
                ),
              ),
              omega arith,
            ),
            tt,
          ),
        ),
      )

-- `cpu 1`
null_word_run : do_part_c (some (99 ∷ 112 ∷ 117 ∷ 32 ∷ 49 ∷ 10 ∷ [])) ≡ null_word []
unfolding do_part_c stat_from kind starts_with tokens fgets_all fgets_from strtok_all strtok_from
null_word_run = refl

-- 25 November 2026, as `localtime` gives it.
abbrev today : Tm
today = record { tm_year = 126; tm_mon = 10; tm_mday = 25; tm_hour = 12; tm_min = 0; tm_sec = 0 }

-- A day too much is shown.
date_run : show_date today ≡ date 2026 11 26 12 0 0
unfolding show_date
date_run = refl

-- Without a real-time clock the program reads NULL.
rtc_run :
    do_part_a today (record {
      rtc = none;
      hostname = none;
      cpuinfo = none;
      version = none;
      version_signature = none;
    })
    ≡ null_file (date 2026 11 26 12 0 0 ∷ [])
unfolding do_part_a show_date
rtc_run = refl

-- `-a` does nothing.
option_run : main ([] ∷ (45 ∷ 97 ∷ []) ∷ []) ≡ nothing
unfolding main
option_run = refl

-- `1 2 3 4/5`
load_run :
    sample_load_avg (some (49 ∷ 32 ∷ 50 ∷ 32 ∷ 51 ∷ 32 ∷ 52 ∷ 47 ∷ 53 ∷ 10 ∷ []))
    ≡ shows (49 ∷ []) (50 ∷ []) (51 ∷ [])
unfolding sample_load_avg three_words strtok take_token fgets_all fgets_from
load_run = refl

-- `observer -d 2 7`
abbrev d_line : List Text
d_line = (111 ∷ []) ∷ (45 ∷ 100 ∷ []) ∷ (50 ∷ []) ∷ (55 ∷ []) ∷ []

parts-Later_example :
    (First.part d_line ≡ main d_line)
    × (First.sample_time none 1000 ≡ forget (sample_time none 1000))
    × ((k : ℕ) × Reaches 0 2 7 k
        × (do_part_d 8 (pos 2) (pos 7) ≡ some (finished (suc k)))
        × (First.do_part_d 9 (pos 2) (pos 7) ≡ some (finished (suc (suc k)))))
parts-Later_example = parts-Later d_line none 1000 1 7 refl (omega arith) (omega arith)

first_run : First.do_part_d 9 (pos 2) (pos 7) ≡ some (finished 5)
unfolding First.do_part_d First.sample_while add less_than is_int
first_run = refl

-- `-` alone runs nothing in the first version.
alone_run : First.part ((111 ∷ []) ∷ (45 ∷ []) ∷ []) ≡ nothing
unfolding First.part
alone_run = refl
