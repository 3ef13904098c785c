-- ===== src/Observer/Uptime.antt =====
-- `sampleTime` of 1/observer.c: /proc/uptime, split into days, hours, minutes and seconds. The
-- start is what `localtime` gets, and the current time is a parameter.
use linux_homework.Base.{ℕ, suc, ◌+◌, List, [], ◌∷◌, Option, none, some}
use linux_homework.Text.{
  Text, ℤ, pos, negsuc, fgets_all, strtok_all, atol, to_int, div, rem, div_long, minus,
}

pub record Split : Type 0 where
  pub day : ℤ
  pub hour : ℤ
  pub minute : ℤ
  pub second : ℤ

unfoldable pub split : ℤ → Split
split t = record {
  day = to_int (div t 86400);
  hour = to_int (div (rem t 86400) 3600);
  minute = to_int (div (rem t 3600) 60);
  second = to_int (rem t 60);
}

-- What is printed: the two numbers, the time of the start, the running and the idle time, and last
-- the quotient, `none` where the division faults.
pub record Times : Type 0 where
  pub uptime : ℤ
  pub idletime : ℤ
  pub diff : ℤ
  pub running : Split
  pub idle : Split
  pub ratio : Option ℤ

pub data TimeReport : Type 0 where
  cannot_open empty null_token : TimeReport
  printed : Times → TimeReport

abbrev pub started : ℕ → ℤ → ℤ
started now (pos n) = minus now n
started now (negsuc n) = pos (now + suc n)

abbrev pub report : (now : ℕ) → (uptime idletime : ℤ) → Times
report now uptime idletime = record {
  uptime = uptime;
  idletime = idletime;
  diff = started now uptime;
  running = split uptime;
  idle = split idletime;
  ratio = div_long idletime uptime;
}

-- The words of the first line.
abbrev pub of_words : ℕ → List Text → TimeReport
of_words now (u ∷ i ∷ ws) = printed (report now (atol u) (atol i))
of_words now ws = null_token

abbrev pub of_lines : ℕ → List Text → TimeReport
of_lines now [] = empty
of_lines now (l ∷ ls) = of_words now (strtok_all l)

unfoldable pub sample_time : Option Text → (now : ℕ) → TimeReport
sample_time none now = cannot_open
sample_time (some file) now = of_lines now (fgets_all 80 file)
