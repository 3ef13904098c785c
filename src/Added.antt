-- ===== src/Added.antt =====
-- 5/kernel: what is added to the kernel's own files, two system calls with the count of page faults
-- (sys.c, fault.c), and the rows and numbers of the calls (syscall_table_32.S, unistd_32.h); and
-- 5/user/test_syscall.c, which uses them. `do_gettimeofday`, the two conversions of jiffies and the
-- library's `syscall` are parameters.
mod Numbers
pub mod Count
mod Tests
use linux_homework.Base.{ℕ, zero, suc, ◌+◌, ◌%◌, ◌^◌, List, [], ◌∷◌}

-- The calls of the rows.
pub data Call : Type 0 where
  mysyscall do_pfcount myevent_open myevent_wait myevent_signal myevent_close mycall : Call

-- The rows, from row 338 on.
abbrev pub rows : List Call
rows =
    mysyscall ∷ do_pfcount ∷ myevent_open ∷ myevent_wait ∷ myevent_signal ∷ myevent_close ∷ mycall
    ∷ []

-- `__NR_mysyscall` and the others.
unfoldable pub number : Call → ℕ
number mysyscall = 338
number do_pfcount = 339
number myevent_open = 340
number myevent_wait = 341
number myevent_signal = 342
number myevent_close = 343
number mycall = 344

-- `NR_syscalls`
abbrev pub nr_syscalls : ℕ
nr_syscalls = 345

-- The two variables, of 32 bits.
pub record Kernel : Type 0 where
  pub jiffies : ℕ
  pub pfcount : ℕ

-- The first statement of `do_page_fault`, which is added to it.
unfoldable pub count_fault : Kernel → Kernel
count_fault k = record k { pfcount = (k.pfcount + 1) % 2 ^ 32 }

unfoldable pub count_faults : ℕ → Kernel → Kernel
count_faults zero k = k
count_faults (suc n) k = count_faults n (count_fault k)

-- `struct timeval` and `struct timespec`: the seconds, and the parts of a second.
pub record Time : Type 0 where
  pub sec : ℕ
  pub part : ℕ

-- What the caller of a system call finds: the result, `*t_time` and `*x_time`.
pub record Answer : Type 0 where
  pub result : ℕ
  pub t_time : Time
  pub x_time : Time

unfoldable pub sys_mysyscall : (jiffies_to_timeval jiffies_to_timespec : ℕ → Time) → Kernel → Answer
sys_mysyscall jiffies_to_timeval jiffies_to_timespec k = record {
  result = k.jiffies;
  t_time = jiffies_to_timeval k.jiffies;
  x_time = jiffies_to_timespec k.jiffies;
}

-- `now` is what `do_gettimeofday` stores; `x_time` is not touched.
unfoldable pub sys_do_pfcount : (now x_time : Time) → Kernel → Answer
sys_do_pfcount now x_time k = record { result = k.pfcount; t_time = now; x_time = x_time }

-- A line that `main` of test_syscall.c prints: a time, and a count.
pub record Line : Type 0 where
  pub time : Time
  pub count : ℕ

-- `main` of test_syscall.c, with the kernel as the first and as the second call find it; `ret` is
-- what `syscall` makes of a result, and `ts` what stands in the variable of that name.
unfoldable pub main :
    (jiffies_to_timeval jiffies_to_timespec : ℕ → Time)
    → (ret : ℕ → ℕ) (now ts : Time) (first second : Kernel) → List Line
unfolding sys_mysyscall sys_do_pfcount
main jiffies_to_timeval jiffies_to_timespec ret now ts first second =
    let pf = sys_do_pfcount now ts first in
    let js = sys_mysyscall jiffies_to_timeval jiffies_to_timespec second in
    record { time = js.t_time; count = ret pf.result }
    ∷ record { time = js.t_time; count = ret js.result }
    ∷ []
