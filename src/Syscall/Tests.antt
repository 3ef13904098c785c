-- ===== src/Syscall/Tests.antt =====
-- Runs of 5/syscall.c, and its theorem on a small memory.
use linux_homework.Base.{◌≡◌, ◌==◌, if◌then◌else◌, none, some, refl, arith}
use linux_homework.Syscall.{
  Words, find_from, find_sys_call_table, init_addsyscall, efault, mysyscall,
}
use linux_homework.Syscall.Table.{Adds, init_addsyscall-Adds}

-- The table stands at 12; its call 6 is at 77.
abbrev memory : Words
memory q = if q == 18 then 77 else if q == 361 then 5 else 0

init_addsyscall-Adds_example : Adds 6 77 99 10 20 memory (init_addsyscall 6 77 99 10 20 memory)
init_addsyscall-Adds_example = init_addsyscall-Adds 6 77 99 10 20 memory (omega arith)

find_run : find_sys_call_table 6 77 memory 10 20 ≡ some 12
unfolding find_sys_call_table find_from
find_run = refl

-- Without a table, NULL is read.
null_run : init_addsyscall 6 78 99 10 20 memory ≡ none
unfolding init_addsyscall find_sys_call_table find_from
null_run = refl

call_run : mysyscall 5 6 16 ≡ efault
unfolding mysyscall
call_run = refl
