-- ===== src/Added/Numbers.antt =====
-- That the numbers of unistd_32.h are those of the rows of syscall_table_32.S.
use linux_homework.Base.{◌+◌, ◌-◌, ◌≡◌, some, length, get_elem?, refl}
use linux_homework.Added.{
  Call, mysyscall, do_pfcount, myevent_open, myevent_wait, myevent_signal, myevent_close, mycall,
  rows, number, nr_syscalls,
}

-- The row of each number is that of its call, and `NR_syscalls` is one more than the last row.
row-number :
    (c : Call) → (get_elem? rows (number c - 338) ≡ some c) × (338 + length rows ≡ nr_syscalls)
unfolding number
row-number mysyscall = (refl, refl)
row-number do_pfcount = (refl, refl)
row-number myevent_open = (refl, refl)
row-number myevent_wait = (refl, refl)
row-number myevent_signal = (refl, refl)
row-number myevent_close = (refl, refl)
row-number mycall = (refl, refl)
