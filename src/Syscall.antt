-- ===== src/Syscall.antt =====
-- 5/syscall.c: a module that finds the table of system calls in the kernel's memory and puts a
-- call of its own there. The memory is counted in words; `sys_close` and `sys_mysyscall` are
-- addresses, and `__NR_close` is the kernel's.
pub mod Table
mod Tests
use linux_homework.Base.{
  ℕ, zero, suc, ◌+◌, ◌-◌, Bool, true, false, ◌==◌, if◌then◌else◌, Option, none, some,
}

abbrev pub Words : Type 0
Words = ℕ → ℕ

-- `__NR_mysyscall`
abbrev pub nr_mysyscall : ℕ
nr_mysyscall = 349

-- The loop over `k` words from `p` on.
unfoldable pub find_from : (nr_close sys_close : ℕ) → Words → (k p : ℕ) → Option ℕ
find_from nr_close sys_close m zero p = none
find_from nr_close sys_close m (suc k) p = elim (m (p + nr_close) == sys_close) [
  | true ↦ some p
  | false ↦ find_from nr_close sys_close m k (p + 1)
]

-- Between the words of `loops_per_jiffy` and of `boot_cpu_data`.
unfoldable pub find_sys_call_table :
    (nr_close sys_close : ℕ) → Words → (loops_per_jiffy boot_cpu_data : ℕ) → Option ℕ
unfolding find_from
find_sys_call_table nr_close sys_close m loops_per_jiffy boot_cpu_data =
    find_from nr_close sys_close m (boot_cpu_data - loops_per_jiffy) loops_per_jiffy

abbrev pub store : ℕ → ℕ → Words → Words
store p v m q = if q == p then v else m q

-- The variables of the module, and the memory; a table at NULL faults.
pub record Module : Type 0 where
  pub sys_call_table : ℕ
  pub anything_saved : ℕ
  pub memory : Words

unfoldable pub init_addsyscall :
    (nr_close sys_close sys_mysyscall : ℕ)
    → (loops_per_jiffy boot_cpu_data : ℕ) → Words
    → Option Module
unfolding find_sys_call_table
init_addsyscall nr_close sys_close sys_mysyscall loops_per_jiffy boot_cpu_data m =
    elim (find_sys_call_table nr_close sys_close m loops_per_jiffy boot_cpu_data) [
      | none ↦ none
      | some p ↦ some (record {
        sys_call_table = p;
        anything_saved = m (p + nr_mysyscall);
        memory = store (p + nr_mysyscall) sys_mysyscall m;
      })
    ]

unfoldable pub exit_addsyscall : Module → Words → Words
exit_addsyscall s m = store (s.sys_call_table + nr_mysyscall) s.anything_saved m

-- `sys_mysyscall`: 0 with the time for the caller, or -EFAULT; `left` is what `copy_to_user`
-- leaves.
pub data Called : Type 0 where
  efault : Called
  copied : (sec usec : ℕ) → Called

unfoldable pub mysyscall : (sec usec left : ℕ) → Called
mysyscall sec usec left = if left == 0 then copied sec usec else efault
