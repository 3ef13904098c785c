-- ===== src/Myproc/Loops.antt =====
-- `proc_read` and `proc_write` of 4/m3/pm3.c. The kernel's `FSHIFT`, `HZ` and `simple_strtol` are
-- parameters.
use linux_homework.Base.{ℕ, zero, suc, ◌*◌, ◌/◌, ◌%◌, ◌^◌, List, map}
use linux_homework.Text.{ℤ}
use linux_homework.Myproc.{Copy, write_len}

-- `LOAD_INT` and `LOAD_FRAC`
unfoldable pub load_int : (fshift : ℕ) → ℕ → ℕ
load_int fshift x = x / 2 ^ fshift

unfoldable pub load_frac : (fshift : ℕ) → ℕ → ℕ
unfolding load_int
load_frac fshift x = load_int fshift (x % 2 ^ fshift * 100)

-- What a read shows: the load averages, the speed of the processor, or nothing.
pub data Shown : Type 0 where
  loadavg : List (ℕ × ℕ) → Shown
  bogomips : (loops_per_jiffy whole frac : ℕ) → Shown
  nothing : Shown

-- With the module's parameter; `avenrun` has three numbers.
unfoldable pub read_loops :
    (fshift hz : ℕ) → (param : ℕ) → (avenrun : List ℕ) → (loops_per_jiffy : ℕ) → Shown
unfolding load_int load_frac
read_loops fshift hz zero avenrun lpj =
    loadavg (map (λ x. (load_int fshift x, load_frac fshift x)) avenrun)
read_loops fshift hz (suc zero) avenrun lpj =
    bogomips lpj (lpj / (500000 / hz)) (lpj / (5000 / hz) % 100)
read_loops fshift hz (suc (suc param)) avenrun lpj = nothing

-- The length that a write returns, and `loops_per_jiffy` then; `buf` is what stands on the stack.
unfoldable pub write_loops :
    (simple_strtol : List ℕ → ℤ) → Copy → (count : ℕ) → (buf : List ℕ) → ℕ × ℤ
write_loops simple_strtol copy_from_user count buf =
    (write_len count, simple_strtol (copy_from_user buf (write_len count)).0)
