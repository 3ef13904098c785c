-- ===== src/Added/Tests.antt =====
-- Runs of the calls of 5/kernel/sys.c and of 5/user/test_syscall.c.
use linux_homework.Base.{ℕ, ◌/◌, ◌%◌, ◌≡◌, [], ◌∷◌, refl}
use linux_homework.Added.{
  Kernel, Time, count_fault, count_faults, sys_mysyscall, sys_do_pfcount, main,
}

abbrev noon : Time
noon = record { sec = 43200; part = 5 }

abbrev kernel : Kernel
kernel = record { jiffies = 1500; pfcount = 4294967295 }

abbrev up : ℕ → Time
up j = record { sec = j / 1000; part = j % 1000 }

-- The count wraps around, and the time with it is that since the start of the system, not noon.
main_runs :
    main up up (λ r. r) noon noon (count_faults 3 kernel) kernel
    ≡ record { time = record { sec = 1; part = 500 }; count = 2 }
      ∷ record { time = record { sec = 1; part = 500 }; count = 1500 }
      ∷ []
unfolding main sys_mysyscall sys_do_pfcount count_fault count_faults
main_runs = refl
