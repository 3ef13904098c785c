-- ===== src/Scull/Tests.antt =====
-- Runs of the functions of 7/main.c, and its theorems on a device of two items with three quanta of
-- four bytes each.
use linux_homework.Base.{
  false, ◌+◌, ◌-◌, ◌^◌, ◌<◌, ◌≡◌, true, none, some, [], ◌∷◌, arith, refl, replicate, min,
}
use linux_homework.Scull.{
  free_items, free_quanta, Dev, ret, error, nomem, scull_trim, follow_from, scull_follow,
}
use linux_homework.Scull.Access.{
  done, stray, transfer, to_quantum_end, write_limit, write_quantum, write_item, scull_write,
}
use linux_homework.Scull.Valid.{IsValid}
use linux_homework.Scull.Sound.{Sound}
use linux_homework.Scull.Overwrite.{Overwrites, scull_write-Overwrites}
use linux_homework.Scull.Threads.{
  reading, trimming, locks, enter, locked, Env, System, apply, start,
}
use linux_homework.Scull.Module.{nothing_held, scull_cleanup_module, trim_all}

abbrev device : Dev
device = record {
  items = record { array = some (none ∷ some 4 ∷ none ∷ []) } ∷ record { array = none } ∷ [];
  quantum = 4;
  qset = 3;
  size = 8;
}

device-IsValid : IsValid device
device-IsValid = record {
  quantum = omega arith;
  qset = omega arith;
  items = ((refl, (refl, tt)), (tt, tt));
}

-- One device has four blocks.
cleanup_run :
    scull_cleanup_module 4 3 (record { region = true; devices = some (device ∷ []) })
    ≡ some (5, nothing_held)
unfolding scull_cleanup_module trim_all scull_trim free_items free_quanta
cleanup_run = refl

scull_write-Overwrites_example :
    Overwrites 14 (min 9 (write_limit device 14 9)) (scull_write device (replicate 5 true) 14 9 9)
    × (0 < write_limit device 14 9)
    × (14 < 16 → write_limit device 14 9 ≡ min (to_quantum_end device 14 9) (16 - 14))
    × (16 < 14 → write_limit device 14 9 + 14 ≡ 2 ^ 32 + 16)
scull_write-Overwrites_example =
    scull_write-Overwrites 14 9 9 5 device-IsValid (omega arith) (omega arith) (omega arith)
      (omega arith) (omega arith) (omega arith) (ground arith)

-- A write of nine bytes at 1 takes the quantum's three, and puts them over the items.
write_run :
    scull_write device (true ∷ []) 1 9 9
    ≡ stray
        (record {
          items =
              record { array = some (some 4 ∷ some 4 ∷ none ∷ []) } ∷ record { array = none } ∷ [];
          quantum = 4;
          qset = 3;
          size = 8;
        })
        1
        3
unfolding scull_write write_item write_quantum transfer scull_follow follow_from
write_run = refl

-- Behind position 16 the count is nearly 2^32.
count_run : write_limit device 20 3 ≡ 2 ^ 32 - 4
count_run = refl

-- A write of no bytes behind the end raises the size.
empty_run :
    scull_write device (true ∷ []) 10 0 0
    ≡ done
        (ret 0)
        (record {
          items =
              record { array = some (none ∷ some 4 ∷ some 4 ∷ []) } ∷ record { array = none } ∷ [];
          quantum = 4;
          qset = 3;
          size = 10;
        })
        10
unfolding scull_write write_item write_quantum transfer scull_follow follow_from
empty_run = refl

-- Without memory for the third item the write fails, and the first two stay.
nomem_run : scull_write device [] 25 1 1 ≡ done (error nomem) device 25
unfolding scull_write write_item write_quantum transfer scull_follow follow_from
nomem_run = refl

-- Process 0 reads, and has the semaphore when process 1 opens for writing.
abbrev reads : Env
reads = record { call = locks (reading 5 9); signal = false; answers = []; moved = 9 }

abbrev opens : Env
opens = record { call = locks trimming; signal = false; answers = []; moved = 0 }

abbrev entered : System
entered = apply (start device) 0 device 1 (enter (reading 5 9) 4 3)

abbrev taken : System
taken = apply entered 0 device 0 (locked (reading 5 9) 4 3)

abbrev waiting : System
waiting = apply taken 1 device 0 (enter trimming 4 3)
