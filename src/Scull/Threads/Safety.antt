-- ===== src/Scull/Threads/Safety.antt =====
-- What holds in every state that the processes of 7/main.c reach.
use linux_homework.Base.Lock.{Lock}
use linux_homework.Base.{ℕ, ◌<◌}
use linux_homework.Scull.Threads.Step.{holds, Fresh, Sized}
use linux_homework.Scull.Threads.{System}

module _ (quantum qset : ℕ) (some_quantum : 0 < quantum) (some_qset : 0 < qset) where
  record Inv (s : System) : Type 0 where
    sized : Sized quantum qset s.dev
    fresh : (i : ℕ) → Fresh quantum qset (s.pc i)
    lock : Lock s.sem (λ i. holds (s.pc i))
