-- ===== src/Pipe/Module.antt =====
-- `scull_p_init` and `scull_p_cleanup` of 7/pipe/scull_pipe.c: the range of device numbers and the
-- devices. Whether the kernel gives a range, and whether it gives memory, are parameters; a `cdev`
-- that cannot be added is only reported.
use linux_homework.Base.{ℕ, ◌+◌, Bool, true, false, Option, none, some, List, [], ◌∷◌, replicate}
use linux_homework.Pipe.{Pipe, initial}

-- What the module holds: the range, and `scull_p_devices`.
pub record Held : Type 0 where
  pub region : Bool
  pub devices : Option (List Pipe)

abbrev pub nothing_held : Held
nothing_held = record { region = false; devices = none }

-- What `scull_p_init` returns, and what is held then.
unfoldable pub scull_p_init : (scull_p_nr_devs : ℕ) → (gives_region gives_memory : Bool) → ℕ × Held
scull_p_init n false gives_memory = (0, nothing_held)
scull_p_init n true false = (0, nothing_held)
scull_p_init n true true = (n, record { region = true; devices = some (replicate n initial) })

-- The buffers that are freed.
abbrev pub buffers : List Pipe → ℕ
buffers [] = 0
buffers (p ∷ ps) = elim p.buffer [ none ↦ buffers ps | some b ↦ 1 + buffers ps ]

-- How many blocks it frees, and what is held then.
unfoldable pub scull_p_cleanup : Held → ℕ × Held
scull_p_cleanup h = elim h.devices [ none ↦ (0, h) | some ds ↦ (buffers ds + 1, nothing_held) ]
