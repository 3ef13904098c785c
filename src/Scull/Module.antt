-- ===== src/Scull/Module.antt =====
-- `scull_init_module` and `scull_cleanup_module` of 7/main.c: the range of device numbers and the
-- devices. Whether the kernel gives a range, and whether it gives memory, are parameters; a `cdev`
-- that cannot be added is only reported.
use linux_homework.Base.{
  ℕ, ◌+◌, ◌≡◌, Bool, true, false, Option, none, some, List, [], ◌∷◌, length, replicate, ◌>>=◌,
}
use linux_homework.Scull.{Dev, scull_trim}
use linux_homework.Scull.Valid.{IsValid, blocks}

-- What the module holds: the range, and `scull_devices`, `none` for NULL and once it is freed.
pub record Held : Type 0 where
  pub region : Bool
  pub devices : Option (List Dev)

abbrev pub nothing_held : Held
nothing_held = record { region = false; devices = none }

-- How loading ends: with the kernel's error for the range, with -ENOMEM, or with 0.
pub data Init : Type 0 where
  no_region no_memory loaded : Init

-- `scull_trim` of all devices: how many blocks it frees.
unfoldable pub trim_all : (scull_quantum scull_qset : ℕ) → List Dev → Option ℕ
trim_all scull_quantum scull_qset [] = some 0
trim_all scull_quantum scull_qset (d ∷ ds) = do
  (n, d') ← scull_trim scull_quantum scull_qset d
  m ← trim_all scull_quantum scull_qset ds
  some (n + m)

-- How many blocks it frees, and what is held then; `none` if it reads behind an array.
unfoldable pub scull_cleanup_module : (scull_quantum scull_qset : ℕ) → Held → Option (ℕ × Held)
unfolding trim_all
scull_cleanup_module scull_quantum scull_qset h = elim h.devices [
  | none ↦ some (0, record { region = false; devices = none })
  | some ds ↦ do
    n ← trim_all scull_quantum scull_qset ds
    some (n + 1, record { region = false; devices = none })
]

-- A device with its sizes set.
abbrev pub set_up : (scull_quantum scull_qset : ℕ) → Dev
set_up scull_quantum scull_qset = record {
  items = [];
  quantum = scull_quantum;
  qset = scull_qset;
  size = 0;
}

-- `goto fail` with no devices.
abbrev pub failed : Option (ℕ × Held) → Option (Init × Held)
failed none = none
failed (some (n, h)) = some (no_memory, h)

unfoldable pub scull_init_module :
    (scull_nr_devs scull_quantum scull_qset : ℕ)
    → (gives_region gives_memory : Bool) → Option (Init × Held)
unfolding scull_cleanup_module
scull_init_module scull_nr_devs scull_quantum scull_qset false gives_memory =
    some (no_region, nothing_held)
scull_init_module scull_nr_devs scull_quantum scull_qset true false =
    failed
      (scull_cleanup_module scull_quantum scull_qset (record { region = true; devices = none }))
scull_init_module scull_nr_devs scull_quantum scull_qset true true = some (
  loaded,
  record {
    region = true;
    devices = some (replicate scull_nr_devs (set_up scull_quantum scull_qset));
  },
)

abbrev pub Valids : List Dev → Type 0
Valids [] = Unit {0}
Valids (d ∷ ds) = IsValid d × Valids ds

-- The blocks of all devices.
abbrev pub all_blocks : List Dev → ℕ
all_blocks [] = 0
all_blocks (d ∷ ds) = blocks d.items + all_blocks ds

-- Nothing is held where loading fails; else the range and so many well-formed devices.
abbrev pub Loads : (scull_nr_devs : ℕ) → Option (Init × Held) → Type 0
Loads scull_nr_devs none = ⊥
Loads scull_nr_devs (some (no_region, h)) = h ≡ nothing_held
Loads scull_nr_devs (some (no_memory, h)) = h ≡ nothing_held
Loads scull_nr_devs (some (loaded, h)) =
    (ds : List Dev) × (h ≡ record { region = true; devices = some ds })
    × (length ds ≡ scull_nr_devs)
    × Valids ds
