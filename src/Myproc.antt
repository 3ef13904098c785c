-- ===== src/Myproc.antt =====
-- The modules 4/m1/pm1.c, 4/m1/m11/pm11.c, 4/m2/pm2.c and 4/m3/pm3.c: a directory and a file below
-- /proc, and what reading and writing the file do. Texts are lists of character codes.
-- `copy_from_user`, `remove_proc_entry`, and whether the kernel makes an entry, are parameters.
pub mod Tree
pub mod Value
pub mod Parents
pub mod Loops
pub mod Jiffies
mod Tests
use linux_homework.Base.{
  ℕ, zero, suc, ◌+◌, ◌-◌, ◌*◌, ◌/◌, ◌%◌, Bool, true, false, ◌&&◌, not, List, [], ◌∷◌, ◌++◌, ltb,
  ◌==◌, if◌then◌else◌, set, drop, length, Option, none, some, replicate,
}
use linux_homework.Text.{Text, ℤ, signed, is_digit}

-- `MYDATA_LEN`
abbrev pub mydata_len : ℕ
mydata_len = 16

-- `copy_from_user(to, buffer, n)`, for the bytes that `to` has: those that it has then, and how
-- many are not copied.
abbrev pub Copy : Type 0
Copy = (to : List ℕ) → (n : ℕ) → List ℕ × ℕ

-- How a write ends: with a byte set in front of `value`, with -EFAULT or with a length, and
-- `value`.
pub data Write : Type 0 where
  before_value : Write
  efault : List ℕ → Write
  wrote : (len : ℕ) → List ℕ → Write

abbrev pub write_len : (count : ℕ) → ℕ
write_len count = if ltb mydata_len count then mydata_len else count

abbrev pub terminated : (len : ℕ) → List ℕ → Write
terminated zero value = before_value
terminated (suc n) value = wrote (suc n) (set value n 0)

-- `proc_write` of pm1.c, pm11.c and pm2.c.
unfoldable pub proc_write : Copy → (count : ℕ) → (value : List ℕ) → Write
proc_write copy_from_user count value =
    let len = write_len count in
    let (value', left) = copy_from_user value len in
    if left == 0 then terminated len value' else efault value'

-- The characters of `value` up to its NUL, as `%s` prints them: `none` if it has none.
unfoldable pub c_string : List ℕ → Option Text
c_string [] = none
c_string (zero ∷ cs) = some []
c_string (suc c ∷ cs) = elim (c_string cs) [ none ↦ none | some s ↦ some (suc c ∷ s) ]

-- `strcpy(mydata.value, "Ticks=")`
unfoldable pub ticks : List ℕ → List ℕ
ticks value = 84 ∷ 105 ∷ 99 ∷ 107 ∷ 115 ∷ 61 ∷ 0 ∷ drop 7 value

-- What the entries below /proc are: their names at the root or in a directory there.
pub data Place : Type 0 where
  root : Place
  inside : Text → Place

abbrev pub same_text : Text → Text → Bool
same_text [] [] = true
same_text [] (d ∷ t) = false
same_text (c ∷ s) [] = false
same_text (c ∷ s) (d ∷ t) = (c == d) && same_text s t

abbrev pub same_place : Place → Place → Bool
same_place root root = true
same_place root (inside t) = false
same_place (inside s) root = false
same_place (inside s) (inside t) = same_text s t

abbrev pub Tree : Type 0
Tree = List (Place × Text)

-- `remove_proc_entry(name, parent)`
abbrev pub Remove : Type 0
Remove = Text → Place → Tree → Tree

-- The names that a module uses: of its directory and its file, and of what it removes when there
-- is no file; and whether it sets `mydata.value`.
pub record Names : Type 0 where
  pub dir : Text
  pub file : Text
  pub on_error : Text
  pub sets_value : Bool

abbrev pub pm1 : Names
pm1 = record {
  dir = 112 ∷ 109 ∷ 49 ∷ 100 ∷ 105 ∷ 114 ∷ [];
  file = 112 ∷ 109 ∷ 49 ∷ 102 ∷ 105 ∷ 108 ∷ 101 ∷ [];
  on_error = 112 ∷ 109 ∷ 49 ∷ 102 ∷ 105 ∷ 108 ∷ 101 ∷ [];
  sets_value = true;
}

abbrev pub pm11 : Names
pm11 = record {
  dir = 112 ∷ 109 ∷ 49 ∷ 49 ∷ 100 ∷ 105 ∷ 114 ∷ [];
  file = 112 ∷ 109 ∷ 49 ∷ 49 ∷ 102 ∷ 105 ∷ 108 ∷ 101 ∷ [];
  on_error = 112 ∷ 109 ∷ 49 ∷ 49 ∷ 102 ∷ 105 ∷ 108 ∷ 101 ∷ [];
  sets_value = false;
}

abbrev pub pm2 : Names
pm2 = record {
  dir = 112 ∷ 109 ∷ 50 ∷ 100 ∷ 105 ∷ 114 ∷ [];
  file = 112 ∷ 109 ∷ 50 ∷ 102 ∷ 105 ∷ 108 ∷ 101 ∷ [];
  on_error = 109 ∷ 121 ∷ 102 ∷ 105 ∷ 108 ∷ 101 ∷ [];
  sets_value = true;
}

abbrev pub pm3 : Names
pm3 = record {
  dir = 112 ∷ 109 ∷ 51 ∷ 100 ∷ 105 ∷ 114 ∷ [];
  file = 112 ∷ 109 ∷ 51 ∷ 102 ∷ 105 ∷ 108 ∷ 101 ∷ [];
  on_error = 112 ∷ 109 ∷ 51 ∷ 102 ∷ 105 ∷ 108 ∷ 101 ∷ [];
  sets_value = true;
}

-- How `init_module` ends: return -1, -ENOMEM or 0, and the `value` then.
pub data Init : Type 0 where
  no_dir no_file : Init
  loaded : (value : List ℕ) → Init

module _ (remove_proc_entry : Remove) where
  -- With whether the kernel makes the directory and the file. `mydata` is 0 before.
  unfoldable pub init_module : Names → (makes_dir makes_file : Bool) → Tree → Init × Tree
  init_module n false makes_file t = (no_dir, t)
  init_module n true false t = (no_file, remove_proc_entry n.on_error root ((root, n.dir) ∷ t))
  init_module n true true t = (
    loaded (if n.sets_value then ticks (replicate mydata_len 0) else replicate mydata_len 0),
    (inside n.dir, n.file) ∷ (root, n.dir) ∷ t,
  )

  unfoldable pub cleanup_module : Names → Tree → Tree
  cleanup_module n t = remove_proc_entry n.dir root (remove_proc_entry n.file (inside n.dir) t)

  -- `init_module` and `cleanup_module` of the other three files.
  abbrev pub pm11_init_module : (makes_dir makes_file : Bool) → Tree → Init × Tree
  pm11_init_module = init_module pm11

  abbrev pub pm11_cleanup_module : Tree → Tree
  pm11_cleanup_module = cleanup_module pm11

  abbrev pub pm2_init_module : (makes_dir makes_file : Bool) → Tree → Init × Tree
  pm2_init_module = init_module pm2

  abbrev pub pm2_cleanup_module : Tree → Tree
  pm2_cleanup_module = cleanup_module pm2

  abbrev pub pm3_init_module : (makes_dir makes_file : Bool) → Tree → Init × Tree
  pm3_init_module = init_module pm3

  abbrev pub pm3_cleanup_module : Tree → Tree
  pm3_cleanup_module = cleanup_module pm3
