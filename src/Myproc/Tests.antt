-- ===== src/Myproc/Tests.antt =====
-- Runs of the modules of 4/, and their theorems at small inputs.
use linux_homework.Base.{
  ℕ, ◌-◌, ◌≡◌, true, false, ◌&&◌, if◌then◌else◌, ltb, List, [], ◌∷◌, ◌++◌, take, drop, replicate,
  some, refl, arith,
}
use linux_homework.Text.{Text, pos, show_hex, show_hex_from}
use linux_homework.Myproc.Jiffies.{pm1_read}
use linux_homework.Myproc.{
  pm1, pm2, Place, root, inside, Tree, same_text, same_place, init_module, wrote, before_value,
  efault, write_len, proc_write, c_string, Copy,
}
use linux_homework.Myproc.Tree.{Removes, Leaves, init_module-Leaves}
use linux_homework.Myproc.Value.{Copies, until_nul, Holds, proc_write-Holds}
use linux_homework.Myproc.Parents.{
  Task, all_bytes, shown, overruns, shows, Line, proc_read, proc_read-Line,
}
use linux_homework.Myproc.Loops.{load_int, load_frac, read_loops, loadavg}

-- The first entry of that name and place.
abbrev remove_first : Text → Place → Tree → Tree
remove_first name p [] = []
remove_first name p ((q, s) ∷ t) =
    if same_place q p && same_text s name then t else (q, s) ∷ remove_first name p t

same_text_self : (s : Text) → same_text s s ≡ true
same_text_self [] = refl
same_text_self (c ∷ s) = ground (arith, same_text_self s)

same_place_self : (p : Place) → same_place p p ≡ true
same_place_self root = refl
same_place_self (inside s) = same_text_self s

remove_first-Removes : Removes remove_first
remove_first-Removes = (
  λ name p. refl,
  λ name p t. rw (same_place_self p, same_text_self name) refl,
  λ name s p q t other. rw (other) refl,
)

init_module-Leaves_example :
    Leaves remove_first remove_first-Removes pm1 [] (init_module remove_first pm1 true true [])
init_module-Leaves_example =
    init_module-Leaves remove_first remove_first-Removes pm1 true true [] refl tt

-- Without its file a module leaves its directory, and pm2.c takes away another's `myfile`.
leak_run :
    (init_module remove_first pm2 true false ((root, pm2.on_error) ∷ [])).1 ≡ (root, pm2.dir) ∷ []
unfolding init_module
leak_run = refl

-- `abc` and a newline.
abbrev abc : Text
abc = 97 ∷ 98 ∷ 99 ∷ 10 ∷ []

abbrev copy_abc : Copy
copy_abc to n = (take n abc ++ drop n to, 0)

copy_abc-Copies : Copies abc copy_abc
copy_abc-Copies to n there = refl

proc_write-Holds_example :
    (value' : List ℕ) × (proc_write copy_abc 4 (replicate 16 0) ≡ wrote (write_len 4) value')
    × Holds (until_nul (take (write_len 4 - 1) abc)) value'
proc_write-Holds_example =
    proc_write-Holds abc copy_abc 4 (replicate 16 0) copy_abc-Copies refl (omega arith)
      (omega arith)

-- Writing nothing sets the byte in front of the value.
empty_run : proc_write copy_abc 0 (replicate 16 0) ≡ before_value
unfolding proc_write
empty_run = refl

fault_run : proc_write (λ to n. (to, n)) 4 (replicate 16 0) ≡ efault (replicate 16 0)
unfolding proc_write
fault_run = refl

-- Task 2 below task 1 below `init_task`.
abbrev tasks : ℕ → Task
tasks t = record { pid = t; comm = []; parent = t - 1 }

proc_read-Line_example :
    (ts : List ℕ) × Line tasks 2 ts
    × (proc_read tasks 3 (84 ∷ 0 ∷ []) (pos 1000) 250 2 (1 ∷ 2 ∷ [])
        ≡ some (
            if ltb (all_bytes (shows tasks (84 ∷ []) (pos 1000) 250 ts (1 ∷ 2 ∷ []))) 4096
            then shown (shows tasks (84 ∷ []) (pos 1000) 250 ts (1 ∷ 2 ∷ []))
            else overruns))
unfolding c_string
proc_read-Line_example =
    proc_read-Line tasks (λ t. t) (λ t other. ground (arith, other)) (84 ∷ 0 ∷ []) (84 ∷ [])
      (pos 1000) 250 2 (1 ∷ 2 ∷ []) refl

-- A load of 1.5 in the 11 bits behind the point that Linux has.
load_run : read_loops 11 250 0 (3072 ∷ []) 0 ≡ loadavg ((1, 50) ∷ [])
unfolding read_loops load_int load_frac
load_run = refl

-- `0x000000ff`
jiffies_run : (pm1_read 255).text ≡ 48 ∷ 120 ∷ 48 ∷ 48 ∷ 48 ∷ 48 ∷ 48 ∷ 48 ∷ 102 ∷ 102 ∷ 10 ∷ []
unfolding pm1_read show_hex show_hex_from
jiffies_run = refl
