-- ===== src/Myproc/Tree.antt =====
-- The entries below /proc after a module of 4/ has come and gone.
use linux_homework.Base.{◌≡◌, Bool, true, false, ◌&&◌, [], ◌∷◌, refl, ap, ◌∙◌}
use linux_homework.Text.{Text}
use linux_homework.Myproc.{
  Place, root, inside, same_text, same_place, Tree, Remove, Names, Init, no_dir, no_file, loaded,
  init_module, cleanup_module,
}

-- What is known of `remove_proc_entry`: it takes the entry of that name and place away, and leaves
-- those that differ.
abbrev pub Removes : Remove → Type 0
Removes remove =
    ((name : Text) (p : Place) → remove name p [] ≡ [])
    × ((name : Text) (p : Place) (t : Tree) → remove name p ((p, name) ∷ t) ≡ t)
    × ((name s : Text) (p q : Place) (t : Tree)
        → (same_place q p && same_text s name) ≡ false
        → remove name p ((q, s) ∷ t) ≡ (q, s) ∷ remove name p t)

-- No entry of this name is there.
abbrev pub Absent : Text → Place → Tree → Type 0
Absent name p [] = Unit {0}
Absent name p ((q, s) ∷ t) = ((same_place q p && same_text s name) ≡ false) × Absent name p t

module _ (remove : Remove) (removes : Removes remove) where
  remove-Absent : (name : Text) (p : Place) (t : Tree) → Absent name p t → remove name p t ≡ t
  remove-Absent name p [] absent = removes.0 name p
  remove-Absent name p ((q, s) ∷ t) (here, absent) =
      removes.2 name s p q t here ∙ ap (λ l. (q, s) ∷ l) (remove-Absent name p t absent)

  -- What the two calls of the kernel leave, and what the module's end makes of that.
  abbrev pub Leaves : Names → Tree → Init × Tree → Type 0
  Leaves n t (no_dir, u) = u ≡ t
  Leaves n t (no_file, u) = u ≡ (root, n.dir) ∷ t
  Leaves n t (loaded value, u) = cleanup_module remove n u ≡ t

  -- A module that is loaded and removed leaves the entries as they were. Where `init_module` fails
  -- without a directory it changes nothing; without a file it leaves the directory, if its name is
  -- not that of what is removed then and no entry of that name is at the root.
  pub init_module-Leaves :
      (n : Names) (makes_dir makes_file : Bool) (t : Tree)
      → same_text n.dir n.on_error ≡ false
      → Absent n.on_error root t
      → Leaves n t (init_module remove n makes_dir makes_file t)
  unfolding init_module cleanup_module
  init_module-Leaves n false makes_file t other absent = refl
  init_module-Leaves n true false t other absent =
      removes.2 n.on_error n.dir root root t other
      ∙ ap (λ l. (root, n.dir) ∷ l) (remove-Absent n.on_error root t absent)
  init_module-Leaves n true true t other absent =
      ap (remove n.dir root) (removes.1 n.file (inside n.dir) ((root, n.dir) ∷ t))
      ∙ removes.1 n.dir root t
