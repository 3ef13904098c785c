-- ===== src/Myproc/Parents.antt =====
-- `proc_read` of 4/m2/pm2.c: the parents of the current task and the list of tasks. A task is a
-- number, `init_task` is 0; `for_each_process` is a list. All is printed into one page of 4096
-- bytes.
use linux_homework.Base.{
  ℕ, zero, suc, ◌<◌, ◌≡◌, true, false, List, [], ◌∷◌, ◌++◌, map, ◌==◌, Option, none, some, refl,
  arith, ◌+◌, length, ltb, if◌then◌else◌,
}
use linux_homework.Text.{Text, ℤ, pos, show_int}
use linux_homework.Myproc.{c_string}

-- `struct task_struct`
pub record Task : Type 0 where
  pub pid : ℕ
  pub comm : Text
  pub parent : ℕ

-- What is printed: the value, ticks as a long and their rate; a task with its parent's number; a
-- task.
pub data Row : Type 0 where
  head : (value : Text) → (jiffies : ℤ) → (hz : ℕ) → Row
  parents_head tasks_head : Row
  child : (pid ppid : ℕ) → Text → Row
  task : (pid : ℕ) → Text → Row

-- How many bytes `sprintf` prints for a row; the titles are in UTF-8.
unfoldable pub printed_bytes : Row → ℕ
printed_bytes (head value jiffies hz) =
    length value + length (show_int jiffies) + 4 + length (show_int (pos hz)) + 1
printed_bytes parents_head = 30
printed_bytes tasks_head = 28
printed_bytes (child pid ppid comm) =
    length (show_int (pos pid)) + 1 + length (show_int (pos ppid)) + 2 + length comm + 2
printed_bytes (task pid comm) = length (show_int (pos pid)) + 2 + length comm + 2

-- `len` behind all rows.
abbrev pub all_bytes : List Row → ℕ
all_bytes [] = 0
all_bytes (r ∷ rs) = printed_bytes r + all_bytes rs

-- The rows in the page, or a write behind it, of the last NUL at least.
pub data Page : Type 0 where
  shown : List Row → Page
  overruns : Page

unfoldable pub page : List Row → Page
page rows = if ltb (all_bytes rows) 4096 then shown rows else overruns

module _ (tasks : ℕ → Task) where
  unfoldable pub child_row : ℕ → Row
  child_row t = child (tasks t).pid (tasks ((tasks t).parent)).pid (tasks t).comm

  abbrev pub task_row : ℕ → Row
  task_row t = task (tasks t).pid (tasks t).comm

  -- The loop up to `init_task`, and its row.
  unfoldable pub parents : (fuel : ℕ) → ℕ → Option (List Row)
  unfolding child_row
  parents zero t = none
  parents (suc fuel) t = elim (t == 0) [
    | true ↦ some (child_row t ∷ [])
    | false ↦ elim (parents fuel (tasks t).parent) [
      | none ↦ none
      | some rows ↦ some (child_row t ∷ rows)
    ]
  ]

  -- `none` also where `value` has no NUL.
  unfoldable pub proc_read :
      (fuel : ℕ)
      → (value : List ℕ) → (jiffies : ℤ) → (hz current : ℕ) → (queue : List ℕ) → Option Page
  unfolding parents page
  proc_read fuel value jiffies hz current queue = elim (c_string value) [
    | none ↦ none
    | some s ↦ elim (parents fuel current) [
      | none ↦ none
      | some rows ↦
          some (page (head s jiffies hz ∷ parents_head ∷ rows ++ tasks_head ∷ map task_row queue))
    ]
  ]

  -- A task, its parent, and so on up to `init_task`.
  pub data Line : ℕ → List ℕ → Type 0 where
    at_init : Line 0 (0 ∷ [])
    above : {t : ℕ} {ts : List ℕ} → (t == 0) ≡ false → Line (tasks t).parent ts → Line t (t ∷ ts)

  parents-step :
      (fuel t : ℕ) (ts : List ℕ)
      → (t == 0) ≡ false
      → parents fuel (tasks t).parent ≡ some (map child_row ts)
      → parents (suc fuel) t ≡ some (map child_row (t ∷ ts))
  unfolding parents
  parents-step fuel t ts other before = rw (other, before, parents) refl

  proc_read-rows :
      (fuel : ℕ) (value : List ℕ) (s : Text) (jiffies : ℤ) (hz current : ℕ) (queue : List ℕ)
      (rows : List Row)
      → c_string value ≡ some s
      → parents fuel current ≡ some rows
      → proc_read fuel value jiffies hz current queue
        ≡ some (page (head s jiffies hz ∷ parents_head ∷ rows ++ tasks_head ∷ map task_row queue))
  unfolding proc_read
  proc_read-rows fuel value s jiffies hz current queue rows terminated printed =
      rw (terminated, proc_read) (rw (printed) refl)

  -- What the file is to show of the tasks `ts`, each with its parent, and of the list.
  abbrev pub shows : (s : Text) → (jiffies : ℤ) → (hz : ℕ) → (ts queue : List ℕ) → List Row
  shows s jiffies hz ts queue =
      head s jiffies hz
        ∷ parents_head
        ∷ map (λ t. child (tasks t).pid (tasks ((tasks t).parent)).pid (tasks t).comm) ts
      ++ tasks_head ∷ map (λ t. task (tasks t).pid (tasks t).comm) queue

  module _ (depth : ℕ → ℕ)
      (deeper : (t : ℕ) → (t == 0) ≡ false → depth ((tasks t).parent) < depth t) where
    parents-Line :
        (fuel t : ℕ)
        → depth t < fuel
        → (ts : List ℕ) × Line t ts × (parents fuel t ≡ some (map child_row ts))
    unfolding parents
    parents-Line zero t enough = absurd (omega (arith, enough))
    parents-Line (suc fuel) zero enough = (0 ∷ [], at_init, refl)
    parents-Line (suc fuel) (suc u) enough =
        let other : (suc u == 0) ≡ false = ground arith in
        let (ts, line, before) =
          parents-Line fuel (tasks (suc u)).parent (omega (arith, enough, deeper (suc u) other)) in
        (suc u ∷ ts, above other line, parents-step fuel (suc u) ts other before)

    -- Where parents have a smaller depth, reading the file ends after as many steps as the current
    -- task is deep, and one, and shows the value, the tasks from the current one to `init_task`,
    -- each followed by its parent and with its parent's number, and then every task of the list,
    -- where these are fewer than 4096 bytes; else it writes behind the page.
    pub proc_read-Line :
        (value : List ℕ) (s : Text) (jiffies : ℤ) (hz current : ℕ) (queue : List ℕ)
        → c_string value ≡ some s
        → (ts : List ℕ) × Line current ts
          × (proc_read (suc (depth current)) value jiffies hz current queue
              ≡ some (
                  if ltb (all_bytes (shows s jiffies hz ts queue)) 4096
                  then shown (shows s jiffies hz ts queue)
                  else overruns))
    unfolding page child_row
    proc_read-Line value s jiffies hz current queue terminated =
        let (ts, line, printed) = parents-Line (suc (depth current)) current (omega arith) in
        (
          ts,
          line,
          proc_read-rows (suc (depth current)) value s jiffies hz current queue (map child_row ts)
              terminated printed,
        )
