-- ===== src/Observer/Lines.antt =====
-- What `do_part_C` of 1/observer.c prints of a file with the lines that the kernel writes. The
-- buffer holds 80 characters, so that a longer line is read in parts.
use linux_homework.Base.{
  ℕ, suc, ◌+◌, ◌^◌, ◌≤◌, ◌<◌, ◌≡◌, false, some, List, [], ◌∷◌, ◌++◌, map, leb, length, refl, ap,
  ◌∙◌, sym, arith, append-nil, append_assoc,
}
use linux_homework.Text.{Text, pos, fgets_from, fgets_all, starts_with, strtok_all}
use linux_homework.Text.Lines.{
  concat, with_newline, IsLine, IsSolid, IsWord, Words, spaced, fgets_from-line, fgets_from-full,
  strtok_all-words,
}
use linux_homework.Text.Numbers.{Digits, value, atoi-value}
use linux_homework.Observer.Status.{
  Printed, cpu, ctxt, processes, procs_running, procs_blocked, sampled, also, kind, other, four,
  tokens, first_words, stat_from, do_part_c,
}

pub data Counter : Type 0 where
  switches forks running blocked : Counter

-- `ctxt`, `processes`, `procs_running` and `procs_blocked`
abbrev pub key : Counter → Text
key switches = 99 ∷ 116 ∷ 120 ∷ 116 ∷ []
key forks = 112 ∷ 114 ∷ 111 ∷ 99 ∷ 101 ∷ 115 ∷ 115 ∷ 101 ∷ 115 ∷ []
key running = 112 ∷ 114 ∷ 111 ∷ 99 ∷ 115 ∷ 95 ∷ 114 ∷ 117 ∷ 110 ∷ 110 ∷ 105 ∷ 110 ∷ 103 ∷ []
key blocked = 112 ∷ 114 ∷ 111 ∷ 99 ∷ 115 ∷ 95 ∷ 98 ∷ 108 ∷ 111 ∷ 99 ∷ 107 ∷ 101 ∷ 100 ∷ []

-- `cpu`
abbrev pub cpu_name : Text
cpu_name = 99 ∷ 112 ∷ 117 ∷ []

-- A line of a processor with its name behind `cpu` and five numbers or more, of a counter with the
-- digits of its number, or another one; and 80 characters of a line that goes on behind them.
pub data Entry : Type 0 where
  processor : (name a b c d e : Text) → (more : List Text) → Entry
  counter : Counter → (d : ℕ) → (ds : Text) → Entry
  noise part : Text → Entry

abbrev pub render : Entry → Text
render (processor name a b c d e more) = (cpu_name ++ name) ++ spaced (a ∷ b ∷ c ∷ d ∷ e ∷ more)
render (counter k d ds) = key k ++ 32 ∷ d ∷ ds
render (noise s) = s
render (part s) = s

-- With the newline that ends a line.
abbrev pub whole : Entry → Text
whole (processor name a b c d e more) = with_newline (render (processor name a b c d e more))
whole (counter k d ds) = with_newline (render (counter k d ds))
whole (noise s) = with_newline s
whole (part s) = s

abbrev pub Line : Text → Type 0
Line s = IsLine s × (length s < 80)

abbrev pub Fitting : Entry → Type 0
Fitting (processor name a b c d e more) = Line (render (processor name a b c d e more))
Fitting (counter k d ds) = Line (render (counter k d ds))
Fitting (noise s) = Line s
Fitting (part s) = IsLine s × (length s ≡ 80)

abbrev pub Fittings : List Entry → Type 0
Fittings [] = Unit {0}
Fittings (e ∷ es) = Fitting e × Fittings es

fgets_from-whole :
    (e : Entry) (file : Text)
    → Fitting e
    → fgets_from 80 80 [] (whole e ++ file) ≡ whole e ∷ fgets_from 80 80 [] file
fgets_from-whole (processor name a b c d e more) file (line, fits) =
    fgets_from-line 80 80 [] (render (processor name a b c d e more)) file line fits
fgets_from-whole (counter k d ds) file (line, fits) =
    fgets_from-line 80 80 [] (render (counter k d ds)) file line fits
fgets_from-whole (noise s) file (line, fits) = fgets_from-line 80 80 [] s file line fits
fgets_from-whole (part s) file (line, full) =
    fgets_from-full 80 80 [] s file line full (omega arith)

fgets_all-whole :
    (es : List Entry) → Fittings es → fgets_all 80 (concat (map whole es)) ≡ map whole es
unfolding fgets_all fgets_from
fgets_all-whole [] fit = refl
fgets_all-whole (e ∷ es) (here, fit) =
    fgets_from-whole e (concat (map whole es)) here ∙ ap (λ l. whole e ∷ l) (fgets_all-whole es fit)

-- At most 15 words, numbers that an `int` can hold, and no other line with one of the beginnings.
abbrev pub Proper : Entry → Type 0
Proper (processor name a b c d e more) =
    IsSolid name × Words (a ∷ b ∷ c ∷ d ∷ e ∷ more) × (length more ≤ 9)
Proper (counter k d ds) = Digits (d ∷ ds) × (value (d ∷ ds) < 2 ^ 31)
Proper (noise s) = kind (with_newline s) ≡ other
Proper (part s) = kind s ≡ other

abbrev pub Propers : List Entry → Type 0
Propers [] = Unit {0}
Propers (e ∷ es) = Proper e × Propers es

abbrev pub print_counter : Counter → ℕ → Printed
print_counter switches n = ctxt (pos n)
print_counter forks n = processes (pos n)
print_counter running n = procs_running (pos n)
print_counter blocked n = procs_blocked (pos n)

-- What is to be printed, the processors numbered from the first line on.
abbrev pub expected : (cpus : ℕ) → List Entry → List Printed
expected cpus [] = []
expected cpus (processor name a b c d e more ∷ es) = cpu cpus a b c d ∷ expected (cpus + 1) es
expected cpus (counter k d ds ∷ es) = print_counter k (value (d ∷ ds)) ∷ expected cpus es
expected cpus (noise s ∷ es) = expected cpus es
expected cpus (part s ∷ es) = expected cpus es

-- The words, with the newline at the last one.
abbrev end_newline : Text → List Text → List Text
end_newline w [] = with_newline w ∷ []
end_newline w (v ∷ vs) = w ∷ end_newline v vs

spaced-newline :
    (w : Text) (ws : List Text) → spaced (w ∷ ws) ++ 10 ∷ [] ≡ spaced (end_newline w ws)
spaced-newline w [] =
    ap (λ l. 32 ∷ l) (append_assoc w [] (10 ∷ []) ∙ sym (append-nil (with_newline w)))
spaced-newline w (v ∷ vs) =
    ap (λ l. 32 ∷ l)
      (append_assoc w (spaced (v ∷ vs)) (10 ∷ []) ∙ ap (λ l. w ++ l) (spaced-newline v vs))

newline-IsSolid : (w : Text) → IsSolid w → IsSolid (with_newline w)
newline-IsSolid [] solid = (refl, tt)
newline-IsSolid (c ∷ w) (dark, solid) = (dark, newline-IsSolid w solid)

newline-IsWord : (w : Text) → IsWord w → IsWord (with_newline w)
newline-IsWord [] word = elim word [ ]
newline-IsWord (c ∷ w) word = newline-IsSolid (c ∷ w) word

end_newline-Words : (w : Text) (ws : List Text) → Words (w ∷ ws) → Words (end_newline w ws)
end_newline-Words w [] (word, words) = (newline-IsWord w word, tt)
end_newline-Words w (v ∷ vs) (word, words) = (word, end_newline-Words v vs words)

length-end_newline : (w : Text) (ws : List Text) → length (end_newline w ws) ≡ suc (length ws)
length-end_newline w [] = refl
length-end_newline w (v ∷ vs) = ap suc (length-end_newline v vs)

first_words-end_newline :
    (n a b c d e : Text) (more : List Text)
    → first_words (n ∷ a ∷ b ∷ c ∷ d ∷ end_newline e more) ≡ four a b c d
first_words-end_newline n a b c d e more = refl

tokens-processor :
    (name a b c d e : Text) (more : List Text)
    → Proper (processor name a b c d e more)
    → tokens (with_newline (render (processor name a b c d e more))) ≡ four a b c d
unfolding tokens
tokens-processor name a b c d e more (solid, (aw, (bw, (cw, (dw, words)))), few) =
    let ws = a ∷ b ∷ c ∷ d ∷ end_newline e more in
    let cut : strtok_all (with_newline (render (processor name a b c d e more)))
        ≡ (cpu_name ++ name) ∷ ws =
      ap strtok_all (
        append_assoc (cpu_name ++ name) (spaced (a ∷ b ∷ c ∷ d ∷ e ∷ more)) (10 ∷ [])
        ∙ ap (λ l. (cpu_name ++ name) ++ l) (spaced-newline a (b ∷ c ∷ d ∷ e ∷ more)))
      ∙ strtok_all-words (cpu_name ++ name) ws (refl, (refl, (refl, solid)))
          (aw, (bw, (cw, (dw, end_newline-Words e more words)))) in
    let fits : leb 16 (length ((cpu_name ++ name) ∷ ws)) ≡ false =
      ground (arith, few, length-end_newline e more) in
    rw (cut, fits) refl

stat_from-counter :
    (k : Counter) (d : ℕ) (ds : Text) (cpus : ℕ) (ls : List Text)
    → Proper (counter k d ds)
    → stat_from cpus (with_newline (render (counter k d ds)) ∷ ls)
      ≡ also (print_counter k (value (d ∷ ds))) (stat_from cpus ls)
unfolding stat_from kind starts_with
stat_from-counter switches d ds cpus ls ((digit, digits), small) =
    ap (λ n. also (ctxt n) (stat_from cpus ls)) (atoi-value d ds (10 ∷ []) digit digits refl small)
stat_from-counter forks d ds cpus ls ((digit, digits), small) =
    ap (λ n. also (processes n) (stat_from cpus ls))
      (atoi-value d ds (10 ∷ []) digit digits refl small)
stat_from-counter running d ds cpus ls ((digit, digits), small) =
    ap (λ n. also (procs_running n) (stat_from cpus ls))
      (atoi-value d ds (10 ∷ []) digit digits refl small)
stat_from-counter blocked d ds cpus ls ((digit, digits), small) =
    ap (λ n. also (procs_blocked n) (stat_from cpus ls))
      (atoi-value d ds (10 ∷ []) digit digits refl small)

stat_from-expected :
    (cpus : ℕ) (es : List Entry)
    → Propers es
    → stat_from cpus (map whole es) ≡ sampled (expected cpus es)
unfolding stat_from kind starts_with also
stat_from-expected cpus [] proper = refl
stat_from-expected cpus (processor name a b c d e more ∷ es) (here, proper) =
    rw (stat_from, kind, tokens-processor name a b c d e more here)
      (ap (also (cpu cpus a b c d)) (stat_from-expected (cpus + 1) es proper))
stat_from-expected cpus (counter k d ds ∷ es) (here, proper) =
    stat_from-counter k d ds cpus (map whole es) here
    ∙ ap (also (print_counter k (value (d ∷ ds)))) (stat_from-expected cpus es proper)
stat_from-expected cpus (noise s ∷ es) (here, proper) =
    rw (stat_from, here) (stat_from-expected cpus es proper)
stat_from-expected cpus (part s ∷ es) (here, proper) =
    rw (stat_from, here) (stat_from-expected cpus es proper)

-- Part C prints the first four numbers of each processor, in order, and the four counters, where
-- their lines fit into the buffer, the counters are below 2^31 and no processor's line has more
-- than 15 words. Other lines are left out, those that do not fit as well, as long as no part of
-- them that is read begins like a line of a processor or a counter.
pub do_part_c-expected :
    (es : List Entry)
    → Propers es
    → Fittings es
    → do_part_c (some (concat (map whole es))) ≡ sampled (expected 0 es)
unfolding do_part_c
do_part_c-expected es proper fit =
    ap (stat_from 0) (fgets_all-whole es fit) ∙ stat_from-expected 0 es proper
