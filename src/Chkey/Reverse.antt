-- ===== src/Chkey/Reverse.antt =====
-- `-ws` and `-wc` of 1/chkey.c without a value, done twice.
use linux_homework.Base.{
  ℕ, ◌+◌, ◌/◌, ◌%◌, ◌≡◌, true, [], ◌∷◌, Option, none, some, refl, ap, sym, ◌∙◌, arith, append-nil,
}
use linux_homework.Text.{Text, ℤ, pos, negsuc, fgets_all, is_int, show_int}
use linux_homework.Text.Lines.{with_newline, fgets_from-line}
use linux_homework.Text.Print.{show_int-IsLine, length-show_int, atoi-show_int}
use linux_homework.Chkey.{
  read_file, flip, reverse, Switch, sysrq, ctrl_alt_del, shows, writes, write_sysrq, write_cad,
  by_option, with_files, Files, main,
}

-- A file that holds a number in a line.
abbrev pub holding : ℤ → Option Text
holding z = some (with_newline (show_int z))

read_file-holding :
    (buf : Text) (z : ℤ)
    → is_int z ≡ true
    → read_file buf (holding z) ≡ some (z, with_newline (show_int z))
unfolding read_file fgets_all
read_file-holding buf z small =
    let line : fgets_all 31 (with_newline (show_int z)) ≡ with_newline (show_int z) ∷ [] =
      ap (fgets_all 31) (sym (append-nil (with_newline (show_int z))))
      ∙ fgets_from-line 31 31 [] (show_int z) [] (show_int-IsLine z small)
          (omega (arith, length-show_int z)) in
    rw (line) (ap (λ n. some (n, with_newline (show_int z))) (atoi-show_int z (10 ∷ []) small refl))

flip-flip : (n : ℕ) → flip (flip n) ≡ n
flip-flip n = omega arith

reverse-reverse : (z : ℤ) → reverse (reverse z) ≡ z
unfolding reverse
reverse-reverse (pos n) = ap pos (flip-flip n)
reverse-reverse (negsuc n) = ap negsuc (flip-flip n)

is_int-reverse : (z : ℤ) → is_int z ≡ true → is_int (reverse z) ≡ true
unfolding is_int reverse
is_int-reverse (pos n) small = ground (arith, small)
is_int-reverse (negsuc n) small = ground (arith, small)

-- The lowest eight bits of one number are the complement of those of the other, and the rest is the
-- same; a negative number is `-1 - n`.
abbrev pub Complement : (m n : ℕ) → Type 0
Complement m n = (n / 256 ≡ m / 256) × (m % 256 + n % 256 ≡ 255)

abbrev pub Reversed : ℤ → ℤ → Type 0
Reversed (pos m) (pos n) = Complement m n
Reversed (negsuc m) (negsuc n) = Complement m n
Reversed (pos m) (negsuc n) = ⊥
Reversed (negsuc m) (pos n) = ⊥

Complement-flip : (n : ℕ) → Complement n (flip n)
Complement-flip n = (omega arith, omega arith)

reverse-Reversed : (z : ℤ) → Reversed z (reverse z)
unfolding reverse
reverse-Reversed (pos n) = Complement-flip n
reverse-Reversed (negsuc n) = Complement-flip n

-- `-rs`, `-rc`, `-ws` and `-wc`
abbrev pub letter : Switch → ℕ
letter sysrq = 115
letter ctrl_alt_del = 99

abbrev pub reading : Switch → Text
reading p = 45 ∷ 114 ∷ letter p ∷ []

abbrev pub writing : Switch → Text
writing p = 45 ∷ 119 ∷ letter p ∷ []

-- The files when the one holds `z` and the other `other`.
abbrev pub files : Switch → (z other : ℤ) → Files
files sysrq z other = record {
  sysrq_text = holding z;
  cad_text = holding other;
  writes_sysrq = true;
  writes_cad = true;
}
files ctrl_alt_del z other = record {
  sysrq_text = holding other;
  cad_text = holding z;
  writes_sysrq = true;
  writes_cad = true;
}

with_files-read :
    (arg : Text) (third : Option Text) (f : Files) (sysrq_value cad_value : ℤ) (buf buf' : Text)
    → read_file [] f.sysrq_text ≡ some (sysrq_value, buf)
    → read_file buf f.cad_text ≡ some (cad_value, buf')
    → with_files arg third f ≡ by_option arg third sysrq_value cad_value f.writes_sysrq f.writes_cad
unfolding with_files
with_files-read arg third f sysrq_value cad_value buf buf' first second =
    rw (first, with_files) (rw (second) refl)

-- With one argument, the two numbers decide.
main-holding :
    (arg : Text) (s c : ℤ)
    → is_int s ≡ true
    → is_int c ≡ true
    → main (arg ∷ []) (files sysrq s c) ≡ by_option arg none s c true true
unfolding main
main-holding arg s c small small' =
    with_files-read arg none (files sysrq s c) s c (with_newline (show_int s))
      (with_newline (show_int c)) (read_file-holding [] s small)
      (read_file-holding (with_newline (show_int s)) c small')

main-reading :
    (p : Switch) (z other : ℤ)
    → is_int z ≡ true
    → is_int other ≡ true
    → main (reading p ∷ []) (files p z other) ≡ shows p z
unfolding by_option
main-reading sysrq z other small small' = main-holding (reading sysrq) z other small small'
main-reading ctrl_alt_del z other small small' =
    main-holding (reading ctrl_alt_del) other z small' small

main-writing :
    (p : Switch) (z other : ℤ)
    → is_int z ≡ true
    → is_int other ≡ true
    → main (writing p ∷ []) (files p z other) ≡ writes p (reverse z)
unfolding by_option write_sysrq write_cad
main-writing sysrq z other small small' = main-holding (writing sysrq) z other small small'
main-writing ctrl_alt_del z other small small' =
    main-holding (writing ctrl_alt_del) other z small' small

-- With two files that can be written and hold each an `int` in a line: writing without a value
-- writes the number of the one that is named with its lowest eight bits reversed; with that number
-- in the file, reading shows it, and writing once more writes the first one.
pub main-reverses :
    (p : Switch) (z other : ℤ)
    → is_int z ≡ true
    → is_int other ≡ true
    → (r : ℤ) × Reversed z r
      × (main (writing p ∷ []) (files p z other) ≡ writes p r)
      × (main (reading p ∷ []) (files p r other) ≡ shows p r)
      × (main (writing p ∷ []) (files p r other) ≡ writes p z)
main-reverses p z other small small' =
    let small_reversed = is_int-reverse z small in
    (
      reverse z,
      reverse-Reversed z,
      main-writing p z other small small',
      main-reading p (reverse z) other small_reversed small',
      main-writing p (reverse z) other small_reversed small' ∙ ap (writes p) (reverse-reverse z),
    )
