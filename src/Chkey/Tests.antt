-- ===== src/Chkey/Tests.antt =====
-- Runs of 1/chkey.c, and its theorem at one of them.
use linux_homework.Base.{◌≡◌, true, false, some, [], ◌∷◌, refl}
use linux_homework.Text.{
  ℤ, pos, is_int, show_int, show_from, fgets_all, fgets_from, atoi, atol, digits_from, skip_spaces,
}
use linux_homework.Chkey.{
  read_file, digits_base, unsigned, strtol, parse, sysrq, ctrl_alt_del, shows, writes, null_file,
  write_cad, by_option, with_files, main,
}
use linux_homework.Chkey.Reverse.{Reversed, reading, writing, files, holding, main-reverses}

main-reverses_example :
    (r : ℤ) × Reversed (pos 438) r
    × (main (writing sysrq ∷ []) (files sysrq (pos 438) (pos 0)) ≡ writes sysrq r)
    × (main (reading sysrq ∷ []) (files sysrq r (pos 0)) ≡ shows sysrq r)
    × (main (writing sysrq ∷ []) (files sysrq r (pos 0)) ≡ writes sysrq (pos 438))
unfolding is_int
main-reverses_example = main-reverses sysrq (pos 438) (pos 0) refl refl

parse_run : parse (48 ∷ 120 ∷ 49 ∷ 70 ∷ []) ≡ pos 31
unfolding parse strtol unsigned digits_base skip_spaces
parse_run = refl

-- A file that cannot be written is noticed for sysrq, and for ctrl-alt-del it is not.
null_run :
    main (writing ctrl_alt_del ∷ []) (record {
      sysrq_text = holding (pos 1);
      cad_text = holding (pos 0);
      writes_sysrq = true;
      writes_cad = false;
    })
    ≡ null_file
unfolding main with_files by_option read_file write_cad fgets_all fgets_from show_int show_from
null_run = refl

-- An empty second file is taken for the first one.
stale_run :
    main (reading ctrl_alt_del ∷ []) (record {
      sysrq_text = holding (pos 1);
      cad_text = some [];
      writes_sysrq = true;
      writes_cad = true;
    })
    ≡ shows ctrl_alt_del (pos 1)
unfolding main with_files by_option read_file fgets_all fgets_from show_int show_from atoi atol
    digits_from skip_spaces
stale_run = refl
