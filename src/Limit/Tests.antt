-- ===== src/Limit/Tests.antt =====
-- Runs of 1/limit_proc.c.
use linux_homework.Base.{◌≡◌, [], ◌∷◌, refl}
use linux_homework.Limit.{file, directory, default_pm, buffer, main}
use linux_homework.Text.{pos, atol, skip_spaces, digits_from, fgets_all, fgets_from}

-- The number in the file is read; in place of the directory it is what the block of `malloc` held.
limit_runs :
    (main [] (file (51 ∷ 50 ∷ 10 ∷ [])) ≡ default_pm (pos 32))
    × (main (55 ∷ []) directory ≡ default_pm (pos 7))
unfolding main buffer atol skip_spaces digits_from fgets_all fgets_from
limit_runs = (refl, refl)
