-- ===== src/Shell/Redirect.antt =====
-- `scan_redirect` of 2/parseline.c against the grammar of a simple command.
use linux_homework.Base.{
  ℕ, ◌+◌, ◌<◌, ◌≤◌, ◌≡◌, Bool, true, false, List, [], ◌∷◌, ◌++◌, arith, refl, length, ltb, ap, ◌∙◌,
  lt→ltb,
}
use linux_homework.Shell.{
  Token, same, less, greater, Opened, input, output, scanned, overruns, argument, opening,
  scan_redirect,
}

-- The parts of a simple command.
pub data Part : Type 0 where
  word : Token → Part
  from : Token → Part
  to : Token → Part

abbrev pub tokens : List Part → List Token
tokens [] = []
tokens (word t ∷ ps) = t ∷ tokens ps
tokens (from f ∷ ps) = less ∷ f ∷ tokens ps
tokens (to f ∷ ps) = greater ∷ f ∷ tokens ps

abbrev pub words : List Part → List Token
words [] = []
words (word t ∷ ps) = t ∷ words ps
words (from f ∷ ps) = words ps
words (to f ∷ ps) = words ps

abbrev pub files : List Part → List Opened
files [] = []
files (word t ∷ ps) = files ps
files (from f ∷ ps) = input f ∷ files ps
files (to f ∷ ps) = output f ∷ files ps

-- The arguments are no redirections and fit into their blocks, and the files can be opened.
abbrev pub Scannable : (sizeof_ptr : ℕ) → (Opened → Bool) → List Part → Type 0
Scannable n can_open [] = Unit {0}
Scannable n can_open (word t ∷ ps) =
    (same t less ≡ false) × (same t greater ≡ false) × (length t ≤ n) × Scannable n can_open ps
Scannable n can_open (from f ∷ ps) = (can_open (input f) ≡ true) × Scannable n can_open ps
Scannable n can_open (to f ∷ ps) = (can_open (output f) ≡ true) × Scannable n can_open ps

fits : (n : ℕ) (t : Token) → length t ≤ n → ltb (n + 1) (length t + 1) ≡ false
fits n t h = ground arith

-- A word before anything.
scan_redirect-word :
    (n : ℕ) (can_open : Opened → Bool) (t : Token) (rest : List Token)
    → same t less ≡ false
    → same t greater ≡ false
    → length t ≤ n
    → scan_redirect n can_open (t ∷ rest) ≡ argument t (scan_redirect n can_open rest)
unfolding scan_redirect
scan_redirect-word n can_open t [] a b c = rw (a, b, fits n t c) refl
scan_redirect-word n can_open t (u ∷ rest) a b c = rw (a, b, fits n t c) refl

scan_redirect-from :
    (n : ℕ) (can_open : Opened → Bool) (f : Token) (rest : List Token)
    → can_open (input f) ≡ true
    → scan_redirect n can_open (less ∷ f ∷ rest) ≡ opening (input f) (scan_redirect n can_open rest)
unfolding scan_redirect same
scan_redirect-from n can_open f rest a = rw a refl

scan_redirect-to :
    (n : ℕ) (can_open : Opened → Bool) (f : Token) (rest : List Token)
    → can_open (output f) ≡ true
    → scan_redirect n can_open (greater ∷ f ∷ rest)
      ≡ opening (output f) (scan_redirect n can_open rest)
unfolding scan_redirect same
scan_redirect-to n can_open f rest a = rw a refl

-- A command whose files can be opened and whose words are no longer than a pointer's size is cut
-- into its words, in order, and the files of its redirections, opened from left to right.
pub scan_redirect-words :
    (n : ℕ) (can_open : Opened → Bool) (ps : List Part)
    → Scannable n can_open ps
    → scan_redirect n can_open (tokens ps) ≡ scanned (words ps) (files ps)
unfolding scan_redirect
scan_redirect-words n can_open [] v = refl
scan_redirect-words n can_open (word t ∷ ps) (a, b, c, v) =
    scan_redirect-word n can_open t (tokens ps) a b c
    ∙ ap (argument t) (scan_redirect-words n can_open ps v)
scan_redirect-words n can_open (from f ∷ ps) (a, v) =
    scan_redirect-from n can_open f (tokens ps) a
    ∙ ap (opening (input f)) (scan_redirect-words n can_open ps v)
scan_redirect-words n can_open (to f ∷ ps) (a, v) =
    scan_redirect-to n can_open f (tokens ps) a
    ∙ ap (opening (output f)) (scan_redirect-words n can_open ps v)

overrun :
    (n : ℕ) (can_open : Opened → Bool) (t : Token) (rest : List Token)
    → same t less ≡ false
    → same t greater ≡ false
    → n < length t
    → scan_redirect n can_open (t ∷ rest) ≡ overruns
unfolding scan_redirect
overrun n can_open t [] a b long =
    rw (a, b, lt→ltb (n + 1) (length t + 1) (omega (arith, long))) refl
overrun n can_open t (u ∷ rest) a b long =
    rw (a, b, lt→ltb (n + 1) (length t + 1) (omega (arith, long))) refl

-- Behind parts that scan well, a word longer than a pointer's size is copied beyond the block that
-- is allocated for it.
pub scan_redirect-overruns :
    (n : ℕ) (can_open : Opened → Bool) (ps : List Part) (t : Token) (rest : List Token)
    → Scannable n can_open ps
    → same t less ≡ false
    → same t greater ≡ false
    → n < length t
    → scan_redirect n can_open (tokens ps ++ t ∷ rest) ≡ overruns
scan_redirect-overruns n can_open [] t rest v x y long = overrun n can_open t rest x y long
scan_redirect-overruns n can_open (word w ∷ ps) t rest (a, b, c, v) x y long =
    scan_redirect-word n can_open w (tokens ps ++ t ∷ rest) a b c
    ∙ ap (argument w) (scan_redirect-overruns n can_open ps t rest v x y long)
scan_redirect-overruns n can_open (from f ∷ ps) t rest (a, v) x y long =
    scan_redirect-from n can_open f (tokens ps ++ t ∷ rest) a
    ∙ ap (opening (input f)) (scan_redirect-overruns n can_open ps t rest v x y long)
scan_redirect-overruns n can_open (to f ∷ ps) t rest (a, v) x y long =
    scan_redirect-to n can_open f (tokens ps ++ t ∷ rest) a
    ∙ ap (opening (output f)) (scan_redirect-overruns n can_open ps t rest v x y long)
