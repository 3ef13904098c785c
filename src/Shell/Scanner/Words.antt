-- ===== src/Shell/Scanner/Words.antt =====
-- The matching loop of the scanner of 2/parseline.c on one word, operator or blank.
use linux_homework.Base.{
  ℕ, ◌<◌, ◌≡◌, Bool, true, false, not, ◌&&◌, ◌||◌, Bool-cases, inl, inr, Option, none, some, [],
  ◌∷◌, ◌++◌, zero, suc, arith, refl, get_elem?, ltb, ◌==◌, ap, ◌∙◌, append-nil, ◌⊎◌, append_assoc,
}
use linux_homework.Shell.{Token}
use linux_homework.Shell.Scanner.{
  yy_ec, meta, follow, next_state, Match, if_accepting, yy_match, none_before,
}

-- The characters of words.
abbrev pub is_separating : ℕ → Bool
is_separating c =
    c == 9 || c == 10 || c == 32 || c == 34 || c == 38 || c == 59 || c == 60 || c == 62 || c == 124

abbrev pub is_word : ℕ → Bool
is_word c = ltb 0 c && ltb c 256 && not (is_separating c)

abbrev all_below : ℕ → (ℕ → Bool) → Bool
all_below zero p = true
all_below (suc n) p = p n && all_below n p

all_below-lt : (n : ℕ) (p : ℕ → Bool) (c : ℕ) → all_below n p ≡ true → c < n → p c ≡ true
all_below-lt zero p c h lt = absurd (omega (arith, lt))
all_below-lt (suc n) p c h lt = elim (Bool-cases (c == n)) [
  | inl e ↦ let same : c ≡ n = ground (arith, e) in rw same (ground (arith, h))
  | inr ne ↦ all_below-lt n p c (ground (arith, h)) (ground (arith, ne, lt))
]

abbrev is_one : Option ℕ → Bool
is_one none = false
is_one (some k) = k == 1

is_one_lem : (o : Option ℕ) → is_one o ≡ true → o ≡ some 1
is_one_lem none h = cc
is_one_lem (some k) h = ap some (ground (arith, h))

abbrev words_only : ℕ → Bool
words_only c = not (is_word c) || is_one (get_elem? yy_ec c)

words_in_table : all_below 256 words_only ≡ true
words_in_table = refl

word_class : (c : ℕ) → is_word c ≡ true → get_elem? yy_ec c ≡ some 1
word_class c h = is_one_lem (get_elem? yy_ec c) (
    let small : c < 256 = ground (arith, h) in
    let here = all_below-lt 256 words_only c words_in_table small in ground (arith, h, here))

-- The states behind a word's first character and behind a later one.
abbrev InWord : ℕ → Type 0
InWord s = (s ≡ 8) ⊎ (s ≡ 17)

next_state-word : (s c : ℕ) → InWord s → is_word c ≡ true → next_state s c ≡ some 17
unfolding next_state follow meta
next_state-word s c (inl e) h = rw (e, word_class c h) refl
next_state-word s c (inr e) h = rw (e, word_class c h) refl

next_state-first : (c : ℕ) → is_word c ≡ true → next_state 1 c ≡ some 8
unfolding next_state follow meta
next_state-first c h = rw (word_class c h) refl

-- A character that ends a word.
abbrev pub Ends : ℕ → Type 0
Ends d = (next_state 8 d ≡ some 18) × (next_state 17 d ≡ some 18)

abbrev pub Word : Token → Type 0
Word [] = Unit {0}
Word (c ∷ w) = (is_word c ≡ true) × Word w

yy_match-end :
    (s d : ℕ) (before : Match) (text rest : Token)
    → InWord s
    → Ends d
    → yy_match s before text (d ∷ rest)
      ≡ some (record { act = 6; yytext = text; unread = d ∷ rest })
unfolding yy_match if_accepting
yy_match-end s d before text rest (inl e) (at8, at17) = rw (e, at8) refl
yy_match-end s d before text rest (inr e) (at8, at17) = rw (e, at17) refl

yy_match-in :
    (s c : ℕ) (before : Match) (text rest : Token)
    → InWord s
    → is_word c ≡ true
    → yy_match s before text (c ∷ rest)
      ≡ yy_match 17 (record { act = 6; yytext = text; unread = c ∷ rest }) (text ++ c ∷ []) rest
unfolding yy_match if_accepting
yy_match-in s c before text rest (inl e) h = rw (e, next_state-word 8 c (inl refl) h) refl
yy_match-in s c before text rest (inr e) h = rw (e, next_state-word 17 c (inr refl) h) refl

yy_match-going :
    (s d : ℕ) (w : Token) (before : Match) (text rest : Token)
    → InWord s
    → Word w
    → Ends d
    → yy_match s before text (w ++ d ∷ rest)
      ≡ some (record { act = 6; yytext = text ++ w; unread = d ∷ rest })
yy_match-going s d [] before text rest at v ends =
    rw (append-nil text) (yy_match-end s d before text rest at ends)
yy_match-going s d (c ∷ w) before text rest at (h, v) ends =
    yy_match-in s c before text (w ++ d ∷ rest) at h
    ∙ yy_match-going 17 d w _ (text ++ c ∷ []) rest (inr refl) v ends
    ∙ ap (λ t. some (record { act = 6; yytext = t; unread = d ∷ rest }))
        (append_assoc text (c ∷ []) w)

-- A word up to a character that ends it is matched whole, as rule 6.
pub yy_match-Word :
    (c d : ℕ) (w rest : Token)
    → is_word c ≡ true
    → Word w
    → Ends d
    → yy_match 1 none_before [] (c ∷ w ++ d ∷ rest)
      ≡ some (record { act = 6; yytext = c ∷ w; unread = d ∷ rest })
unfolding yy_match if_accepting
yy_match-Word c d w rest h v ends =
    rw (yy_match, next_state-first c h)
      (yy_match-going 8 d w none_before (c ∷ []) rest (inl refl) v ends)
