-- ===== src/Shell/Scanner/Lines.antt =====
-- The scanner of 2/parseline.c on a whole line.
use linux_homework.Base.{ℕ, ◌≡◌, true, some, List, [], ◌∷◌, ◌++◌, refl, ◌⊎◌, inl, inr}
use linux_homework.Shell.Tokens.{Params, expand, Added, added, too_many, behind_array, add_token}
use linux_homework.Shell.{Token, newline}
use linux_homework.Shell.Scanner.{
  next_state, follow, meta, if_accepting, yy_match, act_on, then_does, goes_on, exits,
  behind_tokens, Lexed, lexed, failed, none_before,
}
use linux_homework.Shell.Scanner.Words.{is_word, Word, yy_match-Word}

-- The operators, and the characters that separate words and are dropped.
pub data Mark : Type 0 where
  semi right left pipe_mark and_mark : Mark

pub data Gap : Type 0 where
  space tab quote : Gap

pub data Lexeme : Type 0 where
  mark : Mark → Lexeme
  gap : Gap → Lexeme
  word : (first : ℕ) → (more : Token) → Lexeme

abbrev pub mark_char : Mark → ℕ
mark_char semi = 59
mark_char right = 62
mark_char left = 60
mark_char pipe_mark = 124
mark_char and_mark = 38

abbrev pub gap_char : Gap → ℕ
gap_char space = 32
gap_char tab = 9
gap_char quote = 34

-- The text of a line, with what stands behind it.
abbrev pub written : List Lexeme → Token → Token
written [] rest = rest
written (mark k ∷ ls) rest = mark_char k ∷ written ls rest
written (gap g ∷ ls) rest = gap_char g ∷ written ls rest
written (word c w ∷ ls) rest = c ∷ (w ++ written ls rest)

-- No word stands directly behind a word.
abbrev pub Apart : List Lexeme → Type 0
Apart [] = Unit {0}
Apart (mark k ∷ ls) = Unit {0}
Apart (gap g ∷ ls) = Unit {0}
Apart (word c w ∷ ls) = ⊥

abbrev pub WellFormed : List Lexeme → Type 0
WellFormed [] = Unit {0}
WellFormed (mark k ∷ ls) = WellFormed ls
WellFormed (gap g ∷ ls) = WellFormed ls
WellFormed (word c w ∷ ls) = (is_word c ≡ true) × Word w × Apart ls × WellFormed ls

-- The tokens that a line is to give: its operators, and its words with their parameters put in.
abbrev pub Tokenized : Params → List Lexeme → List Token → Type 0
Tokenized ps [] ts = ts ≡ []
Tokenized ps (mark k ∷ ls) [] = ⊥
Tokenized ps (mark k ∷ ls) (t ∷ ts) = (t ≡ mark_char k ∷ []) × Tokenized ps ls ts
Tokenized ps (gap g ∷ ls) ts = Tokenized ps ls ts
Tokenized ps (word c w ∷ ls) [] = ⊥
Tokenized ps (word c w ∷ ls) (t ∷ ts) = (expand ps (c ∷ w) ≡ some t) × Tokenized ps ls ts

abbrev pub rule : Mark → ℕ
rule semi = 1
rule right = 2
rule left = 3
rule pipe_mark = 4
rule and_mark = 5

pub yy_match-mark :
    (k : Mark) (rest : Token)
    → yy_match 1 none_before [] (mark_char k ∷ rest)
      ≡ some (record { act = rule k; yytext = mark_char k ∷ []; unread = rest })
unfolding yy_match if_accepting next_state follow meta
yy_match-mark semi rest = refl
yy_match-mark right rest = refl
yy_match-mark left rest = refl
yy_match-mark pipe_mark rest = refl
yy_match-mark and_mark rest = refl

pub yy_match-gap :
    (g : Gap) (rest : Token)
    → yy_match 1 none_before [] (gap_char g ∷ rest)
      ≡ some (record { act = 8; yytext = gap_char g ∷ []; unread = rest })
unfolding yy_match if_accepting next_state follow meta
yy_match-gap space rest = refl
yy_match-gap tab rest = refl
yy_match-gap quote rest = refl

pub yy_match-newline :
    (rest : Token)
    → yy_match 1 none_before [] (10 ∷ rest)
      ≡ some (record { act = 7; yytext = newline; unread = rest })
unfolding yy_match if_accepting next_state follow meta
yy_match-newline rest = refl

pub yy_match-Apart :
    (c : ℕ) (w : Token) (ls : List Lexeme) (rest : Token)
    → is_word c ≡ true
    → Word w
    → Apart ls
    → yy_match 1 none_before [] (c ∷ (w ++ written ls (10 ∷ rest)))
      ≡ some (record { act = 6; yytext = c ∷ w; unread = written ls (10 ∷ rest) })
unfolding next_state follow meta
yy_match-Apart c w [] rest h v apart = yy_match-Word c 10 w rest h v (refl, refl)
yy_match-Apart c w (mark semi ∷ ls) rest h v apart = yy_match-Word c 59 w _ h v (refl, refl)
yy_match-Apart c w (mark right ∷ ls) rest h v apart = yy_match-Word c 62 w _ h v (refl, refl)
yy_match-Apart c w (mark left ∷ ls) rest h v apart = yy_match-Word c 60 w _ h v (refl, refl)
yy_match-Apart c w (mark pipe_mark ∷ ls) rest h v apart = yy_match-Word c 124 w _ h v (refl, refl)
yy_match-Apart c w (mark and_mark ∷ ls) rest h v apart = yy_match-Word c 38 w _ h v (refl, refl)
yy_match-Apart c w (gap space ∷ ls) rest h v apart = yy_match-Word c 32 w _ h v (refl, refl)
yy_match-Apart c w (gap tab ∷ ls) rest h v apart = yy_match-Word c 9 w _ h v (refl, refl)
yy_match-Apart c w (gap quote ∷ ls) rest h v apart = yy_match-Word c 34 w _ h v (refl, refl)
yy_match-Apart c w (word d x ∷ ls) rest h v apart = elim apart [ ]

pub act_on-mark :
    (ps : Params) (k : Mark) (tokens : List Token)
    → act_on ps (rule k) (mark_char k ∷ []) tokens
      ≡ then_does goes_on (add_token (mark_char k ∷ []) tokens)
unfolding act_on
act_on-mark ps semi tokens = refl
act_on-mark ps right tokens = refl
act_on-mark ps left tokens = refl
act_on-mark ps pipe_mark tokens = refl
act_on-mark ps and_mark tokens = refl

-- How `yylex` ends with the tokens that are stored.
abbrev pub stored : Token → Added → Lexed
stored unread (added ts) = lexed ts unread
stored unread too_many = failed exits
stored unread behind_array = failed behind_tokens

pub Added-cases :
    (a : Added) → ((ts : List Token) × (a ≡ added ts)) ⊎ ((a ≡ too_many) ⊎ (a ≡ behind_array))
Added-cases (added ts) = inl (ts, refl)
Added-cases too_many = inr (inl refl)
Added-cases behind_array = inr (inr refl)
