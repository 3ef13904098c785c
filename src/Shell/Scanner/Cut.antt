-- ===== src/Shell/Scanner/Cut.antt =====
-- Every line is cut by the scanner of 2/parseline.c, in one way, into words, operators and blanks.
use linux_homework.Base.{
  ℕ, ◌+◌, ◌<◌, ◌≡◌, true, false, not, ◌&&◌, List, [], ◌∷◌, ◌++◌, arith, refl, ltb, length, ◌==◌,
  if◌then◌else◌, ap, sym, ◌∙◌, inl, inr, Bool-cases, length-append, append-nil,
}
use linux_homework.Shell.Tokens.{Params, tokensz}
use linux_homework.Shell.{Token, newline}
use linux_homework.Shell.Scanner.{
  yy_read_buf_size, lexed, failed, behind_tokens, end_of_buffer, yylex,
}
use linux_homework.Shell.Scanner.Words.{is_word}
use linux_homework.Shell.Scanner.Lines.{
  Lexeme, mark, gap, word, semi, left, right, pipe_mark, and_mark, space, tab, quote, written,
  WellFormed, Tokenized,
}
use linux_homework.Shell.Scanner.Lexes.{yylex-Tokenized}

-- The characters of a line: no NUL and no newline.
abbrev pub Plain : Token → Type 0
Plain [] = Unit {0}
Plain (c ∷ cs) = ((ltb 0 c && ltb c 256 && not (c == 10)) ≡ true) × Plain cs

abbrev separating : ℕ → Lexeme
separating c =
    if c == 59
    then mark semi
    else if c == 62
    then mark right
    else if c == 60
    then mark left
    else if c == 124
    then mark pipe_mark
    else if c == 38
    then mark and_mark
    else if c == 9
    then gap tab
    else if c == 34
    then gap quote
    else gap space

-- A character of a word in front of what is cut.
abbrev attach : ℕ → List Lexeme → List Lexeme
attach c (word d w ∷ ls) = word c (d ∷ w) ∷ ls
attach c (mark k ∷ ls) = word c [] ∷ mark k ∷ ls
attach c (gap g ∷ ls) = word c [] ∷ gap g ∷ ls
attach c [] = word c [] ∷ []

abbrev pub cut : Token → List Lexeme
cut [] = []
cut (c ∷ cs) = if is_word c then attach c (cut cs) else (separating c ∷ cut cs)

attach-WellFormed :
    (c : ℕ) (ls : List Lexeme) → is_word c ≡ true → WellFormed ls → WellFormed (attach c ls)
attach-WellFormed c [] h v = (h, tt, tt, tt)
attach-WellFormed c (mark k ∷ ls) h v = (h, tt, tt, v)
attach-WellFormed c (gap g ∷ ls) h v = (h, tt, tt, v)
attach-WellFormed c (word d w ∷ ls) h (first, more, apart, v) = (h, (first, more), apart, v)

written-attach : (c : ℕ) (ls : List Lexeme) (s : Token) → written (attach c ls) s ≡ c ∷ written ls s
written-attach c [] s = refl
written-attach c (mark k ∷ ls) s = refl
written-attach c (gap g ∷ ls) s = refl
written-attach c (word d w ∷ ls) s = refl

separating-WellFormed : (c : ℕ) (ls : List Lexeme) → WellFormed ls → WellFormed (separating c ∷ ls)
separating-WellFormed c ls v = ground (arith, v)

written-separating :
    (c : ℕ) (ls : List Lexeme) (s : Token)
    → is_word c ≡ false
    → (ltb 0 c && ltb c 256 && not (c == 10)) ≡ true
    → written (separating c ∷ ls) s ≡ c ∷ written ls s
written-separating c ls s h p = ground (arith, h, p)

cut-WellFormed : (text : Token) → WellFormed (cut text)
cut-WellFormed [] = tt
cut-WellFormed (c ∷ cs) = elim (Bool-cases (is_word c)) [
  | inl h ↦ rw h (attach-WellFormed c (cut cs) h (cut-WellFormed cs))
  | inr h ↦ rw h (separating-WellFormed c (cut cs) (cut-WellFormed cs))
]

written-cut : (text rest : Token) → Plain text → written (cut text) rest ≡ text ++ rest
written-cut [] rest p = refl
written-cut (c ∷ cs) rest (p, plain) = elim (Bool-cases (is_word c)) [
  | inl h ↦ rw h (written-attach c (cut cs) rest ∙ ap (λ v. c ∷ v) (written-cut cs rest plain))
  | inr h ↦
      rw h (written-separating c (cut cs) rest h p ∙ ap (λ v. c ∷ v) (written-cut cs rest plain))
]

-- A line without NUL characters, at most 8190 characters long and in front of its newline, is cut
-- into words, operators and blanks, no two words next to each other. If its words with their
-- parameters put in and its operators are `ts`, the tables of the scanner hand these and a newline
-- to `do_list_cmd` and leave the buffer used up, if they are fewer than the entries of `tokens`;
-- else the array is overrun.
pub yylex-cut :
    (ps : Params) (text : Token) (ts : List Token)
    → Plain text
    → length text + 1 < yy_read_buf_size
    → Tokenized ps (cut text) ts
    → WellFormed (cut text)
      × (written (cut text) [] ≡ text)
      × (yylex ps (text ++ newline) (length (text ++ newline)) end_of_buffer ≡ (
          if ltb (length ts + 1) tokensz
          then lexed (ts ++ newline ∷ []) end_of_buffer
          else failed behind_tokens))
yylex-cut ps text ts p lt k =
    let line = written-cut text newline p in
    (
      cut-WellFormed text,
      written-cut text [] p ∙ append-nil text,
      ap (λ l. yylex ps l (length l) end_of_buffer) (sym line)
          ∙ yylex-Tokenized ps (cut text) ts (cut-WellFormed text) k
              (rw line (omega (arith, lt, length-append text newline))),
    )
