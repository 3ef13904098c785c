-- ===== src/Shell/Scanner/Tests.antt =====
-- Runs of the scanner of 2/parseline.c, and its theorem on a short line.
use linux_homework.Base.{◌+◌, ◌≡◌, ltb, length, if◌then◌else◌, List, [], ◌∷◌, ◌++◌, refl, arith}
use linux_homework.Shell.{Token, newline}
use linux_homework.Shell.Scanner.Cut.{cut, yylex-cut}
use linux_homework.Shell.Scanner.Lines.{WellFormed, written}
use linux_homework.Shell.Scanner.{
  lexed, failed, behind_tokens, unfinished, end_of_buffer, yylex, scan, yy_match, next_state,
  follow, meta, if_accepting, my_yyinput, act_on,
}
use linux_homework.Shell.Tokens.{Params, param, expand, expand_from, add_token, tokensz}

abbrev params : Params
params = record {
  pid = 52 ∷ 50 ∷ [];
  pos_param = λ i. 108 ∷ [];
  argc = 49 ∷ [];
  exit_status = 48 ∷ [];
}

-- `ls  $$>"w"`
abbrev a_line : Token
a_line = 108 ∷ 115 ∷ 32 ∷ 32 ∷ 36 ∷ 36 ∷ 62 ∷ 34 ∷ 119 ∷ 34 ∷ []

abbrev the_tokens : List Token
the_tokens = (108 ∷ 115 ∷ []) ∷ (52 ∷ 50 ∷ []) ∷ (62 ∷ []) ∷ (119 ∷ []) ∷ []

yylex-cut_example :
    WellFormed (cut a_line)
    × (written (cut a_line) [] ≡ a_line)
    × (yylex params (a_line ++ newline) (length (a_line ++ newline)) end_of_buffer ≡ (
        if ltb (length the_tokens + 1) tokensz
        then lexed (the_tokens ++ newline ∷ []) end_of_buffer
        else failed behind_tokens))
unfolding expand expand_from param
yylex-cut_example =
    yylex-cut params a_line the_tokens
      (refl, (refl, (refl, (refl, (refl, (refl, (refl, (refl, (refl, (refl, tt))))))))))
      (omega arith) (refl, (refl, (refl, (refl, refl))))

line_run :
    yylex params (a_line ++ newline) 11 end_of_buffer
    ≡ lexed (the_tokens ++ newline ∷ []) end_of_buffer
unfolding yylex scan yy_match next_state follow meta if_accepting my_yyinput act_on expand
    expand_from param add_token
line_run = refl

-- Without a newline, the line is read again and again.
endless_run : yylex params (108 ∷ []) 1 end_of_buffer ≡ unfinished
unfolding yylex scan yy_match next_state follow meta if_accepting my_yyinput act_on
endless_run = refl
