-- ===== src/Shell/Scanner/Lexes.antt =====
-- `yylex` of 2/parseline.c on a whole line: the tokens that it hands to `do_list_cmd`.
use linux_homework.Base.{
  ℕ, ◌+◌, ◌<◌, ◌≤◌, ◌≡◌, true, false, some, List, [], ◌∷◌, ◌++◌, zero, suc, arith, refl, ltb,
  length, if◌then◌else◌, ap, ◌∙◌, append_assoc, inl, inr, Bool-cases, length-append,
}
use linux_homework.Shell.Expand.{add_tokens_lem}
use linux_homework.Shell.Tokens.{Params, expand, add_token, add_tokens, tokensz}
use linux_homework.Shell.{Token, newline}
use linux_homework.Shell.Scanner.{
  next_state, follow, meta, yy_match, if_accepting, my_yyinput, yy_read_buf_size, act_on, Lexed,
  lexed, failed, behind_tokens, end_of_buffer, none_before, scan, yylex, then_does, goes_on,
}
use linux_homework.Shell.Scanner.Lines.{
  Lexeme, mark, gap, Gap, word, mark_char, gap_char, written, WellFormed, Tokenized, rule,
  yy_match-mark, yy_match-gap, yy_match-newline, yy_match-Apart, act_on-mark, stored, Added-cases,
}

module _ (ps : Params) (line_buf : Token) (line_len : ℕ) where
  -- A token that is added in front of the rest of the line.
  scan-added :
      (fuel : ℕ) (t rest text : Token) (ts tokens : List Token) (act : ℕ) (matched : Token)
      → yy_match 1 none_before [] text
        ≡ some (record { act = act; yytext = matched; unread = rest })
      → act_on ps act matched tokens ≡ then_does goes_on (add_token t tokens)
      → ((tokens' : List Token)
          → scan ps line_buf line_len fuel tokens' rest
            ≡ stored end_of_buffer (add_tokens (ts ++ newline ∷ []) tokens'))
      → scan ps line_buf line_len (suc fuel) tokens text
        ≡ stored end_of_buffer (add_tokens (t ∷ (ts ++ newline ∷ [])) tokens)
  unfolding scan add_tokens
  scan-added fuel t rest text ts tokens act matched m a again =
      elim (Added-cases (add_token t tokens)) [
        | inl (tokens', e) ↦ rw (scan, m, a, add_tokens, e) (again tokens')
        | inr (inl e) ↦ rw (scan, m, a, add_tokens, e) refl
        | inr (inr e) ↦ rw (scan, m, a, add_tokens, e) refl
      ]

  scan-end :
      (fuel : ℕ) (tokens : List Token)
      → scan ps line_buf line_len (suc fuel) tokens (10 ∷ end_of_buffer)
        ≡ stored end_of_buffer (add_tokens (newline ∷ []) tokens)
  unfolding scan add_tokens act_on
  scan-end fuel tokens = elim (Added-cases (add_token newline tokens)) [
    | inl (tokens', e) ↦ rw (scan, yy_match-newline end_of_buffer, add_tokens, e) refl
    | inr (inl e) ↦ rw (scan, yy_match-newline end_of_buffer, add_tokens, e) refl
    | inr (inr e) ↦ rw (scan, yy_match-newline end_of_buffer, add_tokens, e) refl
  ]

  act_on-word :
      (matched t : Token) (tokens : List Token)
      → expand ps matched ≡ some t
      → act_on ps 6 matched tokens ≡ then_does goes_on (add_token t tokens)
  unfolding act_on
  act_on-word matched t tokens e = rw e refl

  scan-gap :
      (fuel : ℕ) (g : Gap) (tokens : List Token) (rest : Token)
      → scan ps line_buf line_len (suc fuel) tokens (gap_char g ∷ rest)
        ≡ scan ps line_buf line_len fuel tokens rest
  unfolding scan act_on
  scan-gap fuel g tokens rest = rw (scan, yy_match-gap g rest) refl

  scan-Tokenized :
      (fuel : ℕ) (ls : List Lexeme) (ts tokens : List Token)
      → length ls < fuel
      → WellFormed ls
      → Tokenized ps ls ts
      → scan ps line_buf line_len fuel tokens (written ls (10 ∷ end_of_buffer))
        ≡ stored end_of_buffer (add_tokens (ts ++ newline ∷ []) tokens)
  unfolding scan
  scan-Tokenized zero ls ts tokens lt v k = absurd (omega (arith, lt))
  scan-Tokenized (suc fuel) [] ts tokens lt v k = rw k (scan-end fuel tokens)
  scan-Tokenized (suc fuel) (mark o ∷ ls) [] tokens lt v k = elim k [ ]
  scan-Tokenized (suc fuel) (mark o ∷ ls) (t ∷ ts) tokens lt v (e, k) =
      scan-added fuel t (written ls (10 ∷ end_of_buffer)) _ ts tokens (rule o) (mark_char o ∷ [])
        (yy_match-mark o _) (rw e (act_on-mark ps o tokens))
        (λ tokens'. scan-Tokenized fuel ls ts tokens' (omega (arith, lt)) v k)
  scan-Tokenized (suc fuel) (gap g ∷ ls) ts tokens lt v k =
      scan-gap fuel g tokens (written ls (10 ∷ end_of_buffer))
      ∙ scan-Tokenized fuel ls ts tokens (omega (arith, lt)) v k
  scan-Tokenized (suc fuel) (word c w ∷ ls) [] tokens lt v k = elim k [ ]
  scan-Tokenized (suc fuel) (word c w ∷ ls) (t ∷ ts) tokens lt (h, all, apart, v) (e, k) =
      scan-added fuel t (written ls (10 ∷ end_of_buffer)) _ ts tokens 6 (c ∷ w)
        (yy_match-Apart c w ls end_of_buffer h all apart) (act_on-word (c ∷ w) t tokens e)
        (λ tokens'. scan-Tokenized fuel ls ts tokens' (omega (arith, lt)) v k)

written-append : (ls : List Lexeme) (s t : Token) → written ls s ++ t ≡ written ls (s ++ t)
written-append [] s t = refl
written-append (mark k ∷ ls) s t = ap (λ v. mark_char k ∷ v) (written-append ls s t)
written-append (gap g ∷ ls) s t = ap (λ v. gap_char g ∷ v) (written-append ls s t)
written-append (word c w ∷ ls) s t =
    ap (λ v. c ∷ v) (append_assoc w (written ls s) t ∙ ap (λ v. w ++ v) (written-append ls s t))

pub length-written : (ls : List Lexeme) (s : Token) → length ls + length s ≤ length (written ls s)
length-written [] s = omega arith
length-written (mark k ∷ ls) s = omega (arith, length-written ls s)
length-written (gap g ∷ ls) s = omega (arith, length-written ls s)
length-written (word c w ∷ ls) s =
    omega (arith, length-written ls s, length-append w (written ls s))

abbrev pub fitting : List Token → Lexed
fitting ts =
    if ltb (length ts + 1) tokensz
    then lexed (ts ++ newline ∷ []) end_of_buffer
    else failed behind_tokens

stored-fitting :
    (ts : List Token) → stored end_of_buffer (add_tokens (ts ++ newline ∷ []) []) ≡ fitting ts
stored-fitting ts =
    let long = length-append ts (newline ∷ []) in
    rw (add_tokens_lem (ts ++ newline ∷ [])) (elim (Bool-cases (ltb (length ts + 1) tokensz)) [
      | inl h ↦
          let h' : ltb (length (ts ++ newline ∷ [])) tokensz ≡ true = ground (arith, h, long) in
          rw (h, h') refl
      | inr h ↦
          let h' : ltb (length (ts ++ newline ∷ [])) tokensz ≡ false = ground (arith, h, long) in
          rw (h, h') refl
    ])

-- The first match of a call finds the buffer used up, and the line is read.
scan-reads :
    (ps : Params) (line : Token) (len fuel : ℕ)
    → ltb len yy_read_buf_size ≡ true
    → scan ps line len (suc fuel) [] end_of_buffer
      ≡ scan ps line len fuel [] (line ++ end_of_buffer)
unfolding scan my_yyinput yy_match if_accepting next_state follow meta act_on
scan-reads ps line len fuel h = rw (scan, h) refl

yylex-reads :
    (ps : Params) (line : Token)
    → length line < yy_read_buf_size
    → yylex ps line (length line) end_of_buffer
      ≡ scan ps line (length line) (length line + 3) [] (line ++ end_of_buffer)
unfolding yylex
yylex-reads ps line lt =
    ap (λ n. scan ps line (length line) n [] end_of_buffer) (omega arith)
    ∙ scan-reads ps line (length line) (length line + 3) (ground (arith, lt))

pub yylex-Tokenized :
    (ps : Params) (ls : List Lexeme) (ts : List Token)
    → WellFormed ls
    → Tokenized ps ls ts
    → length (written ls newline) < yy_read_buf_size
    → yylex ps (written ls newline) (length (written ls newline)) end_of_buffer ≡ fitting ts
yylex-Tokenized ps ls ts v k lt =
    yylex-reads ps (written ls newline) lt
    ∙ ap
        (λ t.
          scan ps (written ls newline) (length (written ls newline))
            (length (written ls newline) + 3) [] t)
        (written-append ls newline end_of_buffer)
    ∙ scan-Tokenized ps (written ls newline) (length (written ls newline)) _ ls ts []
        (omega (arith, length-written ls newline)) v k
    ∙ stored-fitting ts
