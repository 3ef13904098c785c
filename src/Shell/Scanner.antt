-- ===== src/Shell/Scanner.antt =====
-- The scanner of 2/parseline.c: the tables and the matching loop that flex made from the rules of
-- 2/parseline.l, the actions of the rules, and `my_yyinput`. A buffer is the text in it; behind it
-- stand the two NUL characters that flex puts there.
pub mod Words
pub mod Lines
pub mod Lexes
pub mod Cut
mod Tests
use linux_homework.Base.{
  ℕ, ◌+◌, Option, none, some, List, [], ◌∷◌, ◌++◌, ltb, true, false, length, get_elem?, ◌==◌,
  if◌then◌else◌, zero, suc, ◌>>=◌, ◌&&◌,
}
use linux_homework.Shell.Tokens.{Params, expand, Added, added, too_many, behind_array, add_token}
use linux_homework.Shell.Input.{chopped}
use linux_homework.Shell.{Token}

abbrev pub yy_accept : List ℕ
yy_accept = 0 ∷ 0 ∷ 0 ∷ 0 ∷ 0 ∷ 0 ∷ 0 ∷ 10 ∷ 6 ∷ 8 ∷ 7 ∷ 5 ∷ 1 ∷ 3 ∷ 2 ∷ 4 ∷ 9 ∷ 6 ∷ 0 ∷ []

-- The class of each character.
abbrev pub yy_ec : List ℕ
yy_ec =
    0 ∷ 1 ∷ 1 ∷ 1 ∷ 1 ∷ 1 ∷ 1 ∷ 1 ∷ 1 ∷ 2 ∷ 3 ∷ 1 ∷ 1 ∷ 1 ∷ 1 ∷ 1 ∷ 1 ∷ 1 ∷ 1 ∷ 1 ∷ 1 ∷ 1 ∷ 1 ∷ 1
    ∷ 1 ∷ 1 ∷ 1 ∷ 1 ∷ 1 ∷ 1 ∷ 1 ∷ 1 ∷ 2 ∷ 1 ∷ 2 ∷ 1 ∷ 1 ∷ 1 ∷ 4 ∷ 1 ∷ 1 ∷ 1 ∷ 1 ∷ 1 ∷ 1 ∷ 1 ∷ 1 ∷ 1
    ∷ 1 ∷ 1 ∷ 1 ∷ 1 ∷ 1 ∷ 1 ∷ 1 ∷ 1 ∷ 1 ∷ 1 ∷ 1 ∷ 5 ∷ 6 ∷ 1 ∷ 7 ∷ 1 ∷ 1 ∷ 1 ∷ 1 ∷ 1 ∷ 1 ∷ 1 ∷ 1 ∷ 1
    ∷ 1 ∷ 1 ∷ 1 ∷ 1 ∷ 1 ∷ 1 ∷ 1 ∷ 1 ∷ 1 ∷ 1 ∷ 1 ∷ 1 ∷ 1 ∷ 1 ∷ 1 ∷ 1 ∷ 1 ∷ 1 ∷ 1 ∷ 1 ∷ 1 ∷ 1 ∷ 1 ∷ 1
    ∷ 1 ∷ 1 ∷ 1 ∷ 1 ∷ 1 ∷ 1 ∷ 1 ∷ 1 ∷ 1 ∷ 1 ∷ 1 ∷ 1 ∷ 1 ∷ 1 ∷ 1 ∷ 1 ∷ 1 ∷ 1 ∷ 1 ∷ 1 ∷ 1 ∷ 1 ∷ 1 ∷ 1
    ∷ 1 ∷ 1 ∷ 1 ∷ 1 ∷ 8 ∷ 1 ∷ 1 ∷ 1 ∷ 1 ∷ 1 ∷ 1 ∷ 1 ∷ 1 ∷ 1 ∷ 1 ∷ 1 ∷ 1 ∷ 1 ∷ 1 ∷ 1 ∷ 1 ∷ 1 ∷ 1 ∷ 1
    ∷ 1 ∷ 1 ∷ 1 ∷ 1 ∷ 1 ∷ 1 ∷ 1 ∷ 1 ∷ 1 ∷ 1 ∷ 1 ∷ 1 ∷ 1 ∷ 1 ∷ 1 ∷ 1 ∷ 1 ∷ 1 ∷ 1 ∷ 1 ∷ 1 ∷ 1 ∷ 1 ∷ 1
    ∷ 1 ∷ 1 ∷ 1 ∷ 1 ∷ 1 ∷ 1 ∷ 1 ∷ 1 ∷ 1 ∷ 1 ∷ 1 ∷ 1 ∷ 1 ∷ 1 ∷ 1 ∷ 1 ∷ 1 ∷ 1 ∷ 1 ∷ 1 ∷ 1 ∷ 1 ∷ 1 ∷ 1
    ∷ 1 ∷ 1 ∷ 1 ∷ 1 ∷ 1 ∷ 1 ∷ 1 ∷ 1 ∷ 1 ∷ 1 ∷ 1 ∷ 1 ∷ 1 ∷ 1 ∷ 1 ∷ 1 ∷ 1 ∷ 1 ∷ 1 ∷ 1 ∷ 1 ∷ 1 ∷ 1 ∷ 1
    ∷ 1 ∷ 1 ∷ 1 ∷ 1 ∷ 1 ∷ 1 ∷ 1 ∷ 1 ∷ 1 ∷ 1 ∷ 1 ∷ 1 ∷ 1 ∷ 1 ∷ 1 ∷ 1 ∷ 1 ∷ 1 ∷ 1 ∷ 1 ∷ 1 ∷ 1 ∷ 1 ∷ 1
    ∷ 1 ∷ 1 ∷ 1 ∷ 1 ∷ 1 ∷ 1 ∷ 1 ∷ 1 ∷ 1 ∷ 1 ∷ 1 ∷ 1 ∷ 1 ∷ 1 ∷ 1 ∷ 1 ∷ []

abbrev pub yy_meta : List ℕ
yy_meta = 0 ∷ 1 ∷ 1 ∷ 1 ∷ 1 ∷ 1 ∷ 1 ∷ 1 ∷ 1 ∷ []

abbrev pub yy_base : List ℕ
yy_base =
    0 ∷ 0 ∷ 0 ∷ 0 ∷ 0 ∷ 0 ∷ 0 ∷ 12 ∷ 10 ∷ 13 ∷ 13 ∷ 13 ∷ 13 ∷ 13 ∷ 13 ∷ 13 ∷ 13 ∷ 9 ∷ 13 ∷ 8 ∷ []

abbrev pub yy_def : List ℕ
yy_def =
    0 ∷ 18 ∷ 1 ∷ 19 ∷ 19 ∷ 19 ∷ 19 ∷ 18 ∷ 18 ∷ 18 ∷ 18 ∷ 18 ∷ 18 ∷ 18 ∷ 18 ∷ 18 ∷ 18 ∷ 18 ∷ 0 ∷ 18
    ∷ []

abbrev pub yy_nxt : List ℕ
yy_nxt =
    0 ∷ 8 ∷ 9 ∷ 10 ∷ 11 ∷ 12 ∷ 13 ∷ 14 ∷ 15 ∷ 16 ∷ 17 ∷ 17 ∷ 18 ∷ 7 ∷ 18 ∷ 18 ∷ 18 ∷ 18 ∷ 18 ∷ 18
    ∷ 18 ∷ 18 ∷ []

abbrev pub yy_chk : List ℕ
yy_chk =
    0 ∷ 1 ∷ 1 ∷ 1 ∷ 1 ∷ 1 ∷ 1 ∷ 1 ∷ 1 ∷ 19 ∷ 17 ∷ 8 ∷ 7 ∷ 18 ∷ 18 ∷ 18 ∷ 18 ∷ 18 ∷ 18 ∷ 18 ∷ 18 ∷ 18
    ∷ []

-- `if (yy_current_state >= 19) yy_c = yy_meta[yy_c]`
unfoldable pub meta : (state class : ℕ) → Option ℕ
meta state class = if ltb state 19 then some class else get_elem? yy_meta class

-- The inner loop: the default states are followed until one has an get_elem? for the character.
-- `none` where a table is read behind its end, or when the fuel is used up.
unfoldable pub follow : (fuel : ℕ) → (state class : ℕ) → Option ℕ
follow zero state class = none
follow (suc fuel) state class = do
  base ← get_elem? yy_base state
  check ← get_elem? yy_chk (base + class)
  elim (check == state) [
    | true ↦ get_elem? yy_nxt (base + class)
    | false ↦ do
      state' ← get_elem? yy_def state
      class' ← meta state' class
      follow fuel state' class'
  ]

-- There are 20 states.
unfoldable pub next_state : (state c : ℕ) → Option ℕ
next_state state c = do class ← get_elem? yy_ec c; follow 20 state class

-- An action, with what is matched and what stands behind it.
pub record Match : Type 0 where
  pub act : ℕ
  pub yytext : Token
  pub unread : Token

-- What is taken where a state has an action: the match here; else the last one that had an action.
unfoldable pub if_accepting : (accept : ℕ) → (here before : Match) → Match
if_accepting zero here before = before
if_accepting (suc a) here before = here

-- The matching loop, with what is matched so far; `none` where a table is read behind its end.
unfoldable pub yy_match : (state : ℕ) → (before : Match) → (text : Token) → Token → Option Match
yy_match state before text [] = none
yy_match state before text (c ∷ cs) = do
  accept ← get_elem? yy_accept state
  let here : Match = record { act = accept; yytext = text; unread = c ∷ cs }
  state' ← next_state state c
  base ← get_elem? yy_base state'
  accept' ← get_elem? yy_accept state'
  let going = yy_match state' (if_accepting accept here before) (text ++ c ∷ []) cs
  let stops =
      if_accepting accept' (record { act = accept'; yytext = text ++ c ∷ []; unread = cs })
        (if_accepting accept here before)
  if base == 13 then some stops else going

-- `my_yyinput`: the line is copied, or its length is refused.
unfoldable pub my_yyinput : (line_buf : Token) → (line_len max_size : ℕ) → Option Token
my_yyinput line_buf line_len max_size = if ltb line_len max_size then some line_buf else none

abbrev pub yy_read_buf_size : ℕ
yy_read_buf_size = 8192

-- What an action does: the scanner goes on with these tokens, returns with them, reads a line, or
-- fails: in `add_token`, in `expand`, or with a fatal error.
pub data Acted : Type 0 where
  goes_on : List Token → Acted
  returns : List Token → Acted
  reads_line : Acted
  exits : Acted
  behind_tokens : Acted
  behind_buf : Acted
  fatal : Acted

abbrev pub then_does : (List Token → Acted) → Added → Acted
then_does f (added ts) = f ts
then_does f too_many = exits
then_does f behind_array = behind_tokens

-- The actions: rules 1 to 5 are the operators, 6 a word, 7 the newline, 8 what is skipped.
unfoldable pub act_on : Params → (act : ℕ) → (yytext : Token) → List Token → Acted
act_on ps act yytext tokens =
    if ltb 0 act && ltb act 6
    then then_does goes_on (add_token yytext tokens)
    else if act == 6
    then elim (expand ps yytext) [
      | none ↦ behind_buf
      | some t ↦ then_does goes_on (add_token t tokens)
    ]
    else if act == 7
    then then_does returns (add_token yytext tokens)
    else if act == 8
    then goes_on tokens
    else if act == 10
    then reads_line
    else fatal

-- How `yylex` ends: at a newline, when `do_list_cmd` gets the tokens, with what is left in the
-- buffer; or in one of the failures; or it is not at an end when the fuel is used up.
pub data Lexed : Type 0 where
  lexed : List Token → (unread : Token) → Lexed
  failed : Acted → Lexed
  refused_line : Lexed
  unfinished : Lexed

-- The two NUL characters behind a buffer's text.
abbrev pub end_of_buffer : Token
end_of_buffer = 0 ∷ 0 ∷ []

abbrev pub none_before : Match
none_before = record { act = 0; yytext = []; unread = [] }

-- What follows an action: the next match, the return, or a line is read.
abbrev pub after_action : (again returned : List Token → Lexed) → (refilled : Lexed) → Acted → Lexed
after_action again returned refilled (goes_on ts) = again ts
after_action again returned refilled (returns ts) = returned ts
after_action again returned refilled reads_line = refilled
after_action again returned refilled exits = failed exits
after_action again returned refilled behind_tokens = failed behind_tokens
after_action again returned refilled behind_buf = failed behind_buf
after_action again returned refilled fatal = failed fatal

module _ (ps : Params) (line_buf : Token) (line_len : ℕ) where
  -- The loop of `yylex` in its first start condition, over the matches. At the end of the buffer
  -- what is matched in front of the NUL is kept and the line is put behind it.
  unfoldable pub scan : (fuel : ℕ) → List Token → Token → Lexed
  scan zero tokens text = unfinished
  scan (suc fuel) tokens text = elim (yy_match 1 none_before [] text) [
    | none ↦ failed fatal
    | some m ↦
        after_action (λ ts. scan fuel ts m.unread) (λ ts. lexed ts m.unread)
          (elim (my_yyinput line_buf line_len yy_read_buf_size) [
            | none ↦ refused_line
            | some t ↦ scan fuel tokens (chopped m.yytext ++ (t ++ end_of_buffer))
          ])
          (act_on ps m.act m.yytext tokens)
  ]

  -- A call of `yylex`, with what is left in the buffer. Each match takes a character, and one of
  -- them reads the line.
  unfoldable pub yylex : (unread : Token) → Lexed
  yylex unread = scan (length unread + length line_buf + 2) [] unread
