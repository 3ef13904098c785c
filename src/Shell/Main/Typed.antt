-- ===== src/Shell/Main/Typed.antt =====
-- The loop of 2/mysh.c up to the call of `yylex`: a line typed in pieces.
use linux_homework.Base.{
  ℕ, ◌+◌, ◌<◌, ◌≡◌, Bool, true, false, some, List, [], ◌∷◌, ◌++◌, arith, refl, length, ltb, ◌==◌,
  ap, ap₂, sym, ◌∙◌, append_assoc, length-append,
}
use linux_homework.Shell.Exec.{Table}
use linux_homework.Shell.Input.{
  backslash, bufsize, last, typed, joined, state, clean, set_prompt, read_line-piece, read_line-end,
  join_line-state, end_line-state,
}
use linux_homework.Shell.Main.{Session, after_line, run_line, main}
use linux_homework.Shell.Tokens.{Params}
use linux_homework.Shell.{Token, newline, Opened}

-- The text of a line without its newline.
abbrev pub text : List Token → Token → Token
text [] l = l
text (p ∷ ps) l = p ++ text ps l

pub joined-text : (pieces : List Token) (l : Token) → joined pieces l ≡ text pieces l ++ newline
joined-text [] l = refl
joined-text (p ∷ ps) l =
    ap (λ t. p ++ t) (joined-text ps l) ∙ (sym (append_assoc p (text ps l) newline))

module _ (lowest : Table → ℕ) (sizeof_ptr : ℕ) (can_open : Opened → Bool) (ps : Params)
    (rest : List Token) (unread : Token) (t : Table) where
  abbrev goes_on : Token → ℕ → Session
  goes_on b n =
      after_line (λ unread' u. main lowest sizeof_ptr can_open ps rest clean unread' u)
        (run_line lowest sizeof_ptr can_open ps b n unread t)

  main_from :
      (b : Token) (n : ℕ) (cont : Bool) (pieces : List Token) (l : Token) (c : ℕ)
      → n ≡ length b
      → last l ≡ some c
      → (c == backslash) ≡ false
      → n + length (joined pieces l) < bufsize
      → main lowest sizeof_ptr can_open ps (typed pieces l ++ rest) (state b n cont) unread t
        ≡ goes_on (b ++ joined pieces l) (n + length (joined pieces l))
  unfolding main set_prompt
  main_from b n cont [] l c len e ne room =
      let fits : ltb (n + length (l ++ newline)) bufsize ≡ true = ground (arith, room) in
      rw (main, read_line-end l c (state b n false) e ne, end_line-state l b n len, fits) refl
  main_from b n cont (p ∷ pieces) l c len e ne room =
      let long = length-append p (joined pieces l) in
      let fits : ltb (length b + length p) bufsize ≡ true = ground (arith, room, len, long) in
      rw (main, read_line-piece p (state b n false), join_line-state p b n, fits)
        (main_from (b ++ p) (n + length p) true pieces l c (omega (arith, length-append b p, len)) e
            ne (omega (arith, room, long))
          ∙ ap₂ goes_on (append_assoc b p (joined pieces l)) (omega (arith, long)))

  -- A line typed in pieces is handed over whole, with its newline and its length.
  pub main-typed :
      (cont : Bool) (pieces : List Token) (l : Token) (c : ℕ)
      → last l ≡ some c
      → (c == backslash) ≡ false
      → length (text pieces l ++ newline) < bufsize
      → main lowest sizeof_ptr can_open ps (typed pieces l ++ rest) (state [] 0 cont) unread t
        ≡ goes_on (text pieces l ++ newline) (length (text pieces l ++ newline))
  main-typed cont pieces l c e ne room = rw (← joined-text pieces l) (
      main_from [] 0 cont pieces l c refl e ne (rw (joined-text pieces l) (omega (arith, room)))
      ∙ ap (goes_on (joined pieces l)) (omega arith))
