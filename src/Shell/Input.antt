-- ===== src/Shell/Input.antt =====
-- The loop of `main` in 2/mysh.c: lines that end in a backslash are joined in `line_buf`, and a
-- whole line is handed to `yylex`.
use linux_homework.Base.{
  ℕ, ◌+◌, ◌≡◌, Bool, Bool-cases, inl, inr, true, false, Option, none, some, List, [], ◌∷◌, ◌++◌,
  arith, refl, length, ltb, ◌==◌, if◌then◌else◌, ap, ap₂, ◌∙◌, append_assoc, length-append,
}
use linux_homework.Shell.{Token, newline}

abbrev pub bufsize : ℕ
bufsize = 128

abbrev pub backslash : ℕ
backslash = 92

-- `line_buf`, `line_len` and `flag_cont_line`.
pub record Input : Type 0 where
  pub line_buf : Token
  pub line_len : ℕ
  pub flag_cont_line : Bool

-- What becomes of a line: more is to come, a line and its length are handed to `yylex`, `strcat`
-- writes behind the buffer, or `line[-1]` is read.
pub data Read : Type 0 where
  more : Input → Read
  lexed : (text : Token) → (len : ℕ) → Input → Read
  behind_buffer : Read
  before_line : Read

-- The last character, and the line without it.
abbrev pub last : Token → Option ℕ
last [] = none
last (c ∷ []) = some c
last (c ∷ d ∷ s) = last (d ∷ s)

abbrev pub chopped : Token → Token
chopped [] = []
chopped (c ∷ []) = []
chopped (c ∷ d ∷ s) = c ∷ chopped (d ∷ s)

-- `strcat(line_buf, t)`
abbrev pub strcat : Token → Token → Option Token
strcat b t = if ltb (length b + length t) bufsize then some (b ++ t) else none

-- The test of `set_prompt` for a line that goes on, which clears the flag: whether it is so.
unfoldable pub set_prompt : Input → Bool × Input
set_prompt s = (s.flag_cont_line, record s { flag_cont_line = false })

unfoldable pub join_line : Token → Input → Read
join_line line s = elim (strcat s.line_buf line) [
  | none ↦ behind_buffer
  | some b ↦
      more (record { line_buf = b; line_len = s.line_len + length line; flag_cont_line = true })
]

unfoldable pub end_line : Token → Input → Read
end_line line s = elim (strcat s.line_buf line) [
  | none ↦ behind_buffer
  | some b ↦ elim (strcat b newline) [
    | none ↦ behind_buffer
    | some t ↦ lexed t (s.line_len + length line + 1) (record s { line_buf = []; line_len = 0 })
  ]
]

-- The body of the loop behind `readline`.
unfoldable pub read_line : Token → Input → Read
read_line line s = elim (last line) [
  | none ↦ before_line
  | some c ↦ if c == backslash then join_line (chopped line) s else end_line line s
]

-- The lines handed to `yylex` with their lengths, in order, until a `strcat` or an access goes
-- wrong.
pub data Session : Type 0 where
  session : List (Token × ℕ) → Input → Session
  wrong : Session

abbrev pub also : Token × ℕ → Session → Session
also t (session ts s) = session (t ∷ ts) s
also t wrong = wrong

unfoldable pub read_lines : List Token → Input → Session
read_lines [] s = session [] s
read_lines (l ∷ ls) s = elim (read_line l (set_prompt s).1) [
  | more s' ↦ read_lines ls s'
  | lexed t n s' ↦ also (t, n) (read_lines ls s')
  | behind_buffer ↦ wrong
  | before_line ↦ wrong
]

-- A line typed in pieces, each but the last one ended by a backslash, and the same line in one.
abbrev pub typed : List Token → Token → List Token
typed [] l = l ∷ []
typed (p ∷ ps) l = (p ++ backslash ∷ []) ∷ typed ps l

abbrev pub joined : List Token → Token → Token
joined [] l = l ++ newline
joined (p ∷ ps) l = p ++ joined ps l

last-snoc : (p : Token) (c : ℕ) → last (p ++ c ∷ []) ≡ some c
last-snoc [] c = refl
last-snoc (d ∷ []) c = refl
last-snoc (d ∷ e ∷ p) c = last-snoc (e ∷ p) c

chopped-snoc : (p : Token) (c : ℕ) → chopped (p ++ c ∷ []) ≡ p
chopped-snoc [] c = refl
chopped-snoc (d ∷ []) c = refl
chopped-snoc (d ∷ e ∷ p) c = ap (λ v. d ∷ v) (chopped-snoc (e ∷ p) c)

abbrev pub clean : Input
clean = record { line_buf = []; line_len = 0; flag_cont_line = false }

abbrev fitting : ℕ → Token → Session
fitting n t = if ltb n bufsize then session ((t, n) ∷ []) clean else wrong

pub read_line-piece : (p : Token) (s : Input) → read_line (p ++ backslash ∷ []) s ≡ join_line p s
unfolding read_line
read_line-piece p s = rw (read_line, last-snoc p backslash, chopped-snoc p backslash) refl

pub read_line-end :
    (l : Token) (c : ℕ) (s : Input)
    → last l ≡ some c
    → (c == backslash) ≡ false
    → read_line l s ≡ end_line l s
unfolding read_line
read_line-end l c s e ne = rw (read_line, e, ne) refl

-- The state of the loop.
abbrev pub state : Token → ℕ → Bool → Input
state b n cont = record { line_buf = b; line_len = n; flag_cont_line = cont }

pub join_line-state :
    (p b : Token) (n : ℕ)
    → join_line p (state b n false) ≡ (
        if ltb (length b + length p) bufsize
        then more (state (b ++ p) (n + length p) true)
        else behind_buffer)
unfolding join_line
join_line-state p b n = elim (Bool-cases (ltb (length b + length p) bufsize)) [
  | inl h ↦ rw (join_line, h) refl
  | inr h ↦ rw (join_line, h) refl
]

pub end_line-state :
    (l b : Token) (n : ℕ)
    → n ≡ length b
    → end_line l (state b n false) ≡ (
        if ltb (n + length (l ++ newline)) bufsize
        then lexed (b ++ (l ++ newline)) (n + length (l ++ newline)) clean
        else behind_buffer)
unfolding end_line
end_line-state l b n e = elim (Bool-cases (ltb (length b + length l) bufsize)) [
  | inl h ↦ elim (Bool-cases (ltb (length (b ++ l) + length newline) bufsize)) [
    | inl k ↦
        let room : ltb (n + length (l ++ newline)) bufsize ≡ true =
          ground (arith, length-append b l, length-append l newline) in
        let long : n + length l + 1 ≡ n + length (l ++ newline) =
          omega (arith, length-append l newline) in
        rw (end_line, h, k, room) (ap₂ (λ t m. lexed t m clean) (append_assoc b l newline) long)
    | inr k ↦
        let full : ltb (n + length (l ++ newline)) bufsize ≡ false =
          ground (arith, length-append b l, length-append l newline) in
        rw (end_line, h, k, full) refl
  ]
  | inr h ↦
      let full : ltb (n + length (l ++ newline)) bufsize ≡ false =
        ground (arith, length-append l newline) in
      rw (end_line, h, full) refl
]

read_lines-from :
    (b : Token) (n : ℕ) (cont : Bool) (ps : List Token) (l : Token) (c : ℕ)
    → n ≡ length b
    → last l ≡ some c
    → (c == backslash) ≡ false
    → read_lines (typed ps l) (state b n cont)
      ≡ fitting (n + length (joined ps l)) (b ++ joined ps l)
unfolding read_lines set_prompt
read_lines-from b n cont [] l c len e ne =
    rw (read_lines, read_line-end l c (state b n false) e ne, end_line-state l b n len)
      (elim (Bool-cases (ltb (n + length (l ++ newline)) bufsize)) [
        | inl h ↦ rw h refl
        | inr h ↦ rw h refl
      ])
read_lines-from b n cont (p ∷ ps) l c len e ne =
    elim (Bool-cases (ltb (length b + length p) bufsize)) [
      | inl h ↦
          rw (read_lines, read_line-piece p (state b n false), join_line-state p b n, h)
            (read_lines-from (b ++ p) (n + length p) true ps l c
                (omega (arith, length-append b p, len)) e ne
              ∙ ap₂ fitting (omega (arith, length-append p (joined ps l)))
                  (append_assoc b p (joined ps l)))
      | inr h ↦
          let full : ltb (n + length (p ++ joined ps l)) bufsize ≡ false =
            ground (arith, length-append p (joined ps l)) in
          rw (read_lines, read_line-piece p (state b n false), join_line-state p b n, h, full) refl
    ]

-- A line typed in pieces, each but the last one ended by a backslash, is handed over once and
-- whole, with its newline and its length, and the buffer is empty again, if all of it is shorter
-- than the buffer; else the buffer is overrun. The last piece has a character and no backslash at
-- its end.
pub read_lines-joined :
    (cont : Bool) (ps : List Token) (l : Token) (c : ℕ)
    → last l ≡ some c
    → (c == backslash) ≡ false
    → read_lines (typed ps l) (record { line_buf = []; line_len = 0; flag_cont_line = cont }) ≡ (
        if ltb (length (joined ps l)) bufsize
        then session
            ((joined ps l, length (joined ps l)) ∷ [])
            (record { line_buf = []; line_len = 0; flag_cont_line = false })
        else wrong)
read_lines-joined cont ps l c e ne =
    read_lines-from [] 0 cont ps l c refl e ne ∙ ap₂ fitting (omega arith) refl
