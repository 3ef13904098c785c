-- ===== src/Shell/Expand.antt =====
-- Theorems on `add_token` and `expand` of 2/parseline.c.
use linux_homework.Base.{
  ℕ, ◌+◌, ◌<◌, ◌≤◌, ◌≡◌, Bool-cases, inl, inr, true, false, Option, none, some, List, [], ◌∷◌, ◌++◌,
  arith, refl, length, ltb, ◌==◌, ap, ap₂, if◌then◌else◌, ◌∙◌, sym, append_assoc, append-nil,
  length-append,
}
use linux_homework.Shell.{Token}
use linux_homework.Shell.Tokens.{
  tokensz, Added, added, behind_array, add_token, add_tokens, Params, dollar, isdigit, param,
  expand_from, expand,
}

add_token-room :
    (t : Token) (tokens : List Token)
    → length tokens + 1 < tokensz
    → add_token t tokens ≡ added (tokens ++ t ∷ [])
unfolding add_token
add_token-room t tokens h = ground arith

add_token-full :
    (t : Token) (tokens : List Token) → length tokens ≡ 199 → add_token t tokens ≡ behind_array
unfolding add_token
add_token-full t tokens h = ground arith

abbrev fitting : ℕ → List Token → Added
fitting n tokens = if ltb n tokensz then added tokens else behind_array

add_tokens-from :
    (ts tokens : List Token)
    → length tokens < tokensz
    → add_tokens ts tokens
      ≡ (if ltb (length tokens + length ts) tokensz then added (tokens ++ ts) else behind_array)
unfolding add_tokens
add_tokens-from [] tokens h =
    let room : ltb (length tokens + 0) tokensz ≡ true = ground arith in
    rw (room, append-nil tokens) refl
add_tokens-from (t ∷ ts) tokens h = elim (Bool-cases (ltb (length tokens + 1) tokensz)) [
  | inl p ↦
      let room : length tokens + 1 < tokensz = ground arith in
      rw (add_tokens, add_token-room t tokens room)
        (add_tokens-from ts (tokens ++ t ∷ []) (omega (arith, length-append tokens (t ∷ []), room))
          ∙ ap₂ fitting (omega (arith, length-append tokens (t ∷ [])))
              (append_assoc tokens (t ∷ []) ts))
  | inr p ↦
      let full : length tokens ≡ 199 = ground arith in
      let over : ltb (length tokens + length (t ∷ ts)) tokensz ≡ false = ground arith in
      rw (add_tokens, add_token-full t tokens full) (rw over refl)
]

-- A line of fewer than 200 tokens is stored as it is; of a longer one the 200th token already
-- writes behind the array, before the number of tokens is found too large.
pub add_tokens_lem :
    (ts : List Token)
    → add_tokens ts [] ≡ (if ltb (length ts) tokensz then added ts else behind_array)
add_tokens_lem ts = add_tokens-from ts [] (omega arith) ∙ ap₂ fitting (omega arith) refl

-- The parameters `$$`, `$0` to `$9`, `$#` and `$?`.
pub data Variable : Type 0 where
  process_id count last_status : Variable
  position : ℕ → Variable

-- How a parameter is written behind `$`.
abbrev pub name : Variable → ℕ
name process_id = 36
name count = 35
name last_status = 63
name (position n) = 48 + n

abbrev pub value_of : Params → Variable → Token
value_of ps process_id = ps.pid
value_of ps count = ps.argc
value_of ps last_status = ps.exit_status
value_of ps (position n) = ps.pos_param n

abbrev pub IsKnown : Variable → Type 0
IsKnown (position n) = n < 10
IsKnown x = Unit {0}

-- The parts of a token.
pub data Piece : Type 0 where
  char : ℕ → Piece
  variable : Variable → Piece

abbrev pub spelled : List Piece → Token
spelled [] = []
spelled (char c ∷ xs) = c ∷ spelled xs
spelled (variable x ∷ xs) = 36 ∷ name x ∷ spelled xs

-- A character is not `$`, and a position is a digit.
abbrev pub Spelling : List Piece → Type 0
Spelling [] = Unit {0}
Spelling (char c ∷ xs) = ((c == 36) ≡ false) × Spelling xs
Spelling (variable x ∷ xs) = IsKnown x × Spelling xs

param-value_of : (ps : Params) (x : Variable) → IsKnown x → param ps (name x) ≡ some (value_of ps x)
unfolding param
param-value_of ps process_id known = refl
param-value_of ps count known = refl
param-value_of ps last_status known = refl
param-value_of ps (position n) known =
    let other : (48 + n == 36) ≡ false = ground arith in
    let digit : isdigit (48 + n) ≡ true = ground (arith, known) in
    rw (other, digit) (ap (λ i. some (ps.pos_param i)) (omega arith))

abbrev pub value : Params → List Piece → Token
value ps [] = []
value ps (char c ∷ xs) = c ∷ value ps xs
value ps (variable x ∷ xs) = value_of ps x ++ value ps xs

abbrev bounded : ℕ → Token → Option Token
bounded n v = if ltb n tokensz then some v else none

-- One character, and one variable.
expand_from-char :
    (ps : Params) (out : Token) (c : ℕ) (rest : Token)
    → (c == dollar) ≡ false
    → expand_from ps out (c ∷ rest)
      ≡ (if ltb (length out) tokensz then expand_from ps (out ++ c ∷ []) rest else none)
unfolding expand_from
expand_from-char ps out c [] h = rw h (ground (arith, length-append out (c ∷ [])))
expand_from-char ps out c (d ∷ rest) h = rw h refl

expand_from-variable :
    (ps : Params) (out : Token) (c : ℕ) (v rest : Token)
    → param ps c ≡ some v
    → expand_from ps out (dollar ∷ c ∷ rest)
      ≡ (if ltb (length out + length v) tokensz then expand_from ps (out ++ v) rest else none)
unfolding expand_from
expand_from-variable ps out c v rest h = rw h refl

-- What is printed next: it fits, and the rest is to fit behind it, or the whole is too long.
bounded-append :
    (out v w : Token) (b : ℕ) (o : Option Token)
    → b ≤ length out + length v
    → o ≡ bounded (length (out ++ v) + length w) ((out ++ v) ++ w)
    → (if ltb b tokensz then o else none) ≡ bounded (length out + length (v ++ w)) (out ++ (v ++ w))
bounded-append out v w b o le e = elim (Bool-cases (ltb b tokensz)) [
  | inl h ↦ rw h (
      e
      ∙ ap₂ bounded (omega (arith, length-append out v, length-append v w)) (append_assoc out v w))
  | inr h ↦
      let over : ltb (length out + length (v ++ w)) tokensz ≡ false =
        ground (arith, length-append v w) in
      rw (h, over) refl
]

expand_from-value :
    (ps : Params) (out : Token) (xs : List Piece)
    → Spelling xs
    → expand_from ps out (spelled xs)
      ≡ bounded (length out + length (value ps xs)) (out ++ value ps xs)
unfolding expand_from
expand_from-value ps out [] v = ap₂ bounded (omega arith) (sym (append-nil out))
expand_from-value ps out (char c ∷ xs) (h, v) =
    expand_from-char ps out c (spelled xs) h
    ∙ bounded-append out (c ∷ []) (value ps xs) (length out) _ (omega arith)
        (expand_from-value ps (out ++ c ∷ []) xs v)
expand_from-value ps out (variable x ∷ xs) (known, v) =
    let t = value_of ps x in
    expand_from-variable ps out (name x) t (spelled xs) (param-value_of ps x known)
    ∙ bounded-append out t (value ps xs) (length out + length t) _ (omega arith)
        (expand_from-value ps (out ++ t) xs v)

-- A token of plain characters and of the parameters `$$`, `$0` to `$9`, `$#` and `$?` is replaced
-- by the characters and the values of the parameters, if these are shorter than the buffer; else
-- the buffer is overrun.
pub expand-value :
    (ps : Params) (xs : List Piece)
    → Spelling xs
    → expand ps (spelled xs)
      ≡ (if ltb (length (value ps xs)) tokensz then some (value ps xs) else none)
unfolding expand
expand-value ps xs v = expand_from-value ps [] xs v ∙ ap₂ bounded (omega arith) refl
