-- ===== src/Shell/Tokens.antt =====
-- `add_token` and `expand` of 2/parseline.c: the array of tokens and the buffer for a token with
-- its parameters put in, both of TOKENSZ entries.
use linux_homework.Base.{
  ℕ, ◌+◌, ◌-◌, Bool, ◌&&◌, Option, none, some, List, [], ◌∷◌, ◌++◌, ltb, leb, length, ◌==◌,
  if◌then◌else◌,
}
use linux_homework.Shell.{Token}

abbrev pub tokensz : ℕ
tokensz = 200

-- What `add_token` leaves: the tokens, or `exit`, or a write behind the array, at `tok_cnt` or at
-- `tok_cnt + 1`.
pub data Added : Type 0 where
  added : List Token → Added
  too_many : Added
  behind_array : Added

unfoldable pub add_token : Token → List Token → Added
add_token t tokens =
    if leb (length tokens) tokensz
    then if ltb (length tokens + 1) tokensz then added (tokens ++ t ∷ []) else behind_array
    else too_many

-- A line's tokens, added one by one.
unfoldable pub add_tokens : List Token → List Token → Added
add_tokens [] tokens = added tokens
add_tokens (t ∷ ts) tokens = elim (add_token t tokens) [
  | added tokens' ↦ add_tokens ts tokens'
  | too_many ↦ too_many
  | behind_array ↦ behind_array
]

-- The texts that `sprintf` prints for `getpid()`, `pos_param[i]`, `ARGC` and `EXIT_STATUS`.
pub record Params : Type 0 where
  pub pid : Token
  pub pos_param : ℕ → Token
  pub argc : Token
  pub exit_status : Token

abbrev pub dollar : ℕ
dollar = 36

abbrev pub isdigit : ℕ → Bool
isdigit c = leb 48 c && leb c 57

-- What stands for `$` and the character `c`; `none` where the `$` alone is dropped.
unfoldable pub param : Params → ℕ → Option Token
param ps c =
    if c == dollar
    then some ps.pid
    else if isdigit c
    then some (ps.pos_param (c - 48))
    else if c == 35
    then some ps.argc
    else if c == 63
    then some ps.exit_status
    else none

-- The loop of `expand`, with `out` in the buffer; `none` if it writes behind the buffer. A `$`
-- looks at the character behind it, which is 0 at the end.
unfoldable pub expand_from : Params → (out : Token) → Token → Option Token
expand_from ps out [] = if ltb (length out) tokensz then some out else none
expand_from ps out (c ∷ []) =
    if c == dollar
    then if ltb (length out) tokensz then some out else none
    else if ltb (length out + 1) tokensz
    then some (out ++ c ∷ [])
    else none
expand_from ps out (c ∷ d ∷ rest) =
    let dropped = expand_from ps out (d ∷ rest) in
    let copied = expand_from ps (out ++ c ∷ []) (d ∷ rest) in
    if c == dollar
    then elim (param ps d) [
      | none ↦ dropped
      | some v ↦
          let printed = expand_from ps (out ++ v) rest in
          if ltb (length out + length v) tokensz then printed else none
    ]
    else if ltb (length out) tokensz
    then copied
    else none

unfoldable pub expand : Params → Token → Option Token
expand ps token = expand_from ps [] token
