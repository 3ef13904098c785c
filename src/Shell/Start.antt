-- ===== src/Shell/Start.antt =====
-- The start of 2/mysh.c: the positional parameters, `init`, and the text of the prompt. What
-- `getlogin`, `getpwnam`, `gethostname` and `getcwd` return are arguments.
use linux_homework.Base.{
  ℕ, ◌+◌, ◌<◌, ◌≡◌, append-nil, Bool, true, false, Option, none, some, List, [], ◌∷◌, ◌++◌, length,
  get_elem?, ltb, if◌then◌else◌, arith, length-append,
}
use linux_homework.Shell.Expand.{variable, position, expand-value}
use linux_homework.Shell.Tokens.{tokensz, Params, dollar, expand}
use linux_homework.Shell.{Token}
use linux_homework.Text.{pos, show_int}

-- `pos_param[i]`: an argument, or the empty text where there are not so many.
abbrev pub or_empty : Option Token → Token
or_empty none = []
or_empty (some a) = a

unfoldable pub pos_param : (argv : List Token) → ℕ → Token
pos_param argv i = or_empty (get_elem? argv i)

-- The parameters behind the start; `EXIT_STATUS` is never set.
unfoldable pub start : (pid : ℕ) → (argv : List Token) → Params
start pid argv = record {
  pid = show_int (pos pid);
  pos_param = pos_param argv;
  argc = show_int (pos (length argv));
  exit_status = show_int (pos 0);
}

-- The fields of `struct passwd` that are read.
pub record Passwd : Type 0 where
  pub pw_name : Token
  pub pw_dir : Token

-- `init`: the line buffer is empty, and the shell is in the home directory if `chdir` succeeds; or
-- `pw` is NULL and is read.
pub data Init : Type 0 where
  null_pw : Init
  ready : Passwd → (line_buf : Token) → (in_home : Bool) → Init

unfoldable pub init : (pw : Option Passwd) → (chdir : Token → Bool) → Init
init none chdir = null_pw
init (some pw) chdir = ready pw [] (chdir pw.pw_dir)

abbrev pub prompt_size : ℕ
prompt_size = 200

-- `unknown_host` and `unknown_cwd`
abbrev pub host_text : Option Token → Token
host_text none = 117 ∷ 110 ∷ 107 ∷ 110 ∷ 111 ∷ 119 ∷ 110 ∷ 95 ∷ 104 ∷ 111 ∷ 115 ∷ 116 ∷ []
host_text (some h) = h

abbrev pub cwd_text : Option Token → Token
cwd_text none = 117 ∷ 110 ∷ 107 ∷ 110 ∷ 111 ∷ 119 ∷ 110 ∷ 95 ∷ 99 ∷ 119 ∷ 100 ∷ []
cwd_text (some d) = d

-- `sprintf(prompt, ...)`; `none` where it writes behind the prompt's buffer.
unfoldable pub print_prompt : Token → Option Token
print_prompt text = if ltb (length text) prompt_size then some text else none

-- `set_prompt`: for a line that goes on, `>`; else the user, the host and the directory.
unfoldable pub prompt_text :
    (flag_cont_line : Bool) → Passwd → (host cwd : Option Token) → Option Token
unfolding print_prompt
prompt_text true pw host cwd = print_prompt (62 ∷ [])
prompt_text false pw host cwd =
    print_prompt (pw.pw_name ++ 64 ∷ (host_text host ++ 58 ∷ (cwd_text cwd ++ 36 ∷ [])))

-- `$` and a digit is replaced by the argument of the shell with this number, or by nothing where
-- there are not so many, if it is shorter than the buffer.
pub expand-position :
    (pid i : ℕ) (argv : List Token)
    → i < 10
    → expand (start pid argv) (dollar ∷ (48 + i) ∷ [])
      ≡ (if ltb (length (pos_param argv i)) tokensz then some (pos_param argv i) else none)
unfolding start
expand-position pid i argv small =
    rw (append-nil (pos_param argv i)) at
      (expand-value (start pid argv) (variable (position i) ∷ []) (small, tt))

-- The prompt fits if the names in it have less than 197 characters together; else it is overrun.
pub prompt_text-length :
    (pw : Passwd) (host cwd : Option Token)
    → prompt_text false pw host cwd ≡ (
        if ltb (length pw.pw_name + length (host_text host) + length (cwd_text cwd)) 197
        then some (pw.pw_name ++ 64 ∷ (host_text host ++ 58 ∷ (cwd_text cwd ++ 36 ∷ [])))
        else none)
unfolding prompt_text print_prompt
prompt_text-length pw host cwd =
    let long1 =
      length-append pw.pw_name (64 ∷ (host_text host ++ 58 ∷ (cwd_text cwd ++ 36 ∷ []))) in
    let long2 = length-append (host_text host) (58 ∷ (cwd_text cwd ++ 36 ∷ [])) in
    let long3 = length-append (cwd_text cwd) (36 ∷ []) in ground (arith, long1, long2, long3)
