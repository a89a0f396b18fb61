-- ===== src/Config/Environment.antt =====
-- internal/config/environment.go, and `validateEnvironment` of config.go.
-- Regular expressions and `strings` are modelled on bytes; what the process inherits and the files
-- that a configuration names are arguments.
pub mod Quotes
pub mod Interpolate
use lazywrap.Base.{
  ℕ, zero, suc, ◌+◌, Bytes, bytes_eq, codes, Bool, true, false, not, ◌&&◌, ◌||◌, List, [], ◌∷◌,
  ◌++◌, Option, none, some, ◌==◌, leb, if◌then◌else◌, is_empty, eq_bytes, lookup, insert, is_space,
  trim_left, trim_space, has_prefix, trim_prefix, cut_prefix, cut, has_byte, contains_any, length,
  drop,
}

pub data EnvError : Type 0 where
  invalid_name nul_in_value invalid_interpolation_name unterminated_interpolation : EnvError
  trailing_text unterminated_quote unreadable_file fuel_spent : EnvError
  not_set : Bytes → EnvError
  invalid_assignment invalid_value : ℕ → EnvError  -- with the line

pub data Result {ℓ} (A : Type ℓ) : Type ℓ where
  ok : A → Result A
  err : EnvError → Result A

infixl 5 ◌>>=◌
abbrev pub ◌>>=◌ {ℓ κ} : {A : Type ℓ} {B : Type κ} → Result A → (A → Result B) → Result B
ok a >>= f = f a
err e >>= f = err e

abbrev pub Env : Type 0
Env = List (Bytes × Bytes)

abbrev is_name_start : ℕ → Bool
is_name_start c = (leb b'A' c && leb c b'Z') || (leb b'a' c && leb c b'z') || c == b'_'

abbrev is_name_byte : ℕ → Bool
is_name_byte c = is_name_start c || (leb b'0' c && leb c b'9')

all_name_bytes : Bytes → Bool
all_name_bytes [] = true
all_name_bytes (c ∷ s) = is_name_byte c && all_name_bytes s

-- `^[A-Za-z_][A-Za-z0-9_]*$`
unfoldable pub is_env_name : Bytes → Bool
unfolding all_name_bytes
is_env_name [] = false
is_env_name (c ∷ s) = is_name_start c && all_name_bytes s

unfoldable pub validate_environment : Env → Option EnvError
unfolding contains_any has_byte
validate_environment [] = none
validate_environment ((key, value) ∷ rest) =
    if is_empty key || contains_any key (b'=' ∷ 0 ∷ [])
    then some invalid_name
    else if has_byte 0 value
    then some nul_in_value
    else validate_environment rest

-- `strings.Index(s, "{{")` or `"}}"`, as what stands before the pair of bytes and behind it.
unfoldable pub cut_pair : ℕ → Bytes → Option (Bytes × Bytes)
cut_pair b [] = none
cut_pair b (c ∷ []) = none
cut_pair b (c ∷ d ∷ s) =
    if c == b && d == b
    then some ([], s)
    else elim (cut_pair b (d ∷ s)) [ none ↦ none | some (before, after) ↦ some (c ∷ before, after) ]

-- `key, fallback, hasDefault := strings.Cut(s, ":")`
abbrev pub split_default : Bytes → Bytes × Option Bytes
split_default s = elim (cut b':' s) [ none ↦ (s, none) | some (k, d) ↦ (k, some d) ]

abbrev pub choose : Bytes → Option Bytes → Option Bytes → Result Bytes
choose key (some v) fallback = ok v
choose key none (some d) = ok d
choose key none none = err (not_set key)

-- What stands between the braces.
unfoldable pub replacement : Env → Bytes → Result Bytes
unfolding cut is_env_name lookup
replacement base expr =
    let (key, fallback) = split_default expr in
    if not (is_env_name key)
    then err invalid_interpolation_name
    else choose key (lookup key base) fallback

-- The loop of `interpolateEnv`; each round shortens the value.
unfoldable pub interpolate_loop : ℕ → Env → Bytes → Bytes → Result Bytes
interpolate_loop zero base out value = err fuel_spent
interpolate_loop (suc fuel) base out value = elim (cut_pair b'{' value) [
  | none ↦ ok (out ++ value)
  | some (before, after) ↦ elim (cut_pair b'}' after) [
    | none ↦ err unterminated_interpolation
    | some (expr, rest) ↦ elim (replacement base expr) [
      | err e ↦ err e
      | ok r ↦ interpolate_loop fuel base ((out ++ before) ++ r) rest
    ]
  ]
]

unfoldable pub interpolate_env : Bytes → Env → Result Bytes
unfolding interpolate_loop cut_pair replacement
interpolate_env value base = interpolate_loop (suc (length value)) base [] value

-- An unquoted value up to a comment, if it has one; the flag says that a `#` starts a comment here.
unfoldable pub cut_comment : Bool → Bytes → Option Bytes
cut_comment b [] = none
cut_comment b (c ∷ s) =
    if c == b'#' && b then some [] else elim (cut_comment (c == b' ' || c == b'\t') s) [
      | none ↦ none
      | some before ↦ some (c ∷ before)
    ]

-- The byte or bytes that an escape in double quotes stands for.
abbrev pub unescape : ℕ → Bytes
unescape d =
    if d == b'n'
    then b'\n' ∷ []
    else if d == b'r'
    then b'\r' ∷ []
    else if d == b't'
    then b'\t' ∷ []
    else if d == b'\\' || d == b'"'
    then d ∷ []
    else b'\\' ∷ d ∷ []

-- The end of a quoted value: nothing but blanks or a comment may follow.
unfoldable pub close_quote : Bytes → Bytes → Result Bytes
unfolding trim_space has_prefix
close_quote out after =
    let tail = trim_space after in
    if not (is_empty tail) && not (has_prefix tail (codes "#")) then err trailing_text else ok out

unfoldable pub read_quoted : ℕ → Bytes → Bytes → Result Bytes
unfolding close_quote
read_quoted q out [] = err unterminated_quote
read_quoted q out (c ∷ []) = if c == q then close_quote out [] else err unterminated_quote
read_quoted q out (c ∷ d ∷ s) =
    let escaped = read_quoted q (out ++ unescape d) s in
    let plain = read_quoted q (out ++ c ∷ []) (d ∷ s) in
    if c == q then close_quote out (d ∷ s) else if c == b'\\' && q == b'"' then escaped else plain

abbrev uncommented : Bytes → Option Bytes → Bytes
uncommented raw none = raw
uncommented raw (some before) = trim_space before

unfoldable pub parse_env_value : Bytes → Result Bytes
unfolding cut_comment read_quoted trim_space
parse_env_value [] = ok []
parse_env_value (c ∷ s) =
    if not (c == b'\'') && not (c == b'"')
    then ok (uncommented (c ∷ s) (cut_comment true (c ∷ s)))
    else read_quoted c [] s

-- `strings.Split(s, "\n")`
unfoldable pub split_lines : Bytes → Bytes → List Bytes
split_lines line [] = line ∷ []
split_lines line (c ∷ s) =
    let next = line ∷ split_lines [] s in
    let more = split_lines (line ++ c ∷ []) s in if c == b'\n' then next else more

-- One line of `parseEnvFile`, with its number: nothing, or an assignment.
unfoldable pub parse_line : ℕ → Bytes → Result (Option (Bytes × Bytes))
unfolding trim_space has_prefix cut is_env_name parse_env_value
parse_line n text =
    let line = trim_space text in
    let exported = has_prefix line (codes "export ") || has_prefix line (codes "export\t") in
    let body = if exported then trim_space (drop 7 line) else line in
    if is_empty line || has_prefix line (codes "#") then ok none else elim (cut b'=' body) [
      | none ↦ err (invalid_assignment n)
      | some (k, raw) ↦
          let key = trim_space k in
          if not (is_env_name key)
          then err (invalid_assignment n)
          else elim (parse_env_value (trim_space raw)) [
            | err e ↦ err (invalid_value n)
            | ok value ↦ ok (some (key, value))
          ]
    ]

abbrev assign : Option (Bytes × Bytes) → Env → Env
assign none env = env
assign (some (k, v)) env = insert k v env

-- The loop of `parseEnvFile` over the lines.
unfoldable pub parse_lines : ℕ → Env → List Bytes → Result Env
unfolding parse_line insert
parse_lines n env [] = ok env
parse_lines n env (l ∷ ls) = elim (parse_line n l) [
  | err e ↦ err e
  | ok a ↦ parse_lines (n + 1) (assign a env) ls
]

abbrev checked : Env → Option EnvError → Result Env
checked env none = ok env
checked env (some e) = err e

-- The byte order mark in UTF-8.
abbrev byte_order_mark : Bytes
byte_order_mark = 0xef ∷ 0xbb ∷ 0xbf ∷ []

unfoldable pub parse_env_file : Bytes → Result Env
unfolding trim_prefix split_lines parse_lines validate_environment
parse_env_file text = do
  env ← parse_lines 1 [] (split_lines [] (trim_prefix text byte_order_mark))
  checked env (validate_environment env)

-- `for key, value := range values { base[key] = value; result[key] = value }`
unfoldable pub overlay : Env → Env → Env
unfolding insert
overlay env [] = env
overlay env ((k, v) ∷ more) = overlay (insert k v env) more

-- The loop over the environment files, given their contents in order, or `none` for a file that
-- cannot be read: base and result.
unfoldable pub load_files : Env → Env → List (Option Bytes) → Result (Env × Env)
unfolding parse_env_file overlay
load_files base result [] = ok (base, result)
load_files base result (none ∷ more) = err unreadable_file
load_files base result (some text ∷ more) = elim (parse_env_file text) [
  | err e ↦ err e
  | ok values ↦ load_files (overlay base values) (overlay result values) more
]

-- The loop over the inline entries.
unfoldable pub resolve_inline : Env → Env → Env → Result Env
unfolding interpolate_env insert
resolve_inline base result [] = ok result
resolve_inline base result ((k, v) ∷ more) = elim (interpolate_env v base) [
  | err e ↦ err e
  | ok r ↦ resolve_inline base (insert k r result) more
]

-- `resolveEnvironment`, given the inherited variables, the contents of the files and `env`.
unfoldable pub resolve_environment : Env → List (Option Bytes) → Env → Result Env
unfolding load_files resolve_inline validate_environment
resolve_environment inherited files inline = do
  (base, result) ← load_files inherited [] files
  env ← resolve_inline base result inline
  checked env (validate_environment env)
