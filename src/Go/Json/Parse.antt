-- ===== src/Go/Json/Parse.antt =====
-- `json.Unmarshal` as far as the tree. `\u` escapes of surrogates give U+FFFD each; Go joins a pair.
pub mod Consuming
pub mod Settling
pub mod ByToken
pub mod Fuel
use runtime_class_manager.Base.{
  ℕ, zero, suc, ◌+◌, ◌*◌, ◌/◌, ◌%◌, Bool, true, false, ◌||◌, ◌&&◌, Option, none, some, [], ◌∷◌,
  ◌++◌, Text, txt, ltb, leb, ◌=ℕ◌, if◌then◌else◌, length, drop,
}
use runtime_class_manager.Go.Json.Value.{
  Value, null, bool, num, str, arr, obj, Items, nil, cons, Fields, end, field,
}
use runtime_class_manager.Go.Strings.{has_prefix}
use runtime_class_manager.Go.Hex.{decode_digit}

infixl 5 ◌>>=◌
abbrev ◌>>=◌ : {A B : Type 0} → Option A → (A → Option B) → Option B
none >>= f = none
some a >>= f = f a

unfoldable pub is_space : ℕ → Bool
is_space c = (c =ℕ b' ') || ((c =ℕ 9) || ((c =ℕ 10) || (c =ℕ 13)))

unfoldable pub skip_spaces : Text → Text
unfolding is_space
skip_spaces [] = []
skip_spaces (c ∷ s) = let rest = skip_spaces s in if is_space c then rest else c ∷ s

-- The UTF-8 bytes of a code point below 65536; a surrogate gives U+FFFD.
utf8 : ℕ → Text
utf8 r =
    if ltb r 128
    then r ∷ []
    else if ltb r 2048
    then (192 + r / 64) ∷ (128 + r % 64) ∷ []
    else if leb 55296 r && ltb r 57344
    then 239 ∷ 191 ∷ 189 ∷ []
    else (224 + r / 4096) ∷ (128 + r / 64 % 64) ∷ (128 + r % 64) ∷ []

-- The byte that `\c` stands for.
reveal : ℕ → Option ℕ
reveal c =
    if (c =ℕ b'"') || ((c =ℕ b'\\') || (c =ℕ b'/'))
    then some c
    else if c =ℕ b'b'
    then some 8
    else if c =ℕ b'f'
    then some 12
    else if c =ℕ b'n'
    then some 10
    else if c =ℕ b'r'
    then some 13
    else if c =ℕ b't'
    then some 9
    else none

-- Where a string literal stands: outside an escape, behind a backslash, or with so many hexadecimal
-- digits to come and the value of those read.
pub data Mode : Type 0 where
  plain escape : Mode
  digits : ℕ → ℕ → Mode

unfoldable pub prepend : Text → Option (Text × Text) → Option (Text × Text)
prepend t none = none
prepend t (some (s, rest)) = some (t ++ s, rest)

-- A string literal behind its opening quote: its text and what follows.
unfoldable pub unquote : Mode → Text → Option (Text × Text)
unfolding utf8 reveal prepend decode_digit
unquote mode [] = none
unquote plain (c ∷ s) =
    let escaped = unquote escape s in
    let copied = prepend (c ∷ []) (unquote plain s) in
    if c =ℕ b'"'
    then some ([], s)
    else if c =ℕ b'\\'
    then escaped
    else if ltb c 32
    then none
    else copied
unquote escape (c ∷ s) =
    let hex = unquote (digits 3 0) s in
    let copied : Option (Text × Text) = elim (reveal c) [
      | none ↦ none
      | some b ↦ prepend (b ∷ []) (unquote plain s)
    ] in
    if c =ℕ b'u' then hex else copied
unquote (digits k acc) (c ∷ s) = elim (decode_digit c) [
  | none ↦ none
  | some d ↦ elim k [
    | zero ↦ prepend (utf8 (acc * 16 + d)) (unquote plain s)
    | suc j ↦ unquote (digits j (acc * 16 + d)) s
  ]
]

is_digit : ℕ → Bool
is_digit c = leb b'0' c && leb c b'9'

-- The digits at the front, and what follows.
span_digits : Text → Text × Text
unfolding is_digit
span_digits [] = ([], [])
span_digits (c ∷ s) =
    let (ds, rest) = span_digits s in if is_digit c then (c ∷ ds, rest) else ([], c ∷ s)

-- One digit or more.
some_digits : Text → Option (Text × Text)
unfolding span_digits
some_digits s =
    let (ds, rest) = span_digits s in elim ds [ [] ↦ none | d ∷ more ↦ some (d ∷ more, rest) ]

sign_part : Text → Text × Text
sign_part [] = ([], [])
sign_part (c ∷ s) = if c =ℕ b'-' then (c ∷ [], s) else ([], c ∷ s)

exponent_sign : Text → Text × Text
exponent_sign [] = ([], [])
exponent_sign (c ∷ s) = if (c =ℕ b'-') || (c =ℕ b'+') then (c ∷ [], s) else ([], c ∷ s)

-- A zero stands alone; any other integer begins with another digit.
integer_part : Text → Option (Text × Text)
unfolding some_digits
integer_part [] = none
integer_part (c ∷ s) = if c =ℕ b'0' then some (c ∷ [], s) else some_digits (c ∷ s)

fraction_part : Text → Option (Text × Text)
unfolding some_digits prepend
fraction_part [] = some ([], [])
fraction_part (c ∷ s) = if c =ℕ b'.' then prepend (c ∷ []) (some_digits s) else some ([], c ∷ s)

exponent_part : Text → Option (Text × Text)
unfolding some_digits exponent_sign prepend
exponent_part [] = some ([], [])
exponent_part (c ∷ s) =
    let (sign, rest) = exponent_sign s in
    if (c =ℕ b'e') || (c =ℕ b'E') then prepend (c ∷ sign) (some_digits rest) else some ([], c ∷ s)

unfoldable pub number : Text → Option (Text × Text)
unfolding sign_part integer_part fraction_part exponent_part
number s = do
  let (sign, rest) = sign_part s
  (whole, rest) ← integer_part rest
  (fraction, rest) ← fraction_part rest
  (exponent, rest) ← exponent_part rest
  some (sign ++ (whole ++ (fraction ++ exponent)), rest)

-- The first token: a value with no parts, an opening bracket, or neither.
pub data Token : Type 0 where
  scalar : Value → Text → Token
  open_array open_object : Text → Token
  bad : Token

word : Text → Value → Text → Token
unfolding has_prefix
word w v s = if has_prefix s w then scalar v (drop (length w) s) else bad

string_token : Option (Text × Text) → Token
string_token none = bad
string_token (some (t, rest)) = scalar (str t) rest

number_token : Option (Text × Text) → Token
number_token none = bad
number_token (some (t, rest)) = scalar (num t) rest

unfoldable pub token : Text → Token
unfolding word string_token number_token txt
token [] = bad
token (c ∷ s) =
    if c =ℕ b'"'
    then string_token (unquote plain s)
    else if c =ℕ b'{'
    then open_object s
    else if c =ℕ b'['
    then open_array s
    else if c =ℕ b'n'
    then word (txt "null") null (c ∷ s)
    else if c =ℕ b't'
    then word (txt "true") (bool true) (c ∷ s)
    else if c =ℕ b'f'
    then word (txt "false") (bool false) (c ∷ s)
    else number_token (number (c ∷ s))

-- What stands behind an element: a comma, the closing bracket `close`, or neither.
pub data Separator : Type 0 where
  comma closed : Text → Separator
  wrong : Separator

unfoldable pub separator : ℕ → Text → Separator
separator close [] = wrong
separator close (c ∷ s) = if c =ℕ b',' then comma s else if c =ℕ close then closed s else wrong

-- The text behind an expected byte.
unfoldable pub expect : ℕ → Text → Option Text
expect b [] = none
expect b (c ∷ s) = if c =ℕ b then some s else none

-- What stands behind an element or a field, and the reader of the rest.
unfoldable pub after_item :
    (Text → Option (Items × Text)) → Value → Separator → Option (Items × Text)
after_item rest_items v (comma more) = do (vs, after) ← rest_items more; some (cons v vs, after)
after_item rest_items v (closed after) = some (cons v nil, after)
after_item rest_items v wrong = none

unfoldable pub after_field :
    (Text → Option (Fields × Text)) → Text → Value → Separator → Option (Fields × Text)
after_field rest_fields k v (comma more) = do
  (fs, after) ← rest_fields more
  some (field k v fs, after)
after_field rest_fields k v (closed after) = some (field k v end, after)
after_field rest_fields k v wrong = none

-- Each takes fuel, a bound on the length of the text.
unfoldable mutual
  pub value : ℕ → Text → Option (Value × Text)
  value zero s = none
  value (suc f) s = elim (token (skip_spaces s)) [
    | scalar v rest ↦ some (v, rest)
    | open_array rest ↦ elim (expect b']' (skip_spaces rest)) [
      | some after ↦ some (arr nil, after)
      | none ↦ do (vs, after) ← items f rest; some (arr vs, after)
    ]
    | open_object rest ↦ elim (expect b'}' (skip_spaces rest)) [
      | some after ↦ some (obj end, after)
      | none ↦ do (fs, after) ← fields f rest; some (obj fs, after)
    ]
    | bad ↦ none
  ]

  pub items : ℕ → Text → Option (Items × Text)
  items zero s = none
  items (suc f) s = do
    (v, rest) ← value f s
    after_item (items f) v (separator b']' (skip_spaces rest))

  pub fields : ℕ → Text → Option (Fields × Text)
  fields zero s = none
  fields (suc f) s = do
    open_quote ← expect b'"' (skip_spaces s)
    (k, rest) ← unquote plain open_quote
    colon ← expect b':' (skip_spaces rest)
    (v, rest) ← value f colon
    after_field (fields f) k v (separator b'}' (skip_spaces rest))

-- Only spaces may follow the value.
unfoldable pub whole : Option (Value × Text) → Option Value
unfolding skip_spaces
whole none = none
whole (some (v, rest)) = elim (skip_spaces rest) [ [] ↦ some v | _ ↦ none ]

-- `json.Unmarshal`, as far as the tree: `none` on a syntax error.
unfoldable pub unmarshal : Text → Option Value
unfolding value whole after_item after_field token number unquote separator expect skip_spaces
unmarshal s = whole (value (suc (length s)) s)
