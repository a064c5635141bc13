-- ===== src/Go/Json/Print.antt =====
-- `json.Marshal` and `json.MarshalIndent(v, "", " ")` on the tree. Strings are ASCII, or UTF-8 with
-- no U+2028 and U+2029, which pass through as they are.
use runtime_class_manager.Base.{
  ℕ, zero, suc, ◌/◌, ◌%◌, Bool, true, false, ◌||◌, [], ◌∷◌, ◌++◌, Text, txt, ltb, ◌=ℕ◌,
  if◌then◌else◌,
}
use runtime_class_manager.Go.Json.Value.{
  Value, null, bool, num, str, arr, obj, Items, nil, cons, Fields, end, field,
}
use runtime_class_manager.Go.Hex.{encode_digit}

-- The bytes that Go escapes by `\u00xx`: control characters and, for HTML, `<`, `>` and `&`.
unfoldable pub is_hidden : ℕ → Bool
is_hidden c = ltb c 32 || ((c =ℕ b'<') || ((c =ℕ b'>') || (c =ℕ b'&')))

-- One byte of a string literal.
unfoldable pub escape_byte : ℕ → Text
unfolding is_hidden encode_digit
escape_byte c =
    if c =ℕ b'"'
    then b'\\' ∷ b'"' ∷ []
    else if c =ℕ b'\\'
    then b'\\' ∷ b'\\' ∷ []
    else if c =ℕ 8
    then b'\\' ∷ b'b' ∷ []
    else if c =ℕ 12
    then b'\\' ∷ b'f' ∷ []
    else if c =ℕ 10
    then b'\\' ∷ b'n' ∷ []
    else if c =ℕ 13
    then b'\\' ∷ b'r' ∷ []
    else if c =ℕ 9
    then b'\\' ∷ b't' ∷ []
    else if is_hidden c
    then b'\\' ∷ b'u' ∷ b'0' ∷ b'0' ∷ encode_digit (c / 16) ∷ encode_digit (c % 16) ∷ []
    else c ∷ []

-- The rest of a string literal, with its closing quote.
unfoldable pub quote_end : Text → Text
unfolding escape_byte
quote_end [] = b'"' ∷ []
quote_end (c ∷ s) = escape_byte c ++ quote_end s

-- How a printer lays its output out: what starts a line at a depth, and what follows a colon.
pub record Layout : Type 0 where
  pub line : ℕ → Text
  pub gap : Text

abbrev pub compact : Layout
compact = record { line = λ _. []; gap = [] }

unfoldable pub spaces : ℕ → Text
spaces zero = []
spaces (suc n) = b' ' ∷ spaces n

-- `MarshalIndent` with no prefix and an indent of one space.
unfoldable pub indented : Layout
unfolding spaces
indented = record { line = λ d. 10 ∷ spaces d; gap = b' ' ∷ [] }

module _ (l : Layout) where
  -- The rest of a list behind its first element stands in the `more` functions.
  unfoldable mutual
    pub print : ℕ → Value → Text
    print d null = txt "null"
    print d (bool true) = txt "true"
    print d (bool false) = txt "false"
    print d (num n) = n
    print d (str s) = b'"' ∷ quote_end s
    print d (arr nil) = txt "[]"
    print d (arr (cons v vs)) = b'[' ∷ (l.line (suc d) ++ (print (suc d) v ++ more_items d vs))
    print d (obj end) = txt "{}"
    print d (obj (field k v fs)) =
        b'{'
        ∷ (l.line (suc d)
            ++ (b'"' ∷ (quote_end k ++ (b':' ∷ (l.gap ++ (print (suc d) v ++ more_fields d fs))))))

    pub more_items : ℕ → Items → Text
    more_items d nil = l.line d ++ (b']' ∷ [])
    more_items d (cons v vs) = b',' ∷ (l.line (suc d) ++ (print (suc d) v ++ more_items d vs))

    pub more_fields : ℕ → Fields → Text
    more_fields d end = l.line d ++ (b'}' ∷ [])
    more_fields d (field k v fs) =
        b','
        ∷ (l.line (suc d)
            ++ (b'"' ∷ (quote_end k ++ (b':' ∷ (l.gap ++ (print (suc d) v ++ more_fields d fs))))))

-- `json.Marshal`
unfoldable pub marshal : Value → Text
unfolding print quote_end
marshal = print compact 0

-- `json.MarshalIndent(v, "", " ")`
unfoldable pub marshal_indent : Value → Text
unfolding print quote_end indented
marshal_indent = print indented 0
