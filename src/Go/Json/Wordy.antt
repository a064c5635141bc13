-- ===== src/Go/Json/Wordy.antt =====
-- Trees without numbers, layouts that add spaces, and the steps of the reader on them.
use runtime_class_manager.Base.{
  ℕ, zero, suc, ◌≡◌, refl, sym, ap, ◌∙◌, ◌+◌, ◌≤◌, true, false, none, some, [], ◌∷◌, ◌++◌,
  append_assoc, append-nil, Text, txt, arith, length, length-append,
}
use runtime_class_manager.Go.Json.Value.{
  Value, null, bool, num, str, arr, obj, Items, nil, cons, Fields, end, field,
}
use runtime_class_manager.Go.Json.Print.{Layout}
use runtime_class_manager.Go.Json.Parse.{
  plain, skip_spaces, unquote, separator, expect, token, after_item, after_field, value, items,
  fields,
}

-- No number in the tree.
unfoldable mutual
  pub IsWordy : Value → Type 0
  IsWordy null = Unit
  IsWordy (bool b) = Unit
  IsWordy (num n) = ⊥
  IsWordy (str s) = Unit
  IsWordy (arr vs) = AreWordy vs
  IsWordy (obj fs) = FieldsAreWordy fs

  pub AreWordy : Items → Type 0
  AreWordy nil = Unit
  AreWordy (cons v vs) = IsWordy v × AreWordy vs

  pub FieldsAreWordy : Fields → Type 0
  FieldsAreWordy end = Unit
  FieldsAreWordy (field k v fs) = IsWordy v × FieldsAreWordy fs

-- The layout adds only spaces.
pub record IsBlank (l : Layout) : Type 0 where
  pub line-IsBlank : (d : ℕ) (t : Text) → skip_spaces (l.line d ++ t) ≡ skip_spaces t
  pub gap-IsBlank : (t : Text) → skip_spaces (l.gap ++ t) ≡ skip_spaces t

pub length-append_bytes : (xs ys : Text) → length (xs ++ ys) ≡ length xs + length ys
length-append_bytes = length-append

pub ruleset lengths = (arith, length-append_bytes)

-- Enough fuel for an element and what follows it.
pub predecessors : (f n : ℕ) → n + 2 ≤ f → (g : ℕ) × (f ≡ suc (suc g)) × (n ≤ g)
predecessors zero n h = absurd (omega arith)
predecessors (suc zero) n h = absurd (omega arith)
predecessors (suc (suc g)) n h = (g, refl, omega arith)

-- The readers of lists, an element at a time.
pub value-array :
    (f : ℕ) (s t rest : Text) (vs : Items)
    → skip_spaces s ≡ b'[' ∷ t
    → expect b']' (skip_spaces t) ≡ none
    → items f t ≡ some (vs, rest)
    → value (suc f) s ≡ some (arr vs, rest)
unfolding value token
value-array f s t rest vs opens other read =
    rw (opens, value) (rw (other, value) (rw (read, value) refl))

pub value-object :
    (f : ℕ) (s t rest : Text) (fs : Fields)
    → skip_spaces s ≡ b'{' ∷ t
    → expect b'}' (skip_spaces t) ≡ none
    → fields f t ≡ some (fs, rest)
    → value (suc f) s ≡ some (obj fs, rest)
unfolding value token
value-object f s t rest fs opens other read =
    rw (opens, value) (rw (other, value) (rw (read, value) refl))

pub items-cons :
    (f : ℕ) (s t rest : Text) (v : Value) (vs : Items)
    → value f s ≡ some (v, t)
    → after_item (items f) v (separator b']' (skip_spaces t)) ≡ some (cons v vs, rest)
    → items (suc f) s ≡ some (cons v vs, rest)
unfolding items
items-cons f s t rest v vs read more = rw (read, items) more

pub fields-field :
    (f : ℕ) (s t u x y rest : Text) (k : Text) (v : Value) (fs : Fields)
    → skip_spaces s ≡ b'"' ∷ t
    → unquote plain t ≡ some (k, u)
    → skip_spaces u ≡ b':' ∷ x
    → value f x ≡ some (v, y)
    → after_field (fields f) k v (separator b'}' (skip_spaces y)) ≡ some (field k v fs, rest)
    → fields (suc f) s ≡ some (field k v fs, rest)
unfolding fields expect
fields-field f s t u x y rest k v fs quote name colon read more =
    rw (quote, fields) (rw (name, fields) (rw (colon, fields) (rw (read, fields) more)))
