-- ===== src/Go/Json/Parse/Consuming.antt =====
-- What the readers of tokens leave of a text: less than there was.
use runtime_class_manager.Base.{
  ℕ, zero, suc, ◌+◌, ◌*◌, ◌<◌, ◌≤◌, ◌≡◌, Bool, true, false, ◌||◌, Option, none, some, [], ◌∷◌, Text,
  txt, ltb, ◌=ℕ◌, if◌then◌else◌, length, drop, arith, Bool-cases, Option-cases, inl, inr,
}
use runtime_class_manager.Go.Json.Value.{Value, null, bool}
use runtime_class_manager.Go.Strings.{has_prefix}
use runtime_class_manager.Go.Hex.{decode_digit}
use runtime_class_manager.Go.Json.Parse.{
  ◌>>=◌, skip_spaces, utf8, reveal, Mode, plain, escape, digits, prepend, unquote, is_digit,
  span_digits, some_digits, sign_part, exponent_sign, integer_part, fraction_part, exponent_part,
  number, Token, scalar, open_array, open_object, bad, word, string_token, number_token, token,
}

pub length-skip_spaces : (s : Text) → length (skip_spaces s) ≤ length s
unfolding skip_spaces
length-skip_spaces [] = omega arith
length-skip_spaces (c ∷ s) = ground (arith, length-skip_spaces s)

-- A reader that leaves less than a bound, if it goes through.
abbrev pub Leaves : {A : Type 0} → ℕ → Option (A × Text) → Type 0
Leaves n none = Unit {0}
Leaves n (some (a, rest)) = length rest < n

abbrev pub LeavesAtMost : {A : Type 0} → ℕ → Option (A × Text) → Type 0
LeavesAtMost n r = Leaves (suc n) r

prepend-Leaves :
    (n k : ℕ) (t : Text) (r : Option (Text × Text)) → n ≤ k → Leaves n r → Leaves k (prepend t r)
unfolding prepend
prepend-Leaves n k t none le h = tt
prepend-Leaves n k t (some (a, rest)) le h = omega arith

weaken : {A : Type 0} (n k : ℕ) (r : Option (A × Text)) → n ≤ k → Leaves n r → Leaves k r
weaken n k none le h = tt
weaken n k (some (a, rest)) le h = omega arith

after_digit-Leaves :
    (n : ℕ) (o : Option ℕ) (f : ℕ → Option (Text × Text))
    → ((d : ℕ) → Leaves n (f d))
    → Leaves n (elim o [ none ↦ none | some d ↦ f d ])
after_digit-Leaves n none f h = tt
after_digit-Leaves n (some d) f h = h d

pub unquote-Leaves : (mode : Mode) (s : Text) → Leaves (length s) (unquote mode s)
unfolding unquote
unquote-Leaves mode [] = tt
unquote-Leaves plain (c ∷ s) = elim (Bool-cases (c =ℕ b'"')) [
  | inl quote ↦ rw quote (omega arith)
  | inr a ↦ elim (Bool-cases (c =ℕ b'\\')) [
    | inl slash ↦
        rw (a, slash)
          (weaken _ (suc (length s)) (unquote escape s) (omega arith) (unquote-Leaves escape s))
    | inr b ↦ elim (Bool-cases (ltb c 32)) [
      | inl control ↦ rw (a, b, control) tt
      | inr copied ↦
          rw (a, b, copied)
            (prepend-Leaves (length s) (suc (length s)) (c ∷ []) (unquote plain s) (omega arith)
              (unquote-Leaves plain s))
    ]
  ]
]
unquote-Leaves escape (c ∷ s) = elim (Bool-cases (c =ℕ b'u')) [
  | inl hex ↦ rw hex (
      weaken _ (suc (length s)) (unquote (digits 3 0) s) (omega arith)
        (unquote-Leaves (digits 3 0) s))
  | inr a ↦ elim (Option-cases (reveal c)) [
    | inl unknown ↦ rw (a, unknown) tt
    | inr (b, e) ↦
        rw (a, e)
          (prepend-Leaves (length s) (suc (length s)) (b ∷ []) (unquote plain s) (omega arith)
            (unquote-Leaves plain s))
  ]
]
unquote-Leaves (digits zero acc) (c ∷ s) =
    after_digit-Leaves (suc (length s)) (decode_digit c)
      (λ d. prepend (utf8 (acc * 16 + d)) (unquote plain s))
      (λ d.
        prepend-Leaves (length s) (suc (length s)) (utf8 (acc * 16 + d)) (unquote plain s)
          (omega arith) (unquote-Leaves plain s))
unquote-Leaves (digits (suc j) acc) (c ∷ s) =
    after_digit-Leaves (suc (length s)) (decode_digit c) (λ d. unquote (digits j (acc * 16 + d)) s)
      (λ d.
        weaken _ (suc (length s)) (unquote (digits j (acc * 16 + d)) s) (omega arith)
          (unquote-Leaves (digits j (acc * 16 + d)) s))

length-span_digits : (s : Text) → length (span_digits s).1 ≤ length s
unfolding span_digits
length-span_digits [] = omega arith
length-span_digits (c ∷ s) = ground (arith, length-span_digits s)

some_digits-Leaves : (s : Text) → Leaves (length s) (some_digits s)
unfolding some_digits span_digits
some_digits-Leaves [] = tt
some_digits-Leaves (c ∷ s) = elim (Bool-cases (is_digit c)) [
  | inl digit ↦
      let step : some_digits (c ∷ s) ≡ some (c ∷ (span_digits s).0, (span_digits s).1) =
        ground (arith, digit) in
      rw step (omega (arith, length-span_digits s))
  | inr other ↦ let step : some_digits (c ∷ s) ≡ none = ground (arith, other) in rw step tt
]

integer_part-Leaves : (s : Text) → Leaves (length s) (integer_part s)
unfolding integer_part
integer_part-Leaves [] = tt
integer_part-Leaves (c ∷ s) = elim (Bool-cases (c =ℕ b'0')) [
  | inl zero_first ↦ rw zero_first (omega arith)
  | inr other ↦ rw other (some_digits-Leaves (c ∷ s))
]

fraction_part-Leaves : (s : Text) → LeavesAtMost (length s) (fraction_part s)
unfolding fraction_part
fraction_part-Leaves [] = omega arith
fraction_part-Leaves (c ∷ s) = elim (Bool-cases (c =ℕ b'.')) [
  | inl point ↦ rw point (
      prepend-Leaves (length s) (suc (suc (length s))) (c ∷ []) (some_digits s) (omega arith)
        (some_digits-Leaves s))
  | inr other ↦ rw other (omega arith)
]

length-exponent_sign : (s : Text) → length (exponent_sign s).1 ≤ length s
unfolding exponent_sign
length-exponent_sign [] = omega arith
length-exponent_sign (c ∷ s) = ground arith

exponent_part-Leaves : (s : Text) → LeavesAtMost (length s) (exponent_part s)
unfolding exponent_part
exponent_part-Leaves [] = omega arith
exponent_part-Leaves (c ∷ s) = elim (Bool-cases ((c =ℕ b'e') || (c =ℕ b'E'))) [
  | inl marked ↦
      let rest = (exponent_sign s).1 in
      let shorter = length-exponent_sign s in
      rw marked (
        prepend-Leaves (length rest) (suc (suc (length s))) (c ∷ (exponent_sign s).0)
          (some_digits rest) (omega arith) (some_digits-Leaves rest))
  | inr other ↦ rw other (omega arith)
]

length-sign_part : (s : Text) → length (sign_part s).1 ≤ length s
unfolding sign_part
length-sign_part [] = omega arith
length-sign_part (c ∷ s) = ground arith

bind-Leaves :
    {A B : Type 0} (n k : ℕ) (r : Option (A × Text)) (f : A × Text → Option (B × Text))
    → Leaves n r
    → ((a : A) (rest : Text) → length rest < n → Leaves k (f (a, rest)))
    → Leaves k (r >>= f)
bind-Leaves n k none f h after = tt
bind-Leaves n k (some (a, rest)) f h after = after a rest h

number-Leaves : (s : Text) → Leaves (length s) (number s)
unfolding number
number-Leaves s =
    let start = (sign_part s).1 in
    weaken (length start) (length s) (number s) (length-sign_part s) (
      bind-Leaves (length start) (length start) (integer_part start) _ (integer_part-Leaves start)
        (λ whole r1 h1.
          bind-Leaves (suc (length r1)) (length start) (fraction_part r1) _
            (fraction_part-Leaves r1)
            (λ fraction r2 h2.
              bind-Leaves (suc (length r2)) (length start) (exponent_part r2) _
                (exponent_part-Leaves r2) (λ exponent r3 h3. omega arith))))

-- A token leaves less than there was.
abbrev pub Shrinks : ℕ → Token → Type 0
Shrinks n (scalar v rest) = length rest < n
Shrinks n (open_array rest) = length rest < n
Shrinks n (open_object rest) = length rest < n
Shrinks n bad = Unit {0}

length-drop :
    (w : Text) (s : Text) → has_prefix s w ≡ true → length (drop (length w) s) + length w ≡ length s
unfolding has_prefix
length-drop [] s h = omega arith
length-drop (c ∷ w) [] h = absurd (ground arith)
length-drop (c ∷ w) (d ∷ s) h = omega (arith, length-drop w s (ground (arith, h)))

word-Shrinks : (c : ℕ) (w : Text) (v : Value) (s : Text) → Shrinks (length s) (word (c ∷ w) v s)
unfolding word
word-Shrinks c w v s = elim (Bool-cases (has_prefix s (c ∷ w))) [
  | inl found ↦ rw (found, word) (omega (arith, length-drop (c ∷ w) s found))
  | inr missing ↦ rw (missing, word) tt
]

string_token-Shrinks :
    (n k : ℕ) (r : Option (Text × Text)) → n ≤ k → Leaves n r → Shrinks k (string_token r)
unfolding string_token
string_token-Shrinks n k none le h = tt
string_token-Shrinks n k (some (t, rest)) le h = omega arith

number_token-Shrinks : (n : ℕ) (r : Option (Text × Text)) → Leaves n r → Shrinks n (number_token r)
unfolding number_token
number_token-Shrinks n none h = tt
number_token-Shrinks n (some (t, rest)) h = h

if_Shrinks :
    (n : ℕ) (b : Bool) (t t' : Token) → Shrinks n t → Shrinks n t' → Shrinks n (if b then t else t')
if_Shrinks n true t t' h h' = h
if_Shrinks n false t t' h h' = h'

pub token-Shrinks : (s : Text) → Shrinks (length s) (token s)
unfolding token txt
token-Shrinks [] = tt
token-Shrinks (c ∷ s) =
    let n = suc (length s) in
    let one = if_Shrinks n in
    let words : (c' : ℕ) (w : Text) (v : Value) → Shrinks n (word (c' ∷ w) v (c ∷ s)) =
      λ c' w v. word-Shrinks c' w v (c ∷ s) in
    one (c =ℕ b'"') (string_token (unquote plain s)) _
      (string_token-Shrinks (length s) n (unquote plain s) (omega arith) (unquote-Leaves plain s))
      (one (c =ℕ b'{') (open_object s) _ (omega arith) (
        one (c =ℕ b'[') (open_array s) _ (omega arith) (
          one (c =ℕ b'n') (word (txt "null") null (c ∷ s)) _
            (words b'n' (b'u' ∷ b'l' ∷ b'l' ∷ []) null)
            (one (c =ℕ b't') (word (txt "true") (bool true) (c ∷ s)) _
              (words b't' (b'r' ∷ b'u' ∷ b'e' ∷ []) (bool true))
              (one (c =ℕ b'f') (word (txt "false") (bool false) (c ∷ s))
                (number_token (number (c ∷ s)))
                (words b'f' (b'a' ∷ b'l' ∷ b's' ∷ b'e' ∷ []) (bool false))
                (number_token-Shrinks n (number (c ∷ s)) (number-Leaves (c ∷ s))))))))
