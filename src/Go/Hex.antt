-- ===== src/Go/Hex.antt =====
-- `hex.EncodeToString` and `hex.DecodeString`.
use runtime_class_manager.Base.{
  ℕ, ◌+◌, ◌-◌, ◌*◌, ◌/◌, ◌%◌, ◌<◌, ◌≡◌, refl, ◌&&◌, ltb, leb, if◌then◌else◌, Option, none, some, [],
  ◌∷◌, Text, All, arith,
}

unfoldable pub encode_digit : ℕ → ℕ
encode_digit n = if ltb n 10 then n + b'0' else n - 10 + b'a'

unfoldable pub decode_digit : ℕ → Option ℕ
decode_digit c =
    if leb b'0' c && leb c b'9'
    then some (c - b'0')
    else if leb b'a' c && leb c b'f'
    then some (c - b'a' + 10)
    else if leb b'A' c && leb c b'F'
    then some (c - b'A' + 10)
    else none

-- `hex.EncodeToString`
unfoldable pub encode : Text → Text
unfolding encode_digit
encode [] = []
encode (b ∷ bs) = encode_digit (b / 16) ∷ encode_digit (b % 16) ∷ encode bs

byte_of : Option ℕ → Option ℕ → Option Text → Option Text
byte_of (some h) (some l) (some bs) = some ((h * 16 + l) ∷ bs)
byte_of _ _ _ = none

-- `hex.DecodeString`: `none` on an odd length or a byte that is no digit.
unfoldable pub decode : Text → Option Text
unfolding decode_digit byte_of
decode [] = some []
decode (c ∷ []) = none
decode (c ∷ d ∷ cs) = byte_of (decode_digit c) (decode_digit d) (decode cs)

pub decode_digit-encode_digit : (n : ℕ) → n < 16 → decode_digit (encode_digit n) ≡ some n
unfolding decode_digit encode_digit
decode_digit-encode_digit n h = ground arith

-- Decoding takes every byte string back from its encoding.
pub decode-encode : (bs : Text) → All (λ b. b < 256) bs → decode (encode bs) ≡ some bs
unfolding decode encode
decode-encode [] h = refl
decode-encode (b ∷ bs) h =
    rw
      (
        decode_digit-encode_digit (b / 16) (omega (arith, h.0)),
        decode_digit-encode_digit (b % 16) (omega arith),
        decode-encode bs h.1,
      )
      (ground (arith, h.0))
