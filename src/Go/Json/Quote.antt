-- ===== src/Go/Json/Quote.antt =====
-- A string literal is read back as it was written.
use runtime_class_manager.Base.{ℕ, ◌≡◌, refl, some, [], ◌∷◌, ◌++◌, append_assoc, Text, arith}
use runtime_class_manager.Go.Json.Print.{escape_byte, quote_end}
use runtime_class_manager.Go.Json.Parse.{plain, prepend, unquote}

unquote-escape_byte :
    (c : ℕ) (t : Text) → unquote plain (escape_byte c ++ t) ≡ prepend (c ∷ []) (unquote plain t)
unfolding unquote escape_byte
unquote-escape_byte c t = ground arith

pub unquote-quote_end : (s rest : Text) → unquote plain (quote_end s ++ rest) ≡ some (s, rest)
unfolding quote_end unquote
unquote-quote_end [] rest = refl
unquote-quote_end (c ∷ s) rest =
    rw (append_assoc, unquote-escape_byte c) (rw (unquote-quote_end s rest))
