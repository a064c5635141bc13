-- ===== src/State/Reading.antt =====
-- How much fuel the reader of the lock file needs.
use runtime_class_manager.Base.{ℕ, suc, ◌≤◌, ◌≡◌, ap, none, some, [], Text, length, arith}
use runtime_class_manager.Go.Json.Parse.{value, whole, unmarshal}
use runtime_class_manager.Go.Json.Parse.Fuel.{value-fuel}
use runtime_class_manager.State.{shims_of_value, parse_shims}

-- The reader of the lock file never runs out of fuel: with any fuel of at least the length of the
-- text, and however much more, it gives what it gives with the fuel that it has.
parse_shims-fuel :
    (content : Text) (f : ℕ)
    → length content ≤ f
    → parse_shims content
      ≡ (elim (whole (value f content)) [ none ↦ none | some v ↦ shims_of_value v (some []) ])
unfolding parse_shims unmarshal
parse_shims-fuel content f enough =
    ap (λ r. elim (whole r) [ none ↦ none | some v ↦ shims_of_value v (some []) ])
      (value-fuel (suc (length content)) f content (omega arith) enough)
