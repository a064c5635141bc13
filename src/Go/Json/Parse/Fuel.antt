-- ===== src/Go/Json/Parse/Fuel.antt =====
-- How much fuel the reader of JSON needs.
use runtime_class_manager.Base.{
  ℕ, zero, suc, ◌+◌, ◌<◌, ◌≤◌, ◌≡◌, refl, sym, ap, ◌∙◌, Option, none, some, Text, length, arith,
}
use mathlib.Core.Path.{subst⁻¹}
use runtime_class_manager.Go.Json.Value.{Value, Items, nil, cons, Fields, end, field}
use runtime_class_manager.Go.Json.Parse.{
  ◌>>=◌, skip_spaces, plain, unquote, token, separator, expect, after_item, after_field, value,
  items, fields,
}
use runtime_class_manager.Go.Json.Parse.Consuming.{Leaves, unquote-Leaves, token-Shrinks}
use runtime_class_manager.Go.Json.Parse.Settling.{
  Settled, LeavesText, expected, separated, gather, after_item-gather, after_field-gather,
  gather-Settled,
}
use runtime_class_manager.Go.Json.Parse.ByToken.{value_step, by_token-Settled}

-- What follows a value in an array, and in an object.
abbrev item_tail : ℕ → Value × Text → Option (Items × Text)
item_tail f (v, rest) = after_item (items f) v (separator b']' (skip_spaces rest))

abbrev field_tail : ℕ → Text → Value × Text → Option (Fields × Text)
field_tail f k (v, rest) = after_field (fields f) k v (separator b'}' (skip_spaces rest))

abbrev named : ℕ → Text → Text → Option (Fields × Text)
named f k rest = expect b':' (skip_spaces rest) >>= λ colon. value f colon >>= field_tail f k

abbrev opened : ℕ → Text → Option (Fields × Text)
opened f quoted = unquote plain quoted >>= λ (k, rest). named f k rest

items_step : (f : ℕ) (s : Text) → items (suc f) s ≡ (value f s >>= item_tail f)
unfolding items
items_step f s = refl

fields_step : (f : ℕ) (s : Text) → fields (suc f) s ≡ (expect b'"' (skip_spaces s) >>= opened f)
unfolding fields
fields_step f s = refl

items_after :
    (g : ℕ) (s : Text) (r : Option (Value × Text))
    → ((r : Text) → Settled items r (items g r))
    → Settled value s r
    → Settled items s (r >>= item_tail g)
items_after g s none ih h = tt
items_after g s (some (v, rest)) ih (lt, settles) =
    let p = separator b']' (skip_spaces rest) in
    let step : (f : ℕ)
        → length s ≤ f + length rest
        → items (suc f) s ≡ gather (items f) (cons v) (cons v nil) p =
      λ f enough.
        items_step f s
        ∙ (ap (λ r. r >>= item_tail f) (settles f enough) ∙ after_item-gather (items f) v p) in
    subst⁻¹ (Settled items s) (after_item-gather (items g) v p)
      (gather-Settled items s rest (cons v) (cons v nil) p lt (separated b']' rest) step g ih)

module _ (g : ℕ) (ih : (r : Text) → Settled fields r (fields g r)) (s : Text) where
  fields_after :
      (k colon : Text) (r : Option (Value × Text))
      → length colon < length s
      → ((f : ℕ) → fields (suc f) s ≡ (value f colon >>= field_tail f k))
      → Settled value colon r
      → Settled fields s (r >>= field_tail g k)
  fields_after k colon none lt start h = tt
  fields_after k colon (some (v, rest)) lt start (less, settles) =
      let p = separator b'}' (skip_spaces rest) in
      let step : (f : ℕ)
          → length s ≤ f + length rest
          → fields (suc f) s ≡ gather (fields f) (field k v) (field k v end) p =
        λ f enough.
          start f
          ∙ (ap (λ r. r >>= field_tail f k) (settles f (omega (arith, lt)))
              ∙ after_field-gather (fields f) k v p) in
      subst⁻¹ (Settled fields s) (after_field-gather (fields g) k v p) (
        gather-Settled fields s rest (field k v) (field k v end) p (omega (arith, less, lt))
          (separated b'}' rest) step g ih)

  module _ (values : (r : Text) → Settled value r (value g r)) where
    named-Settled :
        (k rest : Text) (o : Option Text)
        → expect b':' (skip_spaces rest) ≡ o
        → LeavesText (length rest) o
        → length rest < length s
        → ((f : ℕ) → fields (suc f) s ≡ named f k rest)
        → Settled fields s (o >>= λ colon. value g colon >>= field_tail g k)
    named-Settled k rest none e less lt start = tt
    named-Settled k rest (some colon) e less lt start =
        fields_after k colon (value g colon) (omega (arith, less, lt))
          (λ f. start f ∙ ap (λ o. o >>= λ colon. value f colon >>= field_tail f k) e)
          (values colon)

    opened-Settled :
        (quoted : Text) (r : Option (Text × Text))
        → unquote plain quoted ≡ r
        → Leaves (length quoted) r
        → length quoted < length s
        → ((f : ℕ) → fields (suc f) s ≡ opened f quoted)
        → Settled fields s (r >>= λ (k, rest). named g k rest)
    opened-Settled quoted none e less lt start = tt
    opened-Settled quoted (some (k, rest)) e less lt start =
        named-Settled k rest (expect b':' (skip_spaces rest)) refl (expected b':' rest)
          (omega (arith, less, lt)) (λ f. start f ∙ ap (λ r. r >>= λ (k, rest). named f k rest) e)

    started-Settled :
        (o : Option Text)
        → expect b'"' (skip_spaces s) ≡ o
        → LeavesText (length s) o
        → Settled fields s (o >>= opened g)
    started-Settled none e less = tt
    started-Settled (some quoted) e less =
        opened-Settled quoted (unquote plain quoted) refl (unquote-Leaves plain quoted) less
          (λ f. fields_step f s ∙ ap (λ o. o >>= opened f) e)

value_empty : (s : Text) → value zero s ≡ none
unfolding value
value_empty s = refl

items_empty : (s : Text) → items zero s ≡ none
unfolding items
items_empty s = refl

fields_empty : (s : Text) → fields zero s ≡ none
unfolding fields
fields_empty s = refl

mutual
  value-Settled : (g : ℕ) (s : Text) → Settled value s (value g s)
  value-Settled zero s = subst⁻¹ (Settled value s) (value_empty s) tt
  value-Settled (suc g) s = subst⁻¹ (Settled value s) (value_step g s) (
      by_token-Settled g (items-Settled g) (fields-Settled g) s (token (skip_spaces s)) refl
        (token-Shrinks (skip_spaces s)))

  items-Settled : (g : ℕ) (s : Text) → Settled items s (items g s)
  items-Settled zero s = subst⁻¹ (Settled items s) (items_empty s) tt
  items-Settled (suc g) s =
      subst⁻¹ (Settled items s) (items_step g s)
        (items_after g s (value g s) (items-Settled g) (value-Settled g s))

  fields-Settled : (g : ℕ) (s : Text) → Settled fields s (fields g s)
  fields-Settled zero s = subst⁻¹ (Settled fields s) (fields_empty s) tt
  fields-Settled (suc g) s = subst⁻¹ (Settled fields s) (fields_step g s) (
      started-Settled g (fields-Settled g) s (value-Settled g) (expect b'"' (skip_spaces s)) refl
        (expected b'"' s))

-- Fuel of the length of the text is enough: with more the reader gives the same.
pub value-fuel : (f g : ℕ) (s : Text) → length s ≤ f → length s ≤ g → value f s ≡ value g s
value-fuel f g s enough enough' =
    go (value f s) (value g s) refl refl (value-Settled f s) (value-Settled g s)
  where
    go :
        (r r' : Option (Value × Text))
        → value f s ≡ r
        → value g s ≡ r'
        → Settled value s r
        → Settled value s r'
        → value f s ≡ value g s
    go r (some (v, rest)) e e' h (less, settles) = settles f (omega arith) ∙ sym e'
    go none none e e' h h' = e ∙ sym e'
    go (some (v, rest)) none e e' (less, settles) h' = e ∙ sym (settles g (omega arith))
