-- ===== src/Go/Json/Parse/Settling.antt =====
-- Readings of JSON that more fuel does not change: what stands behind an element of a list.
use runtime_class_manager.Base.{
  ℕ, zero, suc, ◌+◌, ◌<◌, ◌≤◌, ◌≡◌, refl, ap, ◌∙◌, Option, none, some, [], ◌∷◌, Text, ◌=ℕ◌, length,
  arith, Bool-cases, inl, inr,
}
use runtime_class_manager.Go.Json.Value.{Value, Items, nil, cons, Fields, end, field}
use runtime_class_manager.Go.Json.Parse.{
  ◌>>=◌, skip_spaces, Separator, comma, closed, wrong, separator, expect, after_item, after_field,
}
use runtime_class_manager.Go.Json.Parse.Consuming.{length-skip_spaces}

-- A reading that goes through leaves less than there was, and goes through in the same way with any
-- fuel that is as much as what it takes off the text.
abbrev pub Settled :
    {A : Type 0} → (ℕ → Text → Option (A × Text)) → Text → Option (A × Text) → Type 0
Settled read s none = Unit {0}
Settled read s (some (a, rest)) =
    (length rest < length s) × ((f : ℕ) → length s ≤ f + length rest → read f s ≡ some (a, rest))

abbrev pub LeavesText : ℕ → Option Text → Type 0
LeavesText n none = Unit {0}
LeavesText n (some rest) = length rest < n

expect-Leaves : (b : ℕ) (s : Text) → LeavesText (length s) (expect b s)
unfolding expect
expect-Leaves b [] = tt
expect-Leaves b (c ∷ s) = elim (Bool-cases (c =ℕ b)) [
  | inl same ↦ rw same (omega arith)
  | inr other ↦ rw other tt
]

lower : (n k : ℕ) (o : Option Text) → n ≤ k → LeavesText n o → LeavesText k o
lower n k none le h = tt
lower n k (some rest) le h = omega arith

-- An expected byte behind spaces.
pub expected : (b : ℕ) (s : Text) → LeavesText (length s) (expect b (skip_spaces s))
expected b s =
    lower (length (skip_spaces s)) (length s) (expect b (skip_spaces s)) (length-skip_spaces s)
      (expect-Leaves b (skip_spaces s))

abbrev Separates : ℕ → Separator → Type 0
Separates n (comma more) = length more < n
Separates n (closed after) = length after < n
Separates n wrong = Unit {0}

separator-Separates : (close : ℕ) (s : Text) → Separates (length s) (separator close s)
unfolding separator
separator-Separates close [] = tt
separator-Separates close (c ∷ s) = elim (Bool-cases (c =ℕ b',')) [
  | inl same ↦ rw same (omega arith)
  | inr a ↦ elim (Bool-cases (c =ℕ close)) [
    | inl same ↦ rw (a, same) (omega arith)
    | inr other ↦ rw (a, other) tt
  ]
]

wider : (n k : ℕ) (p : Separator) → n ≤ k → Separates n p → Separates k p
wider n k (comma more) le h = omega arith
wider n k (closed after) le h = omega arith
wider n k wrong le h = tt

-- A separator behind spaces.
pub separated : (close : ℕ) (s : Text) → Separates (length s) (separator close (skip_spaces s))
separated close s =
    wider (length (skip_spaces s)) (length s) (separator close (skip_spaces s))
      (length-skip_spaces s) (separator-Separates close (skip_spaces s))

-- What stands behind an element.
abbrev pub gather :
    {A : Type 0} → (Text → Option (A × Text)) → (A → A) → A → Separator → Option (A × Text)
gather rest add single (comma more) = do (xs, after) ← rest more; some (add xs, after)
gather rest add single (closed after) = some (single, after)
gather rest add single wrong = none

pub after_item-gather :
    (rest : Text → Option (Items × Text)) (v : Value) (p : Separator)
    → after_item rest v p ≡ gather rest (cons v) (cons v nil) p
unfolding after_item
after_item-gather rest v (comma more) = refl
after_item-gather rest v (closed after) = refl
after_item-gather rest v wrong = refl

pub after_field-gather :
    (rest : Text → Option (Fields × Text)) (k : Text) (v : Value) (p : Separator)
    → after_field rest k v p ≡ gather rest (field k v) (field k v end) p
unfolding after_field
after_field-gather rest k v (comma more) = refl
after_field-gather rest k v (closed after) = refl
after_field-gather rest k v wrong = refl

module _ {A : Type 0} (read : ℕ → Text → Option (A × Text)) (s t : Text) (add : A → A) (single : A)
    (p : Separator) (shorter : length t < length s) (separates : Separates (length t) p)
    (step : (f : ℕ) → length s ≤ f + length t → read (suc f) s ≡ gather (read f) add single p) where
  more-Settled :
      (more : Text) (r : Option (A × Text))
      → p ≡ comma more
      → length more < length t
      → Settled read more r
      → Settled read s (r >>= λ (xs, after). some (add xs, after))
  more-Settled more none e lt h = tt
  more-Settled more (some (xs, after)) e lt (less, settles) =
      (omega arith, λ f enough. fueled f enough)
    where
      fueled : (f : ℕ) → length s ≤ f + length after → read f s ≡ some (add xs, after)
      fueled zero enough = absurd (omega (arith, lt, less, shorter))
      fueled (suc f) enough =
          let settled = settles f (omega (arith, lt, less, shorter)) in
          step f (omega (arith, lt, less, shorter))
          ∙ (ap (gather (read f) add single) e
              ∙ ap (λ r. r >>= λ (xs, after). some (add xs, after)) settled)

  closed-Settled :
      (after : Text)
      → p ≡ closed after
      → length after < length t
      → Settled read s (some (single, after))
  closed-Settled after e lt = (omega (arith, lt, shorter), fueled)
    where
      fueled : (f : ℕ) → length s ≤ f + length after → read f s ≡ some (single, after)
      fueled zero enough = absurd (omega (arith, lt, shorter))
      fueled (suc f) enough =
          step f (omega (arith, lt, shorter)) ∙ ap (gather (read f) add single) e

  pub gather-Settled :
      (g : ℕ)
      → ((more : Text) → Settled read more (read g more))
      → Settled read s (gather (read g) add single p)
  gather-Settled g ih = go p refl separates
    where
      go :
          (q : Separator)
          → p ≡ q
          → Separates (length t) q
          → Settled read s (gather (read g) add single q)
      go (comma more) e lt = more-Settled more (read g more) e lt (ih more)
      go (closed after) e lt = closed-Settled after e lt
      go wrong e lt = tt
