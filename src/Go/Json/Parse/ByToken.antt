-- ===== src/Go/Json/Parse/ByToken.antt =====
-- Readings of JSON that more fuel does not change: a value by its first token.
use runtime_class_manager.Base.{
  ℕ, zero, suc, ◌+◌, ◌<◌, ◌≤◌, ◌≡◌, refl, ap, ◌∙◌, Option, none, some, Text, length, arith,
}
use mathlib.Core.Path.{subst⁻¹}
use runtime_class_manager.Go.Json.Value.{Value, arr, obj, nil, end}
use runtime_class_manager.Go.Json.Parse.{
  ◌>>=◌, skip_spaces, Token, scalar, open_array, open_object, bad, token, expect, value, items,
  fields,
}
use runtime_class_manager.Go.Json.Parse.Consuming.{length-skip_spaces, Shrinks}
use runtime_class_manager.Go.Json.Parse.Settling.{Settled, LeavesText, expected}

-- `value` behind its first token.
abbrev pub by_token : ℕ → Token → Option (Value × Text)
by_token f (scalar v rest) = some (v, rest)
by_token f (open_array rest) = elim (expect b']' (skip_spaces rest)) [
  | some after ↦ some (arr nil, after)
  | none ↦ (items f rest >>= λ (vs, after). some (arr vs, after))
]
by_token f (open_object rest) = elim (expect b'}' (skip_spaces rest)) [
  | some after ↦ some (obj end, after)
  | none ↦ (fields f rest >>= λ (fs, after). some (obj fs, after))
]
by_token f bad = none

pub value_step : (f : ℕ) (s : Text) → value (suc f) s ≡ by_token f (token (skip_spaces s))
unfolding value
value_step f s = go (token (skip_spaces s))
  where
    go :
        (t : Token)
        → elim t [
          | scalar v rest ↦ some (v, rest)
          | open_array rest ↦ elim (expect b']' (skip_spaces rest)) [
            | some after ↦ some (arr nil, after)
            | none ↦ (items f rest >>= λ (vs, after). some (arr vs, after))
          ]
          | open_object rest ↦ elim (expect b'}' (skip_spaces rest)) [
            | some after ↦ some (obj end, after)
            | none ↦ (fields f rest >>= λ (fs, after). some (obj fs, after))
          ]
          | bad ↦ none
        ]
          ≡ by_token f t
    go (scalar v rest) = refl
    go (open_array rest) = refl
    go (open_object rest) = refl
    go bad = refl

module _ (s : Text) (t : Token) (e : token (skip_spaces s) ≡ t) where
  -- A value that needs no more fuel.
  now-Settled :
      (v : Value) (rest : Text)
      → length rest < length s
      → ((f : ℕ) → by_token f t ≡ some (v, rest))
      → Settled value s (some (v, rest))
  now-Settled v rest lt h = (lt, fueled)
    where
      fueled : (f : ℕ) → length s ≤ f + length rest → value f s ≡ some (v, rest)
      fueled zero enough = absurd (omega (arith, lt))
      fueled (suc f) enough = value_step f s ∙ (ap (by_token f) e ∙ h f)

  -- An array or an object that is not empty.
  nested-Settled :
      {A : Type 0} (read : ℕ → Text → Option (A × Text)) (make : A → Value) (inner : Text)
      (r : Option (A × Text))
      → length inner < length s
      → ((f : ℕ) → by_token f t ≡ (read f inner >>= λ (xs, after). some (make xs, after)))
      → Settled read inner r
      → Settled value s (r >>= λ (xs, after). some (make xs, after))
  nested-Settled read make inner none lt h settled = tt
  nested-Settled read make inner (some (xs, after)) lt h (less, settles) =
      (omega (arith, lt, less), fueled)
    where
      fueled : (f : ℕ) → length s ≤ f + length after → value f s ≡ some (make xs, after)
      fueled zero enough = absurd (omega (arith, lt, less))
      fueled (suc f) enough =
          value_step f s
          ∙ (ap (by_token f) e
              ∙ (h f
                  ∙ ap (λ r. r >>= λ (xs, after). some (make xs, after))
                      (settles f (omega (arith, lt, less)))))

module _ (g : ℕ) (items-Settled : (r : Text) → Settled items r (items g r))
    (fields-Settled : (r : Text) → Settled fields r (fields g r)) where
  array-Settled :
      (s rest : Text) (o : Option Text)
      → token (skip_spaces s) ≡ open_array rest
      → expect b']' (skip_spaces rest) ≡ o
      → LeavesText (length rest) o
      → length rest < length s
      → Settled value s (by_token g (open_array rest))
  array-Settled s rest (some after) e found lt shorter =
      let step : (f : ℕ) → by_token f (open_array rest) ≡ some (arr nil, after) =
        λ f. rw (found, by_token) refl in
      subst⁻¹ (Settled value s) (step g)
        (now-Settled s (open_array rest) e (arr nil) after (omega (arith, lt, shorter)) step)
  array-Settled s rest none e missing lt shorter =
      let step : (f : ℕ)
          → by_token f (open_array rest) ≡ (items f rest >>= λ (xs, after). some (arr xs, after)) =
        λ f. rw (missing, by_token) refl in
      subst⁻¹ (Settled value s) (step g) (
        nested-Settled s (open_array rest) e items arr rest (items g rest) shorter step
          (items-Settled rest))

  object-Settled :
      (s rest : Text) (o : Option Text)
      → token (skip_spaces s) ≡ open_object rest
      → expect b'}' (skip_spaces rest) ≡ o
      → LeavesText (length rest) o
      → length rest < length s
      → Settled value s (by_token g (open_object rest))
  object-Settled s rest (some after) e found lt shorter =
      let step : (f : ℕ) → by_token f (open_object rest) ≡ some (obj end, after) =
        λ f. rw (found, by_token) refl in
      subst⁻¹ (Settled value s) (step g)
        (now-Settled s (open_object rest) e (obj end) after (omega (arith, lt, shorter)) step)
  object-Settled s rest none e missing lt shorter =
      let step : (f : ℕ)
          → by_token f (open_object rest)
            ≡ (fields f rest >>= λ (xs, after). some (obj xs, after)) =
        λ f. rw (missing, by_token) refl in
      subst⁻¹ (Settled value s) (step g) (
        nested-Settled s (open_object rest) e fields obj rest (fields g rest) shorter step
          (fields-Settled rest))

  pub by_token-Settled :
      (s : Text) (t : Token)
      → token (skip_spaces s) ≡ t
      → Shrinks (length (skip_spaces s)) t
      → Settled value s (by_token g t)
  by_token-Settled s (scalar v rest) e lt =
      now-Settled s (scalar v rest) e v rest (omega (arith, lt, length-skip_spaces s)) (λ f. refl)
  by_token-Settled s (open_array rest) e lt =
      array-Settled s rest (expect b']' (skip_spaces rest)) e refl (expected b']' rest)
        (omega (arith, lt, length-skip_spaces s))
  by_token-Settled s (open_object rest) e lt =
      object-Settled s rest (expect b'}' (skip_spaces rest)) e refl (expected b'}' rest)
        (omega (arith, lt, length-skip_spaces s))
  by_token-Settled s bad e lt = tt
