-- ===== src/Base/Dict.antt =====
-- Go maps as association lists: the keys of a real map are distinct, and its order is not fixed.
use mathlib.Core.List.{List, [], ◌∷◌}
use mathlib.Core.Path.{◌≡◌, refl}
use mathlib.Core.Logic.{inl, inr}
use runtime_class_manager.Base.Lists.{All}
use mathlib.Core.Bool.{Bool, true, false}
use mathlib.Core.Option.{Option, none, some}
use native.Mathlib.Omega.{arith}
use runtime_class_manager.Base.Equality.{Eq, ◌==◌, Bool-cases, if◌then◌else◌}

abbrev pub Dict {ℓ κ} : Type ℓ → Type κ → Type (ℓ ⊔ κ)
Dict K V = List (K × V)

module _ {ℓ κ} {K : Type ℓ} {V : Type κ} ⦃e : Eq K⦄ where
  -- `v, ok := m[k]`
  unfoldable pub lookup : K → Dict K V → Option V
  lookup k [] = none
  lookup k ((j, v) ∷ d) = if k == j then some v else lookup k d

  -- `_, ok := m[k]`
  unfoldable pub has_key : K → Dict K V → Bool
  has_key k d = elim (lookup k d) [ none ↦ false | some _ ↦ true ]

  -- `m[k] = v`
  unfoldable pub insert : K → V → Dict K V → Dict K V
  insert k v [] = (k, v) ∷ []
  insert k v ((j, w) ∷ d) = if k == j then (k, v) ∷ d else (j, w) ∷ insert k v d

  -- `delete(m, k)`
  unfoldable pub erase : K → Dict K V → Dict K V
  erase k [] = []
  erase k ((j, w) ∷ d) = let rest = erase k d in if k == j then rest else (j, w) ∷ rest

  pub lookup-insert :
      (j k : K) (v : V) (d : Dict K V)
      → lookup j (insert k v d) ≡ (if j == k then some v else lookup j d)
  unfolding insert lookup
  lookup-insert j k v [] = ground arith
  lookup-insert j k v (_ ∷ d) = ground (arith, lookup-insert j k v d)

  pub lookup-erase :
      (j k : K) (d : Dict K V) → lookup j (erase k d) ≡ (if j == k then none else lookup j d)
  unfolding erase lookup
  lookup-erase j k [] = ground arith
  lookup-erase j k (_ ∷ d) = ground (arith, lookup-erase j k d)

  -- No key occurs twice.
  abbrev pub Distinct : Dict K V → Type (ℓ ⊔ κ)
  Distinct [] = Unit
  Distinct ((k, v) ∷ d) = (lookup k d ≡ none) × Distinct d

  pub insert-Distinct : (k : K) (v : V) (d : Dict K V) → Distinct d → Distinct (insert k v d)
  unfolding insert lookup
  insert-Distinct k v [] h = (refl, tt)
  insert-Distinct k v ((j, w) ∷ d) h = elim (Bool-cases (k == j)) [
    | inl same ↦ rw (same, insert) (ground (arith, h.0), h.1)
    | inr other ↦
        rw (other, insert) (ground (arith, lookup-insert j k v d, h.0), insert-Distinct k v d h.1)
  ]

  pub erase-Distinct : (k : K) (d : Dict K V) → Distinct d → Distinct (erase k d)
  unfolding erase lookup
  erase-Distinct k [] h = tt
  erase-Distinct k ((j, w) ∷ d) h = elim (Bool-cases (k == j)) [
    | inl same ↦ rw (same, erase) (erase-Distinct k d h.1)
    | inr other ↦
        rw (other, erase) (ground (arith, lookup-erase j k d, h.0), erase-Distinct k d h.1)
  ]

  pub insert-All {μ} :
      (P : K × V → Type μ) (k : K) (v : V) (d : Dict K V)
      → P (k, v)
      → All P d
      → All P (insert k v d)
  unfolding insert
  insert-All P k v [] hv h = (hv, tt)
  insert-All P k v ((j, w) ∷ d) hv h = elim (Bool-cases (k == j)) [
    | inl same ↦ rw (same, insert) (hv, h.1)
    | inr other ↦ rw (other, insert) (h.0, insert-All P k v d hv h.1)
  ]

  pub erase-All {μ} : (P : K × V → Type μ) (k : K) (d : Dict K V) → All P d → All P (erase k d)
  unfolding erase
  erase-All P k [] h = tt
  erase-All P k ((j, w) ∷ d) h = elim (Bool-cases (k == j)) [
    | inl same ↦ rw (same, erase) (erase-All P k d h.1)
    | inr other ↦ rw (other, erase) (h.0, erase-All P k d h.1)
  ]
