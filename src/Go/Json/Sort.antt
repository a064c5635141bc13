-- ===== src/Go/Json/Sort.antt =====
-- `encoding/json` writes a map by its sorted keys.
use runtime_class_manager.Base.{
  ◌≡◌, refl, ◌∙◌, none, some, text_eq, ◌==◌, arith, All, Bool-cases, inl, inr, Bool, true, false,
  ◌||◌, ◌&&◌, [], ◌∷◌, Text, ltb, ◌=ℕ◌, if◌then◌else◌,
}
use runtime_class_manager.Base.Dict.{Dict, lookup, Distinct}

-- The order of Go's strings.
before : Text → Text → Bool
before [] t = true
before (c ∷ s) [] = false
before (c ∷ s) (d ∷ t) = ltb c d || ((c =ℕ d) && before s t)

module _ {V : Type 0} where
  insert_sorted : Text → V → Dict Text V → Dict Text V
  unfolding before
  insert_sorted k v [] = (k, v) ∷ []
  insert_sorted k v ((j, u) ∷ d) =
      if before k j then (k, v) ∷ (j, u) ∷ d else (j, u) ∷ insert_sorted k v d

  unfoldable pub sort_keys : Dict Text V → Dict Text V
  unfolding insert_sorted
  sort_keys [] = []
  sort_keys ((k, v) ∷ d) = insert_sorted k v (sort_keys d)

  lookup-insert_sorted :
      (q k : Text) (v : V) (d : Dict Text V)
      → lookup k d ≡ none
      → lookup q (insert_sorted k v d) ≡ (if q == k then some v else lookup q d)
  unfolding insert_sorted lookup
  lookup-insert_sorted q k v [] fresh = refl
  lookup-insert_sorted q k v ((j, u) ∷ d) fresh = grind (arith, lookup-insert_sorted q k v d)

  insert_sorted-Distinct :
      (k : Text) (v : V) (d : Dict Text V)
      → lookup k d ≡ none
      → Distinct d
      → Distinct (insert_sorted k v d)
  unfolding insert_sorted lookup
  insert_sorted-Distinct k v [] fresh h = (refl, tt)
  insert_sorted-Distinct k v ((j, u) ∷ d) fresh h = elim (Bool-cases (before k j)) [
    | inl first ↦ rw (first, insert_sorted) (fresh, h)
    | inr later ↦
        let other : (k == j) ≡ false = ground arith in
        let absent : lookup k d ≡ none = ground arith in
        rw (later, insert_sorted)
          (
            ground (arith, lookup-insert_sorted j k v d absent, h.0),
            insert_sorted-Distinct k v d absent h.1,
          )
  ]

  -- Sorting keeps what every key finds, and the keys distinct.
  pub lookup-sort_keys :
      (d : Dict Text V)
      → Distinct d
      → ((q : Text) → lookup q (sort_keys d) ≡ lookup q d) × Distinct (sort_keys d)
  unfolding sort_keys lookup
  lookup-sort_keys [] h = (λ q. refl, tt)
  lookup-sort_keys ((k, v) ∷ d) h =
      let rest = lookup-sort_keys d h.1 in
      let fresh : lookup k (sort_keys d) ≡ none = rest.0 k ∙ h.0 in
      (
        λ q. lookup-insert_sorted q k v (sort_keys d) fresh ∙ rw (rest.0 q) refl,
        insert_sorted-Distinct k v (sort_keys d) fresh rest.1,
      )

  insert_sorted-All :
      (P : Text × V → Type 0) (k : Text) (v : V) (d : Dict Text V)
      → P (k, v)
      → All P d
      → All P (insert_sorted k v d)
  unfolding insert_sorted
  insert_sorted-All P k v [] hv h = (hv, tt)
  insert_sorted-All P k v ((j, u) ∷ d) hv h = elim (Bool-cases (before k j)) [
    | inl first ↦ rw (first, insert_sorted) (hv, h)
    | inr later ↦ rw (later, insert_sorted) (h.0, insert_sorted-All P k v d hv h.1)
  ]

  pub sort_keys-All : (P : Text × V → Type 0) (d : Dict Text V) → All P d → All P (sort_keys d)
  unfolding sort_keys
  sort_keys-All P [] h = tt
  sort_keys-All P ((k, v) ∷ d) h = insert_sorted-All P k v (sort_keys d) h.0 (sort_keys-All P d h.1)
