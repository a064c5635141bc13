-- ===== src/Go/Outcome/Laws.antt =====
-- What a chain of calls that went through did.
use runtime_class_manager.Base.{◌≡◌, sym, ap, ◌∙◌, refl, arith, Text, ◌⊎◌, inl, inr, none, some}
use runtime_class_manager.Go.Outcome.{
  Outcome, ok, err, panic, Error, Action, ◌>>=◌, wrap, attempt, return_err, Err,
}

pub Outcome-cases :
    {A : Type 0} (r : Outcome A)
    → ((a : A) × (r ≡ ok a)) ⊎ (((e : Error) × (r ≡ err e)) ⊎ ((t : Text) × (r ≡ panic t)))
Outcome-cases (ok a) = inl (a, refl)
Outcome-cases (err e) = inr (inl (e, refl))
Outcome-cases (panic t) = inr (inr (t, refl))

module _ {W A B : Type 0} (m : Action W A) (f : A → Action W B) (w : W) where
  pub >>=_ok : (a : A) → (m w).0 ≡ ok a → (m >>= f) w ≡ f a (m w).1
  >>=_ok a h = ground arith

  pub >>=_err : (e : Error) → (m w).0 ≡ err e → (m >>= f) w ≡ (err e, (m w).1)
  >>=_err e h = ground arith

  pub >>=_panic : (t : Text) → (m w).0 ≡ panic t → (m >>= f) w ≡ (panic t, (m w).1)
  >>=_panic t h = ground arith

  -- The first call went through, and the chain is what follows it.
  pub >>=-eq-ok :
      {b : B} → ((m >>= f) w).0 ≡ ok b → (a : A) × ((m w).0 ≡ ok a) × ((m >>= f) w ≡ f a (m w).1)
  >>=-eq-ok h = elim (Outcome-cases (m w).0) [
    | inl (a, e) ↦ (a, e, >>=_ok a e)
    | inr (inl (e, p)) ↦ absurd (ground arith)
    | inr (inr (t, p)) ↦ absurd (ground arith)
  ]

module _ {W A B : Type 0} (m : Action W A) (f : A → Action W B) (w : W) where
  -- What holds after every way in which the rest goes through holds after the chain.
  pub >>=_after :
      (Q : Outcome B × W → Type 0) {b : B}
      → ((m >>= f) w).0 ≡ ok b
      → ((a : A) (w' : W) → (f a w').0 ≡ ok b → Q (f a w'))
      → Q ((m >>= f) w)
  >>=_after Q h k =
      let (a, e, step) = >>=-eq-ok m f w h in rw step (k a (m w).1 (ap (λ r. r.0) (sym step) ∙ h))

  -- The same, with the result of the first call.
  pub >>=_elim :
      (Q : Outcome B × W → Type 0) {b : B}
      → ((m >>= f) w).0 ≡ ok b
      → ((a : A) → (m w).0 ≡ ok a → (f a (m w).1).0 ≡ ok b → Q (f a (m w).1))
      → Q ((m >>= f) w)
  >>=_elim Q h k =
      let (a, e, step) = >>=-eq-ok m f w h in rw step (k a e (ap (λ r. r.0) (sym step) ∙ h))

-- What follows a call that has ended.
abbrev after : {W B C : Type 0} → (B → Action W C) → Outcome B × W → Outcome C × W
after g r = elim r.0 [ ok b ↦ g b r.1 | err e ↦ (err e, r.1) | panic t ↦ (panic t, r.1) ]

pub >>=_assoc :
    {W A B C : Type 0} (m : Action W A) (f : A → Action W B) (g : B → Action W C) (w : W)
    → ((m >>= f) >>= g) w ≡ (m >>= λ a. f a >>= g) w
>>=_assoc m f g w = elim (Outcome-cases (m w).0) [
  | inl (a, e) ↦ ap (after g) (>>=_ok m f w a e) ∙ sym (>>=_ok m (λ a. f a >>= g) w a e)
  | inr (inl (e, p)) ↦ ap (after g) (>>=_err m f w e p) ∙ sym (>>=_err m (λ a. f a >>= g) w e p)
  | inr (inr (t, p)) ↦ ap (after g) (>>=_panic m f w t p) ∙ sym (>>=_panic m (λ a. f a >>= g) w t p)
]

module _ {W A : Type 0} (m : Action W A) (w : W) where
  pub wrap-eq-ok : (t : Text) {a : A} → (wrap t m w).0 ≡ ok a → (m w).0 ≡ ok a
  wrap-eq-ok t h = ground arith

  pub wrap_world : (t : Text) → (wrap t m w).1 ≡ (m w).1
  wrap_world t = ground arith

  pub attempt_world : (attempt m w).1 ≡ (m w).1
  attempt_world = ground arith

-- What a call makes of an invariant `I` of the world: `J`, however it ends.
abbrev pub Leads : {W A : Type 0} → (W → Type 0) → (W → Type 0) → Action W A → Type 0
Leads {W} I J m = (w : W) → I w → J (m w).1

module _ {W : Type 0} (I J K : W → Type 0) where
  pub >>=-Leads :
      {A B : Type 0} (m : Action W A) (f : A → Action W B)
      → Leads I J m
      → ((a : A) → Leads J K (f a))
      → ((w : W) → J w → K w)
      → Leads I K (m >>= f)
  >>=-Leads m f hm hf stop w h = elim (Outcome-cases (m w).0) [
    | inl (a, e) ↦ rw (e, ◌>>=◌) (hf a (m w).1 (hm w h))
    | inr (inl (e, p)) ↦ rw (p, ◌>>=◌) (stop (m w).1 (hm w h))
    | inr (inr (t, p)) ↦ rw (p, ◌>>=◌) (stop (m w).1 (hm w h))
  ]

module _ {W : Type 0} (I : W → Type 0) where
  -- A call that keeps the invariant however it ends.
  abbrev pub Preserves : {A : Type 0} → Action W A → Type 0
  Preserves m = Leads I I m

  pub >>=-Preserves :
      {A B : Type 0} (m : Action W A) (f : A → Action W B)
      → Preserves m
      → ((a : A) → Preserves (f a))
      → Preserves (m >>= f)
  >>=-Preserves m f hm hf = >>=-Leads I I I m f hm hf (λ w h. h)

  pub wrap-Preserves : {A : Type 0} (t : Text) (m : Action W A) → Preserves m → Preserves (wrap t m)
  wrap-Preserves t m hm w h = rw (wrap_world m w t) (hm w h)

  pub attempt-Preserves : {A : Type 0} (m : Action W A) → Preserves m → Preserves (attempt m)
  attempt-Preserves m hm w h = rw (attempt_world m w) (hm w h)

  pub return_err-Preserves : (e : Err) → Preserves (return_err e)
  return_err-Preserves none w h = h
  return_err-Preserves (some e) w h = h

  -- A call that keeps the invariant, and whose results satisfy `Q`.
  abbrev pub Yields : {A : Type 0} → (A → Type 0) → Action W A → Type 0
  Yields {A} Q m = (w : W) → I w → I (m w).1 × ((a : A) → (m w).0 ≡ ok a → Q a)

  pub >>=-Preserves_yield :
      {A B : Type 0} (Q : A → Type 0) (m : Action W A) (f : A → Action W B)
      → Yields Q m
      → ((a : A) → Q a → Preserves (f a))
      → Preserves (m >>= f)
  >>=-Preserves_yield Q m f hm hf w h = elim (Outcome-cases (m w).0) [
    | inl (a, e) ↦ rw (e, ◌>>=◌) (hf a ((hm w h).1 a e) (m w).1 (hm w h).0)
    | inr (inl (e, p)) ↦ rw (p, ◌>>=◌) (hm w h).0
    | inr (inr (t, p)) ↦ rw (p, ◌>>=◌) (hm w h).0
  ]

  pub wrap-Yields :
      {A : Type 0} (Q : A → Type 0) (t : Text) (m : Action W A) → Yields Q m → Yields Q (wrap t m)
  wrap-Yields Q t m hm w h =
      (rw (wrap_world m w t) (hm w h).0, λ a e. (hm w h).1 a (wrap-eq-ok m w t e))
