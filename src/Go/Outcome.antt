-- ===== src/Go/Outcome.antt =====
-- Go's error values, and calls that change a world `W` and end with a value, an error or a panic.
pub mod Laws
use runtime_class_manager.Base.{Bool, true, false, ◌||◌, Option, none, some, List, [], ◌∷◌, Text}

-- `not_exist` is `os.ErrNotExist`, `api_not_found` and `api_status` are API server errors by their
-- reason, `failure` any other error, `wrapped` a `fmt.Errorf` with `%w`, and `joined` the result of
-- `errors.Join` on two errors or more, the last one innermost.
pub data Error : Type 0 where
  not_exist : Text → Error
  api_not_found : Text → Error
  api_status : Text → Error
  failure : Text → Error
  wrapped : Text → Error → Error
  joined : Error → Error → Error

-- `errors.Is(err, os.ErrNotExist)`
unfoldable pub is_not_exist : Error → Bool
is_not_exist (not_exist _) = true
is_not_exist (api_not_found _) = false
is_not_exist (api_status _) = false
is_not_exist (failure _) = false
is_not_exist (wrapped _ e) = is_not_exist e
is_not_exist (joined e e') = is_not_exist e || is_not_exist e'

-- The first API status in an error's tree, as `errors.As` finds it: is its reason NotFound?
unfoldable pub status_not_found : Error → Option Bool
status_not_found (not_exist _) = none
status_not_found (api_not_found _) = some true
status_not_found (api_status _) = some false
status_not_found (failure _) = none
status_not_found (wrapped _ e) = status_not_found e
status_not_found (joined e e') = elim (status_not_found e) [
  | some found ↦ some found
  | none ↦ status_not_found e'
]

-- `apierrors.IsNotFound(err)`
unfoldable pub is_not_found : Error → Bool
unfolding status_not_found
is_not_found e = elim (status_not_found e) [ some found ↦ found | none ↦ false ]

-- An `error` that may be nil.
abbrev pub Err : Type 0
Err = Option Error

-- `client.IgnoreNotFound(err)`
unfoldable pub ignore_not_found : Err → Err
ignore_not_found none = none
ignore_not_found (some e) = elim (is_not_found e) [ true ↦ none | false ↦ some e ]

-- `errors.Join(errs...)`: nil if every one is nil.
unfoldable pub join : List Err → Err
join [] = none
join (none ∷ errs) = join errs
join (some e ∷ errs) = elim (join errs) [ none ↦ some e | some e' ↦ some (joined e e') ]

pub data Outcome (A : Type 0) : Type 0 where
  ok : A → Outcome A
  err : Error → Outcome A
  panic : Text → Outcome A

abbrev pub Action : Type 0 → Type 0 → Type 0
Action W A = W → Outcome A × W

module _ {W : Type 0} where
  abbrev pub pure : {A : Type 0} → A → Action W A
  pure a w = (ok a, w)

  abbrev pub raise : {A : Type 0} → Error → Action W A
  raise e w = (err e, w)

  abbrev pub panics : {A : Type 0} → Text → Action W A
  panics t w = (panic t, w)

  infixl 5 ◌>>=◌ ◌>>◌
  -- `x, err := m; if err != nil { return …, err }`
  abbrev pub ◌>>=◌ : {A B : Type 0} → Action W A → (A → Action W B) → Action W B
  ◌>>=◌ m f w =
      let (r, w') = m w in elim r [ ok a ↦ f a w' | err e ↦ (err e, w') | panic t ↦ (panic t, w') ]

  abbrev pub ◌>>◌ : {A B : Type 0} → Action W A → Action W B → Action W B
  m >> k = m >>= λ _. k

  -- `if err := m; err != nil { return …, fmt.Errorf("…: %w", err) }`
  abbrev pub wrap : {A : Type 0} → Text → Action W A → Action W A
  wrap t m w =
      let (r, w') = m w in
      elim r [ ok a ↦ (ok a, w') | err e ↦ (err (wrapped t e), w') | panic p ↦ (panic p, w') ]

  -- `err := m`, with the error kept as a value. A panic goes on.
  abbrev pub attempt : {A : Type 0} → Action W A → Action W Err
  attempt m w =
      let (r, w') = m w in
      elim r [ ok a ↦ (ok none, w') | err e ↦ (ok (some e), w') | panic p ↦ (panic p, w') ]

  -- `return err`
  abbrev pub return_err : Err → Action W (Unit {0})
  return_err none w = (ok tt, w)
  return_err (some e) w = (err e, w)

  -- A pure call that may panic.
  abbrev pub lift : {A : Type 0} → Outcome A → Action W A
  lift r w = (r, w)

  -- `if c { … }`
  abbrev pub when : Bool → Action W (Unit {0}) → Action W (Unit {0})
  when c m w = elim c [ true ↦ m w | false ↦ (ok tt, w) ]
