-- ===== src/Rcm/Starting.antt =====
-- The order in which the controller is put together and started.
use runtime_class_manager.Base.{Bool, true, false, ◌≡◌, ◌≢◌, ◌⊎◌, List, [], ◌∷◌, Text, txt, map}
use runtime_class_manager.Go.Outcome.{Outcome, ok, err, panic, Action}
use runtime_class_manager.Controller.Objects.{Client}
use runtime_class_manager.Controller.Setup.{ObjectType, shim, node, job, Registration}
use runtime_class_manager.Rcm.{Settings, Options, Scheme, client_go, v1alpha1, Runtime, options_of}

-- A call of the program, with what it is about.
pub data Call : Type 0 where
  adds_to_scheme : Scheme → Call
  makes_manager : Options → Call
  -- the type that is reconciled, those that it owns, and those that are watched
  registers : ObjectType → List ObjectType → List ObjectType → Call
  adds_healthz_check adds_readyz_check : Text → Call
  starts : Call

-- A call with whether it went through.
abbrev pub Answered : Type 0
Answered = Call × Bool

abbrev went_through : {A : Type 0} → Outcome A → Bool
went_through (ok _) = true
went_through (err _) = false
went_through (panic _) = false

abbrev answer : {A : Type 0} → Call → List Answered → Outcome A → List Answered
answer e calls r = (e, went_through r) ∷ calls

-- The world with the calls, the latest first.
abbrev pub Recorded : Type 0 → Type 0
Recorded W = W × List Answered

abbrev pub recording : {W A : Type 0} → Call → Action W A → Action (Recorded W) A
recording e m (w, calls) = let (r, w') = m w in (r, (w', (e, went_through r) ∷ calls))

-- What a manager is told of a registration.
abbrev pub call_of : {W : Type 0} → Registration W → Call
call_of r = registers r.for_object r.owns (map (λ t. t.object) r.watches)

-- A runtime that keeps the calls: the manager's client is one of the larger world.
abbrev pub recorded :
    {W M : Type 0}
    → Runtime W M
    → (M → Client (Recorded W))
    → (M → Registration (Recorded W) → Action W (Unit {0}))
    → Runtime (Recorded W) M
recorded rt client complete = record {
  add_to_scheme = λ s. recording (adds_to_scheme s) (rt.add_to_scheme s);
  parse = rt.parse;
  new_manager = λ o. recording (makes_manager o) (rt.new_manager o);
  get_client = client;
  complete = λ m r. recording (call_of r) (complete m r);
  add_healthz_check = λ m t. recording (adds_healthz_check t) (rt.add_healthz_check m t);
  add_readyz_check = λ m t. recording (adds_readyz_check t) (rt.add_readyz_check m t);
  start = λ m. recording starts (rt.start m);
}

-- The calls are made in this order after those before. Either one does not go through, while those
-- before it do: then it is the last, and the process does not end well. Or all go through, and the
-- process ends well.
abbrev pub Follows :
    {W A : Type 0} → A → List Call → List Answered → Outcome A × Recorded W → Type 0
Follows a [] before r = (r.0 ≡ ok a) × (r.1.1 ≡ before)
Follows a (e ∷ es) before r =
    ((r.0 ≢ ok a) × (r.1.1 ≡ (e, false) ∷ before)) ⊎ Follows a es ((e, true) ∷ before) r

-- The calls of a process whose flags are these.
abbrev pub calls_with : Settings → List Call
calls_with s =
    adds_to_scheme client_go
    ∷ adds_to_scheme v1alpha1
    ∷ makes_manager (options_of s)
    ∷ registers shim (job ∷ []) (node ∷ [])
    ∷ registers job [] []
    ∷ adds_healthz_check (txt "healthz")
    ∷ adds_readyz_check (txt "readyz")
    ∷ starts
    ∷ []

module _ {W M : Type 0} (rt : Runtime W M) (client : M → Client (Recorded W))
    (complete : M → Registration (Recorded W) → Action W (Unit {0})) where
  abbrev rt' : Runtime (Recorded W) M
  rt' = recorded rt client complete

  abbrev checked : List Call
  checked = adds_healthz_check (txt "healthz") ∷ adds_readyz_check (txt "readyz") ∷ starts ∷ []

  abbrev managed : Settings → List Call
  managed s =
      makes_manager (options_of s)
      ∷ registers shim (job ∷ []) (node ∷ [])
      ∷ registers job [] []
      ∷ adds_healthz_check (txt "healthz")
      ∷ adds_readyz_check (txt "readyz")
      ∷ starts
      ∷ []

  abbrev later : Settings → List Call
  later s = adds_to_scheme v1alpha1 ∷ managed s
