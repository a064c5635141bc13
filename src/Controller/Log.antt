-- ===== src/Controller/Log.antt =====
-- A client that keeps a log of the requests that change the cluster, and what a call adds to it.
use runtime_class_manager.Base.{◌≡◌, List, ◌∷◌, Text, All, inl, inr}
use runtime_class_manager.Go.Outcome.{Err, ok, Action, wrap, attempt, return_err, ◌>>=◌}
use runtime_class_manager.Go.Outcome.Laws.{
  Outcome-cases, Preserves, >>=-Preserves, wrap-Preserves, attempt-Preserves, return_err-Preserves,
}
use runtime_class_manager.Api.{Shim}
use runtime_class_manager.Controller.Objects.{Node, Job, RuntimeClass, Client}

-- A request that changes the cluster, as it was sent.
pub data Event : Type 0 where
  sent_shim : Shim → Event
  sent_node : Node → Event
  sent_job : Job → Event
  sent_runtime_class : RuntimeClass → Event

-- The world with the log, the latest request first.
abbrev pub Logged : Type 0 → Type 0
Logged W = W × List Event

module _ {W : Type 0} where
  -- A call that changes nothing in the cluster.
  abbrev pub silent : {A : Type 0} → Action W A → Action (Logged W) A
  silent m (w, events) = let (r, w') = m w in (r, (w', events))

  abbrev pub logging : {A : Type 0} → Event → Action W A → Action (Logged W) A
  logging e m (w, events) = let (r, w') = m w in (r, (w', e ∷ events))

  abbrev pub logged : Client W → Client (Logged W)
  logged c = record {
    get_shim = λ k. silent (c.get_shim k);
    list_shims = silent c.list_shims;
    update_shim = λ s. logging (sent_shim s) (c.update_shim s);
    get_node = λ n. silent (c.get_node n);
    list_nodes = λ s. silent (c.list_nodes s);
    update_node = λ n. logging (sent_node n) (c.update_node n);
    get_job = λ k. silent (c.get_job k);
    patch_job = λ j. logging (sent_job j) (c.patch_job j);
    get_runtime_class = λ k. silent (c.get_runtime_class k);
    patch_runtime_class = λ rc. logging (sent_runtime_class rc) (c.patch_runtime_class rc);
    controller_reference = c.controller_reference;
    getenv = c.getenv;
  }

  module _ (P : Event → Type 0) where
    -- Every request that the call sends satisfies `P`.
    abbrev pub Sends : {A : Type 0} → Action (Logged W) A → Type 0
    Sends m = Preserves (λ w. All P w.1) m

    -- The same for what follows a result.
    abbrev pub SendsAfter :
        {A B : Type 0} → Action (Logged W) A → (A → Action (Logged W) B) → Type 0
    SendsAfter {A} m f =
        (w : Logged W) (a : A) → (m w).0 ≡ ok a → All P (m w).1.1 → All P (f a (m w).1).1.1

    pub >>=-SendsAfter :
        {A B : Type 0} (m : Action (Logged W) A) (f : A → Action (Logged W) B)
        → Sends m
        → SendsAfter m f
        → Sends (m >>= f)
    >>=-SendsAfter m f hm hf w h = elim (Outcome-cases (m w).0) [
      | inl (a, e) ↦ rw (e, ◌>>=◌) (hf w a e (hm w h))
      | inr (inl (e, p)) ↦ rw (p, ◌>>=◌) (hm w h)
      | inr (inr (t, p)) ↦ rw (p, ◌>>=◌) (hm w h)
    ]

    pub >>=-Sends :
        {A B : Type 0} (m : Action (Logged W) A) (f : A → Action (Logged W) B)
        → Sends m
        → ((a : A) → Sends (f a))
        → Sends (m >>= f)
    >>=-Sends = >>=-Preserves (λ w. All P w.1)

    pub wrap-Sends : {A : Type 0} (t : Text) (m : Action (Logged W) A) → Sends m → Sends (wrap t m)
    wrap-Sends = wrap-Preserves (λ w. All P w.1)

    pub attempt-Sends : {A : Type 0} (m : Action (Logged W) A) → Sends m → Sends (attempt m)
    attempt-Sends = attempt-Preserves (λ w. All P w.1)

    pub return_err-Sends : (e : Err) → Sends (return_err e)
    return_err-Sends = return_err-Preserves (λ w. All P w.1)
