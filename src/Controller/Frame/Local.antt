-- ===== src/Controller/Frame/Local.antt =====
-- The steps of a reconciliation that act on the local variable of the shim, and the whole of it.
use runtime_class_manager.Base.{
  Bool, true, false, Option, some, none, List, [], ◌∷◌, ◌++◌, Text, txt, text_eq, inl, inr,
  contains, Bool-cases,
}
use runtime_class_manager.Base.Dict.{Dict}
use runtime_class_manager.Go.Outcome.{
  Err, Outcome, Action, pure, attempt, return_err, ignore_not_found, ◌>>=◌, ◌>>◌,
}
use runtime_class_manager.Go.Outcome.Laws.{
  Outcome-cases, Preserves, Yields, >>=-Preserves, attempt-Preserves, return_err-Preserves,
  wrap-Preserves,
}
use runtime_class_manager.Api.{Shim}
use runtime_class_manager.Controller.Objects.{NamespacedName, Node, Client, rcm_operator_finalizer}
use runtime_class_manager.Controller.Reconcile
use runtime_class_manager.Controller.Reconcile.{
  Local, on_shim, update_shim, refetch_shim, update_status, update_failed,
  remove_finalizer_from_shim, ensure_finalizer_for_shim, delete_branch, handle_delete_shim,
  with_counts, key_of, remove_finalizer, get_node_list_from_shims_node_selector, deploy_shim,
  reconcile_body, reconcile_fetched, deferred,
}

-- The calls on shims: a fetch and an update answer with a shim whose name is good, as the one asked
-- for or sent is.
pub record ShimFrame {W : Type 0} (c : Client W) (I : W → Type 0) (Name : Text → Type 0)
    : Type 0 where
  pub get_shim : (k : NamespacedName) → Name k.name → Yields I (λ s. Name s.name) (c.get_shim k)
  pub update_shim : (s : Shim) → Name s.name → Yields I (λ s. Name s.name) (c.update_shim s)

module _ {W : Type 0} (c : Client W) (I : W → Type 0) (Name : Text → Type 0) where
  -- The invariant of the world, with a good name in the variable.
  abbrev pub Kept : Shim × W → Type 0
  Kept s = Name s.0.name × I s.1

  pub on_shim-Preserves :
      {A : Type 0} (f : Shim → Action W A)
      → ((shim : Shim) → Name shim.name → Preserves I (f shim))
      → Preserves Kept (on_shim c f)
  on_shim-Preserves f kept (shim, w) h = (h.0, kept shim h.0 w h.1)

  module _ (S : ShimFrame c I Name) where
    update_shim-Preserves : Preserves Kept (update_shim c)
    unfolding update_shim
    update_shim-Preserves (shim, w) h =
        let (kept, good) = S.update_shim shim h.0 w h.1 in
        elim (Outcome-cases (c.update_shim shim w).0) [
          | inl (a, e) ↦ rw (e, update_shim) (good a e, kept)
          | inr (inl (e, p)) ↦ rw (p, update_shim) (h.0, kept)
          | inr (inr (t, p)) ↦ rw (p, update_shim) (h.0, kept)
        ]

    refetch_shim-Preserves : Preserves Kept (refetch_shim c)
    unfolding refetch_shim
    refetch_shim-Preserves (shim, w) h =
        let (kept, good) = S.get_shim (key_of shim) h.0 w h.1 in
        elim (Outcome-cases (c.get_shim (key_of shim) w).0) [
          | inl (a, e) ↦ rw (e, refetch_shim) (good a e, kept)
          | inr (inl (e, p)) ↦ rw (p, refetch_shim) (h.0, kept)
          | inr (inr (t, p)) ↦ rw (p, refetch_shim) (h.0, kept)
        ]

    pub update_status-Preserves : (nodes : List Node) → Preserves Kept (update_status c nodes)
    unfolding update_status with_counts
    update_status-Preserves nodes (shim, w) h =
        >>=-Preserves Kept (update_shim c) (λ _. refetch_shim c) update_shim-Preserves
          (λ _. refetch_shim-Preserves) (with_counts shim nodes, w) h

    update_failed-Preserves :
        (message : Text) (e : Err) → Preserves Kept (update_failed c message e)
    unfolding update_failed
    update_failed-Preserves message none s h = h
    update_failed-Preserves message (some e) s h = h

    -- An update of the shim whose error is returned.
    must_update-Preserves :
        (message : Text) → Preserves Kept (update_shim c >>= update_failed c message)
    must_update-Preserves message =
        >>=-Preserves Kept (update_shim c) (update_failed c message) update_shim-Preserves
          (update_failed-Preserves message)

    pub ensure_finalizer_for_shim-Preserves :
        (f : Text) → Preserves Kept (ensure_finalizer_for_shim c f)
    unfolding ensure_finalizer_for_shim
    ensure_finalizer_for_shim-Preserves f (shim, w) h =
        elim (Bool-cases (contains shim.finalizers f)) [
          | inl there ↦ rw (there, ensure_finalizer_for_shim) h
          | inr missing ↦
              rw (missing, ensure_finalizer_for_shim)
                (must_update-Preserves (txt "failed to set finalizer")
                  (record shim { finalizers = shim.finalizers ++ (f ∷ []) }, w) h)
        ]

    pub remove_finalizer_from_shim-Preserves : Preserves Kept (remove_finalizer_from_shim c)
    unfolding remove_finalizer_from_shim
    remove_finalizer_from_shim-Preserves (shim, w) h =
        elim (Bool-cases (contains shim.finalizers rcm_operator_finalizer)) [
          | inl there ↦
              rw (there, remove_finalizer_from_shim)
                (must_update-Preserves (txt "failed to remove finalizer")
                  (
                    record shim {
                      finalizers = remove_finalizer rcm_operator_finalizer shim.finalizers;
                    },
                    w,
                  )
                  h)
          | inr missing ↦ rw (missing, remove_finalizer_from_shim) h
        ]

    pub delete_branch-Preserves :
        (nodes : List Node)
        → ((shim : Shim) → Name shim.name → Preserves I (handle_delete_shim c shim nodes))
        → Preserves Kept (delete_branch c nodes)
    unfolding delete_branch
    delete_branch-Preserves nodes deletes =
        let ended : Err → Local c (Unit {0}) = λ e. return_err (ignore_not_found e) in
        let remove = attempt (remove_finalizer_from_shim c) in
        >>=-Preserves Kept (on_shim c (λ shim. handle_delete_shim c shim nodes))
          (λ _. remove >>= ended)
          (on_shim-Preserves (λ shim. handle_delete_shim c shim nodes) deletes)
          (λ _.
            >>=-Preserves Kept remove ended
              (attempt-Preserves Kept (remove_finalizer_from_shim c)
                remove_finalizer_from_shim-Preserves)
              (λ e. return_err-Preserves Kept (ignore_not_found e)))

    deferred-Preserves :
        (r : Outcome (Unit {0})) (m : Local c (Unit {0}))
        → Preserves Kept m
        → Preserves Kept (deferred c r m)
    unfolding deferred
    deferred-Preserves r m kept s h = elim (Outcome-cases (m s).0) [
      | inl (a, e) ↦ rw (e, deferred) (kept s h)
      | inr (inl (e, p)) ↦ rw (p, deferred) (kept s h)
      | inr (inr (t, p)) ↦ rw (p, deferred) (kept s h)
    ]

    module _ (lists : (l : Option (Dict Text Text)) → Preserves I (c.list_nodes l))
        (deletes : (shim : Shim) (nodes : List Node)
          → Name shim.name
          → Preserves I (handle_delete_shim c shim nodes))
        (deploys : (shim : Shim) (nodes : List Node)
          → Name shim.name
          → Preserves I (deploy_shim c nodes shim)) where
      branch-Preserves :
          (nodes : List Node) (deleting : Bool)
          → Preserves Kept (elim deleting [
            | true ↦ delete_branch c nodes
            | false ↦ on_shim c (deploy_shim c nodes)
          ])
      branch-Preserves nodes true =
          delete_branch-Preserves nodes (λ shim good. deletes shim nodes good)
      branch-Preserves nodes false =
          on_shim-Preserves (deploy_shim c nodes) (λ shim good. deploys shim nodes good)

      reconcile_body-Preserves : Preserves Kept (reconcile_body c)
      unfolding reconcile_body get_node_list_from_shims_node_selector
      reconcile_body-Preserves =
          let branch : List Node → Bool → Local c (Unit {0}) = λ nodes deleting. elim deleting [
            | true ↦ delete_branch c nodes
            | false ↦ on_shim c (deploy_shim c nodes)
          ] in
          let asked : Local c Bool = on_shim c (λ shim. pure shim.deleting) in
          >>=-Preserves Kept (on_shim c (get_node_list_from_shims_node_selector c))
            (λ nodes. update_status c nodes >> (asked >>= branch nodes))
            (on_shim-Preserves (get_node_list_from_shims_node_selector c) (λ shim good.
              wrap-Preserves I (txt "failed to get node list")
                (c.list_nodes shim.spec.node_selector) (lists shim.spec.node_selector)))
            (λ nodes.
              >>=-Preserves Kept (update_status c nodes) (λ _. asked >>= branch nodes)
                (update_status-Preserves nodes)
                (λ _.
                  >>=-Preserves Kept asked (branch nodes)
                    (on_shim-Preserves (λ shim. pure shim.deleting) (λ shim good w h. h))
                    (branch-Preserves nodes)))

      reconcile_fetched-Preserves : Preserves Kept (reconcile_fetched c)
      unfolding reconcile_fetched
      reconcile_fetched-Preserves s h =
          deferred-Preserves (reconcile_body c s).0
            (ensure_finalizer_for_shim c rcm_operator_finalizer)
            (ensure_finalizer_for_shim-Preserves rcm_operator_finalizer) (reconcile_body c s).1
            (reconcile_body-Preserves s h)

      pub reconcile-Preserves :
          (request : NamespacedName)
          → Name request.name
          → Preserves I (Reconcile.reconcile c request)
      unfolding Reconcile.reconcile
      reconcile-Preserves request named w h =
          let (kept, good) = S.get_shim request named w h in
          elim (Outcome-cases (c.get_shim request w).0) [
            | inl (shim, e) ↦
                rw (e, Reconcile.reconcile)
                  (reconcile_fetched-Preserves (shim, (c.get_shim request w).1)
                    (good shim e, kept)).1
            | inr (inl (e, p)) ↦
                rw (p, Reconcile.reconcile)
                  (return_err-Preserves I (ignore_not_found (some e)) (c.get_shim request w).1 kept)
            | inr (inr (t, p)) ↦ rw (p, Reconcile.reconcile) kept
          ]
