-- ===== src/Controller/Branches.antt =====
-- What one reconciliation of a shim sends, as a whole.
use runtime_class_manager.Base.{
  ◌≡◌, refl, Bool, true, false, some, List, [], ◌∷◌, Text, txt, text_eq, All, ◌⊎◌, inl, inr,
}
use runtime_class_manager.Base.Dict.{lookup}
use runtime_class_manager.Go.Outcome.{Outcome, pure, ignore_not_found, ◌>>=◌}
use runtime_class_manager.Go.Outcome.Laws.{
  Outcome-cases, Leads, >>=-Leads, Preserves, wrap-Preserves, return_err-Preserves,
}
use runtime_class_manager.Api.{Shim}
use runtime_class_manager.Controller.Objects.{
  NamespacedName, Node, Client, install_type, uninstall_type, rcm_operator_finalizer,
}
use runtime_class_manager.Controller.Job.{operation_annotation}
use runtime_class_manager.Controller.Reconcile.{
  deploy_shim, get_node_list_from_shims_node_selector, Local, on_shim, update_status,
  ensure_finalizer_for_shim, delete_branch, reconcile_body, deferred, reconcile_fetched, reconcile,
}
use runtime_class_manager.Controller.Log.{
  Event, sent_shim, sent_node, sent_job, sent_runtime_class, Logged, logged,
}
use runtime_class_manager.Controller.Updating.{
  update_status-Kept, ensure_finalizer_for_shim-Kept, on_shim-Kept, delete_branch-Kept,
}
use runtime_class_manager.Controller.Sending.{Allows, deploy_shim-Sends}

-- A request that belongs to one operation: its jobs are of that type, and only an installation
-- applies runtime classes.
abbrev pub Does : Text → Event → Type 0
Does operation (sent_shim _) = Unit
Does operation (sent_node _) = Unit
Does operation (sent_job j) = lookup operation_annotation j.annotations ≡ some operation
Does operation (sent_runtime_class _) = operation ≡ install_type

abbrev IsQuiet : Event → Type 0
IsQuiet (sent_shim _) = Unit
IsQuiet (sent_node _) = ⊥
IsQuiet (sent_job _) = ⊥
IsQuiet (sent_runtime_class _) = ⊥

quiet-Does : (operation : Text) (log : List Event) → All IsQuiet log → All (Does operation) log
quiet-Does operation [] h = tt
quiet-Does operation (sent_shim s ∷ log) h = (tt, quiet-Does operation log h.1)
quiet-Does operation (sent_node n ∷ log) h = absurd h.0
quiet-Does operation (sent_job j ∷ log) h = absurd h.0
quiet-Does operation (sent_runtime_class rc ∷ log) h = absurd h.0

Does-Allows : (operation : Text) → Allows (All (Does operation)) operation
Does-Allows operation = record { node = λ n log h. (tt, h); job = λ j typed log h. (typed, h) }

module _ {W : Type 0} (c : Client W) where
  abbrev Sent : (Event → Type 0) → Shim × Logged W → Type 0
  Sent P s = All P s.1.1

  -- All of one operation, installing or removing.
  abbrev OfOne : Shim × Logged W → Type 0
  OfOne s = Sent (Does install_type) s ⊎ Sent (Does uninstall_type) s

  quiet-OfOne : (s : Shim × Logged W) → Sent IsQuiet s → OfOne s
  quiet-OfOne s h = inl (quiet-Does install_type s.1.1 h)

  branch-OfOne :
      (nodes : List Node) (deleting : Bool)
      → Leads (Sent IsQuiet) OfOne (elim deleting [
        | true ↦ delete_branch (logged c) nodes
        | false ↦ on_shim (logged c) (deploy_shim (logged c) nodes)
      ])
  branch-OfOne nodes true s h = inr (
      delete_branch-Kept c (All (Does uninstall_type)) (λ _ _ h. (tt, h))
        (Does-Allows uninstall_type) nodes s (quiet-Does uninstall_type s.1.1 h))
  branch-OfOne nodes false s h = inl (
      deploy_shim-Sends c (All (Does install_type)) (Does-Allows install_type) s.0
        (λ _ _ h. (refl, h)) nodes s.1 (quiet-Does install_type s.1.1 h))

  reconcile_body-OfOne : Leads (Sent IsQuiet) OfOne (reconcile_body (logged c))
  unfolding reconcile_body get_node_list_from_shims_node_selector
  reconcile_body-OfOne =
      let branch : List Node → Bool → Local (logged c) (Unit {0}) = λ nodes deleting.
        elim deleting [
          | true ↦ delete_branch (logged c) nodes
          | false ↦ on_shim (logged c) (deploy_shim (logged c) nodes)
        ] in
      let is_deleting : Local (logged c) Bool = on_shim (logged c) (λ shim. pure shim.deleting) in
      let status = update_status (logged c) in
      let listing = get_node_list_from_shims_node_selector (logged c) in
      >>=-Leads (Sent IsQuiet) (Sent IsQuiet) OfOne (on_shim (logged c) listing)
        (λ nodes. status nodes >>= λ _. is_deleting >>= branch nodes)
        (on_shim-Kept c (All IsQuiet) (λ _ _ h. (tt, h)) listing
          (λ shim.
            wrap-Preserves (λ w. All IsQuiet w.1) (txt "failed to get node list")
              ((logged c).list_nodes shim.spec.node_selector) (λ w h. h)))
        (λ nodes.
          >>=-Leads (Sent IsQuiet) (Sent IsQuiet) OfOne (status nodes)
            (λ _. is_deleting >>= branch nodes)
            (update_status-Kept c (All IsQuiet) (λ _ _ h. (tt, h)) nodes)
            (λ _.
              >>=-Leads (Sent IsQuiet) (Sent IsQuiet) OfOne is_deleting (branch nodes) (λ s h. h)
                (branch-OfOne nodes) quiet-OfOne)
            quiet-OfOne)
        quiet-OfOne

  deferred-Sent :
      (P : Event → Type 0) (r : Outcome (Unit {0})) (m : Local (logged c) (Unit {0}))
      → Preserves (Sent P) m
      → Preserves (Sent P) (deferred (logged c) r m)
  unfolding deferred
  deferred-Sent P r m hm s h = elim (Outcome-cases (m s).0) [
    | inl (a, e) ↦ rw (e, deferred) (hm s h)
    | inr (inl (e, p)) ↦ rw (p, deferred) (hm s h)
    | inr (inr (t, p)) ↦ rw (p, deferred) (hm s h)
  ]

  reconcile_fetched-OfOne : Leads (Sent IsQuiet) OfOne (reconcile_fetched (logged c))
  unfolding reconcile_fetched
  reconcile_fetched-OfOne s h =
      let r = reconcile_body (logged c) s in
      let ensure = ensure_finalizer_for_shim (logged c) rcm_operator_finalizer in
      let late : (t : Text) → Sent (Does t) r.1 → Sent (Does t) (reconcile_fetched (logged c) s).1 =
        λ t.
          deferred-Sent (Does t) r.0 ensure
            (ensure_finalizer_for_shim-Kept c (All (Does t)) (λ _ _ h. (tt, h))
              rcm_operator_finalizer)
            r.1 in
      elim (reconcile_body-OfOne s h) [
        | inl installs ↦ inl (late install_type installs)
        | inr removes ↦ inr (late uninstall_type removes)
      ]

  -- One reconciliation never both installs and removes: either every job that it sends is an
  -- install job, or every job that it sends is an uninstall job and it sends no runtime class,
  -- whatever the API server answers.
  pub reconcile_of_one :
      (request : NamespacedName) (w : W)
      → All (Does install_type) (reconcile (logged c) request (w, [])).1.1
        ⊎ All (Does uninstall_type) (reconcile (logged c) request (w, [])).1.1
  unfolding reconcile
  reconcile_of_one request w = elim (Outcome-cases (c.get_shim request w).0) [
    | inl (shim, e) ↦
        rw (e, reconcile) (reconcile_fetched-OfOne (shim, ((c.get_shim request w).1, [])) tt)
    | inr (inl (e, p)) ↦
        rw (p, reconcile)
          (inl (
            return_err-Preserves (λ (v : Logged W). All (Does install_type) v.1)
              (ignore_not_found (some e)) ((c.get_shim request w).1, []) tt))
    | inr (inr (t, p)) ↦ rw (p, reconcile) (inl tt)
  ]
