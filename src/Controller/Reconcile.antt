-- ===== src/Controller/Reconcile.antt =====
-- internal/controller/shim_controller.go: the reconciler of shims.
use runtime_class_manager.Base.{
  ℕ, ◌+◌, Bool, true, false, not, ◌&&◌, none, some, List, [], ◌∷◌, ◌++◌, Text, txt, text_eq, ◌==◌,
  if◌then◌else◌, contains, length, map,
}
use runtime_class_manager.Go.Outcome.{
  failure, wrapped, Err, join, ignore_not_found, Outcome, ok, err, panic, Action, pure, raise, lift,
  wrap, attempt, return_err, when, ◌>>=◌, ◌>>◌,
}
use runtime_class_manager.Api.{Shim, rolling_type}
use runtime_class_manager.Controller.Objects.{
  NamespacedName, Node, RuntimeClass, Client, label_of, install_type, uninstall_type, provisioned,
  pending, rcm_operator_finalizer,
}
use runtime_class_manager.Controller.Manifest.{create_runtime_class_manifest}
use runtime_class_manager.Controller.Deploy.{deploy_job_on_node}

-- `node.Labels[shim.Name] == status`
unfoldable pub has_status : Text → Text → Node → Bool
has_status shim_name status node = elim (label_of node shim_name) [
  | none ↦ status == []
  | some value ↦ value == status
]

-- `_, exists := node.Labels[shim.Name]`
unfoldable pub is_labelled : Text → Node → Bool
is_labelled shim_name node = elim (label_of node shim_name) [ none ↦ false | some _ ↦ true ]

-- Neither provisioned nor pending.
unfoldable pub needs_install : Text → Node → Bool
needs_install shim_name node =
    not (has_status shim_name provisioned node) && not (has_status shim_name pending node)

-- The loop of `updateStatus`.
unfoldable pub count_ready : Text → List Node → ℕ
count_ready shim_name [] = 0
count_ready shim_name (n ∷ nodes) =
    let rest = count_ready shim_name nodes in
    if has_status shim_name provisioned n then rest + 1 else rest

-- The shim with the counts that `updateStatus` sends.
unfoldable pub with_counts : Shim → List Node → Shim
with_counts shim nodes = record shim {
  status = record { node_count = length nodes; node_ready_count = count_ready shim.name nodes };
}

abbrev pub key_of : Shim → NamespacedName
key_of shim = record { name = shim.name; namespace = shim.namespace }

-- `controllerutil.RemoveFinalizer`
unfoldable pub remove_finalizer : Text → List Text → List Text
remove_finalizer f [] = []
remove_finalizer f (g ∷ fs) = let rest = remove_finalizer f fs in if f == g then rest else g ∷ rest

module _ {W : Type 0} (c : Client W) where
  -- The loop of `recreateStrategyRollout`, with the errors in order; a nil stays in the list.
  unfoldable pub recreate_from : Shim → List Node → Action W (List Err)
  recreate_from shim [] w = (ok [], w)
  recreate_from shim (node ∷ nodes) w = elim (needs_install shim.name node) [
    | true ↦
        (do
          e ← attempt (deploy_job_on_node c shim node install_type)
          errs ← recreate_from shim nodes
          pure (e ∷ errs))
          w
    | false ↦ recreate_from shim nodes w
  ]

  -- `recreateStrategyRollout`
  unfoldable pub recreate_strategy_rollout : Shim → List Node → Action W (Unit {0})
  recreate_strategy_rollout shim nodes = do errs ← recreate_from shim nodes; return_err (join errs)

  -- `handleInstallShim`
  unfoldable pub handle_install_shim : Shim → List Node → Action W (Unit {0})
  handle_install_shim shim nodes =
      if shim.spec.rollout_strategy.type == rolling_type
      then raise (failure (txt "rolling strategy not implemented yet"))
      else recreate_strategy_rollout shim nodes

  -- `handleDeleteShim`
  unfoldable pub handle_delete_shim : Shim → List Node → Action W (Unit {0})
  handle_delete_shim shim [] w = (ok tt, w)
  handle_delete_shim shim (node ∷ nodes) w = elim (is_labelled shim.name node) [
    | true ↦
        (do
          e ← attempt (deploy_job_on_node c shim node uninstall_type)
          return_err (ignore_not_found e)
          handle_delete_shim shim nodes)
          w
    | false ↦ handle_delete_shim shim nodes w
  ]

  -- `getNodeListFromShimsNodeSelector`
  unfoldable pub get_node_list_from_shims_node_selector : Shim → Action W (List Node)
  get_node_list_from_shims_node_selector shim =
      wrap (txt "failed to get node list") (c.list_nodes shim.spec.node_selector)

  -- `getRuntimeClass`
  unfoldable pub get_runtime_class : Shim → Action W RuntimeClass
  get_runtime_class shim = wrap (txt "failed to get runtimeClass") (
      c.get_runtime_class
        (record { name = shim.spec.runtime_class.name; namespace = shim.namespace }))

  found : Outcome RuntimeClass → Outcome Bool
  found (ok _) = ok true
  found (err _) = ok false
  found (panic t) = panic t

  -- `runtimeClassExists`; the caller only logs its error.
  unfoldable pub runtime_class_exists : Shim → Action W Bool
  unfolding found
  runtime_class_exists shim w = elim (shim.spec.runtime_class.name == []) [
    | true ↦ (ok false, w)
    | false ↦ let (r, w') = get_runtime_class shim w in (found r, w')
  ]

  -- `handleDeployRuntimeClass`
  unfoldable pub handle_deploy_runtime_class : Shim → Action W (Unit {0})
  handle_deploy_runtime_class shim = do
    rc ← lift (create_runtime_class_manifest (c.controller_reference shim) shim)
    wrap (txt "failed to reconcile RuntimeClass") (c.patch_runtime_class rc)

  -- Steps 3 and 4 of `Reconcile`.
  unfoldable pub deploy_shim : List Node → Shim → Action W (Unit {0})
  deploy_shim nodes shim = do
    exists ← runtime_class_exists shim
    when (not exists) (handle_deploy_runtime_class shim)
    elim nodes [ [] ↦ pure tt | n ∷ ns ↦ handle_install_shim shim (n ∷ ns) ]

  -- Actions on the local variable `shimResource` too.
  abbrev pub Local : Type 0 → Type 0
  Local A = Action (Shim × W) A

  -- A call that reads the variable.
  abbrev pub on_shim : {A : Type 0} → (Shim → Action W A) → Local A
  on_shim f (shim, w) = let (r, w') = f shim w in (r, (shim, w'))

  -- `sr.Update(ctx, shim)`: the variable takes the server's answer.
  unfoldable pub update_shim : Local Err
  update_shim (shim, w) =
      let (r, w') = c.update_shim shim w in
      elim r [
        | ok stored ↦ (ok none, (stored, w'))
        | err e ↦ (ok (some e), (shim, w'))
        | panic t ↦ (panic t, (shim, w'))
      ]

  -- `sr.Get(ctx, key, shim)`
  unfoldable pub refetch_shim : Local (Unit {0})
  refetch_shim (shim, w) =
      let (r, w') = c.get_shim (key_of shim) w in
      elim r [
        | ok fetched ↦ (ok tt, (fetched, w'))
        | err e ↦ (err (wrapped (txt "failed to fetch shim") e), (shim, w'))
        | panic t ↦ (panic t, (shim, w'))
      ]

  -- `updateStatus`; an error of the update is only logged.
  unfoldable pub update_status : List Node → Local (Unit {0})
  update_status nodes (shim, w) = (update_shim >>= λ _. refetch_shim) (with_counts shim nodes, w)

  unfoldable pub update_failed : Text → Err → Local (Unit {0})
  update_failed message none = pure tt
  update_failed message (some e) = raise (wrapped message e)

  -- `removeFinalizerFromShim`
  unfoldable pub remove_finalizer_from_shim : Local (Unit {0})
  unfolding update_failed
  remove_finalizer_from_shim (shim, w) = elim (contains shim.finalizers rcm_operator_finalizer) [
    | true ↦
        (update_shim >>= update_failed (txt "failed to remove finalizer"))
          (record shim { finalizers = remove_finalizer rcm_operator_finalizer shim.finalizers }, w)
    | false ↦ (ok tt, (shim, w))
  ]

  -- `ensureFinalizerForShim`
  unfoldable pub ensure_finalizer_for_shim : Text → Local (Unit {0})
  unfolding update_failed
  ensure_finalizer_for_shim finalizer (shim, w) = elim (contains shim.finalizers finalizer) [
    | true ↦ (ok tt, (shim, w))
    | false ↦
        (update_shim >>= update_failed (txt "failed to set finalizer"))
          (record shim { finalizers = shim.finalizers ++ (finalizer ∷ []) }, w)
  ]

  -- The branch of a shim that is being deleted.
  unfoldable pub delete_branch : List Node → Local (Unit {0})
  delete_branch nodes = do
    on_shim (λ shim. handle_delete_shim shim nodes)
    e ← attempt remove_finalizer_from_shim
    return_err (ignore_not_found e)

  -- `Reconcile` behind the first fetch, up to its return.
  unfoldable pub reconcile_body : Local (Unit {0})
  reconcile_body = do
    nodes ← on_shim get_node_list_from_shims_node_selector
    update_status nodes
    deleting ← on_shim (λ shim. pure shim.deleting)
    elim deleting [ true ↦ delete_branch nodes | false ↦ on_shim (deploy_shim nodes) ]

  -- A deferred call runs however the body ended, and only logs its error.
  unfoldable pub deferred : Outcome (Unit {0}) → Local (Unit {0}) → Local (Unit {0})
  deferred r m s = let (late, s') = m s in elim late [ panic t ↦ (panic t, s') | _ ↦ (r, s') ]

  -- `Reconcile` behind the first fetch, with the deferred `ensureFinalizerForShim`.
  unfoldable pub reconcile_fetched : Local (Unit {0})
  reconcile_fetched s =
      let (r, s') = reconcile_body s in
      deferred r (ensure_finalizer_for_shim rcm_operator_finalizer) s'

  -- `ShimReconciler.Reconcile`
  unfoldable pub reconcile : NamespacedName → Action W (Unit {0})
  reconcile request w =
      let (r, w') = c.get_shim request w in
      elim r [
        | ok shim ↦ let (out, (_, w'')) = reconcile_fetched (shim, w') in (out, w'')
        | err e ↦ return_err (ignore_not_found (some e)) w'
        | panic t ↦ (panic t, w')
      ]

  -- `findShimsToReconcile`
  unfoldable pub find_shims_to_reconcile : W → Outcome (List NamespacedName) × W
  find_shims_to_reconcile w =
      let (r, w') = c.list_shims w in
      elim r [
        | ok shims ↦ (ok (map key_of shims), w')
        | err _ ↦ (ok [], w')
        | panic t ↦ (panic t, w')
      ]
