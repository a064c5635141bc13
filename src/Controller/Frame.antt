-- ===== src/Controller/Frame.antt =====
-- What the steps of both reconcilers keep of the world: an invariant that the calls of the client
-- keep, where nodes are sent only as they were fetched, after one label is written.
pub mod Local
pub mod Follow
use runtime_class_manager.Base.{
  ◌≡◌, Bool, true, false, not, Option, some, none, List, [], ◌∷◌, Text, txt, text_eq, ◌==◌, inl,
  inr, arith, Bool-cases, Option-cases,
}
use runtime_class_manager.Base.Dict.{Dict, lookup, insert}
use runtime_class_manager.Go.Outcome.{
  wrapped, raise, Err, ok, Action, pure, wrap, attempt, lift, return_err, join, ignore_not_found,
  when, ◌>>=◌, ◌>>◌,
}
use runtime_class_manager.Go.Outcome.Laws.{
  Outcome-cases, Preserves, Yields, >>=-Preserves, >>=-Preserves_yield, wrap-Preserves, wrap-Yields,
  attempt-Preserves, return_err-Preserves,
}
use runtime_class_manager.Api.{Shim, rolling_type}
use runtime_class_manager.Controller.Objects.{
  NamespacedName, Node, Job, RuntimeClass, Client, install_type, uninstall_type, failed,
}
use runtime_class_manager.Controller.Artifact.{ResolvedArtifact, resolve_artifact_for_node}
use runtime_class_manager.Controller.Manifest.{create_job_manifest, create_runtime_class_manifest}
use runtime_class_manager.Controller.Contract.{created-annotations}
use runtime_class_manager.Controller.Job.{operation_annotation}
use runtime_class_manager.Controller.Deploy.{
  needed_artifact, job_plan, send_node, stored, set_label, update_node_labels, apply_job,
  deploy_labelled, deploy_planned, deploy_fetched, deploy_job_on_node,
}
use runtime_class_manager.Controller.Reconcile.{
  needs_install, is_labelled, recreate_from, recreate_strategy_rollout, handle_install_shim,
  handle_delete_shim, runtime_class_exists, get_runtime_class, handle_deploy_runtime_class,
  deploy_shim,
}

-- The calls on nodes: `Good` holds of the nodes that may be sent, those that are fetched, also after
-- the label of the key is written.
pub record NodeFrame {W : Type 0} (c : Client W) (I : W → Type 0) (Good : Node → Type 0)
    (key : Text) : Type 0 where
  pub get_node : (name : Text) → Yields I Good (c.get_node name)
  pub update_node : (n : Node) → Good n → Yields I Good (c.update_node n)
  pub relabel :
      (n : Node) (labels : Dict Text Text) (status : Text)
      → n.labels ≡ some labels
      → Good n
      → Good (record n { labels = some (insert key status labels) })

-- A job of the type may be applied.
abbrev pub JobFrame : {W : Type 0} → Client W → (W → Type 0) → Text → Type 0
JobFrame c I job_type =
    (j : Job)
    → lookup operation_annotation j.annotations ≡ some job_type
    → Preserves I (c.patch_job j)

-- The calls on runtime classes.
pub record ClassFrame {W : Type 0} (c : Client W) (I : W → Type 0) : Type 0 where
  pub get_runtime_class : (k : NamespacedName) → Preserves I (c.get_runtime_class k)
  pub patch_runtime_class : (rc : RuntimeClass) → Preserves I (c.patch_runtime_class rc)

module _ {W : Type 0} (c : Client W) (I : W → Type 0) (Good : Node → Type 0) (key : Text)
    (A : NodeFrame c I Good key) where
  send_node-Yields : (t : Text) (n : Node) → Good n → Yields I (λ r. Good r.0) (send_node c t n)
  unfolding send_node stored
  send_node-Yields t n good w h = elim (Outcome-cases (c.update_node n w).0) [
    | inl (m, e) ↦ (
      (A.update_node n good w h).0,
      λ r got.
          let same : (m, none) ≡ r = ground (arith, got, e) in
          let kept = (A.update_node n good w h).1 m e in rw (← same) kept,
    )
    | inr (inl (e, p)) ↦ (
      (A.update_node n good w h).0,
      λ r got. let same : n ≡ r.0 = ground (arith, got, p) in rw (← same) good,
    )
    | inr (inr (t, p)) ↦ ((A.update_node n good w h).0, λ r got. absurd (ground (arith, got, p)))
  ]

  pub update_node_labels-Yields :
      (n : Node) (status : Text)
      → Good n
      → Yields I (λ r. Good r.0) (update_node_labels c n key status)
  unfolding update_node_labels
  update_node_labels-Yields n status good w h = elim (Option-cases n.labels) [
    | inl missing ↦ rw (missing, set_label) (h, λ r got. absurd (ground arith))
    | inr (labels, e) ↦
        rw (e, set_label)
          (send_node-Yields (txt "failed to update node labels")
            (record n { labels = some (insert key status labels) })
            (A.relabel n labels status e good) w h)
  ]

  pub send_node-Preserves : (t : Text) (n : Node) → Good n → Preserves I (send_node c t n)
  send_node-Preserves t n good w h = (send_node-Yields t n good w h).0

module _ {W : Type 0} (c : Client W) (I : W → Type 0) (Good : Node → Type 0) (shim : Shim)
    (A : NodeFrame c I Good shim.name) where
  apply_job-Preserves :
      (n : Node) (job : Job)
      → Good n
      → Preserves I (c.patch_job job)
      → Preserves I (apply_job c shim n job)
  unfolding apply_job
  apply_job-Preserves n job good patched w h =
      let kept = patched w h in
      elim (Outcome-cases (c.patch_job job w).0) [
        | inl (_, e) ↦ rw (e, apply_job) kept
        | inr (inl (e, p)) ↦
            rw (p, apply_job)
              (>>=-Preserves_yield I (λ r. Good r.0) (update_node_labels c n shim.name failed)
                (λ _. raise (wrapped (txt "failed to reconcile job") e))
                (update_node_labels-Yields c I Good shim.name A n failed good) (λ _ _ w' h'. h')
                (c.patch_job job w).1 kept)
        | inr (inr (t, p)) ↦ rw (p, apply_job) kept
      ]

  module _ (job_type : Text) (jobs : JobFrame c I job_type) where
    deploy_labelled-Preserves :
        (a : ResolvedArtifact) (r : Node × Err)
        → Good r.0
        → Preserves I (deploy_labelled c shim job_type a r)
    unfolding deploy_labelled
    deploy_labelled-Preserves a (n, e) good w h =
        elim (Outcome-cases
          (create_job_manifest c.getenv (c.controller_reference shim) shim n job_type a)) [
            | inl (job, created) ↦
                rw (created, deploy_labelled)
                  (apply_job-Preserves n job good
                    (jobs job (created-annotations c.getenv shim n job_type a _ created)) w h)
            | inr (inl (_, p)) ↦ rw (p, deploy_labelled) h
            | inr (inr (_, p)) ↦ rw (p, deploy_labelled) h
          ]

    deploy_fetched-Preserves : (n : Node) → Good n → Preserves I (deploy_fetched c shim job_type n)
    unfolding deploy_fetched deploy_planned
    deploy_fetched-Preserves n good =
        >>=-Preserves I (lift (needed_artifact job_type (resolve_artifact_for_node shim n) n.name))
          (λ a. lift (job_plan job_type a) >>= deploy_planned c shim n job_type) (λ w h. h)
          (λ a.
            >>=-Preserves I (lift (job_plan job_type a)) (deploy_planned c shim n job_type)
              (λ w h. h)
              (λ (status, b).
                >>=-Preserves_yield I (λ r. Good r.0) (update_node_labels c n shim.name status)
                  (deploy_labelled c shim job_type b)
                  (update_node_labels-Yields c I Good shim.name A n status good)
                  (deploy_labelled-Preserves b)))

    pub deploy_job_on_node-Preserves :
        (listed : Node) → Preserves I (deploy_job_on_node c shim listed job_type)
    unfolding deploy_job_on_node
    deploy_job_on_node-Preserves listed =
        >>=-Preserves_yield I Good (wrap (txt "failed to fetch node") (c.get_node listed.name))
          (deploy_fetched c shim job_type)
          (wrap-Yields I Good (txt "failed to fetch node") (c.get_node listed.name)
            (A.get_node listed.name))
          deploy_fetched-Preserves

  pub handle_delete_shim-Preserves :
      JobFrame c I uninstall_type
      → (nodes : List Node) → Preserves I (handle_delete_shim c shim nodes)
  unfolding handle_delete_shim
  handle_delete_shim-Preserves jobs [] w h = h
  handle_delete_shim-Preserves jobs (n ∷ nodes) w h =
      let rest = handle_delete_shim-Preserves jobs nodes in
      elim (Bool-cases (is_labelled shim.name n)) [
        | inl labelled ↦
            rw (labelled, handle_delete_shim)
              (>>=-Preserves I (attempt (deploy_job_on_node c shim n uninstall_type))
                (λ e. return_err (ignore_not_found e) >> handle_delete_shim c shim nodes)
                (attempt-Preserves I _ (deploy_job_on_node-Preserves uninstall_type jobs n))
                (λ e.
                  >>=-Preserves I (return_err (ignore_not_found e))
                    (λ _. handle_delete_shim c shim nodes)
                    (return_err-Preserves I (ignore_not_found e)) (λ _. rest))
                w h)
        | inr bare ↦ rw (bare, handle_delete_shim) (rest w h)
      ]

  module _ (jobs : JobFrame c I install_type) where
    recreate_from-Preserves : (nodes : List Node) → Preserves I (recreate_from c shim nodes)
    unfolding recreate_from
    recreate_from-Preserves [] w h = h
    recreate_from-Preserves (n ∷ nodes) w h =
        let rest = recreate_from-Preserves nodes in
        elim (Bool-cases (needs_install shim.name n)) [
          | inl needed ↦
              rw (needed, recreate_from)
                (>>=-Preserves I (attempt (deploy_job_on_node c shim n install_type))
                  (λ e. recreate_from c shim nodes >>= λ errs. pure (e ∷ errs))
                  (attempt-Preserves I _ (deploy_job_on_node-Preserves install_type jobs n))
                  (λ e.
                    >>=-Preserves I (recreate_from c shim nodes) (λ errs. pure (e ∷ errs)) rest
                      (λ _ w' h'. h'))
                  w h)
          | inr not_needed ↦ rw (not_needed, recreate_from) (rest w h)
        ]

    handle_install_shim-Preserves :
        (nodes : List Node) → Preserves I (handle_install_shim c shim nodes)
    unfolding handle_install_shim recreate_strategy_rollout
    handle_install_shim-Preserves nodes w h =
        elim (Bool-cases (shim.spec.rollout_strategy.type == rolling_type)) [
          | inl rolling ↦ rw (rolling) h
          | inr other ↦ rw (other) (
              >>=-Preserves I (recreate_from c shim nodes) (λ errs. return_err (join errs))
                (recreate_from-Preserves nodes) (λ errs. return_err-Preserves I (join errs)) w h)
        ]

    module _ (classes : ClassFrame c I) where
      runtime_class_exists-Preserves : Preserves I (runtime_class_exists c shim)
      unfolding runtime_class_exists get_runtime_class
      runtime_class_exists-Preserves w h = elim (Bool-cases (shim.spec.runtime_class.name == [])) [
        | inl unnamed ↦ rw (unnamed, runtime_class_exists) h
        | inr named ↦
            let k : NamespacedName = record {
              name = shim.spec.runtime_class.name;
              namespace = shim.namespace;
            } in
            rw (named, runtime_class_exists)
              (wrap-Preserves I (txt "failed to get runtimeClass") (c.get_runtime_class k)
                (classes.get_runtime_class k) w h)
      ]

      apply_class-Preserves :
          (b : Bool) → Preserves I (when (not b) (handle_deploy_runtime_class c shim))
      unfolding handle_deploy_runtime_class
      apply_class-Preserves true w h = h
      apply_class-Preserves false w h =
          >>=-Preserves I (lift (create_runtime_class_manifest (c.controller_reference shim) shim))
            (λ rc. wrap (txt "failed to reconcile RuntimeClass") (c.patch_runtime_class rc))
            (λ w h. h)
            (λ rc.
              wrap-Preserves I (txt "failed to reconcile RuntimeClass") (c.patch_runtime_class rc)
                (classes.patch_runtime_class rc))
            w h

      install_listed-Preserves :
          (nodes : List Node)
          → Preserves I (elim nodes [ [] ↦ pure tt | n ∷ ns ↦ handle_install_shim c shim (n ∷ ns) ])
      install_listed-Preserves [] w h = h
      install_listed-Preserves (n ∷ ns) w h = handle_install_shim-Preserves (n ∷ ns) w h

      pub deploy_shim-Preserves : (nodes : List Node) → Preserves I (deploy_shim c nodes shim)
      unfolding deploy_shim
      deploy_shim-Preserves nodes =
          let install_listed : Action W (Unit {0}) = elim nodes [
            | [] ↦ pure tt
            | n ∷ ns ↦ handle_install_shim c shim (n ∷ ns)
          ] in
          let apply_class : Bool → Action W (Unit {0}) =
            λ exists. when (not exists) (handle_deploy_runtime_class c shim) in
          >>=-Preserves I (runtime_class_exists c shim)
            (λ exists. apply_class exists >> install_listed) runtime_class_exists-Preserves
            (λ exists.
              >>=-Preserves I (apply_class exists) (λ _. install_listed)
                (apply_class-Preserves exists) (λ _. install_listed-Preserves nodes))
