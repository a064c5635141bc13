-- ===== src/Controller/Removing.antt =====
-- The job that a removal on one node sends.
use runtime_class_manager.Base.{
  refl, ap, ◌≡◌, ◌∙◌, some, List, [], ◌∷◌, Text, txt, text_eq, inl, inr, arith,
}
use mathlib.Core.Path.{subst}
use runtime_class_manager.Base.Dict.{lookup}
use runtime_class_manager.Go.Outcome.{wrapped, Err, ok, Outcome, raise, wrap, lift, ◌>>=◌}
use runtime_class_manager.Go.Outcome.Laws.{Outcome-cases, >>=_elim, wrap_world}
use runtime_class_manager.Api.{Shim}
use runtime_class_manager.Controller.Objects.{Node, Job, Client, uninstall_type, failed}
use runtime_class_manager.Controller.Artifact.{ResolvedArtifact, resolve_artifact_for_node}
use runtime_class_manager.Controller.Manifest.{create_job_manifest}
use runtime_class_manager.Controller.Contract.{created-annotations, created-node_name}
use runtime_class_manager.Controller.Job.{operation_annotation}
use runtime_class_manager.Controller.Deploy.{
  needed_artifact, job_plan, update_node_labels, apply_job, deploy_labelled, deploy_planned,
  deploy_fetched, deploy_job_on_node,
}
use runtime_class_manager.Controller.Log.{
  Event, sent_shim, sent_node, sent_job, sent_runtime_class, Logged, logged,
}
use runtime_class_manager.Controller.Rollout.{Named, update_node_labels-name}
use runtime_class_manager.Controller.Order.{update-log}

-- A job that removes the shim from the named node.
abbrev pub Removes : Text → Event → Type 0
Removes name (sent_shim _) = ⊥
Removes name (sent_node _) = ⊥
Removes name (sent_job j) =
    (j.node_name ≡ name) × (lookup operation_annotation j.annotations ≡ some uninstall_type)
Removes name (sent_runtime_class _) = ⊥

module _ {W : Type 0} where
  -- The last request after those before is a job that removes the shim from the named node.
  abbrev Sent : {A : Type 0} → Text → List Event → Outcome A × Logged W → Type 0
  Sent name before r = (j : Job) × Removes name (sent_job j) × (r.1.1 ≡ sent_job j ∷ before)

  -- The last requests after those before are an update of a node and such a job.
  abbrev pub Removed : {A : Type 0} → Text → List Event → Outcome A × Logged W → Type 0
  Removed name before r = (n : Node) × (n.name ≡ name) × Sent name (sent_node n ∷ before) r

module _ {W : Type 0} (c : Client W) (named : Named c) (shim : Shim) where
  apply_job-Sent :
      (n : Node) (j : Job) (name : Text) (w : Logged W)
      → j.node_name ≡ name
      → lookup operation_annotation j.annotations ≡ some uninstall_type
      → (apply_job (logged c) shim n j w).0 ≡ ok tt
      → Sent name w.1 (apply_job (logged c) shim n j w)
  unfolding apply_job
  apply_job-Sent n j name w on typed h = elim (Outcome-cases (c.patch_job j w.0).0) [
    | inl (_, e) ↦ rw (e, apply_job) (j, (on, typed), refl)
    | inr (inl (e, p)) ↦
        let message = wrapped (txt "failed to reconcile job") e in
        let update = update_node_labels (logged c) n shim.name failed in
        let w' : Logged W = ((c.patch_job j w.0).1, sent_job j ∷ w.1) in
        rw (p, apply_job)
          (>>=_elim update (λ _. raise message) w' (Sent name w.1) (rw (p, apply_job) at h)
            (λ _ _ failed_too. absurd (ground arith)))
    | inr (inr (t, p)) ↦ absurd (ground arith)
  ]

  deploy_labelled-Sent :
      (a : ResolvedArtifact) (r : Node × Err) (name : Text) (w : Logged W)
      → r.0.name ≡ name
      → (deploy_labelled (logged c) shim uninstall_type a r w).0 ≡ ok tt
      → Sent name w.1 (deploy_labelled (logged c) shim uninstall_type a r w)
  unfolding deploy_labelled
  deploy_labelled-Sent a (n, late) name w same h =
      let reference = c.controller_reference shim in
      >>=_elim (lift (create_job_manifest c.getenv reference shim n uninstall_type a))
        (apply_job (logged c) shim n) w (Sent name w.1) h
        (λ j created h'.
          apply_job-Sent n j name w
            (created-node_name c.getenv shim n uninstall_type a reference created ∙ same)
            (created-annotations c.getenv shim n uninstall_type a reference created) h')

  deploy_planned-Sent :
      (n : Node) (status : Text) (a : ResolvedArtifact) (w : Logged W)
      → (deploy_planned (logged c) shim n uninstall_type (status, a) w).0 ≡ ok tt
      → Removed n.name w.1 (deploy_planned (logged c) shim n uninstall_type (status, a) w)
  unfolding deploy_planned
  deploy_planned-Sent n status a w h =
      let update = update_node_labels (logged c) n shim.name status in
      >>=_elim update (deploy_labelled (logged c) shim uninstall_type a) w (Removed n.name w.1) h
        (λ (n', late) updated h'.
          let same = update_node_labels-name c named [] n n' shim.name status late w updated in
          let (j, removes, sent) = deploy_labelled-Sent a (n', late) n.name (update w).1 same h' in
          elim (update-log c shim n shim.name status w) [
            | inl (t, p) ↦ absurd (ground arith)
            | inr (m, l, p) ↦ (m, l.0, (j, removes, sent ∙ ap (λ log. sent_job j ∷ log) p))
          ])

  deploy_fetched-Sent :
      (n : Node) (w : Logged W)
      → (deploy_fetched (logged c) shim uninstall_type n w).0 ≡ ok tt
      → Removed n.name w.1 (deploy_fetched (logged c) shim uninstall_type n w)
  unfolding deploy_fetched
  deploy_fetched-Sent n w h =
      >>=_elim (lift (needed_artifact uninstall_type (resolve_artifact_for_node shim n) n.name))
        (λ a. lift (job_plan uninstall_type a) >>= deploy_planned (logged c) shim n uninstall_type)
        w (Removed n.name w.1) h
        (λ a _ h1.
          >>=_elim (lift (job_plan uninstall_type a))
            (deploy_planned (logged c) shim n uninstall_type) w (Removed n.name w.1) h1
            (λ (status, b) _ h2. deploy_planned-Sent n status b w h2))

  fetch_log :
      (name : Text) (w : Logged W)
      → (wrap (txt "failed to fetch node") ((logged c).get_node name) w).1.1 ≡ w.1
  fetch_log name w =
      ap (λ v. v.1) (wrap_world ((logged c).get_node name) w (txt "failed to fetch node"))

  -- A removal that went through sent a job for the node, after an update of the node.
  pub deploy_job_on_node-Sent :
      (n : Node) (w : Logged W)
      → (deploy_job_on_node (logged c) shim n uninstall_type w).0 ≡ ok tt
      → Removed n.name w.1 (deploy_job_on_node (logged c) shim n uninstall_type w)
  unfolding deploy_job_on_node
  deploy_job_on_node-Sent n w h =
      let get = (logged c).get_node n.name in
      let fetch = wrap (txt "failed to fetch node") get in
      >>=_elim fetch (deploy_fetched (logged c) shim uninstall_type) w (Removed n.name w.1) h
        (λ fetched got h'.
          let same : fetched.name ≡ n.name =
            named.get_node-name n.name w.0 fetched (ground arith) in
          let rest = fetch_log n.name w in
          let r = deploy_fetched (logged c) shim uninstall_type fetched (fetch w).1 in
          subst (λ name. Removed name w.1 r) same
            (subst (λ log. Removed fetched.name log r) rest
              (deploy_fetched-Sent fetched (fetch w).1 h')))
