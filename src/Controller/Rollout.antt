-- ===== src/Controller/Rollout.antt =====
-- Which nodes a rollout touches: the requests of `recreateStrategyRollout` and `handleDeleteShim`.
use runtime_class_manager.Base.{
  ◌≡◌, Bool, true, some, List, [], ◌∷◌, Text, txt, text_eq, arith, All, inl, inr, contains,
  if◌then◌else◌, Bool-cases, Option-cases,
}
use runtime_class_manager.Base.Dict.{insert}
use runtime_class_manager.Go.Outcome.{
  wrapped, raise, Err, ok, Action, pure, wrap, attempt, lift, return_err, join, ignore_not_found,
  ◌>>=◌, ◌>>◌,
}
use runtime_class_manager.Go.Outcome.Laws.{Outcome-cases}
use runtime_class_manager.Api.{Shim}
use runtime_class_manager.Controller.Objects.{
  Node, Job, Client, install_type, uninstall_type, failed,
}
use runtime_class_manager.Controller.Artifact.{ResolvedArtifact, resolve_artifact_for_node}
use runtime_class_manager.Controller.Manifest.{create_job_manifest}
use runtime_class_manager.Controller.Contract.{created-node_name}
use runtime_class_manager.Controller.Deploy.{
  needed_artifact, job_plan, stored, send_node, set_label, update_node_labels, apply_job,
  deploy_labelled, deploy_planned, deploy_fetched, deploy_job_on_node,
}
use runtime_class_manager.Controller.Reconcile.{
  needs_install, is_labelled, recreate_from, recreate_strategy_rollout, handle_delete_shim,
}
use runtime_class_manager.Controller.Log.{
  Event, sent_shim, sent_node, sent_job, sent_runtime_class, Logged, logged, Sends, >>=-Sends,
  >>=-SendsAfter, wrap-Sends, attempt-Sends, return_err-Sends,
}

-- What the controller relies on: the server answers with the node that was asked for.
pub record Named {W : Type 0} (c : Client W) : Type 0 where
  pub get_node-name :
      (name : Text) (w : W) (n : Node) → (c.get_node name w).0 ≡ ok n → n.name ≡ name
  pub update_node-name :
      (sent n : Node) (w : W) → (c.update_node sent w).0 ≡ ok n → n.name ≡ sent.name

-- A request for one of the named nodes: an update of the node, or a job that runs on it.
abbrev pub IsAbout : List Text → Event → Type 0
IsAbout names (sent_shim _) = ⊥
IsAbout names (sent_node n) = contains names n.name ≡ true
IsAbout names (sent_job j) = contains names j.node_name ≡ true
IsAbout names (sent_runtime_class _) = ⊥

module _ {W : Type 0} (c : Client W) (named : Named c) (names : List Text) where
  abbrev Safe : {A : Type 0} → Action (Logged W) A → Type 0
  Safe = Sends {W = W} (IsAbout names)

  set_label-Safe :
      (n : Node) (key status : Text)
      → contains names n.name ≡ true
      → Safe (update_node_labels (logged c) n key status)
  unfolding update_node_labels
  set_label-Safe n key status member w h = elim (Option-cases n.labels) [
    | inl missing ↦ rw (missing, set_label) h
    | inr (labels, e) ↦ rw (e, set_label) (unfold send_node in (member, h))
  ]

  pub update_node_labels-name :
      (n n' : Node) (key status : Text) (e : Err) (w : Logged W)
      → (update_node_labels (logged c) n key status w).0 ≡ ok (n', e)
      → n'.name ≡ n.name
  unfolding update_node_labels set_label send_node stored
  update_node_labels-name n n' key status e w h = elim (Option-cases n.labels) [
    | inl missing ↦ absurd (ground arith)
    | inr (labels, some_labels) ↦ ground (
      arith,
      named.update_node-name (record n { labels = some (insert key status labels) }) n' w.0,
    )
  ]

  apply_job-Safe :
      (shim : Shim) (n : Node) (job : Job)
      → contains names n.name ≡ true
      → contains names job.node_name ≡ true
      → Safe (apply_job (logged c) shim n job)
  unfolding apply_job
  apply_job-Safe shim n job member on w h = elim (Outcome-cases (c.patch_job job w.0).0) [
    | inl (_, e) ↦ rw (e, apply_job) (on, h)
    | inr (inl (e, p)) ↦
        rw (p, apply_job)
          (>>=-Sends (IsAbout names) (update_node_labels (logged c) n shim.name failed)
            (λ _. raise (wrapped (txt "failed to reconcile job") e))
            (set_label-Safe n shim.name failed member) (λ _ w' h'. h')
            ((c.patch_job job w.0).1, sent_job job ∷ w.1) (on, h))
    | inr (inr (t, p)) ↦ rw (p, apply_job) (on, h)
  ]

  deploy_labelled-Safe :
      (shim : Shim) (job_type : Text) (a : ResolvedArtifact) (n : Node) (e : Err)
      → contains names n.name ≡ true
      → Safe (deploy_labelled (logged c) shim job_type a (n, e))
  unfolding deploy_labelled
  deploy_labelled-Safe shim job_type a n e member w h =
      elim (Outcome-cases
        (create_job_manifest c.getenv (c.controller_reference shim) shim n job_type a)) [
          | inl (job, created) ↦
              rw (created, deploy_labelled)
                (apply_job-Safe shim n job member
                  (rw (created-node_name c.getenv shim n job_type a _ created) member) w h)
          | inr (inl (_, p)) ↦ rw (p, deploy_labelled) h
          | inr (inr (_, p)) ↦ rw (p, deploy_labelled) h
        ]

  deploy_planned-Safe :
      (shim : Shim) (n : Node) (job_type : Text) (plan : Text × ResolvedArtifact)
      → contains names n.name ≡ true
      → Safe (deploy_planned (logged c) shim n job_type plan)
  unfolding deploy_planned
  deploy_planned-Safe shim n job_type (status, a) member =
      >>=-SendsAfter (IsAbout names) (update_node_labels (logged c) n shim.name status)
        (deploy_labelled (logged c) shim job_type a) (set_label-Safe n shim.name status member)
        (λ w r e h.
          deploy_labelled-Safe shim job_type a r.0 r.1
            (rw (update_node_labels-name n r.0 shim.name status r.1 w e) member)
            (update_node_labels (logged c) n shim.name status w).1 h)

  deploy_fetched-Safe :
      (shim : Shim) (job_type : Text) (n : Node)
      → contains names n.name ≡ true
      → Safe (deploy_fetched (logged c) shim job_type n)
  unfolding deploy_fetched
  deploy_fetched-Safe shim job_type n member =
      >>=-SendsAfter (IsAbout names)
        (lift (needed_artifact job_type (resolve_artifact_for_node shim n) n.name))
        (λ a. lift (job_plan job_type a) >>= deploy_planned (logged c) shim n job_type) (λ w h. h)
        (λ w a _ h.
          >>=-Sends (IsAbout names) (lift (job_plan job_type a))
            (deploy_planned (logged c) shim n job_type) (λ w' h'. h')
            (λ plan. deploy_planned-Safe shim n job_type plan member) w h)

  -- Deploying a job on a named node sends requests for named nodes only.
  deploy_job_on_node-Safe :
      (shim : Shim) (listed : Node) (job_type : Text)
      → contains names listed.name ≡ true
      → Safe (deploy_job_on_node (logged c) shim listed job_type)
  unfolding deploy_job_on_node
  deploy_job_on_node-Safe shim listed job_type member =
      >>=-SendsAfter (IsAbout names)
        (wrap (txt "failed to fetch node") ((logged c).get_node listed.name))
        (deploy_fetched (logged c) shim job_type)
        (wrap-Sends (IsAbout names) (txt "failed to fetch node") ((logged c).get_node listed.name)
          (λ w h. h))
        (λ w n e h.
          deploy_fetched-Safe shim job_type n
            (rw (named.get_node-name listed.name w.0 n (ground arith)) member) _ h)

  recreate_from-Safe :
      (shim : Shim) (nodes : List Node)
      → All (λ n. needs_install shim.name n ≡ true → contains names n.name ≡ true) nodes
      → Safe (recreate_from (logged c) shim nodes)
  unfolding recreate_from
  recreate_from-Safe shim [] listed w h = h
  recreate_from-Safe shim (n ∷ nodes) listed w h =
      let deployed = attempt (deploy_job_on_node (logged c) shim n install_type) in
      let rest = recreate_from-Safe shim nodes listed.1 in
      elim (Bool-cases (needs_install shim.name n)) [
        | inl needed ↦
            rw (needed, recreate_from)
              (>>=-Sends (IsAbout names) deployed
                (λ e. recreate_from (logged c) shim nodes >>= λ errs. pure (e ∷ errs))
                (attempt-Sends (IsAbout names) _
                  (deploy_job_on_node-Safe shim n install_type (listed.0 needed)))
                (λ e.
                  >>=-Sends (IsAbout names) (recreate_from (logged c) shim nodes)
                    (λ errs. pure (e ∷ errs)) rest (λ _ w' h'. h'))
                w h)
        | inr not_needed ↦ rw (not_needed, recreate_from) (rest w h)
      ]

  handle_delete_shim-Safe :
      (shim : Shim) (nodes : List Node)
      → All (λ n. is_labelled shim.name n ≡ true → contains names n.name ≡ true) nodes
      → Safe (handle_delete_shim (logged c) shim nodes)
  unfolding handle_delete_shim
  handle_delete_shim-Safe shim [] listed w h = h
  handle_delete_shim-Safe shim (n ∷ nodes) listed w h =
      let deployed = attempt (deploy_job_on_node (logged c) shim n uninstall_type) in
      let rest = handle_delete_shim-Safe shim nodes listed.1 in
      elim (Bool-cases (is_labelled shim.name n)) [
        | inl labelled ↦
            rw (labelled, handle_delete_shim)
              (>>=-Sends (IsAbout names) deployed
                (λ e. return_err (ignore_not_found e) >> handle_delete_shim (logged c) shim nodes)
                (attempt-Sends (IsAbout names) _
                  (deploy_job_on_node-Safe shim n uninstall_type (listed.0 labelled)))
                (λ e.
                  >>=-Sends (IsAbout names) (return_err (ignore_not_found e))
                    (λ _. handle_delete_shim (logged c) shim nodes)
                    (return_err-Sends (IsAbout names) (ignore_not_found e)) (λ _. rest))
                w h)
        | inr bare ↦ rw (bare, handle_delete_shim) (rest w h)
      ]

-- The names of the nodes that pass a test.
unfoldable pub names_where : (Node → Bool) → List Node → List Text
names_where test [] = []
names_where test (n ∷ nodes) =
    let rest = names_where test nodes in if test n then n.name ∷ rest else rest

listed_by_test :
    (test : Node → Bool) (nodes : List Node) (names : List Text)
    → ((name : Text) → contains (names_where test nodes) name ≡ true → contains names name ≡ true)
    → All (λ n. test n ≡ true → contains names n.name ≡ true) nodes
unfolding names_where
listed_by_test test [] names sub = tt
listed_by_test test (n ∷ nodes) names sub = (
  λ passes. sub n.name (rw passes (ground arith)),
  listed_by_test test nodes names (λ name member. sub name (ground arith)),
)

module _ {W : Type 0} (c : Client W) (named : Named c) (shim : Shim) (nodes : List Node)
    (w : W) where
  -- A rollout sends requests only for the listed nodes whose label says neither provisioned nor
  -- pending: updates of these nodes and jobs that run on them, whatever the API server answers as long
  -- as it answers with the node that was asked for.
  pub recreate_strategy_rollout-IsAbout :
      All
        (IsAbout (names_where (needs_install shim.name) nodes))
        (recreate_strategy_rollout (logged c) shim nodes (w, [])).1.1
  unfolding recreate_strategy_rollout
  recreate_strategy_rollout-IsAbout =
      let names = names_where (needs_install shim.name) nodes in
      >>=-Sends (IsAbout names) (recreate_from (logged c) shim nodes)
        (λ errs. return_err (join errs))
        (recreate_from-Safe c named names shim nodes
          (listed_by_test (needs_install shim.name) nodes names (λ _ h. h)))
        (λ errs. return_err-Sends (IsAbout names) (join errs)) (w, []) tt

  -- The removal of a shim sends requests only for the listed nodes that carry the label of the
  -- shim: updates of these nodes and jobs that run on them, whatever the API server answers as long
  -- as it answers with the node that was asked for.
  pub handle_delete_shim-IsAbout :
      All
        (IsAbout (names_where (is_labelled shim.name) nodes))
        (handle_delete_shim (logged c) shim nodes (w, [])).1.1
  handle_delete_shim-IsAbout =
      let names = names_where (is_labelled shim.name) nodes in
      handle_delete_shim-Safe c named names shim nodes
        (listed_by_test (is_labelled shim.name) nodes names (λ _ h. h)) (w, []) tt
