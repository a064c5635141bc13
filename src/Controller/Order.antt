-- ===== src/Controller/Order.antt =====
-- The order of the requests of an installation on one node.
use runtime_class_manager.Base.{
  [], sym, ◌≡◌, refl, ◌∙◌, some, List, ◌∷◌, Text, txt, text_eq, ==_refl, arith, ◌⊎◌, inl, inr,
  Option-cases,
}
use mathlib.Core.Path.{subst}
use runtime_class_manager.Controller.Rollout.{Named, update_node_labels-name}
use runtime_class_manager.Controller.Contract.{created-annotations, created-node_name}
use runtime_class_manager.Controller.Job.{operation_annotation}
use runtime_class_manager.Base.Dict.{lookup, insert, lookup-insert}
use runtime_class_manager.Go.Outcome.{Err, panic, wrap}
use runtime_class_manager.Go.Outcome.Laws.{Outcome-cases, >>=_ok, wrap_world}
use runtime_class_manager.Api.{Shim}
use runtime_class_manager.Controller.Objects.{
  Node, Job, Client, label_of, install_type, pending, failed,
}
use runtime_class_manager.Controller.Artifact.{ResolvedArtifact, resolve_artifact_for_node}
use runtime_class_manager.Controller.Manifest.{create_job_manifest}
use runtime_class_manager.Controller.Log.{Event, sent_node, sent_job, Logged, logged}
use runtime_class_manager.Controller.Deploy.{
  needed_artifact, job_plan, update_node_labels, set_label, send_node, apply_job, deploy_labelled,
  deploy_planned, deploy_fetched, deploy_job_on_node,
}

-- The node of this name, as it is sent with the label `status`.
abbrev pub Labels : Text → Text → Text → Node → Type 0
Labels name shim_name status n = (n.name ≡ name) × (label_of n shim_name ≡ some status)

-- A job that installs on the node of this name.
abbrev pub Installs : Text → Job → Type 0
Installs name j =
    (j.node_name ≡ name) × (lookup operation_annotation j.annotations ≡ some install_type)

-- The log, latest first, once a deployment on the node has begun with `before`: nothing was sent, the
-- node was labelled, a job followed, or a job followed and the node was marked as failed.
pub data Deployed (name shim_name status : Text) (before : List Event) (log : List Event)
    : Type 0 where
  untouched : log ≡ before → Deployed name shim_name status before log
  labelled :
      (n : Node)
      → Labels name shim_name status n
      → log ≡ sent_node n ∷ before
      → Deployed name shim_name status before log
  created :
      (n : Node) (j : Job)
      → Labels name shim_name status n
      → Installs name j
      → log ≡ sent_job j ∷ sent_node n ∷ before
      → Deployed name shim_name status before log
  marked :
      (n m : Node) (j : Job)
      → Labels name shim_name status n
      → Installs name j
      → Labels name shim_name failed m
      → log ≡ sent_node m ∷ sent_job j ∷ sent_node n ∷ before
      → Deployed name shim_name status before log

renamed :
    {name name' shim_name status : Text} {before log : List Event}
    → name ≡ name'
    → Deployed name shim_name status before log
    → Deployed name' shim_name status before log
renamed {shim_name = shim_name} {status = status} {before = before} {log = log} same =
    subst (λ name. Deployed name shim_name status before log) same

module _ {W : Type 0} (c : Client W) (shim : Shim) where
  label_of_set :
      (n : Node) (key status : Text) (labels : List (Text × Text))
      → label_of (record n { labels = some (insert key status labels) }) key ≡ some status
  unfolding label_of
  label_of_set n key status labels = lookup-insert key key status labels ∙ rw ==_refl refl

  -- An update of a label is sent, or panics on a node without labels.
  pub update-log :
      (n : Node) (key status : Text) (w : Logged W)
      → ((t : Text) × (update_node_labels (logged c) n key status w ≡ (panic t, w)))
        ⊎ ((m : Node) × Labels n.name key status m
            × ((update_node_labels (logged c) n key status w).1.1 ≡ sent_node m ∷ w.1))
  unfolding update_node_labels set_label send_node
  update-log n key status w = elim (Option-cases n.labels) [
    | inl e ↦ inl (txt "assignment to entry in nil map", ground arith)
    | inr (labels, e) ↦ inr (
      record n { labels = some (insert key status labels) },
      (refl, label_of_set n key status labels),
      ground arith,
    )
  ]

  apply_job-log :
      (node : Node) (j : Job) (w : Logged W)
      → ((apply_job (logged c) shim node j w).1.1 ≡ sent_job j ∷ w.1)
        ⊎ ((m : Node) × Labels node.name shim.name failed m
            × ((apply_job (logged c) shim node j w).1.1 ≡ sent_node m ∷ sent_job j ∷ w.1))
  unfolding apply_job
  apply_job-log node j w = elim (Outcome-cases (c.patch_job j w.0).0) [
    | inl (_, e) ↦ inl (ground arith)
    | inr (inl (e, p)) ↦
        elim (update-log node shim.name failed ((c.patch_job j w.0).1, sent_job j ∷ w.1)) [
          | inl (t, q) ↦ inl (ground arith)
          | inr (m, l, q) ↦ inr (m, l, ground arith)
        ]
    | inr (inr (t, p)) ↦ inl (ground arith)
  ]

  module _ (named : Named c) where
    deploy_labelled-Deployed :
        (status : Text) (a : ResolvedArtifact) (r : Node × Err) (before : List Event) (w : Logged W)
        (n : Node)
        → Labels r.0.name shim.name status n
        → w.1 ≡ sent_node n ∷ before
        → Deployed r.0.name shim.name status before
            (deploy_labelled (logged c) shim install_type a r w).1.1
    unfolding deploy_labelled
    deploy_labelled-Deployed status a (node, late) before w n l sent =
        let reference = c.controller_reference shim in
        elim (Outcome-cases (create_job_manifest c.getenv reference shim node install_type a)) [
          | inl (j, e) ↦
              let on = created-node_name c.getenv shim node install_type a reference e in
              let typed = created-annotations c.getenv shim node install_type a reference e in
              elim (apply_job-log node j w) [
                | inl p ↦ created n j l (on, typed) (ground arith)
                | inr (m, l', p) ↦ marked n m j l (on, typed) l' (ground arith)
              ]
          | inr (inl (e, p)) ↦ labelled n l (ground arith)
          | inr (inr (t, p)) ↦ labelled n l (ground arith)
        ]

    deploy_planned-Deployed :
        (node : Node) (status : Text) (a : ResolvedArtifact) (w : Logged W)
        → Deployed node.name shim.name status w.1
            (deploy_planned (logged c) shim node install_type (status, a) w).1.1
    unfolding deploy_planned
    deploy_planned-Deployed node status a w =
        let update = update_node_labels (logged c) node shim.name status in
        elim (update-log node shim.name status w) [
          | inl (t, p) ↦ untouched (ground arith)
          | inr (m, l, p) ↦ elim (Outcome-cases (update w).0) [
            | inl (r, e) ↦
                let same = update_node_labels-name c named [] node r.0 shim.name status r.1 w e in
                let rest =
                  deploy_labelled-Deployed status a r w.1 (update w).1 m (l.0 ∙ sym same, l.1) p in
                rw (>>=_ok update (deploy_labelled (logged c) shim install_type a) w r e)
                  (renamed same rest)
            | inr (inl (e, q)) ↦ labelled m l (ground arith)
            | inr (inr (t, q)) ↦ labelled m l (ground arith)
          ]
        ]

    deploy_fetched-Deployed :
        (node : Node) (w : Logged W)
        → Deployed node.name shim.name pending w.1
            (deploy_fetched (logged c) shim install_type node w).1.1
    unfolding deploy_fetched job_plan txt text_eq
    deploy_fetched-Deployed node w =
        let artifact =
          needed_artifact install_type (resolve_artifact_for_node shim node) node.name in
        elim (Outcome-cases artifact) [
          | inl (a, e) ↦ rw (e, deploy_fetched) (deploy_planned-Deployed node pending a w)
          | inr (inl (e, p)) ↦ untouched (ground arith)
          | inr (inr (t, p)) ↦ untouched (ground arith)
        ]

    -- An installation on a listed node, on a server that answers with the node that was asked for,
    -- sends its requests in this order, and stops after some of them: an update that labels this
    -- node as pending, a job that installs on this node, and an update that labels this node as
    -- failed. So at most one job is sent, and only after the update was asked for, whether or not
    -- that went through.
    pub deploy_job_on_node-Deployed :
        (listed : Node) (w : Logged W)
        → Deployed listed.name shim.name pending w.1
            (deploy_job_on_node (logged c) shim listed install_type w).1.1
    unfolding deploy_job_on_node
    deploy_job_on_node-Deployed listed w = elim (Outcome-cases (c.get_node listed.name w.0).0) [
      | inl (n, e) ↦
          let get = (logged c).get_node listed.name in
          let message = txt "failed to fetch node" in
          let same = named.get_node-name listed.name w.0 n e in
          rw
            (
              >>=_ok (wrap message get) (deploy_fetched (logged c) shim install_type) w n
                  (ground arith),
              wrap_world get w message,
            )
            (renamed same (deploy_fetched-Deployed n (get w).1))
      | inr (inl (e, p)) ↦ untouched (ground arith)
      | inr (inr (t, p)) ↦ untouched (ground arith)
    ]
