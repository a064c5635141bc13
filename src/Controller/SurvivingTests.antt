-- ===== src/Controller/SurvivingTests.antt =====
-- An installation and a removal, with a reconciliation of another shim and of a job in between.
use runtime_class_manager.Base.{◌≡◌, ◌≢◌, refl, none, some, List, [], ◌∷◌, txt, text_eq, arith}
use runtime_class_manager.Base.Dict.{lookup, insert}
use runtime_class_manager.Go.Outcome.{ok}
use runtime_class_manager.Go.Strings.{equal_fold}
use runtime_class_manager.Controller.Objects.{
  NamespacedName, Node, Job, JobCondition, label_of, install_type, uninstall_type, provisioned,
  pending,
}
use runtime_class_manager.Controller.Artifact.{
  ResolvedArtifact, matches_platform, resolve_artifact_for_node, resolve_from, find_platform,
  normalize_arch,
}
use runtime_class_manager.Controller.Manifest.{create_job_manifest, job_manifest}
use runtime_class_manager.Controller.Deploy.{
  needed_artifact, no_artifact, job_plan, deploy_job_on_node, deploy_fetched, deploy_planned,
  deploy_labelled, apply_job, update_node_labels, set_label, send_node, stored,
}
use runtime_class_manager.Controller.Job
use runtime_class_manager.Controller.Job.{is_job_finished, is_final, job_complete, reconcile_job}
use runtime_class_manager.Controller.Reconcile
use runtime_class_manager.Controller.Reconcile.{recreate_strategy_rollout, handle_delete_shim}
use runtime_class_manager.Controller.Marking.{with_label}
use runtime_class_manager.Controller.Isolation.{
  Run, start, next, reconciles_shim, reconciles_job, label_at, Run-label_at,
}
use runtime_class_manager.Controller.Surviving.{installation_survives, removal_survives}
use runtime_class_manager.Controller.Tests.{shim, provisioned_node}
use runtime_class_manager.Controller.SharedCluster.{
  Nodes, find_node, cluster, cluster-IsFaithful, cluster-IsShared,
}

abbrev fresh_node : Node
fresh_node = record {
  name = txt "node-1";
  labels = some [];
  operating_system = txt "linux";
  architecture = txt "amd64";
}

abbrev begin : Nodes
begin = (txt "node-1", fresh_node) ∷ (txt "node-2", provisioned_node) ∷ []

abbrev conditions : List JobCondition
conditions = record { type = job_complete; status = txt "True" } ∷ []

abbrev artifact : ResolvedArtifact
artifact = record { location = txt "https://x"; sha256 = txt "ab" }

abbrev other_shim : NamespacedName
other_shim = record { name = txt "wws"; namespace = [] }

differs : txt "wws" ≢ shim.name
unfolding txt
differs e = absurd (ground arith)

-- The other shim is rolled out to both nodes, and some job is looked at.
abbrev afterwards : Nodes → Nodes
afterwards w = (Job.reconcile cluster other_shim (Reconcile.reconcile cluster other_shim w).1).1

others : (w : Nodes) → Run cluster cluster-IsShared shim.name w (afterwards w)
others w =
    next (next start (reconciles_shim other_shim differs))
      (reconciles_job other_shim (λ job got. absurd (ground arith)))

abbrev installed_at : Nodes
installed_at = (deploy_job_on_node cluster shim fresh_node install_type begin).1

deploys : (deploy_job_on_node cluster shim fresh_node install_type begin).0 ≡ ok tt
unfolding deploy_job_on_node deploy_fetched needed_artifact resolve_artifact_for_node resolve_from
    find_platform normalize_arch matches_platform equal_fold job_plan deploy_planned
    update_node_labels set_label send_node stored deploy_labelled create_job_manifest apply_job
    find_node lookup insert txt text_eq
deploys = refl

created_job : Job
created_job =
    record (job_manifest cluster.getenv shim (with_label shim fresh_node [] pending) install_type
      artifact) { owner = some (record { name = shim.name; uid = txt "1" }) }

Run-label_at_example :
    label_at cluster cluster-IsShared shim.name (afterwards installed_at) (txt "node-1")
    ≡ label_at cluster cluster-IsShared shim.name installed_at (txt "node-1")
Run-label_at_example =
    Run-label_at cluster cluster-IsShared shim.name (others installed_at) (txt "node-1")

installation_survives_example :
    let r =
      reconcile_job cluster
        (record created_job { conditions = conditions })
        (afterwards installed_at) in
    (m : Node) × (r.0 ≡ ok tt)
    × (find_node r.1 (txt "node-1") ≡ some m)
    × (label_of m shim.name ≡ some provisioned)
    × (recreate_strategy_rollout cluster shim (m ∷ []) r.1 ≡ (ok tt, r.1))
unfolding cluster-IsFaithful cluster-IsShared created_job create_job_manifest is_job_finished
    is_final find_node lookup txt text_eq
installation_survives_example =
    installation_survives cluster cluster-IsFaithful cluster-IsShared (λ w q. refl) shim fresh_node
      [] refl fresh_node refl begin (afterwards installed_at) refl artifact {job = created_job}
      conditions refl deploys refl (others installed_at)

abbrev removed_at : Nodes
removed_at = (deploy_job_on_node cluster shim provisioned_node uninstall_type begin).1

removes : (deploy_job_on_node cluster shim provisioned_node uninstall_type begin).0 ≡ ok tt
unfolding deploy_job_on_node deploy_fetched needed_artifact resolve_artifact_for_node resolve_from
    find_platform normalize_arch matches_platform equal_fold job_plan deploy_planned
    update_node_labels set_label send_node stored deploy_labelled create_job_manifest apply_job
    find_node lookup insert txt text_eq
removes = refl

removal_job : Job
removal_job =
    job_manifest cluster.getenv shim
      (with_label shim provisioned_node ((txt "spin-v1", provisioned) ∷ []) uninstall_type)
      uninstall_type no_artifact

removal_survives_example :
    let r =
      reconcile_job cluster
        (record removal_job { conditions = conditions })
        (afterwards removed_at) in
    (m : Node) × (r.0 ≡ ok tt)
    × (find_node r.1 (txt "node-2") ≡ some m)
    × (label_of m shim.name ≡ none)
    × (handle_delete_shim cluster shim (m ∷ []) r.1 ≡ (ok tt, r.1))
unfolding cluster-IsFaithful cluster-IsShared removal_job create_job_manifest is_job_finished
    is_final find_node lookup txt text_eq
removal_survives_example =
    removal_survives cluster cluster-IsFaithful cluster-IsShared (λ w q. refl) shim provisioned_node
      ((txt "spin-v1", provisioned) ∷ []) refl provisioned_node refl begin (afterwards removed_at)
      refl no_artifact {job = removal_job} conditions refl removes refl (others removed_at)
