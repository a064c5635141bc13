-- ===== src/Controller/Surviving.antt =====
-- An installation and a removal on a cluster on which other shims are reconciled at the same time.
use runtime_class_manager.Base.{
  ◌≡◌, refl, sym, ap, ◌∙◌, inl, inr, Option, some, none, true, [], ◌∷◌, Text, txt, text_eq, List,
  Option-cases, arith,
}
use runtime_class_manager.Base.Dict.{Dict}
use runtime_class_manager.Go.Outcome.{ok}
use runtime_class_manager.Api.{Shim}
use runtime_class_manager.Controller.Objects.{
  Node, Job, JobCondition, Client, label_of, install_type, uninstall_type, provisioned, pending,
}
use runtime_class_manager.Controller.Artifact.{ResolvedArtifact}
use runtime_class_manager.Controller.Manifest.{create_job_manifest}
use runtime_class_manager.Controller.Deploy.{no_artifact, job_plan, deploy_job_on_node}
use runtime_class_manager.Controller.Job.{is_job_finished, job_complete, reconcile_job}
use runtime_class_manager.Controller.Reconcile.{recreate_strategy_rollout, handle_delete_shim}
use runtime_class_manager.Controller.Marking.{IsFaithful, with_label, deploy_job_on_node-Marked}
use runtime_class_manager.Controller.Lifecycle.{
  label_of-with_label, complete_installed, complete_removed,
}
use runtime_class_manager.Controller.Isolation.{IsShared, label_in, Run, Run-label_at}

-- A node that has a label.
label_in-some :
    (s value : Text) (n : Option Node)
    → label_in s n ≡ some value
    → (m : Node) × (labels : Dict Text Text) × (n ≡ some m) × (m.labels ≡ some labels)
unfolding label_of
label_in-some s value none h = absurd (ground arith)
label_in-some s value (some m) h = elim (Option-cases m.labels) [
  | inl bare ↦ absurd (ground (arith, bare, h))
  | inr (labels, e) ↦ (m, labels, refl, e)
]

module _ {W : Type 0} (c : Client W) (F : IsFaithful c) (G : IsShared c)
    (one : (w : W) (q : Text) → G.find w q ≡ F.find w q) (shim : Shim) where
  -- The node with its label, after other reconciliations.
  survives :
      (n : Node) (value : Text) (labels : Dict Text Text) (w later : W)
      → F.find w n.name ≡ some (with_label shim n labels value)
      → Run c G shim.name w later
      → (m : Node) × (labels : Dict Text Text) × (F.find later n.name ≡ some m)
        × (m.name ≡ n.name)
        × (m.labels ≡ some labels)
  survives n value labels w later marked run =
      let kept : label_in shim.name (F.find later n.name) ≡ some value =
        ap (label_in shim.name) (sym (one later n.name))
        ∙ (Run-label_at c G shim.name run n.name
            ∙ (ap (label_in shim.name) (one w n.name ∙ marked)
                ∙ label_of-with_label c F shim n labels value)) in
      let (m, labels', found, labelled) =
        label_in-some shim.name value (F.find later n.name) kept in
      (m, labels', found, G.find-named later n.name m (one later n.name ∙ found), labelled)

  module _ (n : Node) (labels : Dict Text Text) (labelled : n.labels ≡ some labels) (listed : Node)
      (named : listed.name ≡ n.name) (w later : W) (found : F.find w n.name ≡ some n)
      (a : ResolvedArtifact) {job : Job} (cs : List JobCondition)
      (complete : is_job_finished cs ≡ (true, job_complete)) where
    -- On a server that answers with the nodes it has, where updates of these go through and store
    -- the labels that are sent, and no other call changes a node: if a node that has labels is there
    -- and an installation on it goes through, and after any reconciliations of other shims and of
    -- their jobs, and changes from outside that spare the labels of this shim, the job is complete,
    -- then the job reconciler ends well and leaves the node labelled as provisioned, and a rollout to
    -- that node sends nothing and changes nothing.
    pub installation_survives :
        (deploy_job_on_node c shim listed install_type w).0 ≡ ok tt
        → create_job_manifest c.getenv
            (c.controller_reference shim)
            shim
            (with_label shim n labels pending)
            install_type
            a
          ≡ ok job
        → Run c G shim.name (deploy_job_on_node c shim listed install_type w).1 later
        → let r = reconcile_job c (record job { conditions = cs }) later in
          (m : Node) × (r.0 ≡ ok tt)
          × (F.find r.1 n.name ≡ some m)
          × (label_of m shim.name ≡ some provisioned)
          × (recreate_strategy_rollout c shim (m ∷ []) r.1 ≡ (ok tt, r.1))
    unfolding job_plan txt text_eq
    installation_survives h created run =
        let marked =
          deploy_job_on_node-Marked c F shim install_type pending (λ b. (b, refl)) n labels labelled
            listed w named found h in
        let (m, labels', found', named', labelled') =
          survives n pending labels (deploy_job_on_node c shim listed install_type w).1 later marked
            run in
        complete_installed c F shim n m labels' named' labelled' later found'
          (with_label shim n labels pending) refl a cs complete created

    -- On a server that answers with the nodes it has, where updates of these go through and store
    -- the labels that are sent, and no other call changes a node: if a node that has labels is there
    -- and a removal from it goes through, and after any reconciliations of other shims and of their
    -- jobs, and changes from outside that spare the labels of this shim, the job is complete, then
    -- the job reconciler ends well and leaves the node without the label, and a removal of the shim
    -- from that node sends nothing and changes nothing.
    pub removal_survives :
        (deploy_job_on_node c shim listed uninstall_type w).0 ≡ ok tt
        → create_job_manifest c.getenv
            (c.controller_reference shim)
            shim
            (with_label shim n labels uninstall_type)
            uninstall_type
            a
          ≡ ok job
        → Run c G shim.name (deploy_job_on_node c shim listed uninstall_type w).1 later
        → let r = reconcile_job c (record job { conditions = cs }) later in
          (m : Node) × (r.0 ≡ ok tt)
          × (F.find r.1 n.name ≡ some m)
          × (label_of m shim.name ≡ none)
          × (handle_delete_shim c shim (m ∷ []) r.1 ≡ (ok tt, r.1))
    unfolding job_plan txt text_eq
    removal_survives h created run =
        let marked =
          deploy_job_on_node-Marked c F shim uninstall_type uninstall_type
            (λ b. (no_artifact, refl)) n labels labelled listed w named found h in
        let (m, labels', found', named', labelled') =
          survives n uninstall_type labels (deploy_job_on_node c shim listed uninstall_type w).1
            later marked run in
        complete_removed c F shim n m labels' named' labelled' later found'
          (with_label shim n labels uninstall_type) refl a cs complete created
