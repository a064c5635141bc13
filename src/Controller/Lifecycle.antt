-- ===== src/Controller/Lifecycle.antt =====
-- A node from the deployment of a job to its end: the shim reconciler, the job, and the job reconciler.
use runtime_class_manager.Base.{
  List, ◌≡◌, refl, sym, ap, ◌∙◌, true, some, none, [], ◌∷◌, Text, txt, text_eq, ==_refl, arith,
}
use runtime_class_manager.Base.Dict.{Dict, insert, lookup-insert, lookup-erase}
use runtime_class_manager.Go.Outcome.{join, ok, Action, pure, ◌>>=◌}
use runtime_class_manager.Go.Outcome.Laws.{>>=_ok}
use runtime_class_manager.Api.{Shim}
use runtime_class_manager.Controller.Objects.{
  Node, Job, JobCondition, Client, label_of, install_type, uninstall_type, provisioned, pending,
}
use runtime_class_manager.Controller.Artifact.{ResolvedArtifact}
use runtime_class_manager.Controller.Manifest.{create_job_manifest}
use runtime_class_manager.Controller.Contract.{
  settle, installed, uninstalled, reconcile_job-installed, reconcile_job-uninstalled,
}
use runtime_class_manager.Controller.Deploy.{
  no_artifact, job_plan, stored, send_node, update_node_labels, deploy_job_on_node,
}
use runtime_class_manager.Controller.Job.{
  is_job_finished, job_complete, get_node, delete_node_label, reconcile_job,
}
use runtime_class_manager.Controller.Reconcile.{
  has_status, needs_install, is_labelled, recreate_from, recreate_strategy_rollout,
  handle_delete_shim,
}
use runtime_class_manager.Controller.Marking.{
  IsFaithful, with_label, without_label, update-find, deploy_job_on_node-Marked,
}

module _ {W : Type 0} (c : Client W) (F : IsFaithful c) (shim : Shim) where
  -- A fetch by the job reconciler of a node that there is.
  get_node-step :
      {B : Type 0} (f : Node → Action W B) (m : Node) (w : W)
      → F.find w m.name ≡ some m
      → (get_node c m.name >>= f) w ≡ f m (c.get_node m.name w).1
  unfolding get_node
  get_node-step f m w found = ground (arith, F.get_node-find m.name m w found)

  pub label_of-with_label :
      (n : Node) (labels : Dict Text Text) (status : Text)
      → label_of (with_label shim n labels status) shim.name ≡ some status
  unfolding label_of
  label_of-with_label n labels status =
      lookup-insert shim.name shim.name status labels ∙ rw ==_refl refl

  label_of-without_label :
      (n : Node) (labels : Dict Text Text) → label_of (without_label shim n labels) shim.name ≡ none
  unfolding label_of
  label_of-without_label n labels = lookup-erase shim.name shim.name labels ∙ rw ==_refl refl

  settle-installed :
      (m : Node) (labels : Dict Text Text) (w : W)
      → m.labels ≡ some labels
      → F.find w m.name ≡ some m
      → let r = settle c installed shim.name m w in
        (r.0 ≡ ok tt) × (F.find r.1 m.name ≡ some (with_label shim m labels provisioned))
  unfolding settle
  settle-installed m labels w labelled found =
      let (sent, there) = update-find c F shim m m labels provisioned w labelled found in
      let step = >>=_ok (update_node_labels c m shim.name provisioned) (λ _. pure tt) w _ sent in
      (ap (λ r. r.0) step, ap (λ r. F.find r.1 m.name) step ∙ there)

  settle-uninstalled :
      (m : Node) (labels : Dict Text Text) (w : W)
      → m.labels ≡ some labels
      → F.find w m.name ≡ some m
      → let r = settle c uninstalled shim.name m w in
        (r.0 ≡ ok tt) × (F.find r.1 m.name ≡ some (without_label shim m labels))
  unfolding settle delete_node_label send_node stored
  settle-uninstalled m labels w labelled found =
      let (sent, there) = F.update_node-find (without_label shim m labels) m w found in
      let step : delete_node_label c m shim.name w ≡ (
        ok (without_label shim m labels, none),
        (c.update_node (without_label shim m labels) w).1,
      ) =
        ground (arith, labelled, sent) in
      let chain =
        >>=_ok (delete_node_label c m shim.name) (λ _. pure tt) w
          (without_label shim m labels, none) (ap (λ r. r.0) step) in
      (
        ap (λ r. r.0) chain,
        ap (λ r. F.find r.1 m.name) chain ∙ (ap (λ r. F.find r.1 m.name) step ∙ there),
      )

  -- Nothing is left to do on the node, neither for a rollout nor for a removal.
  rollout_done :
      (m : Node) (w : W)
      → label_of m shim.name ≡ some provisioned
      → recreate_strategy_rollout c shim (m ∷ []) w ≡ (ok tt, w)
  unfolding recreate_strategy_rollout recreate_from needs_install has_status txt text_eq join
  rollout_done m w e = ground (arith, e)

  removal_done :
      (m : Node) (w : W)
      → label_of m shim.name ≡ none
      → handle_delete_shim c shim (m ∷ []) w ≡ (ok tt, w)
  unfolding handle_delete_shim is_labelled
  removal_done m w e = ground (arith, e)

  module _ (n m : Node) (labels : Dict Text Text) (named : m.name ≡ n.name)
      (labelled : m.labels ≡ some labels) (later : W) (found : F.find later n.name ≡ some m)
      (sent : Node) (same : sent.name ≡ n.name) (a : ResolvedArtifact) (cs : List JobCondition)
      (complete : is_job_finished cs ≡ (true, job_complete)) where
    found' : F.find later m.name ≡ some m
    found' = ap (F.find later) named ∙ found

    fetched :
        (f : Node → Action W (Unit {0}))
        → (get_node c sent.name >>= f) later ≡ f m (c.get_node m.name later).1
    fetched f =
        ap (λ name. (get_node c name >>= f) later) (same ∙ sym named)
        ∙ get_node-step f m later found'

    -- A node that the job of an installation finds, whichever other labels it has by then.
    pub complete_installed :
        {job : Job}
        → create_job_manifest c.getenv (c.controller_reference shim) shim sent install_type a
          ≡ ok job
        → let r = reconcile_job c (record job { conditions = cs }) later in
          (m : Node) × (r.0 ≡ ok tt)
          × (F.find r.1 n.name ≡ some m)
          × (label_of m shim.name ≡ some provisioned)
          × (recreate_strategy_rollout c shim (m ∷ []) r.1 ≡ (ok tt, r.1))
    complete_installed created =
        let step =
          reconcile_job-installed c shim sent install_type a cs later created refl complete
          ∙ fetched (settle c installed shim.name) in
        let (ended, there) =
          settle-installed m labels (c.get_node m.name later).1 labelled
            (F.get_node-Keeps m.name later m.name ∙ found') in
        let done = with_label shim m labels provisioned in
        let label = label_of-with_label m labels provisioned in
        (
          done,
          ap (λ r. r.0) step ∙ ended,
          ap (λ r. F.find r.1 n.name) step
              ∙ (ap (F.find (settle c installed shim.name m (c.get_node m.name later).1).1)
                    (sym named)
                  ∙ there),
          label,
          rollout_done done _ label,
        )

    pub complete_removed :
        {job : Job}
        → create_job_manifest c.getenv (c.controller_reference shim) shim sent uninstall_type a
          ≡ ok job
        → let r = reconcile_job c (record job { conditions = cs }) later in
          (m : Node) × (r.0 ≡ ok tt)
          × (F.find r.1 n.name ≡ some m)
          × (label_of m shim.name ≡ none)
          × (handle_delete_shim c shim (m ∷ []) r.1 ≡ (ok tt, r.1))
    complete_removed created =
        let step =
          reconcile_job-uninstalled c shim sent uninstall_type a cs later created refl complete
          ∙ fetched (settle c uninstalled shim.name) in
        let (ended, there) =
          settle-uninstalled m labels (c.get_node m.name later).1 labelled
            (F.get_node-Keeps m.name later m.name ∙ found') in
        let done = without_label shim m labels in
        let label = label_of-without_label m labels in
        (
          done,
          ap (λ r. r.0) step ∙ ended,
          ap (λ r. F.find r.1 n.name) step
              ∙ (ap (F.find (settle c uninstalled shim.name m (c.get_node m.name later).1).1)
                    (sym named)
                  ∙ there),
          label,
          removal_done done _ label,
        )

  module _ (n : Node) (labels : Dict Text Text) (labelled : n.labels ≡ some labels) (listed : Node)
      (named : listed.name ≡ n.name) (w later : W) (found : F.find w n.name ≡ some n)
      (a : ResolvedArtifact) {job : Job} (cs : List JobCondition)
      (complete : is_job_finished cs ≡ (true, job_complete)) where
    -- On a server that answers with the nodes it has and where updates of these go through: if a
    -- node that has labels is there, an installation on it goes through, and the node is unchanged
    -- until the job is complete, then the job reconciler ends well and leaves the node labelled as
    -- provisioned, and a rollout to that node sends nothing and changes nothing.
    installation_completes :
        (deploy_job_on_node c shim listed install_type w).0 ≡ ok tt
        → create_job_manifest c.getenv
            (c.controller_reference shim)
            shim
            (with_label shim n labels pending)
            install_type
            a
          ≡ ok job
        → F.find later n.name ≡ F.find (deploy_job_on_node c shim listed install_type w).1 n.name
        → let r = reconcile_job c (record job { conditions = cs }) later in
          (m : Node) × (r.0 ≡ ok tt)
          × (F.find r.1 n.name ≡ some m)
          × (label_of m shim.name ≡ some provisioned)
          × (recreate_strategy_rollout c shim (m ∷ []) r.1 ≡ (ok tt, r.1))
    unfolding job_plan txt text_eq
    installation_completes h created untouched =
        let m = with_label shim n labels pending in
        let marked : F.find later n.name ≡ some m =
          untouched
          ∙ deploy_job_on_node-Marked c F shim install_type pending (λ b. (b, refl)) n labels
              labelled listed w named found h in
        complete_installed n m (insert shim.name pending labels) refl refl later marked m refl a cs
          complete created

    -- On a server that answers with the nodes it has and where updates of these go through: if a
    -- node that has labels is there, a removal from it goes through, and the node is unchanged
    -- until the job is complete, then the job reconciler ends well and leaves the node without the
    -- label, and a removal of the shim from that node sends nothing and changes nothing.
    removal_completes :
        (deploy_job_on_node c shim listed uninstall_type w).0 ≡ ok tt
        → create_job_manifest c.getenv
            (c.controller_reference shim)
            shim
            (with_label shim n labels uninstall_type)
            uninstall_type
            a
          ≡ ok job
        → F.find later n.name ≡ F.find (deploy_job_on_node c shim listed uninstall_type w).1 n.name
        → let r = reconcile_job c (record job { conditions = cs }) later in
          (m : Node) × (r.0 ≡ ok tt)
          × (F.find r.1 n.name ≡ some m)
          × (label_of m shim.name ≡ none)
          × (handle_delete_shim c shim (m ∷ []) r.1 ≡ (ok tt, r.1))
    unfolding job_plan txt text_eq
    removal_completes h created untouched =
        let m = with_label shim n labels uninstall_type in
        let marked : F.find later n.name ≡ some m =
          untouched
          ∙ deploy_job_on_node-Marked c F shim uninstall_type uninstall_type
              (λ b. (no_artifact, refl)) n labels labelled listed w named found h in
        complete_removed n m (insert shim.name uninstall_type labels) refl refl later marked m refl
          a cs complete created
