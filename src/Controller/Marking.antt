-- ===== src/Controller/Marking.antt =====
-- A server that stores what it is sent, and the label that a deployment leaves on a node there.
use runtime_class_manager.Base.{
  ◌≡◌, sym, ap, ◌∙◌, Option, some, none, Text, txt, text_eq, arith, inl, inr,
}
use mathlib.Core.Path.{subst, subst⁻¹}
use runtime_class_manager.Base.Dict.{Dict, insert, erase}
use runtime_class_manager.Go.Outcome.{Err, Outcome, ok, raise, wrapped, wrap, lift, ◌>>=◌}
use runtime_class_manager.Go.Outcome.Laws.{Outcome-cases, wrap_world, >>=_elim, >>=_ok}
use runtime_class_manager.Api.{Shim}
use runtime_class_manager.Controller.Objects.{Node, Job, Client, failed}
use runtime_class_manager.Controller.Artifact.{ResolvedArtifact, resolve_artifact_for_node}
use runtime_class_manager.Controller.Manifest.{create_job_manifest}
use runtime_class_manager.Controller.Deploy.{
  needed_artifact, job_plan, stored, send_node, set_label, update_node_labels, apply_job,
  deploy_labelled, deploy_planned, deploy_fetched, deploy_job_on_node,
}

-- What is asked of the API server: it has nodes by their names, a fetch answers with what it has, an
-- update of a node that it has goes through, and a job that is applied changes no node.
pub record IsFaithful {W : Type 0} (c : Client W) : Type 0 where
  pub find : W → Text → Option Node
  pub get_node-find :
      (name : Text) (n : Node) (w : W) → find w name ≡ some n → (c.get_node name w).0 ≡ ok n
  pub get_node-Keeps : (name : Text) (w : W) (q : Text) → find (c.get_node name w).1 q ≡ find w q
  pub update_node-find :
      (sent old : Node) (w : W)
      → find w sent.name ≡ some old
      → ((c.update_node sent w).0 ≡ ok sent) × (find (c.update_node sent w).1 sent.name ≡ some sent)
  pub patch_job-Keeps : (j : Job) (w : W) (q : Text) → find (c.patch_job j w).1 q ≡ find w q

abbrev pub with_label : Shim → Node → Dict Text Text → Text → Node
with_label shim n labels status = record n { labels = some (insert shim.name status labels) }

abbrev pub without_label : Shim → Node → Dict Text Text → Node
without_label shim n labels = record n { labels = some (erase shim.name labels) }

module _ {W : Type 0} (c : Client W) (F : IsFaithful c) (shim : Shim) where
  pub update-find :
      (n old : Node) (labels : Dict Text Text) (status : Text) (w : W)
      → n.labels ≡ some labels
      → F.find w n.name ≡ some old
      → ((update_node_labels c n shim.name status w).0 ≡ ok (with_label shim n labels status, none))
        × (F.find (update_node_labels c n shim.name status w).1 n.name
            ≡ some (with_label shim n labels status))
  unfolding update_node_labels set_label send_node stored
  update-find n old labels status w labelled found =
      let (sent, there) = F.update_node-find (with_label shim n labels status) old w found in
      (ground (arith, labelled, sent), rw (labelled, set_label) there)

  apply_job-Keeps :
      (n : Node) (j : Job) (w : W) (q : Text)
      → (apply_job c shim n j w).0 ≡ ok tt
      → F.find (apply_job c shim n j w).1 q ≡ F.find w q
  unfolding apply_job
  apply_job-Keeps n j w q h = elim (Outcome-cases (c.patch_job j w).0) [
    | inl (_, e) ↦ rw (e, apply_job) (F.patch_job-Keeps j w q)
    | inr (inl (e, p)) ↦
        let message = wrapped (txt "failed to reconcile job") e in
        let w' = (c.patch_job j w).1 in
        rw (p, apply_job)
          (>>=_elim (update_node_labels c n shim.name failed) (λ _. raise message) w'
            (λ r. F.find r.1 q ≡ F.find w q) (rw (p, apply_job) at h)
            (λ _ _ stopped. absurd (ground arith)))
    | inr (inr (t, p)) ↦ absurd (ground arith)
  ]

  module _ (job_type status : Text)
      (plan : (a : ResolvedArtifact)
        → (b : ResolvedArtifact) × (job_plan job_type a ≡ ok (status, b)))
      (n : Node) (labels : Dict Text Text) (labelled : n.labels ≡ some labels) where
    -- The node has its label.
    abbrev Marked : {A : Type 0} → Outcome A × W → Type 0
    Marked r = F.find r.1 n.name ≡ some (with_label shim n labels status)

    deploy_labelled-Marked :
        (a : ResolvedArtifact) (m : Node) (late : Err) (w : W)
        → F.find w n.name ≡ some (with_label shim n labels status)
        → (deploy_labelled c shim job_type a (m, late) w).0 ≡ ok tt
        → Marked (deploy_labelled c shim job_type a (m, late) w)
    unfolding deploy_labelled
    deploy_labelled-Marked a m late w there h =
        >>=_elim
          (lift (create_job_manifest c.getenv (c.controller_reference shim) shim m job_type a))
          (apply_job c shim m) w Marked h (λ j _ h'. apply_job-Keeps m j w n.name h' ∙ there)

    deploy_planned-Marked :
        (a : ResolvedArtifact) (w : W)
        → F.find w n.name ≡ some n
        → (deploy_planned c shim n job_type (status, a) w).0 ≡ ok tt
        → Marked (deploy_planned c shim n job_type (status, a) w)
    unfolding deploy_planned
    deploy_planned-Marked a w found h =
        >>=_elim (update_node_labels c n shim.name status) (deploy_labelled c shim job_type a) w
          Marked h
          (λ (m, late) _ h'.
            deploy_labelled-Marked a m late (update_node_labels c n shim.name status w).1
              (update-find n n labels status w labelled found).1 h')

    deploy_fetched-Marked :
        (w : W)
        → F.find w n.name ≡ some n
        → (deploy_fetched c shim job_type n w).0 ≡ ok tt
        → Marked (deploy_fetched c shim job_type n w)
    unfolding deploy_fetched
    deploy_fetched-Marked w found h =
        >>=_elim (lift (needed_artifact job_type (resolve_artifact_for_node shim n) n.name))
          (λ a. lift (job_plan job_type a) >>= deploy_planned c shim n job_type) w Marked h
          (λ a _ h1.
            let (b, planned) = plan a in
            let step : (lift (job_plan job_type a) >>= deploy_planned c shim n job_type) w
                ≡ deploy_planned c shim n job_type (status, b) w =
              >>=_ok (lift (job_plan job_type a)) (deploy_planned c shim n job_type) w (status, b)
                planned in
            subst⁻¹ Marked step (deploy_planned-Marked b w found (ap (λ r. r.0) (sym step) ∙ h1)))

    -- A deployment that went through leaves the label on the node.
    pub deploy_job_on_node-Marked :
        (listed : Node) (w : W)
        → listed.name ≡ n.name
        → F.find w n.name ≡ some n
        → (deploy_job_on_node c shim listed job_type w).0 ≡ ok tt
        → Marked (deploy_job_on_node c shim listed job_type w)
    unfolding deploy_job_on_node
    deploy_job_on_node-Marked listed w named found h =
        let get = wrap (txt "failed to fetch node") (c.get_node listed.name) in
        >>=_elim get (deploy_fetched c shim job_type) w Marked h (λ fetched got h1.
          let has : F.find w listed.name ≡ some n = ap (F.find w) named ∙ found in
          let same : fetched ≡ n = ground (arith, got, F.get_node-find listed.name n w has) in
          let kept : F.find (get w).1 n.name ≡ some n =
            ap (λ v. F.find v n.name) (wrap_world (c.get_node listed.name) w _)
            ∙ (F.get_node-Keeps listed.name w n.name ∙ found) in
          subst⁻¹ (λ m. Marked (deploy_fetched c shim job_type m (get w).1)) same
            (deploy_fetched-Marked (get w).1 kept
              (subst (λ m. (deploy_fetched c shim job_type m (get w).1).0 ≡ ok tt) same h1)))
