-- ===== src/Controller/Deploy.antt =====
-- Node labels, and the deployment of a job on one node: `updateNodeLabels`, `deployJobOnNode`.
use runtime_class_manager.Base.{
  Option, none, some, [], ◌++◌, Text, txt, text_eq, ◌==◌, if◌then◌else◌,
}
use runtime_class_manager.Base.Dict.{Dict, insert}
use runtime_class_manager.Go.Outcome.{
  failure, wrapped, Err, Outcome, ok, err, panic, Action, raise, panics, lift, wrap, ◌>>=◌, ◌>>◌,
}
use runtime_class_manager.Api.{Shim}
use runtime_class_manager.Controller.Objects.{
  Node, Job, Client, install_type, uninstall_type, pending, failed,
}
use runtime_class_manager.Controller.Artifact.{ResolvedArtifact, resolve_artifact_for_node}
use runtime_class_manager.Controller.Manifest.{create_job_manifest}

-- `resolvedArtifact{}`
abbrev pub no_artifact : ResolvedArtifact
no_artifact = record { location = []; sha256 = [] }

-- An artifact that cannot be resolved stops an installation only.
unfoldable pub needed_artifact : Text → Outcome ResolvedArtifact → Text → Outcome ResolvedArtifact
needed_artifact job_type (ok a) node_name = ok a
needed_artifact job_type (err e) node_name =
    if job_type == install_type
    then err (wrapped (txt "failed to resolve artifact for node " ++ node_name) e)
    else ok no_artifact
needed_artifact job_type (panic t) node_name = panic t

-- The label that the node gets, and the artifact that the manifest names.
unfoldable pub job_plan : Text → ResolvedArtifact → Outcome (Text × ResolvedArtifact)
job_plan job_type artifact =
    if job_type == install_type
    then ok (pending, artifact)
    else if job_type == uninstall_type
    then ok (uninstall_type, no_artifact)
    else err (failure (txt "invalid jobType: " ++ job_type))

module _ {W : Type 0} (c : Client W) where
  -- The node after `sr.Update(ctx, node)`: as the server stored it, or as it was sent.
  unfoldable pub stored : Text → Node → Outcome Node → Outcome (Node × Err)
  stored message node (ok n) = ok (n, none)
  stored message node (err e) = ok (node, some (wrapped message e))
  stored message node (panic t) = panic t

  unfoldable pub send_node : Text → Node → Action W (Node × Err)
  unfolding stored
  send_node message node w = let (r, w') = c.update_node node w in (stored message node r, w')

  unfoldable pub set_label : Node → Option (Dict Text Text) → Text → Text → Action W (Node × Err)
  unfolding send_node
  set_label node none key status = panics (txt "assignment to entry in nil map")
  set_label node (some labels) key status =
      send_node (txt "failed to update node labels")
        (record node { labels = some (insert key status labels) })

  -- `updateNodeLabels` of both reconcilers: the node afterwards, and the error. A write into a nil map
  -- panics.
  unfoldable pub update_node_labels : Node → Text → Text → Action W (Node × Err)
  unfolding set_label
  update_node_labels node key status = set_label node node.labels key status

  -- A patch that fails marks the node as failed.
  unfoldable pub apply_job : Shim → Node → Job → Action W (Unit {0})
  apply_job shim node job w =
      let (r, w') = c.patch_job job w in
      elim r [
        | ok _ ↦ (ok tt, w')
        | err e ↦
            (do
              update_node_labels node shim.name failed
              raise (wrapped (txt "failed to reconcile job") e))
              w'
        | panic t ↦ (panic t, w')
      ]

  -- The steps behind the update of the label.
  unfoldable pub deploy_labelled : Shim → Text → ResolvedArtifact → Node × Err → Action W (Unit {0})
  deploy_labelled shim job_type artifact (node, _) = do
    job ←
        lift
          (create_job_manifest c.getenv (c.controller_reference shim) shim node job_type artifact)
    apply_job shim node job

  -- The update of the label, and what follows it.
  unfoldable pub deploy_planned : Shim → Node → Text → Text × ResolvedArtifact → Action W (Unit {0})
  deploy_planned shim node job_type (status, artifact) =
      update_node_labels node shim.name status >>= deploy_labelled shim job_type artifact

  -- The steps behind the fetch of the node.
  unfoldable pub deploy_fetched : Shim → Text → Node → Action W (Unit {0})
  deploy_fetched shim job_type node = do
    artifact ← lift (needed_artifact job_type (resolve_artifact_for_node shim node) node.name)
    plan ← lift (job_plan job_type artifact)
    deploy_planned shim node job_type plan

  -- `deployJobOnNode`
  unfoldable pub deploy_job_on_node : Shim → Node → Text → Action W (Unit {0})
  deploy_job_on_node shim listed job_type =
      wrap (txt "failed to fetch node") (c.get_node listed.name) >>= deploy_fetched shim job_type
