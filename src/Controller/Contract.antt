-- ===== src/Controller/Contract.antt =====
-- The labels and annotations by which the two reconcilers understand each other: the job that the one
-- creates is the job that the other follows.
use runtime_class_manager.Base.{
  ◌≡◌, refl, ◌∙◌, fun_ext, true, some, List, Text, txt, text_eq, arith,
}
use runtime_class_manager.Base.Dict.{lookup, lookup-insert}
use runtime_class_manager.Go.Outcome.{Outcome, ok, Action, pure, ◌>>=◌, ◌>>◌}
use runtime_class_manager.Api.{Shim}
use runtime_class_manager.Controller.Objects.{
  Node, Job, JobCondition, OwnerReference, Client, install_type, uninstall_type, provisioned,
  failed,
}
use runtime_class_manager.Controller.Artifact.{ResolvedArtifact}
use runtime_class_manager.Controller.Manifest.{job_manifest, create_job_manifest}
use runtime_class_manager.Controller.Deploy.{update_node_labels}
use runtime_class_manager.Controller.Job.{
  job_complete, job_failed, shim_name_label, operation_annotation, is_job_finished,
  delete_node_label, get_node, complete, follow, reconcile_job,
}

module _ (getenv : Text → Text) (shim : Shim) (node : Node) (operation : Text)
    (a : ResolvedArtifact) where
  job_manifest-labels :
      lookup shim_name_label (job_manifest getenv shim node operation a).labels ≡ some shim.name
  unfolding job_manifest txt text_eq
  job_manifest-labels = simp lookup-insert

  job_manifest-annotations :
      lookup operation_annotation (job_manifest getenv shim node operation a).annotations
      ≡ some operation
  unfolding job_manifest txt text_eq
  job_manifest-annotations = simp lookup-insert

  job_manifest-node_name : (job_manifest getenv shim node operation a).node_name ≡ node.name
  unfolding job_manifest
  job_manifest-node_name = refl

  module _ (reference : Outcome OwnerReference) {job : Job}
      (created : create_job_manifest getenv reference shim node operation a ≡ ok job) where
    created-labels : lookup shim_name_label job.labels ≡ some shim.name
    unfolding create_job_manifest
    created-labels = ground (arith, job_manifest-labels)

    pub created-annotations : lookup operation_annotation job.annotations ≡ some operation
    unfolding create_job_manifest
    created-annotations = ground (arith, job_manifest-annotations)

    pub created-node_name : job.node_name ≡ node.name
    unfolding create_job_manifest
    created-node_name = ground (arith, job_manifest-node_name)

-- A node's label once an operation has ended, from its type and from the type of the job's condition.
pub data Ending : Type 0 where
  installed uninstalled broken : Ending

module _ {W : Type 0} (c : Client W) where
  -- What the job reconciler does to the node at each ending.
  unfoldable pub settle : Ending → Text → Node → Action W (Unit {0})
  settle installed shim_name n = update_node_labels c n shim_name provisioned >> pure tt
  settle uninstalled shim_name n = delete_node_label c n shim_name >> pure tt
  settle broken shim_name n = update_node_labels c n shim_name failed >> pure tt

  module _ (shim : Shim) (node : Node) (operation : Text) (a : ResolvedArtifact) {job : Job}
      (cs : List JobCondition) (w : W)
      (created : create_job_manifest c.getenv (c.controller_reference shim) shim node operation a
        ≡ ok job) where
    followed :
        (type : Text) (ends : Node → Action W (Unit {0}))
        → is_job_finished cs ≡ (true, type)
        → ((n : Node) → follow c (record job { conditions = cs }) n shim.name type ≡ ends n)
        → reconcile_job c (record job { conditions = cs }) w ≡ (get_node c node.name >>= ends) w
    unfolding reconcile_job
    followed type ends done each =
        rw (created-labels c.getenv shim node operation a _ created, reconcile_job)
          (rw (done, fun_ext each, created-node_name c.getenv shim node operation a _ created))

    follow-complete :
        (n : Node)
        → follow c (record job { conditions = cs }) n shim.name job_complete
          ≡ complete c n shim.name (some operation)
    unfolding follow txt text_eq
    follow-complete n = rw (created-annotations c.getenv shim node operation a _ created)

    complete-install :
        (n : Node) → complete c n shim.name (some install_type) ≡ settle installed shim.name n
    unfolding complete settle txt text_eq
    complete-install n = refl

    complete-uninstall :
        (n : Node) → complete c n shim.name (some uninstall_type) ≡ settle uninstalled shim.name n
    unfolding complete settle txt text_eq
    complete-uninstall n = refl

    follow-failed :
        (n : Node)
        → follow c (record job { conditions = cs }) n shim.name job_failed
          ≡ settle broken shim.name n
    unfolding follow settle txt text_eq
    follow-failed n = refl

    -- When a job that the shim reconciler created for an installation is complete, the job reconciler
    -- labels the node that the job was created for as provisioned, under the shim's name.
    pub reconcile_job-installed :
        operation ≡ install_type
        → is_job_finished cs ≡ (true, job_complete)
        → reconcile_job c (record job { conditions = cs }) w
          ≡ (get_node c node.name >>= settle installed shim.name) w
    reconcile_job-installed op done =
        followed job_complete (settle installed shim.name) done
          (λ n. follow-complete n ∙ rw op (complete-install n))

    -- When a job that the shim reconciler created for a removal is complete, the job reconciler takes
    -- the shim's label off the node that the job was created for.
    pub reconcile_job-uninstalled :
        operation ≡ uninstall_type
        → is_job_finished cs ≡ (true, job_complete)
        → reconcile_job c (record job { conditions = cs }) w
          ≡ (get_node c node.name >>= settle uninstalled shim.name) w
    reconcile_job-uninstalled op done =
        followed job_complete (settle uninstalled shim.name) done
          (λ n. follow-complete n ∙ rw op (complete-uninstall n))

    -- When a job that the shim reconciler created has failed, whatever its operation, the job
    -- reconciler labels the node that the job was created for as failed, under the shim's name.
    pub reconcile_job-broken :
        is_job_finished cs ≡ (true, job_failed)
        → reconcile_job c (record job { conditions = cs }) w
          ≡ (get_node c node.name >>= settle broken shim.name) w
    reconcile_job-broken done = followed job_failed _ done follow-failed
