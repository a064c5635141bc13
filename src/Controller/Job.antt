-- ===== src/Controller/Job.antt =====
-- internal/controller/job_controller.go: the reconciler of jobs, which follows a job on its node's
-- label.
use runtime_class_manager.Base.{
  Bool, true, false, ◌&&◌, ◌||◌, Option, none, some, List, [], ◌∷◌, Text, txt, text_eq, ◌==◌,
  if◌then◌else◌,
}
use runtime_class_manager.Base.Dict.{lookup, erase}
use runtime_class_manager.Go.Outcome.{
  wrapped, is_not_found, Err, ok, err, panic, Action, pure, ◌>>=◌, ◌>>◌,
}
use runtime_class_manager.Controller.Objects.{
  NamespacedName, Node, Job, JobCondition, Client, install_type, uninstall_type, provisioned,
  failed,
}
use runtime_class_manager.Controller.Deploy.{update_node_labels, send_node}

-- `batchv1.JobConditionType`
abbrev pub job_complete : Text
job_complete = txt "Complete"

abbrev pub job_failed : Text
job_failed = txt "Failed"

abbrev pub job_failure_target : Text
job_failure_target = txt "FailureTarget"

abbrev pub job_suspended : Text
job_suspended = txt "Suspended"

abbrev pub condition_true : Text
condition_true = txt "True"

abbrev pub shim_name_label : Text
shim_name_label = txt "spinkube.dev/shimName"

abbrev pub operation_annotation : Text
operation_annotation = txt "spinkube.dev/operation"

-- The test in the loop of `isJobFinished`.
unfoldable pub is_final : JobCondition → Bool
is_final c = (c.type == job_complete || c.type == job_failed) && c.status == condition_true

-- `isJobFinished`
unfoldable pub is_job_finished : List JobCondition → Bool × Text
is_job_finished [] = (false, [])
is_job_finished (c ∷ cs) =
    let rest = is_job_finished cs in if is_final c then (true, c.type) else rest

-- `corev1.Node{}`
abbrev pub empty_node : Node
empty_node = record { name = []; labels = none; operating_system = []; architecture = [] }

module _ {W : Type 0} (c : Client W) where
  -- `deleteNodeLabel`; a delete in a nil map does nothing.
  unfoldable pub delete_node_label : Node → Text → Action W (Node × Err)
  delete_node_label node key = send_node c (txt "failed to delete node labels") (record node {
    labels = elim node.labels [ none ↦ none | some labels ↦ some (erase key labels) ];
  })

  -- `getNode`: a node that does not exist gives an empty one.
  unfoldable pub get_node : Text → Action W Node
  get_node name w =
      let (r, w') = c.get_node name w in
      elim r [
        | ok node ↦ (ok node, w')
        | err e ↦ elim (is_not_found e) [ true ↦ (ok empty_node, w') | false ↦ (err e, w') ]
        | panic t ↦ (panic t, w')
      ]

  -- A finished operation on a node: an error of the label's update is only logged.
  unfoldable pub complete : Node → Text → Option Text → Action W (Unit {0})
  complete node shim_name none = pure tt
  complete node shim_name (some operation) =
      if operation == install_type
      then update_node_labels c node shim_name provisioned >> pure tt
      else if operation == uninstall_type
      then delete_node_label node shim_name >> pure tt
      else pure tt

  -- The cases of `Reconcile` on the type of the condition.
  unfoldable pub follow : Job → Node → Text → Text → Action W (Unit {0})
  follow job node shim_name finished_type =
      if finished_type == []
      then pure tt
      else if finished_type == job_failed
      then update_node_labels c node shim_name failed >> pure tt
      else if finished_type == job_failure_target
      then update_node_labels c node shim_name failed >> pure tt
      else if finished_type == job_complete
      then complete node shim_name (lookup operation_annotation job.annotations)
      else pure tt

  -- `Reconcile` on a job that was fetched.
  unfoldable pub reconcile_job : Job → Action W (Unit {0})
  reconcile_job job = elim (lookup shim_name_label job.labels) [
    | none ↦ pure tt
    | some shim_name ↦ do
      node ← get_node job.node_name
      follow job node shim_name (is_job_finished job.conditions).1
  ]

  -- `JobReconciler.Reconcile`
  unfoldable pub reconcile : NamespacedName → Action W (Unit {0})
  reconcile request w =
      let (r, w') = c.get_job request w in
      elim r [
        | ok job ↦ reconcile_job job w'
        | err e ↦ elim (is_not_found e) [
          | true ↦ (ok tt, w')
          | false ↦ (err (wrapped (txt "failed to get Job") e), w')
        ]
        | panic t ↦ (panic t, w')
      ]
