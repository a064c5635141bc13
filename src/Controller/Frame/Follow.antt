-- ===== src/Controller/Frame/Follow.antt =====
-- The same for the reconciler of jobs.
use runtime_class_manager.Base.{
  ◌≡◌, Option, some, none, [], Text, txt, text_eq, ◌==◌, inl, inr, Bool-cases, Option-cases, arith,
}
use runtime_class_manager.Base.Dict.{Dict, lookup, erase}
use runtime_class_manager.Go.Outcome.{ok, pure, is_not_found, ◌>>◌}
use runtime_class_manager.Go.Outcome.Laws.{
  Outcome-cases, Preserves, Yields, >>=-Preserves, >>=-Preserves_yield,
}
use runtime_class_manager.Controller.Objects.{
  NamespacedName, Node, Job, Client, install_type, uninstall_type, provisioned, failed,
}
use runtime_class_manager.Controller.Deploy.{update_node_labels}
use runtime_class_manager.Controller.Job
use runtime_class_manager.Controller.Job.{
  shim_name_label, operation_annotation, job_complete, job_failed, job_failure_target, empty_node,
  delete_node_label, get_node, complete, follow, reconcile_job, is_job_finished,
}
use runtime_class_manager.Controller.Frame.{
  NodeFrame, update_node_labels-Yields, send_node-Preserves,
}

-- The calls on nodes: also a node that lost its label may be sent, and one without a name.
pub record FollowFrame {W : Type 0} (c : Client W) (I : W → Type 0) (Good : Node → Type 0)
    (key : Text) : Type 0 where
  pub nodes : NodeFrame c I Good key
  pub unlabel :
      (n : Node) (labels : Dict Text Text)
      → n.labels ≡ some labels
      → Good n
      → Good (record n { labels = some (erase key labels) })
  pub unnamed : Good empty_node

module _ {W : Type 0} (c : Client W) (I : W → Type 0) (Good : Node → Type 0) where
  module _ (key : Text) (F : FollowFrame c I Good key) where
    get_node-Yields : (name : Text) → Yields I Good (get_node c name)
    unfolding get_node
    get_node-Yields name w h =
        let (kept, good) = F.nodes.get_node name w h in
        elim (Outcome-cases (c.get_node name w).0) [
          | inl (n, e) ↦
              rw (e, get_node)
                (kept, λ m got. let same : n ≡ m = ground (arith, got) in rw (← same) (good n e))
          | inr (inl (e, p)) ↦ elim (Bool-cases (is_not_found e)) [
            | inl missing ↦
                rw (p, get_node)
                  (rw missing (
                    kept,
                    λ m got.
                        let same : empty_node ≡ m = ground (arith, got) in rw (← same) F.unnamed,
                  ))
            | inr other ↦ rw (p, get_node) (rw other (kept, λ m got. absurd (ground (arith, got))))
          ]
          | inr (inr (t, p)) ↦ rw (p, get_node) (kept, λ m got. absurd (ground (arith, got)))
        ]

    -- A label is written, and an error is only logged.
    labels-Preserves :
        (n : Node) (status : Text)
        → Good n
        → Preserves I (update_node_labels c n key status >> pure tt)
    labels-Preserves n status good =
        >>=-Preserves I (update_node_labels c n key status) (λ _. pure tt)
          (λ w h. (update_node_labels-Yields c I Good key F.nodes n status good w h).0) (λ _ w h. h)

    delete_node_label-Preserves : (n : Node) → Good n → Preserves I (delete_node_label c n key)
    unfolding delete_node_label
    delete_node_label-Preserves n good w h = elim (Option-cases n.labels) [
      | inl bare ↦
          let same : n ≡ record n { labels = none } = ground (arith, bare) in
          rw (bare, delete_node_label)
            (send_node-Preserves c I Good key F.nodes (txt "failed to delete node labels")
              (record n { labels = none }) (rw (← same) good) w h)
      | inr (labels, e) ↦
          rw (e, delete_node_label)
            (send_node-Preserves c I Good key F.nodes (txt "failed to delete node labels")
              (record n { labels = some (erase key labels) }) (F.unlabel n labels e good) w h)
    ]

    complete-Preserves :
        (n : Node) (operation : Option Text) → Good n → Preserves I (complete c n key operation)
    unfolding complete
    complete-Preserves n none good w h = h
    complete-Preserves n (some operation) good w h = elim (Bool-cases (operation == install_type)) [
      | inl installed ↦ rw installed (labels-Preserves n provisioned good w h)
      | inr other ↦ elim (Bool-cases (operation == uninstall_type)) [
        | inl removed ↦
            rw (other, removed)
              (>>=-Preserves I (delete_node_label c n key) (λ _. pure tt)
                (delete_node_label-Preserves n good) (λ _ w h. h) w h)
        | inr unknown ↦ rw (other, unknown) h
      ]
    ]

    follow-Preserves :
        (job : Job) (n : Node) (finished_type : Text)
        → Good n
        → Preserves I (follow c job n key finished_type)
    unfolding follow
    follow-Preserves job n t good w h = elim (Bool-cases (t == [])) [
      | inl running ↦ rw running h
      | inr ended ↦ elim (Bool-cases (t == job_failed)) [
        | inl broken ↦ rw (ended, broken) (labels-Preserves n failed good w h)
        | inr a ↦ elim (Bool-cases (t == job_failure_target)) [
          | inl broken ↦ rw (ended, a, broken) (labels-Preserves n failed good w h)
          | inr b ↦ elim (Bool-cases (t == job_complete)) [
            | inl complete ↦
                rw (ended, a, b, complete)
                  (complete-Preserves n (lookup operation_annotation job.annotations) good w h)
            | inr d ↦ rw (ended, a, b, d) h
          ]
        ]
      ]
    ]

  pub reconcile_job-Preserves :
      (job : Job)
      → ((key : Text) → lookup shim_name_label job.labels ≡ some key → FollowFrame c I Good key)
      → Preserves I (reconcile_job c job)
  unfolding reconcile_job
  reconcile_job-Preserves job frames w h = elim (Option-cases (lookup shim_name_label job.labels)) [
    | inl bare ↦ rw (bare, reconcile_job) h
    | inr (key, e) ↦
        rw (e, reconcile_job)
          (>>=-Preserves_yield I Good (get_node c job.node_name)
            (λ n. follow c job n key (is_job_finished job.conditions).1)
            (get_node-Yields key (frames key e) job.node_name)
            (λ n good.
              follow-Preserves key (frames key e) job n (is_job_finished job.conditions).1 good)
            w h)
  ]

  -- A reconciliation of a job that is fetched with a good label, if at all.
  pub reconcile-Preserves :
      (request : NamespacedName)
      → Preserves I (c.get_job request)
      → (w : W)
      → ((job : Job) (key : Text)
          → (c.get_job request w).0 ≡ ok job
          → lookup shim_name_label job.labels ≡ some key
          → FollowFrame c I Good key)
      → I w
      → I (Job.reconcile c request w).1
  unfolding Job.reconcile
  reconcile-Preserves request kept w frames h = elim (Outcome-cases (c.get_job request w).0) [
    | inl (job, e) ↦
        rw (e, Job.reconcile)
          (reconcile_job-Preserves job (λ key labelled. frames job key e labelled)
            (c.get_job request w).1 (kept w h))
    | inr (inl (e, p)) ↦ elim (Bool-cases (is_not_found e)) [
      | inl missing ↦ rw (p, Job.reconcile) (rw missing (kept w h))
      | inr other ↦ rw (p, Job.reconcile) (rw other (kept w h))
    ]
    | inr (inr (t, p)) ↦ rw (p, Job.reconcile) (kept w h)
  ]
