-- ===== src/Controller/Following.antt =====
-- The job reconciler on every ending of a job, errors and missing nodes included.
use runtime_class_manager.Base.{
  ◌≡◌, refl, ◌≢◌, ap, ◌++◌, true, false, Option, none, some, List, [], ◌∷◌, Text, txt, text_eq,
  arith, ◌⊎◌, inl, inr, Bool-cases, All,
}
use runtime_class_manager.Base.Dict.{Dict, lookup, insert, erase}
use runtime_class_manager.Go.Outcome.{Error, wrapped, is_not_found, ok, err, panic, pure, ◌>>◌}
use runtime_class_manager.Go.Outcome.Laws.{Outcome-cases}
use runtime_class_manager.Controller.Objects.{Node, Job, JobCondition, Client, provisioned, failed}
use runtime_class_manager.Controller.Deploy.{update_node_labels, send_node, set_label, stored}
use runtime_class_manager.Controller.Job.{
  job_failed, shim_name_label, is_final, is_job_finished, delete_node_label, get_node, complete,
  follow, reconcile_job,
}

-- A condition that ends a job: the job is complete or failed, and the condition holds.
abbrev pub Ends : JobCondition → Type 0
Ends c = ((c.type ≡ txt "Complete") ⊎ (c.type ≡ txt "Failed")) × (c.status ≡ txt "True")

-- The conditions begin with some that do not end the job, and then this one does.
pub record FirstEnd (cs : List JobCondition) (type : Text) : Type 0 where
  pub earlier : List JobCondition
  pub condition : JobCondition
  pub later : List JobCondition
  pub split : cs ≡ earlier ++ (condition ∷ later)
  pub still_open : All (λ c. ¬ Ends c) earlier
  pub ends : Ends condition
  pub type_of : condition.type ≡ type

is_final-Ends : (c : JobCondition) → is_final c ≡ true → Ends c
unfolding is_final
is_final-Ends c h = ground arith

is_final-not_Ends : (c : JobCondition) → is_final c ≡ false → ¬ Ends c
unfolding is_final
is_final-not_Ends c h (kind, holds) = ground arith

-- A job is reported as finished exactly with the type of the first condition that says, as True, that
-- it is complete or that it has failed; where there is none, it is reported as not finished.
pub is_job_finished_cases :
    (cs : List JobCondition)
    → ((is_job_finished cs ≡ (false, [])) × All (λ c. ¬ Ends c) cs)
      ⊎ ((type : Text) × (is_job_finished cs ≡ (true, type)) × FirstEnd cs type)
unfolding is_job_finished
is_job_finished_cases [] = inl (refl, tt)
is_job_finished_cases (c ∷ cs) = elim (Bool-cases (is_final c)) [
  | inl final ↦ inr (
    c.type,
    rw final,
    record {
      earlier = [];
      condition = c;
      later = cs;
      split = refl;
      still_open = tt;
      ends = is_final-Ends c final;
      type_of = refl;
    },
  )
  | inr open_condition ↦ elim (is_job_finished_cases cs) [
    | inl (e, rest) ↦ inl (rw (open_condition, e), (is_final-not_Ends c open_condition, rest))
    | inr (type, e, first) ↦ inr (
      type,
      rw (open_condition, e),
      record {
        earlier = c ∷ first.earlier;
        condition = first.condition;
        later = first.later;
        split = ap (λ r. c ∷ r) first.split;
        still_open = (is_final-not_Ends c open_condition, first.still_open);
        ends = first.ends;
        type_of = first.type_of;
      },
    )
  ]
]

module _ {W : Type 0} (c : Client W) where
  -- The client reports a failed update as an error, and does not panic.
  abbrev pub UpdatesQuietly : Type 0
  UpdatesQuietly = (n : Node) (w : W) (t : Text) → (c.update_node n w).0 ≢ panic t

  send_node_quiet :
      UpdatesQuietly
      → (message : Text) (n : Node) (w : W)
      → (r : Node × Option Error) × ((send_node c message n w).0 ≡ ok r)
  unfolding send_node stored
  send_node_quiet quiet message n w = elim (Outcome-cases (c.update_node n w).0) [
    | inl (stored_node, e) ↦ ((stored_node, none), rw e)
    | inr (inl (e, p)) ↦ ((n, some (wrapped message e)), rw p)
    | inr (inr (t, p)) ↦ absurd (quiet n w t p)
  ]

  update_quiet :
      UpdatesQuietly
      → (n : Node) (labels : Dict Text Text) (key status : Text) (w : W) → n.labels ≡ some labels
      → ((update_node_labels c n key status >> pure tt) w).0 ≡ ok tt
  unfolding update_node_labels set_label
  update_quiet quiet n labels key status w e =
      let sent =
        send_node_quiet quiet (txt "failed to update node labels")
          (record n { labels = some (insert key status labels) }) w in
      ground (arith, sent.1)

  -- On a node that has labels, following a job ends well whatever the API server answers to the
  -- update of the node, as long as the client does not panic: an update that fails is neither
  -- reported nor tried again.
  pub follow_quiet :
      UpdatesQuietly
      → (job : Job) (n : Node) (labels : Dict Text Text) (shim_name type : Text) (w : W)
      → n.labels ≡ some labels
      → (follow c job n shim_name type w).0 ≡ ok tt
  unfolding follow complete delete_node_label
  follow_quiet quiet job n labels shim_name type w e =
      let deleted =
        send_node_quiet quiet (txt "failed to delete node labels")
          (record n { labels = some (erase shim_name labels) }) w in
      ground (
        arith,
        deleted.1,
        update_quiet quiet n labels shim_name failed w e,
        update_quiet quiet n labels shim_name provisioned w e,
      )

  -- A job that carries the label of a shim and has failed on a node that no longer exists makes the
  -- job reconciler panic: the label is written into the nil map of an empty node.
  pub reconcile_job_missing_node :
      (job : Job) (shim_name : Text) (w : W) {e : Error}
      → lookup shim_name_label job.labels ≡ some shim_name
      → (c.get_node job.node_name w).0 ≡ err e
      → is_not_found e ≡ true
      → is_job_finished job.conditions ≡ (true, job_failed)
      → (t : Text) × ((reconcile_job c job w).0 ≡ panic t)
  unfolding reconcile_job get_node follow update_node_labels set_label txt text_eq
  reconcile_job_missing_node job shim_name w labelled missing gone done =
      (txt "assignment to entry in nil map", ground arith)
