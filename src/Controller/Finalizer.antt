-- ===== src/Controller/Finalizer.antt =====
-- When the finalizer of a shim is taken off: the branch of `Reconcile` for a shim that is deleted.
use runtime_class_manager.Base.{
  contains, false, Option-cases, ◌≡◌, refl, sym, ap, ◌∙◌, true, some, none, List, [], ◌∷◌, Text,
  text_eq, All, ◌⊎◌, inl, inr, Bool-cases, arith,
}
use mathlib.Core.Path.{subst, subst⁻¹}
use runtime_class_manager.Go.Outcome.{
  Error, err, is_not_found, Err, ok, attempt, return_err, ignore_not_found, ◌>>=◌, ◌>>◌,
}
use runtime_class_manager.Go.Outcome.Laws.{
  Outcome-cases, >>=-Leads, >>=_elim, >>=_ok, >>=_err, >>=_panic, return_err-Preserves,
  attempt_world, attempt_world,
}
use runtime_class_manager.Api.{Shim}
use runtime_class_manager.Controller.Objects.{
  Node, Client, label_of, uninstall_type, rcm_operator_finalizer,
}
use runtime_class_manager.Controller.Deploy.{deploy_job_on_node}
use runtime_class_manager.Controller.Reconcile.{
  is_labelled, handle_delete_shim, Local, on_shim, remove_finalizer, remove_finalizer_from_shim,
  update_shim, update_failed, delete_branch,
}
use runtime_class_manager.Controller.Log.{
  Event, sent_shim, sent_node, sent_job, sent_runtime_class, Logged, logged,
}
use runtime_class_manager.Controller.Rollout.{Named}
use runtime_class_manager.Controller.Sending.{Allows, handle_delete_shim-Sends}
use runtime_class_manager.Controller.Removing.{Removed, deploy_job_on_node-Sent}

-- The removals of a shim from nodes, one after the other in the worlds that they leave: none from a
-- node without its label, and one from each of the others. That one sends an update of the node and
-- then a job that removes the shim from this node, or ends because something was not found.
pub data Removals {W : Type 0} (c : Client W) (shim : Shim)
    : List Node → Logged W → Logged W → Type 0 where
  done : {w : Logged W} → Removals c shim [] w w
  bare :
      {n : Node} {nodes : List Node} {w w' : Logged W}
      → label_of n shim.name ≡ none
      → Removals c shim nodes w w'
      → Removals c shim (n ∷ nodes) w w'
  removed :
      {n : Node} {nodes : List Node} {w w' : Logged W}
      → Removed n.name w.1 (deploy_job_on_node (logged c) shim n uninstall_type w)
      → Removals c shim nodes (deploy_job_on_node (logged c) shim n uninstall_type w).1 w'
      → Removals c shim (n ∷ nodes) w w'
  lost :
      {n : Node} {nodes : List Node} {w w' : Logged W} (e : Error)
      → (deploy_job_on_node (logged c) shim n uninstall_type w).0 ≡ err e
      → is_not_found e ≡ true
      → Removals c shim nodes (deploy_job_on_node (logged c) shim n uninstall_type w).1 w'
      → Removals c shim (n ∷ nodes) w w'

is_labelled-none :
    (shim_name : Text) (n : Node) → is_labelled shim_name n ≡ false → label_of n shim_name ≡ none
unfolding is_labelled
is_labelled-none shim_name n h = elim (Option-cases (label_of n shim_name)) [
  | inl e ↦ e
  | inr (status, e) ↦ absurd (ground arith)
]

not_found_ignored : (e : Error) → ignore_not_found (some e) ≡ none → is_not_found e ≡ true
unfolding ignore_not_found
not_found_ignored e h = ground arith

module _ {W : Type 0} (c : Client W) (named : Named c) (shim : Shim) where
  returned-none : (e : Err) (w : Logged W) → (return_err e w).0 ≡ ok tt → e ≡ none
  returned-none none w h = refl
  returned-none (some e) w h = absurd (ground arith)

  return_err-none : (e : Err) (w : Logged W) → e ≡ none → (return_err e w).1 ≡ w
  return_err-none none w h = refl
  return_err-none (some e) w h = absurd (ground arith)

  -- The body of the loop for one node, when the loop goes on.
  deploy-Removals :
      (n : Node) (nodes : List Node) (w w' : Logged W) {r : Err}
      → (attempt (deploy_job_on_node (logged c) shim n uninstall_type) w).0 ≡ ok r
      → ignore_not_found r ≡ none
      → Removals c shim nodes (deploy_job_on_node (logged c) shim n uninstall_type w).1 w'
      → Removals c shim (n ∷ nodes) w w'
  deploy-Removals n nodes w w' {r} ended ignored rest =
      let deploy = deploy_job_on_node (logged c) shim n uninstall_type in
      elim (Outcome-cases (deploy w).0) [
        | inl (_, e) ↦ removed (deploy_job_on_node-Sent c named shim n w e) rest
        | inr (inl (e, p)) ↦
            let same : r ≡ some e = ground (arith, p) in
            lost e p (not_found_ignored e (ap ignore_not_found (sym same) ∙ ignored)) rest
        | inr (inr (t, p)) ↦ absurd (ground (arith, p))
      ]

  -- A removal from all nodes that went through.
  handle_delete_shim-Removals :
      (nodes : List Node) (w : Logged W)
      → (handle_delete_shim (logged c) shim nodes w).0 ≡ ok tt
      → Removals c shim nodes w (handle_delete_shim (logged c) shim nodes w).1
  unfolding handle_delete_shim
  handle_delete_shim-Removals [] w h = done
  handle_delete_shim-Removals (n ∷ nodes) w h =
      let deploy = deploy_job_on_node (logged c) shim n uninstall_type in
      let deployed = attempt deploy in
      let later =
        λ (e : Err). return_err (ignore_not_found e) >> handle_delete_shim (logged c) shim nodes in
      elim (Bool-cases (is_labelled shim.name n)) [
        | inl marked ↦
            let step : handle_delete_shim (logged c) shim (n ∷ nodes) w ≡ (deployed >>= later) w =
              rw (marked, handle_delete_shim) refl in
            subst⁻¹ (λ r. Removals c shim (n ∷ nodes) w r.1) step
              (>>=_elim deployed later w (λ r. Removals c shim (n ∷ nodes) w r.1)
                (ap (λ r. r.0) (sym step) ∙ h)
                (λ e ended h1.
                  let w' = (deployed w).1 in
                  >>=_elim (return_err (ignore_not_found e))
                    (λ _. handle_delete_shim (logged c) shim nodes) w'
                    (λ r. Removals c shim (n ∷ nodes) w r.1) h1
                    (λ _ returned h2.
                      let ignored = returned-none (ignore_not_found e) w' returned in
                      let w'' = (return_err (ignore_not_found e) w').1 in
                      let kept : w'' ≡ (deploy w).1 =
                        return_err-none (ignore_not_found e) w' ignored ∙ attempt_world deploy w in
                      let end = (handle_delete_shim (logged c) shim nodes w'').1 in
                      deploy-Removals n nodes w end ended ignored (
                        subst (λ v. Removals c shim nodes v end) kept
                          (handle_delete_shim-Removals nodes w'' h2)))))
        | inr unmarked ↦
            let step : handle_delete_shim (logged c) shim (n ∷ nodes) w
                ≡ handle_delete_shim (logged c) shim nodes w =
              rw (unmarked, handle_delete_shim) refl in
            subst⁻¹ (λ r. Removals c shim (n ∷ nodes) w r.1) step
              (bare (is_labelled-none shim.name n unmarked)
                (handle_delete_shim-Removals nodes w (ap (λ r. r.0) (sym step) ∙ h)))
      ]

-- The log holds no update of the shim.
abbrev pub IsNotShim : Event → Type 0
IsNotShim (sent_shim _) = ⊥
IsNotShim (sent_node _) = Unit
IsNotShim (sent_job _) = Unit
IsNotShim (sent_runtime_class _) = Unit

IsNotShim-Allows : (job_type : Text) → Allows (All IsNotShim) job_type
IsNotShim-Allows job_type = record { node = λ n log h. (tt, h); job = λ j typed log h. (tt, h) }

contains-remove_finalizer : (f : Text) (fs : List Text) → contains (remove_finalizer f fs) f ≡ false
unfolding remove_finalizer
contains-remove_finalizer f [] = refl
contains-remove_finalizer f (g ∷ fs) = let rest = contains-remove_finalizer f fs in ground arith

-- One update of the shim at most, without the finalizer, is what follows these requests.
abbrev pub TakesOff : List Event → List Event → Type 0
TakesOff before log =
    (log ≡ before)
    ⊎ ((s : Shim) × (contains s.finalizers rcm_operator_finalizer ≡ false)
        × (log ≡ sent_shim s ∷ before))

module _ {W : Type 0} (c : Client W) (named : Named c) where
  abbrev unfinalize : Local (logged c) (Unit {0})
  unfinalize =
      attempt (remove_finalizer_from_shim (logged c)) >>= λ e. return_err (ignore_not_found e)

  remove_finalizer-TakesOff :
      (shim : Shim) (w : Logged W)
      → TakesOff w.1 (remove_finalizer_from_shim (logged c) (shim, w)).1.1.1
  unfolding remove_finalizer_from_shim update_shim update_failed
  remove_finalizer-TakesOff shim w =
      let sent : Shim = record shim {
        finalizers = remove_finalizer rcm_operator_finalizer shim.finalizers;
      } in
      elim (Bool-cases (contains shim.finalizers rcm_operator_finalizer)) [
        | inl there ↦ elim (Outcome-cases (c.update_shim sent w.0).0) [
          | inl (stored, p) ↦
              inr (
                sent,
                contains-remove_finalizer rcm_operator_finalizer shim.finalizers,
                ground arith,
              )
          | inr (inl (e, p)) ↦
              inr (
                sent,
                contains-remove_finalizer rcm_operator_finalizer shim.finalizers,
                ground arith,
              )
          | inr (inr (t, p)) ↦
              inr (
                sent,
                contains-remove_finalizer rcm_operator_finalizer shim.finalizers,
                ground arith,
              )
        ]
        | inr missing ↦ inl (ground arith)
      ]

  unfinalize-TakesOff : (shim : Shim) (w : Logged W) → TakesOff w.1 (unfinalize (shim, w)).1.1.1
  unfinalize-TakesOff shim w =
      let start : Shim × Logged W → Type 0 = λ v. v ≡ (shim, w) in
      let taken : Shim × Logged W → Type 0 = λ v. TakesOff w.1 v.1.1 in
      let remove = remove_finalizer_from_shim (logged c) in
      >>=-Leads start taken taken (attempt remove) (λ e. return_err (ignore_not_found e))
        (λ v e.
          subst⁻¹ taken (attempt_world remove v)
            (subst⁻¹ (λ v. taken (remove v).1) e (remove_finalizer-TakesOff shim w)))
        (λ e. return_err-Preserves taken (ignore_not_found e)) (λ v h. h) (shim, w) refl

  -- In the branch for a shim that is deleted, either the shim is not updated, or first all removals
  -- from the listed nodes are made, without an update of the shim, and then the shim is updated once
  -- at most, without the finalizer. From every listed node with the shim's label the removal sent an
  -- update of this node and then a job that removes the shim from it, or ended because something was
  -- not found. The server is one that answers with the node that was asked for.
  pub delete_branch_finalizer :
      (shim : Shim) (nodes : List Node) (w : W)
      → All IsNotShim (delete_branch (logged c) nodes (shim, (w, []))).1.1.1
        ⊎ ((w' : Logged W) × Removals c shim nodes (w, []) w'
            × All IsNotShim w'.1
            × TakesOff w'.1 (delete_branch (logged c) nodes (shim, (w, []))).1.1.1)
  unfolding delete_branch
  delete_branch_finalizer shim nodes w =
      let delete = handle_delete_shim (logged c) shim nodes in
      let deleted = delete (w, []) in
      let first : Local (logged c) (Unit {0}) =
        on_shim (logged c) (λ s. handle_delete_shim (logged c) s nodes) in
      let quiet : All IsNotShim deleted.1.1 =
        handle_delete_shim-Sends c (All IsNotShim) (IsNotShim-Allows uninstall_type) shim nodes
          (w, []) tt in
      elim (Outcome-cases deleted.0) [
        | inl (_, e) ↦
            let step : delete_branch (logged c) nodes (shim, (w, []))
                ≡ unfinalize (shim, deleted.1) =
              >>=_ok first (λ _. unfinalize) (shim, (w, [])) tt e in
            inr (
              deleted.1,
              handle_delete_shim-Removals c named shim nodes (w, []) e,
              quiet,
              subst⁻¹ (λ r. TakesOff deleted.1.1 r.1.1.1) step (unfinalize-TakesOff shim deleted.1),
            )
        | inr (inl (e, p)) ↦ inl (
            subst⁻¹ (λ r. All IsNotShim r.1.1.1)
              (>>=_err first (λ _. unfinalize) (shim, (w, [])) e p) quiet)
        | inr (inr (t, p)) ↦ inl (
            subst⁻¹ (λ r. All IsNotShim r.1.1.1)
              (>>=_panic first (λ _. unfinalize) (shim, (w, [])) t p) quiet)
      ]
