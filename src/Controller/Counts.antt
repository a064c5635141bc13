-- ===== src/Controller/Counts.antt =====
-- The counts of a rollout: a deployment for every node that needs one, and the numbers in the status.
use runtime_class_manager.Base.{
  Bool, true, false, Option-cases, txt, text_eq, ◌==◌, ◌≡◌, refl, ◌≤◌, none, some, List, [], ◌∷◌,
  arith, All, length, ◌⊎◌, ◌↔◌, inl, inr, Bool-cases, Text,
}
use runtime_class_manager.Go.Outcome.{Error, err, Err, join, ok, panic, return_err}
use runtime_class_manager.Go.Outcome.Laws.{Outcome-cases, >>=_ok}
use mathlib.Core.Path.{subst⁻¹}
use runtime_class_manager.Api.{Shim}
use runtime_class_manager.Controller.Objects.{
  Node, Client, label_of, install_type, provisioned, pending,
}
use runtime_class_manager.Controller.Deploy.{deploy_job_on_node}
use runtime_class_manager.Controller.Log.{sent_shim, Logged, logged}
use runtime_class_manager.Controller.Reconcile.{
  key_of, update_status, update_shim, refetch_shim, needs_install, has_status, count_ready,
  with_counts, recreate_from, recreate_strategy_rollout,
}
use runtime_class_manager.Controller.Rollout.{names_where}

count_ready-names_where :
    (shim_name : Text) (nodes : List Node)
    → count_ready shim_name nodes ≡ length (names_where (has_status shim_name provisioned) nodes)
unfolding count_ready names_where
count_ready-names_where shim_name [] = refl
count_ready-names_where shim_name (n ∷ nodes) =
    ground (arith, count_ready-names_where shim_name nodes)

count_ready_le : (shim_name : Text) (nodes : List Node) → count_ready shim_name nodes ≤ length nodes
unfolding count_ready
count_ready_le shim_name [] = omega arith
count_ready_le shim_name (n ∷ nodes) = ground (arith, count_ready_le shim_name nodes)

-- The label of the node says that the shim is provisioned.
abbrev pub is_ready : Text → Node → Bool
is_ready shim_name n = elim (label_of n shim_name) [
  | none ↦ false
  | some status ↦ status == txt "provisioned"
]

count_ready-is_ready :
    (shim_name : Text) (nodes : List Node)
    → count_ready shim_name nodes ≡ length (names_where (is_ready shim_name) nodes)
unfolding count_ready names_where has_status txt text_eq
count_ready-is_ready shim_name [] = refl
count_ready-is_ready shim_name (n ∷ nodes) =
    let rest = count_ready-is_ready shim_name nodes in
    elim (Option-cases (label_of n shim_name)) [
      | inl bare ↦ ground arith
      | inr (status, e) ↦ ground arith
    ]

refetch_shim-log :
    {W : Type 0} (c : Client W) (s : Shim × Logged W) → (refetch_shim (logged c) s).1.1.1 ≡ s.1.1
unfolding refetch_shim
refetch_shim-log c (shim, w) = elim (Outcome-cases (c.get_shim (key_of shim) w.0).0) [
  | inl (x, p) ↦ ground arith
  | inr (inl (x, p)) ↦ ground arith
  | inr (inr (x, p)) ↦ ground arith
]

-- What `updateStatus` sends is one update of the shim, which differs from the shim in the status only.
-- That counts the listed nodes, and as ready those whose label says provisioned, which are never more.
pub update_status-sent :
    {W : Type 0} (c : Client W) (nodes : List Node) (shim : Shim) (w : Logged W)
    → (sent : Shim) × ((update_status (logged c) nodes (shim, w)).1.1.1 ≡ sent_shim sent ∷ w.1)
      × (record sent { status = shim.status } ≡ shim)
      × (sent.status.node_count ≡ length nodes)
      × (sent.status.node_ready_count ≡ length (names_where (is_ready shim.name) nodes))
      × (sent.status.node_ready_count ≤ sent.status.node_count)
unfolding update_status update_shim with_counts
update_status-sent {W} c nodes shim w =
    let counted = with_counts shim nodes in
    let w' : Logged W = ((c.update_shim counted w.0).1, sent_shim counted ∷ w.1) in
    (
      counted,
      elim (Outcome-cases (c.update_shim counted w.0).0) [
        | inl (stored, p) ↦ let fetched = refetch_shim-log c (stored, w') in ground arith
        | inr (inl (x, p)) ↦ let fetched = refetch_shim-log c (counted, w') in ground arith
        | inr (inr (x, p)) ↦ ground arith
      ],
      refl,
      refl,
      count_ready-is_ready shim.name nodes,
      count_ready_le shim.name nodes,
    )

join-eq-none_iff : (errs : List Err) → (join errs ≡ none) ↔ All (λ e. e ≡ none) errs
unfolding join
join-eq-none_iff [] = (λ h. tt, λ h. refl)
join-eq-none_iff (none ∷ errs) =
    let rest = join-eq-none_iff errs in (λ h. (refl, rest.0 h), λ h. rest.1 h.1)
join-eq-none_iff (some e ∷ errs) = (λ h. absurd (ground arith), λ h. absurd (ground (arith, h.0)))

-- The label of the node says that nothing is to be done.
abbrev pub IsSettled : Text → Node → Type 0
IsSettled shim_name n =
    (label_of n shim_name ≡ some (txt "provisioned"))
    ⊎ (label_of n shim_name ≡ some (txt "pending"))

-- The deployments of a rollout, one after the other in the worlds that they leave: none on a node
-- whose label says provisioned or pending, and one on each of the others, with how it ended.
pub data Deployments {W : Type 0} (c : Client W) (shim : Shim)
    : List Node → W → List Err → W → Type 0 where
  done : {w : W} → Deployments c shim [] w [] w
  settled :
      {n : Node} {nodes : List Node} {w w' : W} {errs : List Err}
      → IsSettled shim.name n
      → Deployments c shim nodes w errs w'
      → Deployments c shim (n ∷ nodes) w errs w'
  deployed :
      {n : Node} {nodes : List Node} {w w' : W} {errs : List Err}
      → ¬ IsSettled shim.name n
      → (deploy_job_on_node c shim n install_type w).0 ≡ ok tt
      → Deployments c shim nodes (deploy_job_on_node c shim n install_type w).1 errs w'
      → Deployments c shim (n ∷ nodes) w (none ∷ errs) w'
  failing :
      {n : Node} {nodes : List Node} {w w' : W} {e : Error} {errs : List Err}
      → ¬ IsSettled shim.name n
      → (deploy_job_on_node c shim n install_type w).0 ≡ err e
      → Deployments c shim nodes (deploy_job_on_node c shim n install_type w).1 errs w'
      → Deployments c shim (n ∷ nodes) w (some e ∷ errs) w'

not_empty : ((provisioned == []) ≡ false) × ((pending == []) ≡ false)
unfolding txt text_eq
not_empty = (refl, refl)

needs_install-IsSettled :
    (shim_name : Text) (n : Node) → needs_install shim_name n ≡ false → IsSettled shim_name n
unfolding needs_install has_status
needs_install-IsSettled shim_name n h = elim (Option-cases (label_of n shim_name)) [
  | inl bare ↦ let (p, q) = not_empty in absurd (ground arith)
  | inr (status, e) ↦ ground arith
]

needs_install-not_IsSettled :
    (shim_name : Text) (n : Node) → needs_install shim_name n ≡ true → ¬ IsSettled shim_name n
unfolding needs_install has_status
needs_install-not_IsSettled shim_name n h (inl ready) = absurd (ground arith)
needs_install-not_IsSettled shim_name n h (inr waits) = absurd (ground arith)

module _ {W : Type 0} (c : Client W) (shim : Shim) where
  -- The loop went over all nodes, or a deployment panicked.
  abbrev Deploys : List Node → W → Type 0
  Deploys nodes w =
      ((errs : List Err) × ((recreate_from c shim nodes w).0 ≡ ok errs)
        × Deployments c shim nodes w errs (recreate_from c shim nodes w).1)
      ⊎ ((t : Text) × ((recreate_from c shim nodes w).0 ≡ panic t))

  collect :
      (n : Node) (nodes : List Node) (w : W)
      → needs_install shim.name n ≡ true
      → Deploys nodes (deploy_job_on_node c shim n install_type w).1
      → Deploys (n ∷ nodes) w
  unfolding recreate_from
  collect n nodes w needed rest =
      let deploy = deploy_job_on_node c shim n install_type in
      let open_node = needs_install-not_IsSettled shim.name n needed in
      elim (Outcome-cases (deploy w).0) [
        | inl (_, e) ↦ elim rest [
          | inl (errs, q, d) ↦ inl (
            none ∷ errs,
            ground arith,
            subst⁻¹ (Deployments c shim (n ∷ nodes) w (none ∷ errs)) (ground arith)
                (deployed open_node e d),
          )
          | inr (t, q) ↦ inr (t, ground arith)
        ]
        | inr (inl (e, p)) ↦ elim rest [
          | inl (errs, q, d) ↦ inl (
            some e ∷ errs,
            ground arith,
            subst⁻¹ (Deployments c shim (n ∷ nodes) w (some e ∷ errs)) (ground arith)
                (failing open_node p d),
          )
          | inr (t, q) ↦ inr (t, ground arith)
        ]
        | inr (inr (t, p)) ↦ inr (t, ground arith)
      ]

  recreate_from-Deploys : (nodes : List Node) (w : W) → Deploys nodes w
  unfolding recreate_from
  recreate_from-Deploys [] w = inl ([], refl, done)
  recreate_from-Deploys (n ∷ nodes) w = elim (Bool-cases (needs_install shim.name n)) [
    | inl needed ↦
        collect n nodes w needed
          (recreate_from-Deploys nodes (deploy_job_on_node c shim n install_type w).1)
    | inr kept ↦ elim (recreate_from-Deploys nodes w) [
      | inl (errs, e, d) ↦ inl (
        errs,
        rw (kept, recreate_from) e,
        rw (kept, recreate_from) (settled (needs_install-IsSettled shim.name n kept) d),
      )
      | inr (t, e) ↦ inr (t, rw (kept, recreate_from) e)
    ]
  ]

  reported :
      (e : Err) (w : W) (errs : List Err)
      → ((e ≡ none) ↔ All (λ e. e ≡ none) errs)
      → ((return_err e w).0 ≡ ok tt) ↔ All (λ e. e ≡ none) errs
  reported none w errs h = (λ _. h.0 refl, λ _. refl)
  reported (some e) w errs h = (λ r. absurd (ground arith), λ all. absurd (ground (arith, h.1 all)))

  return_err_world : (e : Err) (w : W) → (return_err e w).1 ≡ w
  return_err_world none w = refl
  return_err_world (some e) w = refl

  -- A deployment that fails does not stop a rollout: unless one panics, the rollout deploys on every
  -- listed node, in order, whose label says neither provisioned nor pending, on no other, and does
  -- nothing else; it succeeds exactly if each of these deployments did.
  pub recreate_strategy_rollout-Deployments :
      (nodes : List Node) (w : W)
      → ((errs : List Err) × Deployments c shim nodes w errs
            (recreate_strategy_rollout c shim nodes w).1
          × (((recreate_strategy_rollout c shim nodes w).0 ≡ ok tt) ↔ All (λ e. e ≡ none) errs))
        ⊎ ((t : Text) × ((recreate_strategy_rollout c shim nodes w).0 ≡ panic t))
  unfolding recreate_strategy_rollout
  recreate_strategy_rollout-Deployments nodes w = elim (recreate_from-Deploys nodes w) [
    | inl (errs, e, d) ↦
        let w' = (recreate_from c shim nodes w).1 in
        let step = >>=_ok (recreate_from c shim nodes) (λ errs. return_err (join errs)) w errs e in
        inl (
          errs,
          rw (step, return_err_world) d,
          rw step (reported (join errs) w' errs (join-eq-none_iff errs)),
        )
    | inr (t, e) ↦ inr (t, ground arith)
  ]
