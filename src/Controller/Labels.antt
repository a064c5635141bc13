-- ===== src/Controller/Labels.antt =====
-- What the label of a node makes of it: the requests of the updates, as a rollout and a removal read
-- the nodes that they send.
use runtime_class_manager.Base.{
  ◌≡◌, Bool, not, ◌&&◌, ◌||◌, none, some, Option-cases, inl, inr, txt, ◌∷◌, Text, text_eq, ◌==◌,
  arith, if◌then◌else◌,
}
use runtime_class_manager.Base.Dict.{Dict, insert, lookup-insert, erase, lookup-erase}
use runtime_class_manager.Controller.Objects.{Node, Client, label_of, provisioned, pending}
use runtime_class_manager.Controller.Log.{Logged, logged, sent_node}
use runtime_class_manager.Controller.Deploy.{update_node_labels, set_label, send_node}
use runtime_class_manager.Controller.Job.{delete_node_label}
use runtime_class_manager.Controller.Reconcile.{has_status, needs_install, is_labelled}

-- A label that asks for no installation.
abbrev pub is_settled : Text → Bool
is_settled status = (status == provisioned) || (status == pending)

module _ {W : Type 0} (c : Client W) (n : Node) (key : Text) (w : Logged W) (shim_name : Text) where
  label_of-insert :
      (labels : Dict Text Text) (status : Text)
      → n.labels ≡ some labels
      → label_of (record n { labels = some (insert key status labels) }) shim_name
        ≡ (if shim_name == key then some status else label_of n shim_name)
  unfolding label_of
  label_of-insert labels status e = ground (arith, lookup-insert shim_name key status labels)

  -- An update of the label of a node that has labels sends the node with that label: a rollout of
  -- the labelled shim passes over it exactly if the label says provisioned or pending, a removal of
  -- that shim does not, and other shims find what they found before.
  pub update_node_labels-sent :
      (labels : Dict Text Text) (status : Text)
      → n.labels ≡ some labels
      → (sent : Node) × ((update_node_labels (logged c) n key status w).1.1 ≡ sent_node sent ∷ w.1)
        × (needs_install shim_name sent
            ≡ (if shim_name == key then not (is_settled status) else needs_install shim_name n))
        × (is_labelled shim_name sent ≡ ((shim_name == key) || is_labelled shim_name n))
  unfolding update_node_labels set_label send_node needs_install has_status is_labelled
  update_node_labels-sent labels status e = (
    record n { labels = some (insert key status labels) },
    ground arith,
    ground (arith, label_of-insert labels status e),
    ground (arith, label_of-insert labels status e),
  )

  label_of-erase :
      label_of
        (record n {
          labels = elim n.labels [ none ↦ none | some labels ↦ some (erase key labels) ];
        })
        shim_name
      ≡ (if shim_name == key then none else label_of n shim_name)
  unfolding label_of
  label_of-erase = elim (Option-cases n.labels) [
    | inl e ↦ ground arith
    | inr (labels, e) ↦ ground (arith, lookup-erase shim_name key labels)
  ]

  -- The removal of a label sends the node without it: a removal of the shim passes over that node, a
  -- rollout does not, and other shims find what they found before. A node without labels is sent too.
  pub delete_node_label-sent :
      (sent : Node) × ((delete_node_label (logged c) n key w).1.1 ≡ sent_node sent ∷ w.1)
      × (needs_install shim_name sent ≡ ((shim_name == key) || needs_install shim_name n))
      × (is_labelled shim_name sent ≡ (not (shim_name == key) && is_labelled shim_name n))
  unfolding delete_node_label send_node needs_install has_status is_labelled txt text_eq
  delete_node_label-sent = (
    record n { labels = elim n.labels [ none ↦ none | some labels ↦ some (erase key labels) ] },
    ground arith,
    ground (arith, label_of-erase),
    ground (arith, label_of-erase),
  )
