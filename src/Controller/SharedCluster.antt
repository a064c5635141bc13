-- ===== src/Controller/SharedCluster.antt =====
-- A cluster in memory that several shims share, with a shim of every name.
use runtime_class_manager.Base.{
  ◌≡◌, refl, ◌∙◌, inl, inr, Option, none, some, List, [], Text, txt, text_eq, arith, ◌==◌, ==_refl,
  ==_iff, Bool-cases, Option-cases, if◌then◌else◌, map, ◌⊎◌,
}
use runtime_class_manager.Base.Dict.{Dict, lookup, insert, lookup-insert}
use runtime_class_manager.Go.Outcome.{Outcome, ok, err, api_not_found, Action, pure, raise}
use runtime_class_manager.Controller.Objects.{Node, Client}
use runtime_class_manager.Controller.Marking.{IsFaithful}
use runtime_class_manager.Controller.Isolation.{IsShared}
use runtime_class_manager.Controller.Tests.{shim}

abbrev pub Nodes : Type 0
Nodes = Dict Text Node

-- A node under its own name, which is not empty.
unfoldable pub named_only : Text → Option Node → Option Node
named_only q none = none
named_only q (some n) = if q == [] then none else if n.name == q then some n else none

unfoldable pub find_node : Nodes → Text → Option Node
unfolding named_only lookup
find_node w q = named_only q (lookup q w)

abbrev pub or_missing : Option Node → Outcome Node
or_missing none = err (api_not_found [])
or_missing (some n) = ok n

abbrev pub store : Option Node → Node → Nodes → Outcome Node × Nodes
store none n w = (err (api_not_found []), w)
store (some _) n w = (ok n, insert n.name n w)

abbrev pub absent : {A : Type 0} → Action Nodes A
absent = raise (api_not_found [])

abbrev pub nodes_of : Nodes → List Node
nodes_of w = map (λ (_, n). n) w

-- The nodes in memory; there is a shim of every name.
abbrev pub cluster : Client Nodes
cluster = record {
  get_shim = λ k. pure (record shim { name = k.name });
  list_shims = pure [];
  update_shim = λ s. pure s;
  get_node = λ name w. (or_missing (find_node w name), w);
  list_nodes = λ s w. (ok (nodes_of w), w);
  update_node = λ n w. store (find_node w n.name) n w;
  get_job = λ k. absent;
  patch_job = λ j. pure tt;
  get_runtime_class = λ k. absent;
  patch_runtime_class = λ rc. pure tt;
  controller_reference = λ s. ok (record { name = s.name; uid = txt "1" });
  getenv = λ name. [];
}

pub find_node-name : (w : Nodes) (q : Text) (n : Node) → find_node w q ≡ some n → n.name ≡ q
unfolding find_node named_only
find_node-name w q n h = elim (Option-cases (lookup q w)) [
  | inl missing ↦ absurd (ground (arith, missing, h))
  | inr (m, e) ↦ elim (Bool-cases (m.name == q)) [
    | inl same ↦ let is : m ≡ n = ground (arith, e, h, same) in (==_iff n.name q).0 (rw (← is) same)
    | inr other ↦ absurd (ground (arith, e, h, other))
  ]
]

pub find_node-insert :
    (n old : Node) (w : Nodes) (q : Text)
    → find_node w n.name ≡ some old
    → find_node (insert n.name n w) q ≡ (if q == n.name then some n else find_node w q)
unfolding find_node named_only
find_node-insert n old w q h = elim (Bool-cases (q == n.name)) [
  | inl same ↦
      let is = (==_iff q n.name).0 same in
      rw (is) (elim (Bool-cases (n.name == [])) [
        | inl empty ↦ absurd (ground (arith, empty, h, Option-cases (lookup n.name w)))
        | inr other ↦
            rw (lookup-insert n.name n.name n w)
              (rw (==_refl n.name) (rw (other, ==_refl n.name) refl))
      ])
  | inr other ↦ ground (arith, lookup-insert q n.name n w, other)
]

unfoldable pub cluster-IsFaithful : IsFaithful cluster
cluster-IsFaithful = record {
  find = find_node;
  get_node-find = λ name n w found. ground arith;
  get_node-Keeps = λ name w q. refl;
  update_node-find = λ sent old w found. (
    ground arith,
    ground (arith, find_node-insert sent old w sent.name found, ==_refl sent.name),
  );
  patch_job-Keeps = λ j w q. refl;
}

pub update_node-stored :
    (sent : Node) (w : Nodes) (q : Text) (found : Option Node)
    → find_node w sent.name ≡ found
    → (find_node (store found sent w).1 q ≡ find_node w q)
      ⊎ ((n : Node) × (q ≡ sent.name)
          × (find_node (store found sent w).1 q ≡ some n)
          × (n.labels ≡ sent.labels))
update_node-stored sent w q none e = inl refl
update_node-stored sent w q (some old) e = elim (Bool-cases (q == sent.name)) [
  | inl same ↦
      inr (sent, (==_iff q sent.name).0 same, find_node-insert sent old w q e ∙ rw same refl, refl)
  | inr other ↦ inl (find_node-insert sent old w q e ∙ rw other refl)
]

pub update_node-answer :
    (sent : Node) (w : Nodes) (found : Option Node) (n : Node)
    → (store found sent w).0 ≡ ok n
    → (n.name ≡ sent.name) × (n.labels ≡ sent.labels)
update_node-answer sent w none n h = absurd (ground arith)
update_node-answer sent w (some old) n h = (ground arith, ground arith)

pub find_node-unnamed : (w : Nodes) → find_node w [] ≡ none
unfolding find_node named_only
find_node-unnamed w = elim (Option-cases (lookup [] w)) [
  | inl missing ↦ rw missing refl
  | inr (m, e) ↦ rw e (rw (==_refl {A = Text} []) refl)
]

unfoldable pub cluster-IsShared : IsShared cluster
cluster-IsShared = record {
  find = find_node;
  find-named = find_node-name;
  find-unnamed = find_node-unnamed;
  get_node-found = λ name w n got. ground arith;
  update_node-stored = λ sent w q. update_node-stored sent w q (find_node w sent.name) refl;
  update_node-answer = λ sent w. update_node-answer sent w (find_node w sent.name);
  get_shim-name = λ k w s got. ground arith;
  update_shim-name = λ sent w s got. ground arith;
  get_node-Keeps = λ name w q. refl;
  get_shim-Keeps = λ k w q. refl;
  update_shim-Keeps = λ s w q. refl;
  list_nodes-Keeps = λ l w q. refl;
  get_job-Keeps = λ k w q. refl;
  patch_job-Keeps = λ j w q. refl;
  get_runtime_class-Keeps = λ k w q. refl;
  patch_runtime_class-Keeps = λ rc w q. refl;
}
