-- ===== src/Controller/Isolation.antt =====
-- Reconciliations of other shims, in any order with their jobs and with changes from outside: what
-- they leave of the labels of one shim.
use runtime_class_manager.Base.{
  ◌≡◌, ◌≢◌, refl, sym, ap, ◌∙◌, ◌⊎◌, inl, inr, Option, some, none, [], Text, text_eq, ==_ne, arith,
}
use runtime_class_manager.Base.Dict.{Dict, lookup, insert, erase, lookup-insert, lookup-erase}
use runtime_class_manager.Go.Outcome.{ok}
use runtime_class_manager.Go.Outcome.Laws.{Preserves, Yields}
use runtime_class_manager.Api.{Shim}
use runtime_class_manager.Controller.Objects.{
  NamespacedName, Node, Job, RuntimeClass, Client, label_of,
}
use runtime_class_manager.Controller.Job
use runtime_class_manager.Controller.Job.{shim_name_label, empty_node}
use runtime_class_manager.Controller.Reconcile
use runtime_class_manager.Controller.Frame.{
  NodeFrame, ClassFrame, handle_delete_shim-Preserves, deploy_shim-Preserves,
}
use runtime_class_manager.Controller.Frame.Local
use runtime_class_manager.Controller.Frame.Local.{ShimFrame}
use runtime_class_manager.Controller.Frame.Follow
use runtime_class_manager.Controller.Frame.Follow.{FollowFrame}

-- What is asked of a server that others use too: a fetch answers with what it has under the name, an
-- update stores the labels that it is sent or changes nothing, and no other call changes a node.
pub record IsShared {W : Type 0} (c : Client W) : Type 0 where
  pub find : W → Text → Option Node
  pub find-named : (w : W) (q : Text) (n : Node) → find w q ≡ some n → n.name ≡ q
  pub find-unnamed : (w : W) → find w [] ≡ none
  pub get_node-found :
      (name : Text) (w : W) (n : Node) → (c.get_node name w).0 ≡ ok n → find w name ≡ some n
  pub update_node-stored :
      (sent : Node) (w : W) (q : Text)
      → (find (c.update_node sent w).1 q ≡ find w q)
        ⊎ ((n : Node) × (q ≡ sent.name)
            × (find (c.update_node sent w).1 q ≡ some n)
            × (n.labels ≡ sent.labels))
  pub update_node-answer :
      (sent : Node) (w : W) (n : Node)
      → (c.update_node sent w).0 ≡ ok n
      → (n.name ≡ sent.name) × (n.labels ≡ sent.labels)
  pub get_shim-name :
      (k : NamespacedName) (w : W) (s : Shim) → (c.get_shim k w).0 ≡ ok s → s.name ≡ k.name
  pub update_shim-name :
      (sent : Shim) (w : W) (s : Shim) → (c.update_shim sent w).0 ≡ ok s → s.name ≡ sent.name
  pub get_node-Keeps : (name : Text) (w : W) (q : Text) → find (c.get_node name w).1 q ≡ find w q
  pub get_shim-Keeps :
      (k : NamespacedName) (w : W) (q : Text) → find (c.get_shim k w).1 q ≡ find w q
  pub update_shim-Keeps : (s : Shim) (w : W) (q : Text) → find (c.update_shim s w).1 q ≡ find w q
  pub list_nodes-Keeps :
      (l : Option (Dict Text Text)) (w : W) (q : Text) → find (c.list_nodes l w).1 q ≡ find w q
  pub get_job-Keeps : (k : NamespacedName) (w : W) (q : Text) → find (c.get_job k w).1 q ≡ find w q
  pub patch_job-Keeps : (j : Job) (w : W) (q : Text) → find (c.patch_job j w).1 q ≡ find w q
  pub get_runtime_class-Keeps :
      (k : NamespacedName) (w : W) (q : Text) → find (c.get_runtime_class k w).1 q ≡ find w q
  pub patch_runtime_class-Keeps :
      (rc : RuntimeClass) (w : W) (q : Text) → find (c.patch_runtime_class rc w).1 q ≡ find w q

-- The label of a node that may be missing.
abbrev pub label_in : Text → Option Node → Option Text
label_in s none = none
label_in s (some n) = label_of n s

module _ {W : Type 0} (c : Client W) (F : IsShared c) (s : Text) where
  -- The label of the shim `s` on a node of the cluster.
  abbrev pub label_at : W → Text → Option Text
  label_at w q = label_in s (F.find w q)

  -- A job that another shim owns, if it is there.
  abbrev pub IsForeign : NamespacedName → W → Type 0
  IsForeign k w =
      (job : Job) → (c.get_job k w).0 ≡ ok job → lookup shim_name_label job.labels ≢ some s

  -- One reconciliation of another shim, however it ends, or of a job of another shim, or a change
  -- from outside that spares the labels of `s`; and any number of them.
  pub data Step (w : W) : W → Type 0 where
    reconciles_shim : (k : NamespacedName) → k.name ≢ s → Step w (Reconcile.reconcile c k w).1
    reconciles_job : (k : NamespacedName) → IsForeign k w → Step w (Job.reconcile c k w).1
    outside : (w' : W) → ((q : Text) → label_at w' q ≡ label_at w q) → Step w w'

  pub data Run (w : W) : W → Type 0 where
    start : Run w w
    next : {w' w'' : W} → Run w w' → Step w' w'' → Run w w''

  module _ (v : Text → Option Text) where
    -- The labels are as they were.
    abbrev Same : W → Type 0
    Same w = (q : Text) → label_at w q ≡ v q

    abbrev Good : Node → Type 0
    Good n = label_of n s ≡ v n.name

    keeps_label : {w w' : W} → ((q : Text) → F.find w' q ≡ F.find w q) → Same w → Same w'
    keeps_label kept h q = ap (label_in s) (kept q) ∙ h q

    same_label : (n m : Node) → m.name ≡ n.name → m.labels ≡ n.labels → Good n → Good m
    unfolding label_of
    same_label n m named labels good = ground (arith, named, labels, good)

    update_node-Same : (n : Node) → Good n → Yields Same Good (c.update_node n)
    update_node-Same n good w h = (
      λ q. elim (F.update_node-stored n w q) [
        | inl kept ↦ ap (label_in s) kept ∙ h q
        | inr (m, named, found, labels) ↦
            let named' : m.name ≡ n.name = F.find-named _ q m found ∙ named in
            ap (label_in s) found
            ∙ (same_label n m named' labels good ∙ ap v (F.find-named _ q m found))
      ],
      λ m answered.
          let (named, labels) = F.update_node-answer n w m answered in
          same_label n m named labels good,
    )

    get_node-Same : (name : Text) → Yields Same Good (c.get_node name)
    get_node-Same name w h = (
      keeps_label (F.get_node-Keeps name w) h,
      λ n got.
          let found = F.get_node-found name w n got in
          sym (ap (label_in s) found) ∙ (h name ∙ ap v (sym (F.find-named w name n found))),
    )

    relabel-Good :
        (key : Text) (n : Node) (labels : Dict Text Text) (status : Text)
        → key ≢ s
        → n.labels ≡ some labels
        → Good n
        → Good (record n { labels = some (insert key status labels) })
    unfolding label_of
    relabel-Good key n labels status other e good =
        lookup-insert s key status labels
        ∙ rw (==_ne s key (λ same. other (sym same))) (ground (arith, e, good))

    unlabel-Good :
        (key : Text) (n : Node) (labels : Dict Text Text)
        → key ≢ s
        → n.labels ≡ some labels
        → Good n
        → Good (record n { labels = some (erase key labels) })
    unfolding label_of
    unlabel-Good key n labels other e good =
        lookup-erase s key labels
        ∙ rw (==_ne s key (λ same. other (sym same))) (ground (arith, e, good))

    isolated-NodeFrame : (key : Text) → key ≢ s → NodeFrame c Same Good key
    isolated-NodeFrame key other = record {
      get_node = get_node-Same;
      update_node = update_node-Same;
      relabel = λ n labels status. relabel-Good key n labels status other;
    }

    isolated-ClassFrame : ClassFrame c Same
    isolated-ClassFrame = record {
      get_runtime_class = λ k w. keeps_label (F.get_runtime_class-Keeps k w);
      patch_runtime_class = λ rc w. keeps_label (F.patch_runtime_class-Keeps rc w);
    }

    isolated-ShimFrame : ShimFrame c Same (λ name. name ≢ s)
    isolated-ShimFrame = record {
      get_shim = λ k other w h. (
        keeps_label (F.get_shim-Keeps k w) h,
        λ shim got same. other (sym (F.get_shim-name k w shim got) ∙ same),
      );
      update_shim = λ sent other w h. (
        keeps_label (F.update_shim-Keeps sent w) h,
        λ shim got same. other (sym (F.update_shim-name sent w shim got) ∙ same),
      );
    }

    shim-Same : (k : NamespacedName) → k.name ≢ s → Preserves Same (Reconcile.reconcile c k)
    shim-Same k other =
        Local.reconcile-Preserves c Same (λ name. name ≢ s) isolated-ShimFrame
          (λ l w. keeps_label (F.list_nodes-Keeps l w))
          (λ shim nodes other.
            handle_delete_shim-Preserves c Same Good shim (isolated-NodeFrame shim.name other)
              (λ j typed w. keeps_label (F.patch_job-Keeps j w)) nodes)
          (λ shim nodes other.
            deploy_shim-Preserves c Same Good shim (isolated-NodeFrame shim.name other)
              (λ j typed w. keeps_label (F.patch_job-Keeps j w)) isolated-ClassFrame nodes)
          k other

    job-Same :
        (k : NamespacedName) (w : W)
        → v [] ≡ none
        → IsForeign k w
        → Same w
        → Same (Job.reconcile c k w).1
    unfolding label_of
    job-Same k w nameless foreign =
        Follow.reconcile-Preserves c Same Good k (λ w. keeps_label (F.get_job-Keeps k w)) w
          (λ job key got labelled.
            let other : key ≢ s = λ same. foreign job got (labelled ∙ ap some same) in
            record {
              nodes = isolated-NodeFrame key other;
              unlabel = λ n labels. unlabel-Good key n labels other;
              unnamed = sym nameless;
            })

  Step-Same : (v : Text → Option Text) {w w' : W} → v [] ≡ none → Step w w' → Same v w → Same v w'
  Step-Same v {w} nameless (reconciles_shim k other) h = shim-Same v k other w h
  Step-Same v {w} nameless (reconciles_job k foreign) h = job-Same v k w nameless foreign h
  Step-Same v nameless (outside w' spared) h = λ q. spared q ∙ h q

  -- On a server where a fetch answers with the node it has under the name, and with a shim of the
  -- name that was asked for, an update stores the labels that it is sent or changes nothing, and
  -- no other call changes a node: after any reconciliations of other shims and of their jobs, in
  -- any order and however each ends, with changes from outside between them that spare the labels
  -- of a shim, every node has the label of that shim that it had before, or lacks it as before.
  pub Run-label_at : {w w' : W} → Run w w' → (q : Text) → label_at w' q ≡ label_at w q
  Run-label_at start q = refl
  Run-label_at {w} (next run step) q =
      Step-Same (label_at w) (ap (label_in s) (F.find-unnamed w)) step (Run-label_at run) q
