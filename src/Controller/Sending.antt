-- ===== src/Controller/Sending.antt =====
-- What the steps of a reconciliation send: the jobs of one type, updates of nodes, of the shim, and
-- runtime classes.
use runtime_class_manager.Base.{◌≡◌, some, List, ◌∷◌, Text, text_eq}
use runtime_class_manager.Base.Dict.{lookup}
use runtime_class_manager.Go.Outcome.Laws.{Preserves}
use runtime_class_manager.Api.{Shim}
use runtime_class_manager.Controller.Objects.{
  Node, Job, RuntimeClass, Client, install_type, uninstall_type,
}
use runtime_class_manager.Controller.Job.{operation_annotation}
use runtime_class_manager.Controller.Deploy.{deploy_job_on_node}
use runtime_class_manager.Controller.Reconcile.{handle_delete_shim, deploy_shim}
use runtime_class_manager.Controller.Log.{
  Event, sent_node, sent_job, sent_runtime_class, Logged, logged,
}
use runtime_class_manager.Controller.Frame.{
  NodeFrame, JobFrame, ClassFrame, deploy_job_on_node-Preserves, handle_delete_shim-Preserves,
  deploy_shim-Preserves,
}

-- A property of the log that an update of a node keeps, and a job of the type.
pub record Allows (I : List Event → Type 0) (job_type : Text) : Type 0 where
  pub node : (n : Node) (log : List Event) → I log → I (sent_node n ∷ log)
  pub job :
      (j : Job)
      → lookup operation_annotation j.annotations ≡ some job_type
      → (log : List Event) → I log
      → I (sent_job j ∷ log)

-- The property of the log, as one of the world.
abbrev pub Log : {W : Type 0} → (List Event → Type 0) → Logged W → Type 0
Log I w = I w.1

module _ {W : Type 0} (c : Client W) (I : List Event → Type 0) (job_type : Text)
    (allows : Allows I job_type) where
  Log-NodeFrame : (key : Text) → NodeFrame (logged c) (Log I) (λ _. Unit {0}) key
  Log-NodeFrame key = record {
    get_node = λ name w h. (h, λ n got. tt);
    update_node = λ n good w h. (allows.node n w.1 h, λ m got. tt);
    relabel = λ n labels status e good. tt;
  }

  Log-JobFrame : JobFrame {W = Logged W} (logged c) (Log I) job_type
  Log-JobFrame j typed w h = allows.job j typed w.1 h

  pub deploy_job_on_node-Sends :
      (shim : Shim) (listed : Node)
      → Preserves {W = Logged W} (Log I) (deploy_job_on_node (logged c) shim listed job_type)
  deploy_job_on_node-Sends shim =
      deploy_job_on_node-Preserves (logged c) (Log I) (λ _. Unit {0}) shim (Log-NodeFrame shim.name)
        job_type Log-JobFrame

module _ {W : Type 0} (c : Client W) (I : List Event → Type 0) where
  pub handle_delete_shim-Sends :
      Allows I uninstall_type
      → (shim : Shim) (nodes : List Node)
      → Preserves {W = Logged W} (Log I) (handle_delete_shim (logged c) shim nodes)
  handle_delete_shim-Sends allows shim =
      handle_delete_shim-Preserves (logged c) (Log I) (λ _. Unit {0}) shim
        (Log-NodeFrame c I uninstall_type allows shim.name) (Log-JobFrame c I uninstall_type allows)

  Log-ClassFrame :
      ((rc : RuntimeClass) (log : List Event) → I log → I (sent_runtime_class rc ∷ log))
      → ClassFrame {W = Logged W} (logged c) (Log I)
  Log-ClassFrame classes = record {
    get_runtime_class = λ k w h. h;
    patch_runtime_class = λ rc w h. classes rc w.1 h;
  }

  pub deploy_shim-Sends :
      Allows I install_type
      → (shim : Shim)
      → ((rc : RuntimeClass) (log : List Event) → I log → I (sent_runtime_class rc ∷ log))
      → (nodes : List Node) → Preserves {W = Logged W} (Log I) (deploy_shim (logged c) nodes shim)
  deploy_shim-Sends allows shim classes =
      deploy_shim-Preserves (logged c) (Log I) (λ _. Unit {0}) shim
        (Log-NodeFrame c I install_type allows shim.name) (Log-JobFrame c I install_type allows)
        (Log-ClassFrame classes)
