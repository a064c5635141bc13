-- ===== src/Controller/Updating.antt =====
-- What the steps of a reconciliation send that also act on the local variable of the shim.
use runtime_class_manager.Base.{List, ◌∷◌, Text}
use runtime_class_manager.Go.Outcome.{Action}
use runtime_class_manager.Go.Outcome.Laws.{Preserves}
use runtime_class_manager.Api.{Shim}
use runtime_class_manager.Controller.Objects.{Node, Client, uninstall_type}
use runtime_class_manager.Controller.Reconcile.{
  on_shim, update_status, remove_finalizer_from_shim, ensure_finalizer_for_shim, delete_branch,
}
use runtime_class_manager.Controller.Log.{Event, sent_shim, Logged, logged}
use runtime_class_manager.Controller.Sending.{Allows, Log, handle_delete_shim-Sends}
use runtime_class_manager.Controller.Frame.Local.{
  ShimFrame, update_status-Preserves, remove_finalizer_from_shim-Preserves,
  ensure_finalizer_for_shim-Preserves, delete_branch-Preserves,
}

module _ {W : Type 0} (c : Client W) where
  -- The property of the log, as one of the variable and the world.
  abbrev pub Kept : (List Event → Type 0) → Shim × Logged W → Type 0
  Kept I s = I s.1.1

  module _ (I : List Event → Type 0)
      (shims : (s : Shim) (log : List Event) → I log → I (sent_shim s ∷ log)) where
    Log-ShimFrame : ShimFrame {W = Logged W} (logged c) (Log I) (λ _. Unit {0})
    Log-ShimFrame = record {
      get_shim = λ k named w h. (h, λ s got. tt);
      update_shim = λ s named w h. (shims s w.1 h, λ s got. tt);
    }

    pub update_status-Kept :
        (nodes : List Node) → Preserves (Kept I) (update_status (logged c) nodes)
    update_status-Kept nodes s h =
        (update_status-Preserves (logged c) (Log I) (λ _. Unit {0}) Log-ShimFrame nodes s (tt, h)).1

    pub ensure_finalizer_for_shim-Kept :
        (f : Text) → Preserves (Kept I) (ensure_finalizer_for_shim (logged c) f)
    ensure_finalizer_for_shim-Kept f s h =
        (ensure_finalizer_for_shim-Preserves (logged c) (Log I) (λ _. Unit {0}) Log-ShimFrame f s
          (tt, h)).1

    pub remove_finalizer_from_shim-Kept : Preserves (Kept I) (remove_finalizer_from_shim (logged c))
    remove_finalizer_from_shim-Kept s h =
        (remove_finalizer_from_shim-Preserves (logged c) (Log I) (λ _. Unit {0}) Log-ShimFrame s
          (tt, h)).1

    pub on_shim-Kept :
        {A : Type 0} (f : Shim → Action (Logged W) A)
        → ((shim : Shim) → Preserves {W = Logged W} (Log I) (f shim))
        → Preserves (Kept I) (on_shim (logged c) f)
    on_shim-Kept f sends (shim, w) h = sends shim w h

    pub delete_branch-Kept :
        Allows I uninstall_type
        → (nodes : List Node) → Preserves (Kept I) (delete_branch (logged c) nodes)
    delete_branch-Kept allows nodes s h =
        (delete_branch-Preserves (logged c) (Log I) (λ _. Unit {0}) Log-ShimFrame nodes
          (λ shim named. handle_delete_shim-Sends c I allows shim nodes) s (tt, h)).1
