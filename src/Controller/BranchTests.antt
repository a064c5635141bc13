-- ===== src/Controller/BranchTests.antt =====
-- Whole reconciliations on a small cluster.
use runtime_class_manager.Base.{[], ◌∷◌, txt, text_eq, All, ◌⊎◌, true}
use runtime_class_manager.Go.Outcome.{pure}
use runtime_class_manager.Api.{Shim}
use runtime_class_manager.Controller.Objects.{
  NamespacedName, Client, install_type, uninstall_type, rcm_operator_finalizer,
}
use runtime_class_manager.Controller.Reconcile.{delete_branch, reconcile}
use runtime_class_manager.Controller.Log.{Logged, logged}
use runtime_class_manager.Controller.Branches.{Does, reconcile_of_one}
use runtime_class_manager.Controller.Finalizer.{
  IsNotShim, Removals, TakesOff, delete_branch_finalizer,
}
use runtime_class_manager.Controller.Tests.{shim, nodes, server, server-Named}

-- The server with the shim, which is being deleted.
abbrev deleted_shim : Shim
deleted_shim = record shim { deleting = true; finalizers = rcm_operator_finalizer ∷ [] }

abbrev deleting_server : Client (Unit {0})
deleting_server = record server { get_shim = λ k. pure deleted_shim }

abbrev request : NamespacedName
request = record { name = txt "spin-v1"; namespace = [] }

reconcile_of_one_example :
    All (Does install_type) (reconcile (logged deleting_server) request (tt, [])).1.1
    ⊎ All (Does uninstall_type) (reconcile (logged deleting_server) request (tt, [])).1.1
reconcile_of_one_example = reconcile_of_one deleting_server request tt

delete_branch_finalizer_example :
    All IsNotShim (delete_branch (logged server) nodes (deleted_shim, (tt, []))).1.1.1
    ⊎ ((w' : Logged (Unit {0})) × Removals server deleted_shim nodes (tt, []) w'
        × All IsNotShim w'.1
        × TakesOff w'.1 (delete_branch (logged server) nodes (deleted_shim, (tt, []))).1.1.1)
delete_branch_finalizer_example = delete_branch_finalizer server server-Named deleted_shim nodes tt
