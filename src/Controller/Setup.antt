-- ===== src/Controller/Setup.antt =====
-- internal/controller: `SetupWithManager` of both reconcilers, and what they register.
use runtime_class_manager.Base.{List, [], ◌∷◌}
use runtime_class_manager.Go.Outcome.{Action}
use runtime_class_manager.Controller.Objects.{NamespacedName, Client}
use runtime_class_manager.Controller.Reconcile
use runtime_class_manager.Controller.Reconcile.{find_shims_to_reconcile}
use runtime_class_manager.Controller.Job

-- The types of objects that are watched.
pub data ObjectType : Type 0 where
  shim node job : ObjectType

-- `predicate.LabelChangedPredicate`
pub data Predicate : Type 0 where
  label_changed : Predicate

-- `Watches`: the requests that a change of an object gives, and the changes that count.
pub record Watch (W : Type 0) : Type 0 where
  pub object : ObjectType
  pub requests : Action W (List NamespacedName)
  pub predicate : Predicate

-- What `Complete` gets of a builder: `For`, `Owns`, `Watches`, and the reconciler.
pub record Registration (W : Type 0) : Type 0 where
  pub for_object : ObjectType
  pub owns : List ObjectType
  pub watches : List (Watch W)
  pub reconciler : NamespacedName → Action W (Unit {0})

-- `ShimReconciler` and `JobReconciler`, by the client.
pub record ShimReconciler (W : Type 0) : Type 0 where
  pub client : Client W

pub record JobReconciler (W : Type 0) : Type 0 where
  pub client : Client W

module _ {W : Type 0} where
  -- `ShimReconciler.SetupWithManager`, as what is registered
  unfoldable pub shim_registration : ShimReconciler W → Registration W
  shim_registration sr = record {
    for_object = shim;
    owns = job ∷ [];
    watches =
        record {
          object = node;
          requests = find_shims_to_reconcile sr.client;
          predicate = label_changed;
        }
        ∷ [];
    reconciler = Reconcile.reconcile sr.client;
  }

  -- `JobReconciler.SetupWithManager`
  unfoldable pub job_registration : JobReconciler W → Registration W
  job_registration jr = record {
    for_object = job;
    owns = [];
    watches = [];
    reconciler = Job.reconcile jr.client;
  }
