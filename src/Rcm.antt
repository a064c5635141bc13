-- ===== src/Rcm.antt =====
-- cmd/rcm/main.go: the start of the controller, over controller-runtime as a parameter.
pub mod Starting
mod Tests
use runtime_class_manager.Base.{ℕ, Bool, true, false, List, [], ◌∷◌, Text, txt}
use runtime_class_manager.Go.Outcome.{Error, Outcome, ok, err, panic, Action, pure, ◌>>=◌, ◌>>◌}
use runtime_class_manager.Controller.Objects.{Client}
use runtime_class_manager.Controller.Setup.{
  Registration, ShimReconciler, JobReconciler, shim_registration, job_registration,
}

-- The flags.
pub record Settings : Type 0 where
  pub metrics_addr : Text
  pub probe_addr : Text
  pub enable_leader_election : Bool

-- Their defaults
abbrev pub default_settings : Settings
default_settings = record {
  metrics_addr = txt ":8080";
  probe_addr = txt ":8082";
  enable_leader_election = false;
}

-- `ctrl.Options`, without the scheme.
pub record Options : Type 0 where
  pub metrics_bind_address : Text
  pub health_probe_bind_address : Text
  pub leader_election : Bool
  pub leader_election_id : Text

unfoldable pub options_of : Settings → Options
options_of s = record {
  metrics_bind_address = s.metrics_addr;
  health_probe_bind_address = s.probe_addr;
  leader_election = s.enable_leader_election;
  leader_election_id = txt "7584d300.spinkube.dev";
}

-- The schemes that `init` adds.
pub data Scheme : Type 0 where
  client_go v1alpha1 : Scheme

-- The calls of client-go and controller-runtime that the program makes; `M` are the managers.
pub record Runtime (W M : Type 0) : Type 0 where
  pub add_to_scheme : Scheme → Action W (Unit {0})
  -- `flag.Parse`, on the arguments of the process
  pub parse : Settings → Outcome Settings
  -- `ctrl.GetConfigOrDie` and `ctrl.NewManager`
  pub new_manager : Options → Action W M
  pub get_client : M → Client W
  -- `ctrl.NewControllerManagedBy(mgr)` with `Complete`
  pub complete : M → Registration W → Action W (Unit {0})
  pub add_healthz_check : M → Text → Action W (Unit {0})
  pub add_readyz_check : M → Text → Action W (Unit {0})
  -- until the process is told to stop
  pub start : M → Action W (Unit {0})

-- How the process ends.
pub data Status : Type 0 where
  returned : Status
  exit : ℕ → Status

-- `utilruntime.Must(m)`
unfoldable pub must : {W : Type 0} → Action W (Unit {0}) → Action W (Unit {0})
must m w =
    let (r, w') = m w in
    elim r [ ok a ↦ (ok a, w') | err e ↦ (panic (txt "Must"), w') | panic t ↦ (panic t, w') ]

-- `if err := m; err != nil { …; os.Exit(code) }`
unfoldable pub or_exit : {W A : Type 0} → ℕ → Action W A → (A → Action W Status) → Action W Status
or_exit code m f w =
    let (r, w') = m w in
    elim r [ ok a ↦ f a w' | err e ↦ (ok (exit code), w') | panic t ↦ (panic t, w') ]

module _ {W M : Type 0} (rt : Runtime W M) where
  -- `init`
  unfoldable pub init : Action W (Unit {0})
  init = must (rt.add_to_scheme client_go) >> must (rt.add_to_scheme v1alpha1)

  unfoldable pub start_manager : M → Action W Status
  start_manager m = or_exit 1 (rt.start m) (λ _. pure returned)

  unfoldable pub add_readiness : M → Action W Status
  add_readiness m = or_exit 1 (rt.add_readyz_check m (txt "readyz")) (λ _. start_manager m)

  unfoldable pub add_health : M → Action W Status
  add_health m = or_exit 1 (rt.add_healthz_check m (txt "healthz")) (λ _. add_readiness m)

  unfoldable pub set_up_jobs : M → Action W Status
  set_up_jobs m =
      or_exit 1 (rt.complete m (job_registration (record { client = rt.get_client m })))
        (λ _. add_health m)

  -- `main` behind the manager's creation: the reconcilers, the checks, and the start.
  unfoldable pub run_manager : M → Action W Status
  run_manager m =
      or_exit 1 (rt.complete m (shim_registration (record { client = rt.get_client m })))
        (λ _. set_up_jobs m)

  -- `main`; `flag.Parse` itself ends the process on a flag that it does not know.
  unfoldable pub main : Action W Status
  main w = elim (rt.parse default_settings) [
    | ok settings ↦ or_exit 1 (rt.new_manager (options_of settings)) run_manager w
    | err e ↦ (ok (exit 2), w)
    | panic t ↦ (panic t, w)
  ]

  -- The process.
  unfoldable pub program : Action W Status
  program = init >> main
