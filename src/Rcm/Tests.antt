-- ===== src/Rcm/Tests.antt =====
-- A start of the controller that goes through, on a runtime in memory.
use runtime_class_manager.Base.{◌≡◌, refl, [], txt, true}
use runtime_class_manager.Go.Outcome.{ok, err, pure, raise, failure, Action}
use runtime_class_manager.Controller.Objects.{Client}
use runtime_class_manager.Rcm.{
  Settings, Runtime, exit, default_settings, or_exit, init, must, start_manager, add_readiness,
  add_health, set_up_jobs, run_manager, main, program,
}

abbrev leading : Settings
leading = record default_settings { enable_leader_election = true }

-- An API server that is never asked.
abbrev unasked : {W A : Type 0} → Action W A
unasked = raise (failure (txt "unasked"))

abbrev client : {W : Type 0} → Client W
client = record {
  get_shim = λ k. unasked;
  list_shims = unasked;
  update_shim = λ s. unasked;
  get_node = λ n. unasked;
  list_nodes = λ s. unasked;
  update_node = λ n. unasked;
  get_job = λ k. unasked;
  patch_job = λ j. unasked;
  get_runtime_class = λ k. unasked;
  patch_runtime_class = λ rc. unasked;
  controller_reference = λ s. err (failure (txt "unasked"));
  getenv = λ name. [];
}

-- The process is started with `-leader-elect`; the manager runs until it is told to stop.
abbrev runtime : Runtime (Unit {0}) (Unit {0})
runtime = record {
  add_to_scheme = λ s. pure tt;
  parse = λ d. ok (record d { enable_leader_election = true });
  new_manager = λ o. pure tt;
  get_client = λ m. client;
  complete = λ m r. pure tt;
  add_healthz_check = λ m t. pure tt;
  add_readyz_check = λ m t. pure tt;
  start = λ m. pure tt;
}

-- A port that is taken: the manager does not start.
starts_badly :
    (program (record runtime { start = λ m. raise (failure (txt "address in use")) }) tt).0
    ≡ ok (exit 1)
unfolding program init must main run_manager set_up_jobs add_health add_readiness start_manager
    or_exit
starts_badly = refl
