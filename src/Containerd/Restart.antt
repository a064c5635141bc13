-- ===== src/Containerd/Restart.antt =====
-- internal/containerd/restart_unix.go: restarting containerd, by distribution.
use runtime_class_manager.Base.{
  ℕ, true, false, none, some, List, [], ◌∷◌, ◌++◌, Text, txt, text_eq, ◌==◌,
}
use runtime_class_manager.Go.Strings.{has_prefix}
use runtime_class_manager.Go.Outcome.{
  failure, Err, Outcome, ok, err, Action, pure, raise, wrap, ◌>>=◌, ◌>>◌,
}
use runtime_class_manager.Machine.{Machine, Process}

-- The leftmost match of `first|second` in a text, or the empty text.
unfoldable pub find_either : Text → Text → Text → Text
find_either first second [] = []
find_either first second (c ∷ s) =
    let later = find_either first second s in
    elim (has_prefix (c ∷ s) first) [
      | true ↦ first
      | false ↦ elim (has_prefix (c ∷ s) second) [ true ↦ second | false ↦ later ]
    ]

-- The processes of an executable.
unfoldable pub named : Text → List Process → List Process
named executable [] = []
named executable (p ∷ ps) =
    let rest = named executable ps in
    elim (p.executable == executable) [ true ↦ p ∷ rest | false ↦ rest ]

abbrev command_result : {W A : Type 0} → (A × Err) × W → Outcome A × W
command_result ((out, none), w) = (ok out, w)
command_result ((out, some e), w) = (err e, w)

-- The restarters that the presets name.
pub data Restarter : Type 0 where
  default_restarter k0s_restarter k3s_restarter micro_k8s_restarter rke2_restarter : Restarter

module _ {W : Type 0} (m : Machine W) where
  -- The command line that `nsenterCmd` builds.
  unfoldable pub nsenter_args : List Text → List Text
  nsenter_args cmd =
      txt "nsenter"
      ∷ (txt "-m/" ++ (m.getenv (txt "HOST_ROOT") ++ txt "/proc/1/ns/mnt"))
      ∷ txt "--"
      ∷ cmd

  -- Running `nsenterCmd(cmd...)`, for its output or only for its error.
  unfoldable pub nsenter_cmd : List Text → Action W Text
  nsenter_cmd cmd w = command_result (m.exec (nsenter_args cmd) w)

  -- `ListSystemdUnits`
  unfoldable pub list_systemd_units : Action W Text
  list_systemd_units =
      nsenter_cmd (txt "systemctl" ∷ txt "list-units" ∷ txt "--type" ∷ txt "service" ∷ [])

  -- `systemctl restart SERVICE`, with the error that the restarters report.
  unfoldable pub restart_service : Text → Action W (Unit {0})
  restart_service service =
      wrap (txt "unable to restart " ++ service)
        (nsenter_cmd (txt "systemctl" ∷ txt "restart" ∷ service ∷ []))
      >> pure tt

  -- `containerdProcesses[0].Pid()`, if there is exactly one.
  unfoldable pub only_pid : List Process → Action W ℕ
  only_pid (p ∷ []) = pure p.pid
  only_pid _ = raise (failure (txt "need exactly one process"))

  -- `getPid`
  unfoldable pub get_pid : Text → Action W ℕ
  unfolding only_pid named
  get_pid executable = do
    processes ← wrap (txt "could not get processes") m.processes
    only_pid (named executable processes)

  -- With systemd, restart the service; without, send the signal that the distribution needs.
  with_systemd : Action W (Unit {0}) → Action W (Unit {0}) → Action W (Unit {0})
  with_systemd present absent w =
      let (units, w') = list_systemd_units w in elim units [ ok _ ↦ present w' | _ ↦ absent w' ]

  -- `defaultRestarter.Restart`
  unfoldable pub restart_default : Action W (Unit {0})
  unfolding with_systemd
  restart_default = with_systemd (restart_service (txt "containerd")) (do
    pid ← get_pid (txt "containerd")
    wrap (txt "failed to send SIGHUP to containerd") (m.kill pid))

  -- The mode in which the distribution runs is read off the list of units.
  restart_either : Text → Text → Action W (Unit {0})
  restart_either first second = do
    units ← wrap (txt "unable to list systemd units") list_systemd_units
    restart_service (find_either first second units)

  -- `K0sRestarter.Restart`
  unfoldable pub restart_k0s : Action W (Unit {0})
  unfolding restart_either
  restart_k0s = restart_either (txt "k0sworker") (txt "k0scontroller")

  -- `K3sRestarter.Restart`
  unfoldable pub restart_k3s : Action W (Unit {0})
  unfolding with_systemd
  restart_k3s = with_systemd (restart_service (txt "k3s")) (do
    wrap (txt "unable to restart k3s via TERM signal to PID 1")
        (nsenter_cmd (txt "kill" ∷ txt "1" ∷ []))
    pure tt)

  -- `MicroK8sRestarter.Restart`
  unfoldable pub restart_micro_k8s : Action W (Unit {0})
  restart_micro_k8s = restart_service (txt "snap.microk8s.daemon-containerd")

  -- `RKE2Restarter.Restart`
  unfoldable pub restart_rke2 : Action W (Unit {0})
  unfolding restart_either
  restart_rke2 = restart_either (txt "rke2-agent") (txt "rke2-server")

  -- `Restarter.Restart`
  unfoldable pub restart : Restarter → Action W (Unit {0})
  restart default_restarter = restart_default
  restart k0s_restarter = restart_k0s
  restart k3s_restarter = restart_k3s
  restart micro_k8s_restarter = restart_micro_k8s
  restart rke2_restarter = restart_rke2
