-- ===== src/Containerd/Tests.antt =====
-- The runtime entries on a file system in memory.
use runtime_class_manager.Base.{
  none, ◌≡◌, refl, ◌↔◌, List, true, [], ◌∷◌, ◌++◌, Text, txt, text_eq, arith,
}
use runtime_class_manager.Go.Outcome.{ok, pure}
use runtime_class_manager.Machine.Memory.{memory_machine}
use runtime_class_manager.Containerd.Choice.{Restarts, restart-Restarts, OnlyProcess, get_pid_iff}
use runtime_class_manager.Containerd.Restart.{
  get_pid, list_systemd_units, nsenter_cmd, restart, k0s_restarter, rke2_restarter,
}
use runtime_class_manager.Machine.{Machine, Process}
use runtime_class_manager.Base.Dict.{lookup, insert}
use runtime_class_manager.Go.Strings.{trim_prefix, includes, remove_all}
use runtime_class_manager.Go.Paths.{base}
use runtime_class_manager.Machine.Memory.{Files, memory_fs, memory_fs-IsLawful}
use runtime_class_manager.Shim.{runtime_name}
use runtime_class_manager.Containerd.{
  Config, domain, generate_config, name_of, add_runtime, remove_runtime,
}
use runtime_class_manager.Containerd.File.{
  entry, add_runtime-add_runtime, remove_runtime-add_runtime, remove_runtime_other_entry,
}

abbrev config : Config
config = record {
  config_path = txt "/c";
  runtime_options = (txt "a", txt "1") ∷ (txt "b", txt "2") ∷ [];
}

abbrev swapped : Config
swapped = record {
  config_path = txt "/c";
  runtime_options = (txt "b", txt "2") ∷ (txt "a", txt "1") ∷ [];
}

abbrev binary : Text
binary = txt "/opt/rcm/bin/containerd-shim-spin-v1"

abbrev old : Text
old = txt "version = 2\n"

abbrev files : Files
files = (txt "/c", old) ∷ []

-- The example of the tests of this package.
generated :
    generate_config (txt "/assets/foobar") (txt "foobar") [] (txt "version = 3")
    ≡ txt
        "\n# RCM runtime config for foobar\n[plugins.\"io.containerd.cri.v1.runtime\".containerd.runtimes.foobar]\nruntime_type = \"/assets/foobar\"\n"
unfolding generate_config domain txt includes
generated = refl

names_binary : name_of binary ≡ txt "spin-v1"
unfolding name_of runtime_name trim_prefix base txt
names_binary = refl

abbrev after_one : Files
after_one = (add_runtime memory_fs config binary files).1

add_runtime-add_runtime_example :
    lookup (txt "/c") (add_runtime memory_fs config binary after_one).1
    ≡ lookup (txt "/c") after_one
unfolding add_runtime memory_fs-IsLawful name_of runtime_name trim_prefix base domain
    generate_config includes txt text_eq lookup insert
add_runtime-add_runtime_example =
    add_runtime-add_runtime memory_fs memory_fs-IsLawful config binary old files (txt "/c") refl
      refl refl

remove_runtime-add_runtime_example :
    (true ≡ true)
    × (lookup (txt "/c") (remove_runtime memory_fs config binary after_one).1
        ≡ lookup (txt "/c") files)
unfolding add_runtime remove_runtime memory_fs-IsLawful name_of runtime_name trim_prefix base domain
    generate_config includes remove_all txt text_eq lookup insert
remove_runtime-add_runtime_example =
    remove_runtime-add_runtime memory_fs memory_fs-IsLawful config binary old files (txt "/c") refl
      refl {changed = true} refl (omega arith) refl refl

abbrev with_swapped : Files
with_swapped = (txt "/c", old ++ entry swapped binary old) ∷ []

remove_runtime_other_entry_example :
    (true ≡ true)
    × (lookup (txt "/c") (remove_runtime memory_fs config binary with_swapped).1
        ≡ lookup (txt "/c") with_swapped)
unfolding remove_runtime memory_fs-IsLawful name_of runtime_name trim_prefix base domain
    generate_config includes remove_all txt text_eq lookup insert
remove_runtime_other_entry_example =
    remove_runtime_other_entry memory_fs memory_fs-IsLawful config binary
      (old ++ entry swapped binary old) with_swapped (txt "/c") {changed = true} refl refl refl refl

-- Systemd runs neither the worker nor the controller of K0s, but the agent of RKE2.
abbrev systemd_machine : Machine Files
systemd_machine = record memory_machine { exec = λ cmd w. ((txt "rke2-agent.service", none), w) }

restart-Restarts_example :
    Restarts systemd_machine
      (txt "k0sworker")
      (txt "k0scontroller")
      (txt "rke2-agent.service")
      []
      (restart systemd_machine k0s_restarter [])
    × Restarts systemd_machine
        (txt "rke2-agent")
        (txt "rke2-server")
        (txt "rke2-agent.service")
        []
        (restart systemd_machine rke2_restarter [])
unfolding list_systemd_units nsenter_cmd
restart-Restarts_example =
    restart-Restarts systemd_machine [] {units = txt "rke2-agent.service"} refl

abbrev two_processes : List Process
two_processes =
    record { executable = txt "systemd"; pid = 1 }
    ∷ record { executable = txt "containerd"; pid = 42 }
    ∷ []

abbrev busy_machine : Machine Files
busy_machine = record memory_machine { processes = pure two_processes }

get_pid_iff_example :
    ((get_pid busy_machine (txt "containerd") []).0 ≡ ok 42)
    ↔ ((p : Process) × OnlyProcess (txt "containerd") two_processes p × (p.pid ≡ 42))
get_pid_iff_example = get_pid_iff busy_machine (txt "containerd") [] two_processes 42 refl
