-- ===== src/Installer/RefinementTests.antt =====
-- An installation of two shims on a host in memory with a containerd configuration.
use runtime_class_manager.Base.{◌≡◌, ◌⊎◌, true, none, List, [], ◌∷◌, Text, txt}
use runtime_class_manager.Go.Outcome.{pure, Action}
use runtime_class_manager.Machine.{Machine, FileInfo}
use runtime_class_manager.Machine.Memory.{Files, memory_machine, memory_fs, memory_fs-IsLawful}
use runtime_class_manager.Shim.{dst_path}
use runtime_class_manager.Shim.Runs.{AreApart}
use runtime_class_manager.Installer.Flags.{Config, default_config, shim_config}
use runtime_class_manager.Installer.Hosting.{Find}

abbrev digest : Text
digest = 109 ∷ 165 ∷ []

abbrev spin : Text
spin = txt "containerd-shim-spin"

abbrev wws : Text
wws = txt "containerd-shim-wws"

abbrev files : List FileInfo
files = record { name = spin; is_dir = true } ∷ record { name = wws; is_dir = true } ∷ []

-- The machine in memory, where every path is a directory of these files.
abbrev machine : Machine Files
machine = record memory_machine {
  root_fs = record memory_fs {
    stat = λ p. pure (record { name = p; is_dir = true });
    read_dir = λ p. pure files;
  };
  sha256 = λ _. digest;
}

abbrev config : Config
config = record default_config { config_path = txt "/etc/config.toml" }

abbrev old : Text
old = txt "version = 2\n"

abbrev host : Files
host =
    (txt "/assets/containerd-shim-spin", txt "binary")
    ∷ (txt "/assets/containerd-shim-wws", txt "another")
    ∷ (txt "/etc/config.toml", old)
    ∷ []

abbrev IsShim : Text → Type 0
IsShim a = (a ≡ spin) ⊎ (a ≡ wws)

abbrev Shims : Type 0
Shims = AreApart machine memory_fs-IsLawful (shim_config config (txt "/assets")) IsShim

abbrev dst : Text → Text
dst a = dst_path (shim_config config (txt "/assets")) a

abbrev none_recorded : Find
none_recorded _ = none

abbrev restarter : Action Files (Unit {0})
restarter = pure tt
