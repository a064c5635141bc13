-- ===== src/Installer/Refinement.antt =====
-- `RunInstall` as a whole: the assets, the files, and the restart.
use runtime_class_manager.Base.{◌<◌, ◌≡◌, ◌⊎◌, Bool, true, false, List, Text, txt, text_eq, All}
use runtime_class_manager.Go.Outcome.{Outcome, ok, Action, wrap, ◌>>◌}
use runtime_class_manager.Machine.{Machine, FileInfo}
use runtime_class_manager.Machine.Laws.{IsLawful, Keeps}
use runtime_class_manager.Shim.Recording.{IsSource}
use runtime_class_manager.Shim.Runs.{AreApart}
use runtime_class_manager.Installer.{ensure_dbus}
use runtime_class_manager.Installer.Flags.{Config, containerd_config, shim_config}
use runtime_class_manager.Installer.Hosting.{Find, IsHost, IsApartFile}
use runtime_class_manager.Installer.Running.{Ran}

-- Looking at the assets changes no file of the host.
pub record IsCatalog {W : Type 0} (m : Machine W) (L : IsLawful m.host_fs) : Type 0 where
  pub stat-Keeps : (p : Text) → Keeps L.content (m.root_fs.stat p)
  pub read_dir-Keeps : (p : Text) → Keeps L.content (m.root_fs.read_dir p)

module _ {W : Type 0} (m : Machine W) (L : IsLawful m.host_fs) where
  module _ (config : Config) (IsBinary : Text → Type 0) (files : List FileInfo) (asset_path : Text)
      (apart : AreApart m L (shim_config config asset_path) IsBinary)
      (alone : IsApartFile m L (shim_config config asset_path) (containerd_config config) IsBinary)
      (source : IsSource m L) (catalog : IsCatalog m L)
      (digest : (bytes : Text) → All (λ b. b < 256) (m.sha256 bytes)) where
    abbrev Host : Find → Text → W → Type 0
    Host = IsHost m L (shim_config config asset_path) (containerd_config config) IsBinary

    -- What a run of the installer leaves behind: all files, and a restart exactly if there is news.
    pub record Completed (find : Find) (old : Text) (before : W) (restarter : Action W (Unit {0}))
        (r : Outcome (Unit {0}) × W) : Type 0 where
      pub changed : Bool
      pub after : W
      pub ran :
          Ran m L
            (shim_config config asset_path)
            (containerd_config config)
            IsBinary
            files
            find
            old
            before
            after
            false
            changed
      pub restarted :
          ((changed ≡ false) × (r ≡ (ok tt, after)))
          ⊎ ((changed ≡ true)
              × (r ≡ (ensure_dbus m >> wrap (txt "failed to restart containerd") restarter) after))
