-- ===== src/Containerd/Dbus.antt =====
-- internal/containerd/install_dbus.go: D-Bus, by the first package manager that is found.
use runtime_class_manager.Base.{List, [], ◌∷◌, ◌++◌, Text, txt}
use runtime_class_manager.Go.Outcome.{failure, ok, Action, pure, raise, wrap, ◌>>◌}
use runtime_class_manager.Machine.{Machine}
use runtime_class_manager.Containerd.Restart.{nsenter_cmd}

-- `pkgManager`
pub record PkgManager : Type 0 where
  pub name : Text
  pub check : List Text
  pub update : List Text
  pub install : List Text

abbrev pub managers : List PkgManager
managers =
    record {
      name = txt "apt-get";
      check = txt "which" ∷ txt "apt-get" ∷ [];
      update = txt "apt-get" ∷ txt "update" ∷ txt "--yes" ∷ [];
      install = txt "apt-get" ∷ txt "install" ∷ txt "--yes" ∷ txt "dbus" ∷ [];
    }
    ∷ record {
      name = txt "dnf";
      check = txt "which" ∷ txt "dnf" ∷ [];
      update = [];
      install = txt "dnf" ∷ txt "install" ∷ txt "--yes" ∷ txt "dbus" ∷ [];
    }
    ∷ record {
      name = txt "apk";
      check = txt "which" ∷ txt "apk" ∷ [];
      update = [];
      install = txt "apk" ∷ txt "add" ∷ txt "dbus" ∷ [];
    }
    ∷ record {
      name = txt "yum";
      check = txt "which" ∷ txt "yum" ∷ [];
      update = [];
      install = txt "yum" ∷ txt "install" ∷ txt "--yes" ∷ txt "dbus" ∷ [];
    }
    ∷ []

module _ {W : Type 0} (m : Machine W) where
  run_update : PkgManager → List Text → Action W (Unit {0})
  run_update mgr [] = pure tt
  run_update mgr (c ∷ cmd) =
      wrap (txt "failed to update package manager " ++ mgr.name) (nsenter_cmd m (c ∷ cmd))
      >> pure tt

  -- The body of the loop, for a manager whose check went well.
  use_manager : PkgManager → Action W (Unit {0})
  unfolding run_update
  use_manager mgr = do
    run_update mgr mgr.update
    wrap (txt "failed to install D-Bus with " ++ mgr.name) (nsenter_cmd m mgr.install)
    pure tt

  -- The loop over the managers.
  unfoldable pub install_with : List PkgManager → Action W (Unit {0})
  unfolding use_manager
  install_with [] w =
      raise (failure (txt "could not install D-Bus as no supported package manager found")) w
  install_with (mgr ∷ mgrs) w =
      let (checked, w') = nsenter_cmd m mgr.check w in
      elim checked [ ok _ ↦ use_manager mgr w' | _ ↦ install_with mgrs w' ]

  -- `InstallDbus`
  unfoldable pub install_dbus : Action W (Unit {0})
  unfolding install_with
  install_dbus w =
      let (started, w') =
        nsenter_cmd m (txt "systemctl" ∷ txt "start" ∷ txt "dbus" ∷ txt "--quiet" ∷ []) w in
      elim started [
        | ok _ ↦ (ok tt, w')
        | _ ↦
            (do
              install_with managers
              wrap (txt "failed to restart D-Bus")
                  (nsenter_cmd m (txt "systemctl" ∷ txt "restart" ∷ txt "dbus" ∷ []))
              pure tt)
              w'
      ]
