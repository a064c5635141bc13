-- ===== src/Preset.antt =====
-- internal/preset: the settings of the supported distributions.
pub mod Setup
mod Tests
use runtime_class_manager.Base.{true, false, none, some, Text, txt}
use runtime_class_manager.Go.Strings.{cut_suffix}
use runtime_class_manager.Go.Outcome.{
  is_not_exist, Err, ok, err, panic, Action, pure, attempt, ◌>>◌,
}
use runtime_class_manager.Machine.{Fs}
use runtime_class_manager.Containerd.Restart.{
  Restarter, default_restarter, k0s_restarter, k3s_restarter, micro_k8s_restarter, rke2_restarter,
}
use runtime_class_manager.Shim.{first_error}

-- `Settings`; a setup takes the host file system and the path of the configuration, which are `Env`.
pub record Settings (W : Type 0) : Type 0 where
  pub config_path : Text
  pub setup : Fs W → Text → Action W (Unit {0})
  pub restarter : Restarter

module _ {W : Type 0} where
  -- Goes on with `create` only where the file does not exist.
  unless_exists : Fs W → Text → Action W (Unit {0}) → Action W (Unit {0})
  unless_exists fs p create w =
      let (r, w') = fs.stat p w in
      elim r [
        | ok _ ↦ (ok tt, w')
        | err e ↦ elim (is_not_exist e) [ true ↦ create w' | false ↦ (err e, w') ]
        | panic t ↦ (panic t, w')
      ]

  -- `io.Copy(out, in)`
  copy : Fs W → Text → Text → W → Err × W
  copy fs src dst w =
      let ((bytes, read_error), w') = fs.read_all src w in
      let ((_, write_error), w'') = fs.write_all dst bytes w' in
      (first_error write_error read_error, w'')

  -- `out.Sync()`, after a copy that went well. Its error is dropped, as `return nil` follows.
  finish_copy : Fs W → Text → Err → Action W (Unit {0})
  finish_copy fs p (some e) w = (err e, w)
  finish_copy fs p none w = (ok tt, (attempt (fs.sync p) w).1)

  -- Copies the base configuration into the file and runs the deferred calls of `Close`.
  copy_into : Fs W → Text → Text → Action W (Unit {0})
  unfolding copy finish_copy
  copy_into fs src p w =
      let (copied, w') = copy fs src p w in
      let (r, w'') = finish_copy fs p copied w' in
      let (_, w3) = attempt (fs.close p) w'' in (r, (attempt (fs.close src) w3).1)

  -- Opens the target, and closes the source if that fails.
  create_from : Fs W → Text → Text → Action W (Unit {0})
  unfolding copy_into
  create_from fs src p w =
      let (created, w') = fs.open_trunc p w in
      elim created [
        | ok _ ↦ copy_into fs src p w'
        | err e ↦ (err e, (attempt (fs.close src) w').1)
        | panic t ↦ (panic t, w')
      ]

  -- The setup of RKE2 and K3s: the template starts as a copy of the base configuration.
  unfoldable pub rke2_setup : Fs W → Text → Action W (Unit {0})
  unfolding unless_exists create_from
  rke2_setup fs config_path = unless_exists fs config_path (do
    let src = cut_suffix config_path (txt ".tmpl")
    fs.open_read src
    create_from fs src config_path)

  -- The setup of K0s: the file starts empty.
  unfoldable pub k0s_setup : Fs W → Text → Action W (Unit {0})
  unfolding unless_exists
  k0s_setup fs config_path = unless_exists fs config_path (fs.open_trunc config_path)

  -- `Default`
  abbrev pub default_settings : Settings W
  default_settings = record {
    config_path = txt "/etc/containerd/config.toml";
    setup = λ _ _. pure tt;
    restarter = default_restarter;
  }

  -- `Settings.WithConfigPath`
  abbrev pub with_config_path : Settings W → Text → Settings W
  with_config_path s p = record s { config_path = p }

  -- `Settings.WithSetup`
  abbrev pub with_setup : Settings W → (Fs W → Text → Action W (Unit {0})) → Settings W
  with_setup s f = record s { setup = f }

  -- `Settings.WithRestarter`
  abbrev pub with_restarter : Settings W → Restarter → Settings W
  with_restarter s r = record s { restarter = r }

  -- `MicroK8s`
  abbrev pub micro_k8s : Settings W
  micro_k8s =
      with_restarter
        (with_config_path default_settings
          (txt "/var/snap/microk8s/current/args/containerd-template.toml"))
        micro_k8s_restarter

  -- `RKE2`
  abbrev pub rke2 : Settings W
  rke2 =
      with_setup
        (with_restarter
          (with_config_path default_settings
            (txt "/var/lib/rancher/rke2/agent/etc/containerd/config.toml.tmpl"))
          rke2_restarter)
        rke2_setup

  -- `K3s`
  abbrev pub k3s : Settings W
  k3s =
      with_restarter
        (with_config_path rke2 (txt "/var/lib/rancher/k3s/agent/etc/containerd/config.toml.tmpl"))
        k3s_restarter

  -- `K0s`
  abbrev pub k0s : Settings W
  k0s =
      with_setup
        (with_restarter
          (with_config_path default_settings (txt "/etc/k0s/containerd.d/config.toml"))
          k0s_restarter)
        k0s_setup
