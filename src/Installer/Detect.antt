-- ===== src/Installer/Detect.antt =====
-- cmd/node-installer/detect.go: which distribution runs on the host.
use runtime_class_manager.Base.{
  true, false, none, some, List, [], ◌∷◌, ◌++◌, Text, txt, text_eq, ◌==◌,
}
use runtime_class_manager.Base.Dict.{Dict, lookup}
use runtime_class_manager.Go.Outcome.{failure, wrapped, Err, join, ok, err, panic, Action, pure}
use runtime_class_manager.Machine.{Fs}
use runtime_class_manager.Preset.{
  Settings, default_settings, with_config_path, micro_k8s, rke2, k3s, k0s,
}

abbrev pub default_containerd_config_location : Text
default_containerd_config_location = txt "/etc/containerd/config.toml"

abbrev pub Locations : Type 0 → Type 0
Locations W = Dict Text (Settings W)

module _ {W : Type 0} where
  abbrev pub containerd_config_locations : Locations W
  containerd_config_locations =
      (txt "/var/snap/microk8s/current/args/containerd-template.toml", micro_k8s)
      ∷ (txt "/var/lib/rancher/rke2/agent/etc/containerd/config.toml", rke2)
      ∷ (txt "/var/lib/rancher/k3s/agent/etc/containerd/config.toml", k3s)
      ∷ (txt "/etc/k0s/containerd.toml", k0s)
      ∷ []

  -- A configuration path that was set explicitly.
  unfoldable pub explicit_distro : Text → Settings W
  explicit_distro config_path = elim (lookup config_path containerd_config_locations) [
    | some distro ↦ distro
    | none ↦ with_config_path default_settings config_path
  ]

  -- Nothing was found: the error joins those of every location.
  unfoldable pub undetected : List Err → Action W (Settings W)
  undetected errs w = elim (join errs) [
    | some e ↦ (err (wrapped (txt "failed to detect containerd config path") e), w)
    | none ↦ (err (failure (txt "failed to detect containerd config path")), w)
  ]

  -- The default location, which is checked last.
  unfoldable pub detect_default : Fs W → List Err → Action W (Settings W)
  unfolding undetected
  detect_default fs errs w =
      let (r, w') = fs.stat default_containerd_config_location w in
      elim r [
        | ok _ ↦ (ok default_settings, w')
        | err e ↦ undetected (errs ++ (some e ∷ [])) w'
        | panic t ↦ (panic t, w')
      ]

  -- The loop over the locations, in the order in which the map gives them.
  unfoldable pub detect_from : Fs W → Locations W → List Err → Action W (Settings W)
  unfolding detect_default
  detect_from fs [] errs w = detect_default fs errs w
  detect_from fs ((loc, distro) ∷ locations) errs w =
      let (r, w') = fs.stat loc w in
      elim r [
        | ok _ ↦ (ok distro, w')
        | err e ↦ detect_from fs locations (errs ++ (some e ∷ [])) w'
        | panic t ↦ (panic t, w')
      ]

  -- `DetectDistro`
  unfoldable pub detect_distro : Locations W → Text → Fs W → Action W (Settings W)
  unfolding explicit_distro detect_from
  detect_distro locations config_path fs = elim (config_path == []) [
    | true ↦ detect_from fs locations []
    | false ↦ pure (explicit_distro config_path)
  ]
