-- ===== src/Installer/ChoosingTests.antt =====
-- The detection on a host with one configuration, in two orders of the map.
use runtime_class_manager.Base.{
  ◌≡◌, refl, sym, ◌∙◌, Bool, true, false, Option, none, some, [], ◌∷◌, Text, txt, text_eq, arith,
  Any, ◌↔◌, inl, inr,
}
use runtime_class_manager.Base.Dict.{lookup}
use runtime_class_manager.Go.Outcome.{ok, not_exist}
use runtime_class_manager.Machine.Memory.{Files, memory_fs}
use runtime_class_manager.Preset.{Settings, rke2, k0s}
use runtime_class_manager.Installer.Detect.{Locations, detect_distro, detect_from}
use runtime_class_manager.Installer.Choosing.{Stats, Present, detect_distro-order}

abbrev is_some : Option Text → Bool
is_some none = false
is_some (some _) = true

memory_fs-Stats : Stats memory_fs
memory_fs-Stats = record {
  exists = λ w p. is_some (lookup p w);
  stat-exists = λ p w there. (record { name = p; is_dir = false }, ground arith);
  stat-missing = λ p w missing. (not_exist p, ground arith);
  stat-Keeps = λ p w q. ground arith;
}

abbrev k0s_path : Text
k0s_path = txt "/etc/k0s/containerd.toml"

abbrev rke2_path : Text
rke2_path = txt "/var/lib/rancher/rke2/agent/etc/containerd/config.toml"

abbrev host : Files
host = (k0s_path, txt "version = 2") ∷ []

abbrev locations : Locations Files
locations = (rke2_path, rke2) ∷ (k0s_path, k0s) ∷ []

abbrev swapped : Locations Files
swapped = (k0s_path, k0s) ∷ (rke2_path, rke2) ∷ []

detects : (detect_distro locations [] memory_fs host).0 ≡ ok k0s
unfolding detect_distro detect_from lookup txt text_eq
detects = refl

same :
    (d : Settings Files)
    → Any (Present memory_fs memory_fs-Stats host d) locations
      ↔ Any (Present memory_fs memory_fs-Stats host d) swapped
same d = (
  λ h. elim h [
    | inl a ↦ inr (inl a)
    | inr rest ↦ elim rest [ inl b ↦ inl b | inr none_left ↦ absurd none_left ]
  ],
  λ h. elim h [
    | inl b ↦ inr (inl b)
    | inr rest ↦ elim rest [ inl a ↦ inl a | inr none_left ↦ absurd none_left ]
  ],
)

rke2_missing : is_some (lookup rke2_path host) ≡ false
unfolding lookup txt text_eq
rke2_missing = refl

only : (d : Settings Files) → Any (Present memory_fs memory_fs-Stats host d) locations → k0s ≡ d
unfolding memory_fs-Stats
only d (inl (_, there)) = absurd (ground (arith, there, rke2_missing))
only d (inr (inl (found, _))) = found
only d (inr (inr none_left)) = absurd none_left

detect_distro-order_example : (detect_distro swapped [] memory_fs host).0 ≡ ok k0s
detect_distro-order_example =
    detect_distro-order memory_fs memory_fs-Stats locations swapped [] host k0s same
      (λ d d' p q. sym (only d p) ∙ only d' q) detects
