-- ===== src/Preset/Tests.antt =====
-- The setup of RKE2 on files in memory.
use runtime_class_manager.Base.{◌≡◌, ◌≢◌, ◌⊎◌, refl, none, some, [], ◌∷◌, Text, txt, text_eq, arith}
use runtime_class_manager.Base.Dict.{lookup, insert}
use runtime_class_manager.Go.Strings.{cut_suffix}
use runtime_class_manager.Shim.{first_error}
use runtime_class_manager.Go.Outcome.{is_not_exist, ok}
use runtime_class_manager.Machine.{FileInfo}
use runtime_class_manager.Machine.Memory.{Files, memory_fs, memory_fs-IsLawful}
use runtime_class_manager.Preset.{rke2_setup}
use runtime_class_manager.Preset.Setup.{Reads, Copied, rke2_setup-content}

memory_fs-Reads : Reads memory_fs memory_fs-IsLawful
unfolding memory_fs-IsLawful
memory_fs-Reads = record {
  open_read-Keeps = λ p w q. ground arith;
  sync-Keeps = λ p w q. refl;
  read_all-Keeps = λ p w q. ground arith;
  content-read_all = λ p b w h. ground arith;
  stat-missing = λ p e w h n. ground arith;
}

-- A host with the base configuration of containerd and no template.
abbrev host : Files
host = (txt "/etc/config.toml", txt "version = 2") ∷ []

abbrev template : Text
template = txt "/etc/config.toml.tmpl"

-- The template becomes a copy of the base configuration.
template_copied : lookup template (rke2_setup memory_fs template host).1 ≡ some (txt "version = 2")
unfolding rke2_setup lookup insert text_eq txt is_not_exist cut_suffix first_error
template_copied = refl

-- A second setup finds it, and leaves it.
template_found :
    (rke2_setup memory_fs template ((template, txt "version = 3") ∷ host)).1
    ≡ ((template, txt "version = 3") ∷ host)
unfolding rke2_setup lookup text_eq txt
template_found = refl

apart : cut_suffix template (txt ".tmpl") ≢ template
unfolding cut_suffix txt
apart e = absurd (ground arith)

rke2_setup-content_example :
    ((info : FileInfo) × ((memory_fs.stat template host).0 ≡ ok info)
      × ((q : Text) → lookup q (rke2_setup memory_fs template host).1 ≡ lookup q host))
    ⊎ ((lookup template host ≡ none)
        × Copied memory_fs-IsLawful
            (txt "/etc/config.toml")
            template
            host
            (rke2_setup memory_fs template host).1)
unfolding rke2_setup memory_fs-IsLawful lookup insert text_eq txt is_not_exist cut_suffix
    first_error
rke2_setup-content_example =
    rke2_setup-content memory_fs memory_fs-IsLawful memory_fs-Reads template host apart refl
