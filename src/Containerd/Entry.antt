-- ===== src/Containerd/Entry.antt =====
-- The text of a runtime entry: what `generateConfig` writes can be found and removed again.
use runtime_class_manager.Base.{
  ◌≡◌, sym, ap, true, false, ◌∷◌, ◌++◌, append_assoc, Text, txt, arith, All-append,
}
use runtime_class_manager.Base.Dict.{Dict}
use runtime_class_manager.Go.Strings.{includes, remove_all}
use runtime_class_manager.Go.Strings.Laws.{
  Lacks, includes-append_right, includes-append_left, includes-newline, includes-cons,
  includes_refl, includes_suffix, remove_all-append,
}
use runtime_class_manager.Containerd.{generate_config, domain, quoted, newline, table, options_part}

abbrev heading : Text
heading = txt "# RCM runtime config for "

-- The entry behind its first line.
below : Text → Text → Dict Text Text → Text → Text
unfolding table options_part
below shim_path name options d =
    newline
    ++ (table d name (txt "]")
        ++ (newline
            ++ (txt "runtime_type = "
                ++ (quoted shim_path ++ (newline ++ options_part d name options)))))

generate_config_lem :
    (shim_path name : Text) (options : Dict Text Text) (config_data : Text)
    → generate_config shim_path name options config_data
      ≡ 10 ∷ ((heading ++ name) ++ below shim_path name options (domain config_data))
unfolding generate_config below
generate_config_lem shim_path name options config_data =
    ap (λ t. 10 ∷ t)
      (sym (append_assoc heading name (below shim_path name options (domain config_data))))

-- An entry names its runtime.
pub includes-generate_config :
    (shim_path name : Text) (options : Dict Text Text) (config_data : Text)
    → includes (generate_config shim_path name options config_data) name ≡ true
includes-generate_config shim_path name options config_data = rw generate_config_lem (
    includes-append_left ((10 ∷ heading) ++ name) _ name
      (includes-append_right (10 ∷ heading) name name (includes_refl name)))

heading-Lacks : Lacks 10 heading
unfolding txt
heading-Lacks = omega arith

version-Lacks : Lacks 10 (txt "version = 3")
unfolding txt
version-Lacks = omega arith

-- Appending an entry that does not speak of the version leaves the domain as it was.
domain-append :
    (config_data s : Text)
    → includes (10 ∷ s) (txt "version = 3") ≡ false
    → domain (config_data ++ (10 ∷ s)) ≡ domain config_data
unfolding domain txt
domain-append config_data s h = ground (
  arith,
  includes-newline config_data s (txt "ersion = 3") b'v' version-Lacks,
  includes-cons 10 s (txt "version = 3") h,
)

-- The entry that `AddRuntime` appends is the one that `RemoveRuntime` takes out.
pub remove_all-generate_config :
    (shim_path name : Text) (options : Dict Text Text) (config_data : Text)
    → Lacks 10 name
    → includes config_data name ≡ false
    → includes (generate_config shim_path name options config_data) (txt "version = 3") ≡ false
    → let after = config_data ++ generate_config shim_path name options config_data in
      remove_all after (generate_config shim_path name options after) ≡ config_data
remove_all-generate_config shim_path name options config_data l fresh plain =
    let d : Text = domain config_data in
    let tail : Text = (heading ++ name) ++ below shim_path name options d in
    let shape = generate_config_lem shim_path name options config_data in
    rw
      (
        shape,
        generate_config_lem shim_path name options (config_data ++ (10 ∷ tail)),
        domain-append config_data tail (rw shape at plain),
      )
      (remove_all-append config_data (heading ++ name) (below shim_path name options d)
        (All-append _ heading name heading-Lacks l)
        (ground (arith, includes_suffix config_data heading name)))
