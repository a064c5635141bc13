-- ===== src/Installer/Tests.antt =====
-- The flags of the node installer, with an environment that sets the path of the lock file.
use runtime_class_manager.Base.{
  ◌≡◌, refl, Bool, List, true, false, none, some, [], ◌∷◌, Text, txt, text_eq, Option,
}
use runtime_class_manager.Base.Dict.{Dict, lookup, insert}
use runtime_class_manager.Go.Outcome.{ok, is_not_exist, not_exist}
use runtime_class_manager.Installer.Binding.{
  Flag, FlagSet, Viper, config_name, located, with_env, initialize_config, bind_each, bind_flag,
  bind_flags,
}
use runtime_class_manager.Installer.Process.{install_cmd, Cobra}
use runtime_class_manager.Machine.{Machine}
use runtime_class_manager.Machine.Memory.{Files, memory_machine}

abbrev Flags : Type 0
Flags = Dict Text Flag

abbrev or_unset : Option Flag → Flag
or_unset none = record { value = []; changed = false }
or_unset (some f) = f

abbrev names_of : Flags → List Text
names_of [] = []
names_of ((n, f) ∷ fs) = n ∷ names_of fs

-- Flags in memory.
abbrev memory_flags : FlagSet Flags
memory_flags = record {
  names = names_of;
  flag = λ n s. or_unset (lookup n s);
  set = λ n t s. (none, insert n (record { value = t; changed = true }) s);
}

abbrev is_known : Option Text → Bool
is_known none = false
is_known (some _) = true

abbrev or_empty : Option Text → Text
or_empty none = []
or_empty (some t) = t

-- An environment in memory, and no configuration file.
abbrev memory_viper : Viper (Dict Text Text)
memory_viper = record {
  empty = [];
  set_config_name = λ _ v. v;
  add_config_path = λ _ v. v;
  read_in_config = λ v. (some (not_exist (txt "rcm")), v);
  is_config_file_not_found = is_not_exist;
  set_env_prefix = λ _ v. v;
  set_env_key_replacer = λ _ _ v. v;
  automatic_env = λ v. insert (txt "rcm_path") (txt "/var/rcm") v;
  is_set = λ v k. is_known (lookup k v);
  get = λ v k. or_empty (lookup k v);
}

abbrev defaults : Flags
defaults =
    (txt "host-root", record { value = txt "/"; changed = false })
    ∷ (txt "rcm-path", record { value = txt "/opt/rcm"; changed = false })
    ∷ []

binds :
    memory_flags.flag (txt "rcm-path") (initialize_config memory_viper memory_flags defaults).1
    ≡ record { value = txt "/var/rcm"; changed = true }
unfolding initialize_config located with_env bind_flags bind_each bind_flag config_name lookup
    insert txt text_eq is_not_exist
binds = refl

-- `rcm-node-installer install`, with no flags.
abbrev cobra : Cobra Flags
cobra = record { parse = λ s. (ok (some install_cmd), s); flags = λ c. memory_flags }

abbrev machine_at : Text → Machine Files
machine_at root = memory_machine
