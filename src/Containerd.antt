-- ===== src/Containerd.antt =====
-- internal/containerd/configure.go: the runtime entries in containerd's configuration file.
pub mod Restart
pub mod Dbus
pub mod Choice
pub mod Entry
pub mod File
mod Tests
use runtime_class_manager.Base.{
  ◌≡◌, Bool, true, false, List, [], ◌∷◌, ◌++◌, Text, txt, if◌then◌else◌,
}
use runtime_class_manager.Base.Dict.{Dict}
use runtime_class_manager.Go.Strings.{includes, remove_all}
use runtime_class_manager.Go.Paths.{base}
use runtime_class_manager.Go.Outcome.{Outcome, ok, Action, pure, attempt, ◌>>=◌, ◌>>◌}
use runtime_class_manager.Machine.{Fs}
use runtime_class_manager.Shim.{runtime_name}

-- `Config`; its file system is an argument of the methods, and so is its restarter. The options are
-- in the order in which the loop over the map meets them.
pub record Config : Type 0 where
  pub config_path : Text
  pub runtime_options : Dict Text Text

abbrev newline : Text
newline = 10 ∷ []

abbrev quoted : Text → Text
quoted t = txt "\"" ++ (t ++ txt "\"")

-- The domain of the runtime plugin, by the version of the configuration file.
unfoldable pub domain : Text → Text
domain config_data =
    if includes config_data (txt "version = 3")
    then txt "io.containerd.cri.v1.runtime"
    else txt "io.containerd.grpc.v1.cri"

-- `[plugins."DOMAIN".containerd.runtimes.NAME` with what closes it
table : Text → Text → Text → Text
table d name closing =
    txt "[plugins." ++ (quoted d ++ (txt ".containerd.runtimes." ++ (name ++ closing)))

option_lines : Dict Text Text → Text
option_lines [] = []
option_lines ((k, v) ∷ options) = newline ++ (k ++ (txt " = " ++ (v ++ option_lines options)))

-- The table of the options, if there are any.
options_part : Text → Text → Dict Text Text → Text
unfolding table option_lines
options_part d name [] = []
options_part d name (o ∷ options) = table d name (txt ".options]") ++ option_lines (o ∷ options)

-- `generateConfig`
unfoldable pub generate_config : Text → Text → Dict Text Text → Text → Text
unfolding table options_part
generate_config shim_path name options config_data =
    newline
    ++ (txt "# RCM runtime config for "
        ++ (name
            ++ (newline
                ++ (table (domain config_data) name (txt "]")
                    ++ (newline
                        ++ (txt "runtime_type = "
                            ++ (quoted shim_path
                                ++ (newline
                                    ++ options_part (domain config_data) name options))))))))

-- The name that both methods take from the path of the binary.
unfoldable pub name_of : Text → Text
name_of shim_path = runtime_name (base shim_path)

module _ {W : Type 0} (fs : Fs W) (c : Config) where
  -- Appends the entry, and closes the file whether that went well or not.
  append_config : Text → Action W (Unit {0})
  append_config cfg w =
      let (appended, w') = fs.append c.config_path cfg w in
      (appended, (attempt (fs.close c.config_path) w').1)

  -- What `AddRuntime` does once the file is read.
  unfoldable pub add_entry : Text → Text → Action W (Unit {0})
  unfolding append_config
  add_entry shim_path contents = if includes contents (name_of shim_path) then pure tt else (do
    fs.open_append c.config_path
    append_config (generate_config shim_path (name_of shim_path) c.runtime_options contents))

  -- `Config.AddRuntime`
  unfoldable pub add_runtime : Text → Action W (Unit {0})
  unfolding add_entry
  add_runtime shim_path = do contents ← fs.read_file c.config_path; add_entry shim_path contents

  -- What `RemoveRuntime` does once the file is read.
  unfoldable pub remove_entry : Text → Text → Action W Bool
  remove_entry shim_path contents =
      if includes contents (name_of shim_path)
      then (do
        fs.write_file c.config_path (
            remove_all contents
              (generate_config shim_path (name_of shim_path) c.runtime_options contents))
        pure true)
      else pure false

  -- `Config.RemoveRuntime`
  unfoldable pub remove_runtime : Text → Action W Bool
  unfolding remove_entry
  remove_runtime shim_path = do
    contents ← fs.read_file c.config_path
    remove_entry shim_path contents
