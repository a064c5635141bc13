-- ===== src/Shim/StoreTests.antt =====
-- Installing and removing shims on a file system in memory, and what the lock file then records.
use runtime_class_manager.Base.{
  ◌<◌, ◌≡◌, ◌≢◌, refl, sym, ap, ◌∙◌, true, Option, none, some, [], ◌∷◌, Text, txt, text_eq, arith,
  All, Bool,
}
use runtime_class_manager.Base.Dict.{Dict, lookup, insert, erase}
use runtime_class_manager.Go.Strings.{equal_fold, trim_prefix}
use runtime_class_manager.Go.Paths.{path_join, dir}
use runtime_class_manager.Go.Hex.{decode, encode}
use runtime_class_manager.Go.Outcome.{is_not_exist, ok}
use runtime_class_manager.Go.Json.Parse.{unmarshal}
use runtime_class_manager.Go.Json.Print.{marshal_indent}
use runtime_class_manager.Machine.{Machine}
use runtime_class_manager.Machine.Memory.{Files, memory_machine, memory_fs, memory_fs-IsLawful}
use runtime_class_manager.State.{
  State, get, write, lock_path, parse_shims, find_shim, remove_shim, to_value, update_shim,
  shim_changed,
}
use runtime_class_manager.State.Entry.{marshal_json, Shim, read_aux, of_value}
use runtime_class_manager.State.Store.{IsCleanMap, parse_shims-marshal_indent, IsAscii, Holds}
use runtime_class_manager.State.Disk.{lock_content}
use runtime_class_manager.Shim.Recording.{IsSource, Installed}
use runtime_class_manager.Shim.Installation.{install-Installed}
use runtime_class_manager.Shim.Uninstallation.{Uninstalled, uninstall-Uninstalled}
use runtime_class_manager.Shim.Runs.{AreApart, Step, Run, Run-find_shim}
use runtime_class_manager.Shim.{
  Config, runtime_name, dst_path, copy_hashed, record_shim, install, uninstall,
}

abbrev config : Config
config = record { asset_path = txt "/assets"; rcm_path = txt "/opt/rcm" }

abbrev digest : Text
digest = 109 ∷ 165 ∷ []

-- The machine in memory, with a digest of two bytes.
abbrev machine : Machine Files
machine = record memory_machine { sha256 = λ _. digest }

-- A host without a lock file, beside the asset.
abbrev fresh : Files
fresh = (txt "/assets/containerd-shim-spin", txt "binary") ∷ []

abbrev bin : Text
bin = txt "containerd-shim-spin"

abbrev installed : Files
installed = (install machine config bin fresh).1

installs : (install machine config bin fresh).0 ≡ ok (txt "/opt/rcm/bin/containerd-shim-spin", true)
unfolding install copy_hashed record_shim get write lock_path path_join dir parse_shims unmarshal
    of_value read_aux equal_fold decode lookup insert erase find_shim shim_changed update_shim
    runtime_name dst_path txt text_eq trim_prefix is_not_exist
installs = refl

distinct_files : dst_path config bin ≢ lock_path config.rcm_path
unfolding dst_path lock_path path_join txt
distinct_files e = absurd (ground arith)

name-IsAscii : IsAscii (runtime_name bin)
unfolding runtime_name trim_prefix txt
name-IsAscii = ground arith

dst-IsAscii : IsAscii (dst_path config bin)
unfolding dst_path path_join txt
dst-IsAscii = ground arith

is_digest : (bytes : Text) → All (λ b. b < 256) (machine.sha256 bytes)
is_digest bytes = ground arith

source : IsSource machine memory_fs-IsLawful
unfolding memory_fs-IsLawful
source = record { open_read-Keeps = λ p w q. ground arith; read_all-Keeps = λ p w q. ground arith }

abbrev none_recorded : Text → Option (Option Shim)
none_recorded _ = none

fresh-Holds : Holds (lock_content memory_fs memory_fs-IsLawful config.rcm_path fresh) none_recorded
unfolding memory_fs-IsLawful lock_path path_join lookup txt text_eq
fresh-Holds = Holds.absent refl (λ _. refl)

install-Installed_example :
    (changed : Bool) × (bytes : Text) × Installed machine memory_fs-IsLawful config bin
      none_recorded fresh
      (install machine config bin fresh)
      changed
      bytes
unfolding memory_fs-IsLawful dst_path lock_path
install-Installed_example =
    install-Installed machine memory_fs-IsLawful config bin distinct_files source name-IsAscii
      dst-IsAscii is_digest none_recorded fresh fresh-Holds installs

abbrev IsBin : Text → Type 0
IsBin a = a ≡ bin

one_binary : AreApart machine memory_fs-IsLawful config IsBin
unfolding memory_fs-IsLawful
one_binary = record {
  from_lock = λ a e. rw e distinct_files;
  same_name = λ a b p q _. ap runtime_name (p ∙ sym q);
  name_ascii = λ a e. rw e name-IsAscii;
  dst_ascii = λ a e. rw e dst-IsAscii;
}

abbrev bin_entry : Shim
bin_entry = record { sha256 = digest; path = dst_path config bin }

abbrev recorded : State
recorded = record {
  shims = some ((runtime_name bin, some bin_entry) ∷ []);
  lock_file_path = lock_path config.rcm_path;
}

recorded-IsCleanMap : IsCleanMap ((runtime_name bin, some bin_entry) ∷ [])
unfolding runtime_name trim_prefix dst_path path_join lookup txt
recorded-IsCleanMap = record { entries = ground arith; distinct = (refl, tt) }

gets : (get memory_fs config.rcm_path installed).0 ≡ ok recorded
unfolding install copy_hashed record_shim get write lock_path path_join dir parse_shims unmarshal
    of_value read_aux equal_fold decode lookup insert erase find_shim shim_changed update_shim
    runtime_name dst_path txt text_eq trim_prefix is_not_exist marshal_indent to_value marshal_json
    encode
gets = refl

Run-find_shim_example :
    (bytes : Text) × (lookup (dst_path config bin) installed ≡ some bytes)
    × (machine.sha256 bytes ≡ digest)
unfolding memory_fs-IsLawful find_shim lookup text_eq lock_path path_join runtime_name trim_prefix
Run-find_shim_example =
    Run-find_shim machine memory_fs-IsLawful config IsBin one_binary source is_digest {w = fresh}
      refl (Run.next Run.start (Step.installs bin refl installs)) recorded (runtime_name bin)
      bin_entry gets refl

-- A host with one shim.
abbrev spin : Shim
spin = record { sha256 = digest; path = txt "/opt/rcm/bin/spin" }

abbrev lock_text : Text
lock_text = txt "{\"shims\":{\"spin\":{\"sha256\":\"6da5\",\"path\":\"/opt/rcm/bin/spin\"}}}"

abbrev host : Files
host = (txt "/opt/rcm/rcm-lock.json", lock_text) ∷ (txt "/opt/rcm/bin/spin", txt "binary") ∷ []

abbrev spins : Dict Text (Option Shim)
spins = (txt "spin", some spin) ∷ []

spins-IsCleanMap : IsCleanMap spins
unfolding lookup txt
spins-IsCleanMap = record { entries = ground arith; distinct = (refl, tt) }

host-Holds :
    Holds (lock_content memory_fs memory_fs-IsLawful config.rcm_path host) (λ n. lookup n spins)
unfolding memory_fs-IsLawful lock_path path_join lookup parse_shims unmarshal of_value read_aux
    equal_fold decode insert txt text_eq
host-Holds = Holds.written lock_text spins refl refl spins-IsCleanMap (λ _. refl)

uninstalls : (uninstall machine config (txt "spin") host).0 ≡ ok (txt "/opt/rcm/bin/spin")
unfolding uninstall get write lock_path path_join parse_shims unmarshal of_value read_aux equal_fold
    decode lookup insert erase find_shim remove_shim txt text_eq
uninstalls = refl

uninstall-Uninstalled_example :
    (s : Shim) × Uninstalled machine memory_fs-IsLawful config
      (txt "spin")
      (λ n. lookup n spins)
      host
      (uninstall machine config (txt "spin") host)
      s
uninstall-Uninstalled_example =
    uninstall-Uninstalled machine memory_fs-IsLawful config (txt "spin") (λ n. lookup n spins) host
      host-Holds uninstalls

parse_shims-marshal_indent_example :
    (d : Dict Text (Option Shim)) × (parse_shims (marshal_indent (to_value recorded))
      ≡ some (some d))
    × IsCleanMap d
    × ((name : Text) → lookup name d ≡ find_shim recorded name)
parse_shims-marshal_indent_example =
    parse_shims-marshal_indent recorded ((runtime_name bin, some bin_entry) ∷ []) refl
      recorded-IsCleanMap
