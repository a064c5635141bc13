-- ===== src/Shim/Tests.antt =====
-- Removing a shim on a file system in memory.
use runtime_class_manager.Base.{◌≡◌, refl, some, [], ◌∷◌, txt, text_eq}
use runtime_class_manager.Base.Dict.{lookup, insert, erase}
use runtime_class_manager.Go.Strings.{equal_fold}
use runtime_class_manager.Go.Paths.{path_join}
use runtime_class_manager.Go.Hex.{decode}
use runtime_class_manager.Go.Outcome.{Error, ok, err}
use runtime_class_manager.Go.Json.Parse.{unmarshal}
use runtime_class_manager.Machine.Memory.{Files, memory_machine, memory_fs, memory_fs-IsLawful}
use runtime_class_manager.State.{State, get, write, lock_path, parse_shims, find_shim, remove_shim}
use runtime_class_manager.State.Entry.{Shim, read_aux, of_value}
use runtime_class_manager.Shim.{Config, uninstall}
use runtime_class_manager.Shim.Removal.{uninstall_missing}

abbrev config : Config
config = record { asset_path = txt "/assets"; rcm_path = txt "/opt/rcm" }

abbrev spin : Shim
spin = record { sha256 = 109 ∷ 165 ∷ []; path = txt "/opt/rcm/bin/spin" }

abbrev recorded : State
recorded = record {
  shims = some ((txt "spin", some spin) ∷ []);
  lock_file_path = txt "/opt/rcm/rcm-lock.json";
}

-- A host with one shim.
abbrev host : Files
host =
    (
      txt "/opt/rcm/rcm-lock.json",
      txt "{\"shims\":{\"spin\":{\"sha256\":\"6da5\",\"path\":\"/opt/rcm/bin/spin\"}}}",
    )
    ∷ (txt "/opt/rcm/bin/spin", txt "binary")
    ∷ []

loads : (get memory_fs (txt "/opt/rcm") host).0 ≡ ok recorded
unfolding get lock_path path_join parse_shims unmarshal of_value read_aux equal_fold decode lookup
    insert txt text_eq
loads = refl

removes : (uninstall memory_machine config (txt "spin") host).0 ≡ ok (txt "/opt/rcm/bin/spin")
unfolding uninstall get write lock_path path_join parse_shims unmarshal of_value read_aux equal_fold
    decode lookup insert erase find_shim remove_shim txt text_eq
removes = refl

uninstall_missing_example :
    ((e : Error) × ((uninstall memory_machine config (txt "wws") host).0 ≡ err e))
    × (lookup (txt "/opt/rcm/bin/spin") (uninstall memory_machine config (txt "wws") host).1
        ≡ lookup (txt "/opt/rcm/bin/spin") host)
unfolding memory_fs-IsLawful find_shim lookup txt text_eq
uninstall_missing_example =
    uninstall_missing memory_machine memory_fs-IsLawful config (txt "wws") host
      (txt "/opt/rcm/bin/spin") {st = recorded} loads refl
