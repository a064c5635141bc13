-- ===== src/State/Tests.antt =====
-- The lock file state on small states, and the lock file of the Go tests.
use runtime_class_manager.Base.{
  ◌≡◌, refl, ◌↔◌, false, not, ◌||◌, some, [], ◌∷◌, txt, text_eq, ◌==◌, if◌then◌else◌,
}
use runtime_class_manager.Base.Dict.{insert}
use runtime_class_manager.Go.Outcome.{ok}
use runtime_class_manager.Go.Json.Print.{marshal}
use runtime_class_manager.Go.Json.Parse.{unmarshal}
use runtime_class_manager.Go.Hex.{encode, decode}
use runtime_class_manager.Go.Strings.{equal_fold}
use runtime_class_manager.State.{State, find_shim, shim_changed, update_shim, parse_shims}
use runtime_class_manager.State.Entry.{Shim, of_value, marshal_json, read_aux}
use runtime_class_manager.State.Laws.{shim_changed_iff, shim_changed-update_shim}

abbrev spin : Shim
spin = record { sha256 = 109 ∷ 165 ∷ []; path = txt "/opt/rcm/bin/containerd-shim-spin-v1" }

abbrev empty_state : State
empty_state = record { shims = some []; lock_file_path = txt "/opt/rcm/rcm-lock.json" }

abbrev state : State
state = record empty_state { shims = some ((txt "spin-v1", some spin) ∷ []) }

marshal_default :
    marshal (marshal_json spin)
    ≡ txt "{\"sha256\":\"6da5\",\"path\":\"/opt/rcm/bin/containerd-shim-spin-v1\"}"
unfolding marshal marshal_json encode txt
marshal_default = refl

read_lock :
    parse_shims (
      txt
        "{ \"shims\": {\"spin-v1\": {\"sha256\":\"6da5\", \"path\":\"/opt/rcm/bin/containerd-shim-spin-v1\"}} }")
    ≡ some state.shims
unfolding parse_shims unmarshal of_value read_aux equal_fold decode insert txt text_eq
read_lock = refl

shim_changed_iff_example :
    (shim_changed state (txt "spin-v1") spin.sha256 spin.path ≡ ok false)
    ↔ (find_shim state (txt "spin-v1") ≡ some (some spin))
shim_changed_iff_example = shim_changed_iff state (txt "spin-v1") spin.sha256 spin.path

shim_changed-update_shim_example : shim_changed state (txt "spin-v1") spin.sha256 spin.path ≡ (
    if txt "spin-v1" == txt "spin-v1"
    then ok (not (spin.sha256 == spin.sha256) || not (spin.path == spin.path))
    else shim_changed empty_state (txt "spin-v1") spin.sha256 spin.path)
unfolding update_shim insert
shim_changed-update_shim_example =
    shim_changed-update_shim empty_state (txt "spin-v1") (txt "spin-v1") spin spin.sha256 spin.path
      {st' = state} refl
