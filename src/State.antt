-- ===== src/State.antt =====
-- internal/state: the lock file that records the installed shims.
pub mod Entry
pub mod Laws
pub mod RoundTrip
pub mod Store
pub mod Reading
pub mod Disk
mod Tests
use runtime_class_manager.Base.{
  ◌≡◌, Bool, true, false, not, ◌||◌, ◌&&◌, Option, none, some, List, [], ◌∷◌, Text, txt, text_eq,
  ◌==◌, ltb, ◌=ℕ◌, if◌then◌else◌, map,
}
use runtime_class_manager.Base.Dict.{Dict, lookup, insert, erase}
use runtime_class_manager.Go.Strings.{equal_fold}
use runtime_class_manager.Go.Paths.{path_join}
use runtime_class_manager.Go.Outcome.{
  failure, is_not_exist, Outcome, ok, err, panic, panics, Action, pure, raise,
}
use runtime_class_manager.Go.Json.Value.{Value, null, obj, Fields, end, field}
use runtime_class_manager.Go.Json.Print.{marshal_indent}
use runtime_class_manager.Go.Json.Parse.{unmarshal}
use runtime_class_manager.Go.Json.Sort.{sort_keys}
use runtime_class_manager.Machine.{Fs}
use runtime_class_manager.State.Entry.{Shim, marshal_json, of_value}

-- A nil map is `none`; so is a nil pointer in the map.
abbrev pub Shims : Type 0
Shims = Option (Dict Text (Option Shim))

-- `State`; its file system is an argument of the methods.
pub record State : Type 0 where
  pub shims : Shims
  pub lock_file_path : Text

unfoldable pub shim_value : Option Shim → Value
shim_value none = null
shim_value (some s) = marshal_json s

unfoldable pub shim_fields : Dict Text (Option Shim) → Fields
unfolding shim_value
shim_fields [] = end
shim_fields ((k, v) ∷ d) = field k (shim_value v) (shim_fields d)

unfoldable pub shims_value : Shims → Value
unfolding shim_fields sort_keys
shims_value none = null
shims_value (some d) = obj (shim_fields (sort_keys d))

-- How `encoding/json` writes a `State`: the unexported fields are left out.
unfoldable pub to_value : State → Value
unfolding shims_value
to_value st = obj (field (txt "shims") (shims_value st.shims) end)

-- One entry of the map; a null gives a nil pointer, and no call of `UnmarshalJSON`.
unfoldable pub read_entry : Value → Option (Option Shim)
read_entry null = some none
read_entry v = elim (of_value v) [ none ↦ none | some s ↦ some (some s) ]

unfoldable pub read_entries : Fields → Dict Text (Option Shim) → Option (Dict Text (Option Shim))
unfolding read_entry
read_entries end d = some d
read_entries (field k v fs) d = elim (read_entry v) [
  | none ↦ none
  | some entry ↦ read_entries fs (insert k entry d)
]

unfoldable pub existing : Shims → Dict Text (Option Shim)
existing none = []
existing (some d) = d

-- The value of the key `shims`, read into a map that may hold entries.
unfoldable pub read_shims : Value → Shims → Option Shims
unfolding read_entries existing
read_shims null old = some none
read_shims (obj fs) old = elim (read_entries fs (existing old)) [
  | none ↦ none
  | some d ↦ some (some d)
]
read_shims _ old = none

unfoldable pub read_fields : Fields → Shims → Option Shims
unfolding read_shims
read_fields end old = some old
read_fields (field k v fs) old = elim (equal_fold k (txt "shims")) [
  | true ↦ elim (read_shims v old) [ none ↦ none | some new ↦ read_fields fs new ]
  | false ↦ read_fields fs old
]

-- How `encoding/json` reads a `State`: `none` where it reports an error.
unfoldable pub shims_of_value : Value → Shims → Option Shims
unfolding read_fields
shims_of_value null old = some old
shims_of_value (obj fs) old = read_fields fs old
shims_of_value _ old = none

-- `json.Unmarshal(content, &out)`
unfoldable pub parse_shims : Text → Option Shims
unfolding shims_of_value
parse_shims content = elim (unmarshal content) [ none ↦ none | some v ↦ shims_of_value v (some []) ]

unfoldable pub lock_path : Text → Text
lock_path rcm_path = path_join (rcm_path ∷ txt "rcm-lock.json" ∷ [])

module _ {W : Type 0} where
  unfoldable pub parsed_state : Text → Option Shims → Action W State
  parsed_state p none = raise (failure (txt "invalid lock file"))
  parsed_state p (some shims) = pure (record { shims = shims; lock_file_path = p })

  -- What `Get` does with the outcome of reading the lock file.
  unfoldable pub loaded : Text → Outcome Text → Action W State
  unfolding parsed_state
  loaded p (ok content) = parsed_state p (parse_shims content)
  loaded p (err e) =
      if is_not_exist e then pure (record { shims = some []; lock_file_path = p }) else raise e
  loaded p (panic t) = panics t

  -- `Get`
  unfoldable pub get : Fs W → Text → Action W State
  unfolding loaded
  get fs rcm_path w =
      let (content, w') = fs.read_file (lock_path rcm_path) w in
      loaded (lock_path rcm_path) content w'

  -- `State.Write`
  unfoldable pub write : Fs W → State → Action W (Unit {0})
  write fs st = fs.write_file st.lock_file_path (marshal_indent (to_value st))

unfoldable pub find_shim : State → Text → Option (Option Shim)
find_shim st name = elim st.shims [ none ↦ none | some d ↦ lookup name d ]

-- `State.ShimChanged`; a nil pointer in the map is dereferenced.
unfoldable pub shim_changed : State → Text → Text → Text → Outcome Bool
unfolding find_shim
shim_changed st name sha256 path = elim (find_shim st name) [
  | none ↦ ok true
  | some none ↦ panic (txt "nil pointer dereference")
  | some (some shim) ↦ ok (not (shim.sha256 == sha256) || not (shim.path == path))
]

-- `State.UpdateShim`; a write into a nil map panics.
unfoldable pub update_shim : State → Text → Shim → Outcome State
update_shim st name shim = elim st.shims [
  | none ↦ panic (txt "assignment to entry in nil map")
  | some d ↦ ok (record st { shims = some (insert name (some shim) d) })
]

-- `State.RemoveShim`
unfoldable pub remove_shim : State → Text → State
remove_shim st name = elim st.shims [
  | none ↦ st
  | some d ↦ record st { shims = some (erase name d) }
]
