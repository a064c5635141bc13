-- ===== src/State/Entry.antt =====
-- internal/state/shim.go: one installed shim, and its JSON form with the digest in hexadecimal.
use runtime_class_manager.Base.{true, false, Option, none, some, [], Text, txt}
use runtime_class_manager.Go.Strings.{equal_fold}
use runtime_class_manager.Go.Outcome.{Err, failure}
use runtime_class_manager.Go.Hex.{encode, decode}
use runtime_class_manager.Go.Json.Value.{Value, null, str, obj, Fields, end, field}
use runtime_class_manager.Go.Json.Parse.{unmarshal}

pub record Shim : Type 0 where
  pub sha256 : Text
  pub path : Text

-- `Shim.MarshalJSON`, as a tree
unfoldable pub marshal_json : Shim → Value
marshal_json s =
    obj (field (txt "sha256") (str (encode s.sha256)) (field (txt "path") (str s.path) end))

-- The struct `aux` of `UnmarshalJSON`.
pub record Aux : Type 0 where
  pub sha256 : Text
  pub path : Text

-- A JSON value read into a string that holds `old`.
read_string : Value → Text → Option Text
read_string null old = some old
read_string (str t) old = some t
read_string _ old = none

unfoldable pub read_aux : Fields → Aux → Option Aux
unfolding read_string
read_aux end a = some a
read_aux (field k v fs) a = elim (equal_fold k (txt "sha256")) [
  | true ↦ elim (read_string v a.sha256) [
    | none ↦ none
    | some t ↦ read_aux fs (record a { sha256 = t })
  ]
  | false ↦ elim (equal_fold k (txt "path")) [
    | true ↦ elim (read_string v a.path) [
      | none ↦ none
      | some t ↦ read_aux fs (record a { path = t })
    ]
    | false ↦ read_aux fs a
  ]
]

-- `json.Unmarshal(data, &aux)` behind its parser.
unfoldable pub aux_of_value : Value → Option Aux
unfolding read_aux
aux_of_value null = some (record { sha256 = []; path = [] })
aux_of_value (obj fs) = read_aux fs (record { sha256 = []; path = [] })
aux_of_value _ = none

-- The steps of `UnmarshalJSON` behind `json.Unmarshal`: the path is set before the digest is decoded.
apply_aux : Shim → Option Aux → Shim × Err
apply_aux s none = (s, some (failure (txt "invalid JSON")))
apply_aux s (some aux) = elim (decode aux.sha256) [
  | none ↦ (record s { path = aux.path }, some (failure (txt "invalid hexadecimal text")))
  | some sha256 ↦ (record { sha256 = sha256; path = aux.path }, none)
]

-- `Shim.UnmarshalJSON`
unfoldable pub unmarshal_json : Shim → Text → Shim × Err
unfolding apply_aux aux_of_value
unmarshal_json s text =
    apply_aux s (elim (unmarshal text) [ none ↦ none | some v ↦ aux_of_value v ])

succeeded : Shim × Err → Option Shim
succeeded (s, none) = some s
succeeded (s, some _) = none

-- `UnmarshalJSON` on a fresh shim, as `encoding/json` calls it for the text of a value.
unfoldable pub of_value : Value → Option Shim
unfolding apply_aux aux_of_value succeeded
of_value v = succeeded (apply_aux (record { sha256 = []; path = [] }) (aux_of_value v))
