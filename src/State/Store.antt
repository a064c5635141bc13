-- ===== src/State/Store.antt =====
-- The lock file as the finite map that it records, and as the text that is written for a state.
use mathlib.Core.Option.{some-injective}
use runtime_class_manager.Base.{
  ◌<◌, ◌≡◌, refl, sym, ◌∙◌, Option, none, some, [], ◌∷◌, Text, text_eq, ◌==◌, All, if◌then◌else◌,
}
use runtime_class_manager.Base.Dict.{
  Dict, lookup, insert, erase, lookup-insert, lookup-erase, Distinct, insert-Distinct,
  erase-Distinct, insert-All, erase-All,
}
use runtime_class_manager.Go.Outcome.{ok}
use runtime_class_manager.Go.Json.Print.{marshal_indent}
use runtime_class_manager.Go.Json.Wordy.{IsWordy, FieldsAreWordy}
use runtime_class_manager.Go.Json.RoundTrip.{unmarshal-marshal_indent}
use runtime_class_manager.Go.Json.Sort.{sort_keys, sort_keys-All}
use runtime_class_manager.State.{
  State, to_value, shim_fields, shim_value, shims_value, read_entries, parse_shims, find_shim,
  update_shim, remove_shim,
}
use runtime_class_manager.State.Entry.{Shim, marshal_json}
use runtime_class_manager.State.RoundTrip.{
  IsBytes, IsWritten, read_entry-shim_value, read_entries-sort_keys, shims_of_value-entries,
}

abbrev pub IsAscii : Text → Type 0
IsAscii = All (λ c. c < 128)

-- What the program records: a digest of bytes, and names and paths in ASCII.
abbrev pub IsClean : Option Shim → Type 0
IsClean none = Unit
IsClean (some s) = IsBytes s × IsAscii s.path

abbrev pub IsCleanEntry : Text × Option Shim → Type 0
IsCleanEntry (name, s) = IsAscii name × IsClean s

pub record IsCleanMap (d : Dict Text (Option Shim)) : Type 0 where
  pub entries : All IsCleanEntry d
  pub distinct : Distinct d

-- The contents of the lock file record for every name what `find` says: there is no file, and `find`
-- knows no name, or the file is read as a map that agrees with `find`.
pub data Holds (content : Option Text) (find : Text → Option (Option Shim)) : Type 0 where
  absent : content ≡ none → ((name : Text) → find name ≡ none) → Holds content find
  written :
      (text : Text) (d : Dict Text (Option Shim))
      → content ≡ some text
      → parse_shims text ≡ some (some d)
      → IsCleanMap d
      → ((name : Text) → lookup name d ≡ find name)
      → Holds content find

shim_fields-FieldsAreWordy : (d : Dict Text (Option Shim)) → FieldsAreWordy (shim_fields d)
unfolding shim_fields shim_value FieldsAreWordy marshal_json
shim_fields-FieldsAreWordy [] = tt
shim_fields-FieldsAreWordy ((k, none) ∷ d) = (tt, shim_fields-FieldsAreWordy d)
shim_fields-FieldsAreWordy ((k, some s) ∷ d) = ((tt, (tt, tt)), shim_fields-FieldsAreWordy d)

to_value-IsWordy :
    (st : State) {d : Dict Text (Option Shim)} → st.shims ≡ some d → IsWordy (to_value st)
unfolding to_value shims_value IsWordy
to_value-IsWordy st {d} e = rw e (shim_fields-FieldsAreWordy (sort_keys d), tt)

IsCleanEntry-IsWritten :
    (d : Dict Text (Option Shim)) → All IsCleanEntry d → All (λ kv. IsWritten kv.1) d
IsCleanEntry-IsWritten [] h = tt
IsCleanEntry-IsWritten ((k, none) ∷ d) h = (tt, IsCleanEntry-IsWritten d h.1)
IsCleanEntry-IsWritten ((k, some s) ∷ d) h = (h.0.1.0, IsCleanEntry-IsWritten d h.1)

-- Reading clean entries into a clean map gives a clean map.
read_entries-IsCleanMap :
    (d acc acc' : Dict Text (Option Shim))
    → All IsCleanEntry d
    → IsCleanMap acc
    → read_entries (shim_fields d) acc ≡ some acc'
    → IsCleanMap acc'
unfolding read_entries shim_fields
read_entries-IsCleanMap [] acc acc' h clean e = rw (← some-injective acc acc' e) clean
read_entries-IsCleanMap ((k, v) ∷ d) acc acc' h clean e =
    let clean' : IsCleanMap (insert k v acc) = record {
      entries = insert-All IsCleanEntry k v acc h.0 clean.entries;
      distinct = insert-Distinct k v acc clean.distinct;
    } in
    read_entries-IsCleanMap d (insert k v acc) acc' h.1 clean' (
      rw (read_entry-shim_value v (IsCleanEntry-IsWritten ((k, v) ∷ []) (h.0, tt)).0, read_entries)
        at e)

-- The map with one more entry, and with one less.
abbrev pub with_entry : Text → Shim → (Text → Option (Option Shim)) → Text → Option (Option Shim)
with_entry name s find n = if n == name then some (some s) else find n

abbrev pub without_entry : Text → (Text → Option (Option Shim)) → Text → Option (Option Shim)
without_entry name find n = if n == name then none else find n

-- What `Get` gives: a clean map that agrees with `find`.
pub record Finds (st : State) (find : Text → Option (Option Shim)) : Type 0 where
  pub map : Dict Text (Option Shim)
  pub shims-map : st.shims ≡ some map
  pub map-IsCleanMap : IsCleanMap map
  pub lookup-map : (name : Text) → lookup name map ≡ find name

pub find_shim-Finds :
    {st : State} {find : Text → Option (Option Shim)}
    → Finds st find
    → (name : Text) → find_shim st name ≡ find name
unfolding find_shim
find_shim-Finds f name = rw f.shims-map (f.lookup-map name)

-- `UpdateShim` and `RemoveShim` on what `Get` gives.
pub update_shim-Finds :
    {st : State} {find : Text → Option (Option Shim)} (name : Text) (s : Shim)
    → Finds st find
    → IsCleanEntry (name, some s)
    → (st' : State) × (update_shim st name s ≡ ok st')
      × Finds st' (with_entry name s find)
      × (st'.lock_file_path ≡ st.lock_file_path)
unfolding update_shim
update_shim-Finds {st} name s f clean = (
  record st { shims = some (insert name (some s) f.map) },
  rw f.shims-map refl,
  record {
    map = insert name (some s) f.map;
    shims-map = refl;
    map-IsCleanMap = record {
      entries = insert-All IsCleanEntry name (some s) f.map clean f.map-IsCleanMap.entries;
      distinct = insert-Distinct name (some s) f.map f.map-IsCleanMap.distinct;
    };
    lookup-map = λ n. lookup-insert n name (some s) f.map ∙ rw (f.lookup-map n) refl;
  },
  refl,
)

pub remove_shim-Finds :
    {st : State} {find : Text → Option (Option Shim)} (name : Text)
    → Finds st find
    → Finds (remove_shim st name) (without_entry name find)
unfolding remove_shim
remove_shim-Finds {st} name f = record {
  map = erase name f.map;
  shims-map = rw f.shims-map refl;
  map-IsCleanMap = record {
    entries = erase-All IsCleanEntry name f.map f.map-IsCleanMap.entries;
    distinct = erase-Distinct name f.map f.map-IsCleanMap.distinct;
  };
  lookup-map = λ n. lookup-erase n name f.map ∙ rw (f.lookup-map n) refl;
}

pub Holds-map :
    {content content' : Option Text} {find find' : Text → Option (Option Shim)}
    → content' ≡ content
    → ((name : Text) → find name ≡ find' name)
    → Holds content find
    → Holds content' find'
Holds-map same agree (absent none_there unknown) =
    absent (same ∙ none_there) (λ name. sym (agree name) ∙ unknown name)
Holds-map same agree (written text d there parsed clean agrees) =
    written text d (same ∙ there) parsed clean (λ name. agrees name ∙ agree name)

-- What stands in the lock file after a state was written is read back: with names and paths in ASCII,
-- distinct names, and digests made of bytes, every name finds after reading the text what it found in
-- the state.
pub parse_shims-marshal_indent :
    (st : State) (d : Dict Text (Option Shim))
    → st.shims ≡ some d
    → IsCleanMap d
    → (d' : Dict Text (Option Shim)) × (parse_shims (marshal_indent (to_value st)) ≡ some (some d'))
      × IsCleanMap d'
      × ((name : Text) → lookup name d' ≡ find_shim st name)
unfolding parse_shims find_shim
parse_shims-marshal_indent st d e clean =
    let (d', read, found) =
      read_entries-sort_keys d (IsCleanEntry-IsWritten d clean.entries) clean.distinct in
    (
      d',
      rw (unmarshal-marshal_indent (to_value st) (to_value-IsWordy st e), parse_shims)
          (shims_of_value-entries st d d' e read),
      read_entries-IsCleanMap (sort_keys d) [] d' (sort_keys-All _ d clean.entries)
          (record { entries = tt; distinct = tt }) read,
      λ name. found name ∙ rw e refl,
    )
