-- ===== src/State/RoundTrip.antt =====
-- Reading the tree of a lock file back.
use runtime_class_manager.Base.{
  ◌<◌, ◌≡◌, refl, ◌∙◌, Option, none, some, [], ◌∷◌, Text, txt, text_eq, arith, All,
}
use runtime_class_manager.Base.Dict.{Dict, lookup, insert, lookup-insert, Distinct}
use runtime_class_manager.Go.Strings.{equal_fold}
use runtime_class_manager.Go.Hex.{decode-encode}
use runtime_class_manager.Go.Json.Sort.{sort_keys, lookup-sort_keys, sort_keys-All}
use runtime_class_manager.State.{
  State, to_value, shim_fields, read_entries, shims_of_value, read_entry, shim_value, read_fields,
  read_shims, existing, shims_value,
}
use runtime_class_manager.State.Entry.{Shim, marshal_json, of_value, read_aux}

-- The digest is made of bytes.
abbrev pub IsBytes : Shim → Type 0
IsBytes s = All (λ b. b < 256) s.sha256

-- A shim is read back from the tree that is written for it.
pub of_value-marshal_json : (s : Shim) → IsBytes s → of_value (marshal_json s) ≡ some s
unfolding of_value marshal_json read_aux equal_fold txt
of_value-marshal_json s h = ground (arith, decode-encode s.sha256 h)

-- A shim with a digest of bytes; a nil pointer is no such shim, and is written as null.
abbrev pub IsWritten : Option Shim → Type 0
IsWritten none = Unit
IsWritten (some s) = IsBytes s

pub read_entry-shim_value : (v : Option Shim) → IsWritten v → read_entry (shim_value v) ≡ some v
unfolding read_entry shim_value marshal_json
read_entry-shim_value none h = refl
read_entry-shim_value (some s) h = ground (arith, of_value-marshal_json s h)

-- What a key finds after the entries have been read.
abbrev either_of : Option (Option Shim) → Option (Option Shim) → Option (Option Shim)
either_of (some v) old = some v
either_of none old = old

either_of-none : (v : Option (Option Shim)) → either_of v none ≡ v
either_of-none (some v) = refl
either_of-none none = refl

read_entries-shim_fields :
    (d acc : Dict Text (Option Shim))
    → All (λ kv. IsWritten kv.1) d
    → Distinct d
    → (acc' : Dict Text (Option Shim)) × (read_entries (shim_fields d) acc ≡ some acc')
      × ((q : Text) → lookup q acc' ≡ either_of (lookup q d) (lookup q acc))
unfolding read_entries shim_fields lookup
read_entries-shim_fields [] acc h distinct = (acc, refl, λ q. refl)
read_entries-shim_fields ((k, v) ∷ d) acc h distinct =
    let (acc', e, found) = read_entries-shim_fields d (insert k v acc) h.1 distinct.1 in
    (
      acc',
      rw (read_entry-shim_value v h.0, read_entries) e,
      λ q. ground (arith, found q, lookup-insert q k v acc, distinct.0),
    )

-- The entries of a written state are read back.
pub read_entries-sort_keys :
    (d : Dict Text (Option Shim))
    → All (λ kv. IsWritten kv.1) d
    → Distinct d
    → (d' : Dict Text (Option Shim)) × (read_entries (shim_fields (sort_keys d)) [] ≡ some d')
      × ((name : Text) → lookup name d' ≡ lookup name d)
unfolding lookup
read_entries-sort_keys d h distinct =
    let (same, sorted) = lookup-sort_keys d distinct in
    let (d', e, found) = read_entries-shim_fields (sort_keys d) [] (sort_keys-All _ d h) sorted in
    (d', e, λ q. found q ∙ (either_of-none (lookup q (sort_keys d)) ∙ same q))

pub shims_of_value-entries :
    (st : State) (d d' : Dict Text (Option Shim))
    → st.shims ≡ some d
    → read_entries (shim_fields (sort_keys d)) [] ≡ some d'
    → shims_of_value (to_value st) (some []) ≡ some (some d')
unfolding shims_of_value read_fields read_shims existing to_value shims_value equal_fold txt
shims_of_value-entries st d d' shims e = ground (arith, e)

-- A lock file is read back from the tree that is written for it: with distinct names, and digests made
-- of bytes, every name finds after reading what it found in the state that was written, nil pointers
-- included.
shims_of_value-to_value :
    (d : Dict Text (Option Shim)) (lock_file_path : Text)
    → All (λ kv. IsWritten kv.1) d
    → Distinct d
    → (d' : Dict Text (Option Shim)) × (shims_of_value
          (to_value (record { shims = some d; lock_file_path = lock_file_path }))
          (some [])
        ≡ some (some d'))
      × ((name : Text) → lookup name d' ≡ lookup name d)
shims_of_value-to_value d lock_file_path h distinct =
    let (d', e, found) = read_entries-sort_keys d h distinct in
    (d', shims_of_value-entries _ d d' refl e, found)
