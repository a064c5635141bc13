-- ===== src/State/Laws.antt =====
-- What the operations of the lock file's state do to each other.
use runtime_class_manager.Base.{
  ◌≡◌, ◌↔◌, true, false, not, ◌||◌, none, some, Text, text_eq, ◌==◌, arith, if◌then◌else◌,
  Option-cases, inl, inr,
}
use runtime_class_manager.Base.Dict.{lookup-insert, lookup-erase}
use runtime_class_manager.Go.Outcome.{ok}
use runtime_class_manager.State.{State, find_shim, shim_changed, update_shim, remove_shim}
use runtime_class_manager.State.Entry.{Shim}

find_shim-update_shim :
    (st : State) (name n : Text) (s : Shim) {st' : State}
    → update_shim st name s ≡ ok st'
    → find_shim st' n ≡ (if n == name then some (some s) else find_shim st n)
unfolding update_shim find_shim
find_shim-update_shim st name n s h = elim (Option-cases st.shims) [
  | inl missing ↦ ground arith
  | inr (d, e) ↦ ground (arith, lookup-insert n name (some s) d)
]

-- A shim is unchanged exactly if the state records it with this digest and this path.
pub shim_changed_iff :
    (st : State) (name sha256 path : Text)
    → (shim_changed st name sha256 path ≡ ok false)
      ↔ (find_shim st name ≡ some (some (record { sha256 = sha256; path = path })))
unfolding shim_changed find_shim
shim_changed_iff st name sha256 path = ground arith

find_shim-remove_shim :
    (st : State) (name n : Text)
    → find_shim (remove_shim st name) n ≡ (if n == name then none else find_shim st n)
unfolding remove_shim find_shim
find_shim-remove_shim st name n = elim (Option-cases st.shims) [
  | inl missing ↦ ground arith
  | inr (d, e) ↦ ground (arith, lookup-erase n name d)
]

-- Where recording a shim goes through, it makes the shim unchanged, and decides what is asked of
-- any other digest or path under its name; the other names are answered as before.
pub shim_changed-update_shim :
    (st : State) (name n : Text) (s : Shim) (sha256 path : Text) {st' : State}
    → update_shim st name s ≡ ok st'
    → shim_changed st' n sha256 path ≡ (
        if n == name
        then ok (not (s.sha256 == sha256) || not (s.path == path))
        else shim_changed st n sha256 path)
unfolding shim_changed
shim_changed-update_shim st name n s sha256 path h =
    ground (arith, find_shim-update_shim st name n s h)

-- A removed shim is a changed one, whatever its digest and path; the other names are answered as
-- before.
shim_changed-remove_shim :
    (st : State) (name n sha256 path : Text)
    → shim_changed (remove_shim st name) n sha256 path
      ≡ (if n == name then ok true else shim_changed st n sha256 path)
unfolding shim_changed
shim_changed-remove_shim st name n sha256 path = ground (arith, find_shim-remove_shim st name n)
