-- ===== src/Shim/Removal.antt =====
-- `Uninstall` on a lawful file system.
use runtime_class_manager.Base.{
  ◌≡◌, refl, sym, ap, ◌∙◌, Option, none, some, ◌++◌, Text, txt, text_eq, ==_refl, arith,
}
use runtime_class_manager.Go.Outcome.{
  Error, Outcome, failure, ok, err, Action, pure, attempt, ◌>>=◌,
}
use runtime_class_manager.Go.Outcome.Laws.{>>=-eq-ok, >>=_after}
use runtime_class_manager.Go.Json.Print.{marshal_indent}
use runtime_class_manager.Machine.{Fs, Machine}
use runtime_class_manager.Machine.Laws.{IsLawful}
use runtime_class_manager.State.{
  State, get, write, loaded, parsed_state, lock_path, find_shim, remove_shim, to_value,
}
use runtime_class_manager.State.Entry.{Shim}
use runtime_class_manager.Shim.{Config, installed_path, tolerate_missing, uninstall}

module _ {W : Type 0} where
  pub get_world :
      (fs : Fs W) (rcm_path : Text) (w : W)
      → (get fs rcm_path w).1 ≡ (fs.read_file (lock_path rcm_path) w).1
  unfolding get loaded parsed_state
  get_world fs rcm_path w = ground arith

  pub get-lock_file_path :
      (fs : Fs W) (rcm_path : Text) (w : W) {st : State}
      → (get fs rcm_path w).0 ≡ ok st
      → st.lock_file_path ≡ lock_path rcm_path
  unfolding get loaded parsed_state
  get-lock_file_path fs rcm_path w h = ground arith

pub remove_shim-lock_file_path :
    (st : State) (name : Text) → (remove_shim st name).lock_file_path ≡ st.lock_file_path
unfolding remove_shim
remove_shim-lock_file_path st name = ground arith

ok_injective : {a b : Text} → ok a ≡ ok b → a ≡ b
ok_injective h = ground arith

module _ {W : Type 0} (m : Machine W) (L : IsLawful m.host_fs) (c : Config) (shim_name : Text)
    (w : W) where
  pub get-Keeps : (q : Text) → L.content (get m.host_fs c.rcm_path w).1 q ≡ L.content w q
  get-Keeps q = rw (get_world m.host_fs c.rcm_path w) (L.read_file-Keeps (lock_path c.rcm_path) w q)

  -- On a lawful file system, where the lock file can be read and does not record the shim, removing
  -- that shim is an error, and every file keeps its contents.
  pub uninstall_missing :
      (q : Text) {st : State}
      → (get m.host_fs c.rcm_path w).0 ≡ ok st
      → find_shim st shim_name ≡ none
      → ((e : Error) × ((uninstall m c shim_name w).0 ≡ err e))
        × (L.content (uninstall m c shim_name w).1 q ≡ L.content w q)
  unfolding uninstall installed_path
  uninstall_missing q h missing = (
    (failure (txt "shim " ++ (shim_name ++ txt " not installed")), ground arith),
    ground (arith, get-Keeps q),
  )

  -- The end of a removal, and what precedes it.
  abbrev recorded : State → Text → Action W Text
  recorded st p = write m.host_fs (remove_shim st shim_name) >>= λ _. pure p

  abbrev removed : State → Text → Action W Text
  removed st p = attempt (m.host_fs.remove p) >>= λ r. tolerate_missing m p r >>= λ _. recorded st p

  -- The path is returned, and the lock file records the state without the shim.
  abbrev Forgets : State → Text → Outcome Text × W → Type 0
  Forgets st p (r, w') =
      (r ≡ ok p)
      × (L.content w' (L.resolve (lock_path c.rcm_path))
          ≡ some (marshal_indent (to_value (remove_shim st shim_name))))

  write-content :
      (st : State) (w' : W)
      → (write m.host_fs st w').0 ≡ ok tt
      → L.content (write m.host_fs st w').1 (L.resolve st.lock_file_path)
        ≡ some (marshal_indent (to_value st))
  unfolding write
  write-content st w' h =
      L.content-write_file st.lock_file_path (marshal_indent (to_value st)) w'
        (L.resolve st.lock_file_path) h
      ∙ rw ==_refl refl

  recorded-Forgets :
      (st : State) (p : Text) {q : Text} (w' : W)
      → st.lock_file_path ≡ lock_path c.rcm_path
      → (recorded st p w').0 ≡ ok q
      → Forgets st p (recorded st p w')
  recorded-Forgets st p w' located h =
      let (_, e, step) =
        >>=-eq-ok (write m.host_fs (remove_shim st shim_name)) (λ _. pure p) w' h in
      let path = sym located ∙ sym (remove_shim-lock_file_path st shim_name) in
      rw step (
        refl,
        ap (λ v. L.content (write m.host_fs (remove_shim st shim_name) w').1 (L.resolve v)) path
            ∙ write-content (remove_shim st shim_name) w' e,
      )

  removed-Forgets :
      (st : State) (p : Text) {q : Text} (w' : W)
      → st.lock_file_path ≡ lock_path c.rcm_path
      → (removed st p w').0 ≡ ok q
      → Forgets st p (removed st p w')
  removed-Forgets st p w' located h =
      >>=_after (attempt (m.host_fs.remove p)) (λ r. tolerate_missing m p r >>= λ _. recorded st p)
        w' (Forgets st p) h
        (λ r w'' h'.
          >>=_after (tolerate_missing m p r) (λ _. recorded st p) w'' (Forgets st p) h'
            (λ _ w3 h''. recorded-Forgets st p w3 located h''))

  pub installed_path-cases :
      (v : Option (Option Shim)) (f : Text → Action W Text) (w' : W) {p : Text}
      → ((installed_path m shim_name v >>= f) w').0 ≡ ok p
      → (s : Shim) × (v ≡ some (some s)) × ((installed_path m shim_name v >>= f) w' ≡ f s.path w')
  unfolding installed_path
  installed_path-cases none f w' h = absurd (ground arith)
  installed_path-cases (some none) f w' h = absurd (ground arith)
  installed_path-cases (some (some s)) f w' h = (s, refl, refl)

  -- After a removal that went through on a lawful file system, the lock file holds what it recorded
  -- without the shim, and the path that is returned is the one that it recorded for the shim.
  uninstall-content :
      {p : Text}
      → (uninstall m c shim_name w).0 ≡ ok p
      → (st : State) × (s : Shim) × ((get m.host_fs c.rcm_path w).0 ≡ ok st)
        × (find_shim st shim_name ≡ some (some s))
        × (p ≡ s.path)
        × (L.content (uninstall m c shim_name w).1 (L.resolve (lock_path c.rcm_path))
            ≡ some (marshal_indent (to_value (remove_shim st shim_name))))
  unfolding uninstall
  uninstall-content {p} h =
      let (st, e, step) =
        >>=-eq-ok (get m.host_fs c.rcm_path)
          (λ st. installed_path m shim_name (find_shim st shim_name) >>= removed st) w h in
      let opened = (get m.host_fs c.rcm_path w).1 in
      let (s, found, next) =
        installed_path-cases (find_shim st shim_name) (removed st) opened
          (ap (λ r. r.0) (sym step) ∙ h) in
      let ends = ap (λ r. r.0) (sym (step ∙ next)) ∙ h in
      let (returned, forgotten) =
        removed-Forgets st s.path opened (get-lock_file_path m.host_fs c.rcm_path w e) ends in
      (
        st,
        s,
        e,
        found,
        ok_injective (sym ends ∙ returned),
        ap (λ r. L.content r.1 (L.resolve (lock_path c.rcm_path))) (step ∙ next) ∙ forgotten,
      )
