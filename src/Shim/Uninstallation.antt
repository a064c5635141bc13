-- ===== src/Shim/Uninstallation.antt =====
-- `Uninstall` on a lawful file system, as an update of the map that the lock file records.
use runtime_class_manager.Base.{
  ◌≡◌, ◌≢◌, refl, sym, ap, ◌∙◌, true, Option, none, some, Text, text_eq, ◌==◌, ==_refl, ==_ne,
  arith, inl, inr, if◌then◌else◌,
}
use mathlib.Core.Path.{subst⁻¹}
use runtime_class_manager.Go.Outcome.{is_not_exist, Err, Outcome, ok, Action, pure, attempt, ◌>>=◌}
use runtime_class_manager.Go.Outcome.Laws.{Outcome-cases, >>=_elim, >>=-eq-ok}
use runtime_class_manager.Machine.{Machine}
use runtime_class_manager.Machine.Laws.{IsLawful}
use runtime_class_manager.State.{State, get, lock_path, write, find_shim, remove_shim}
use runtime_class_manager.State.Entry.{Shim}
use runtime_class_manager.State.Store.{
  without_entry, Holds, Holds-map, Finds, find_shim-Finds, remove_shim-Finds,
}
use runtime_class_manager.State.Disk.{write-others, get-Finds, write-Holds, lock_content}
use runtime_class_manager.Shim.{Config, installed_path, tolerate_missing, uninstall}
use runtime_class_manager.Shim.Removal.{
  get-Keeps, get-lock_file_path, remove_shim-lock_file_path, installed_path-cases,
}

module _ {W : Type 0} (m : Machine W) (L : IsLawful m.host_fs) (c : Config) (shim_name : Text) where
  -- What a removal leaves behind: no file at the path that the lock file recorded for the shim, the
  -- lock file without that shim, and the other files as they were.
  pub record Uninstalled (find : Text → Option (Option Shim)) (w : W) (r : Outcome Text × W)
      (s : Shim) : Type 0 where
    pub path : r.0 ≡ ok s.path
    pub known : find shim_name ≡ some (some s)
    pub recorded : Holds (lock_content m.host_fs L c.rcm_path r.1) (without_entry shim_name find)
    pub gone :
        L.resolve s.path ≢ L.resolve (lock_path c.rcm_path)
        → L.content r.1 (L.resolve s.path) ≡ none
    pub others :
        (q : Text)
        → q ≢ L.resolve s.path
        → q ≢ L.resolve (lock_path c.rcm_path)
        → L.content r.1 q ≡ L.content w q

  -- After a removal whose error is tolerated, the file is gone and every other file as it was.
  removed-content :
      (p : Text) (w : W) {r : Err}
      → (attempt (m.host_fs.remove p) w).0 ≡ ok r
      → (tolerate_missing m p r (attempt (m.host_fs.remove p) w).1).0 ≡ ok tt
      → (q : Text)
      → L.content (tolerate_missing m p r (attempt (m.host_fs.remove p) w).1).1 q
        ≡ (if q == L.resolve p then none else L.content w q)
  unfolding tolerate_missing
  removed-content p w {r} h k q = elim (Outcome-cases (m.host_fs.remove p w).0) [
    | inl (tt, e) ↦ ground (arith, L.content-remove p w q e)
    | inr (inl (e, failed)) ↦
        let same : r ≡ some e = ground (arith, failed) in
        let missing : is_not_exist e ≡ true = ground (arith, same, k) in
        let (no_file, kept) = L.missing-remove p e w failed missing in
        ground (arith, same, missing, failed, no_file, kept q)
    | inr (inr (t, e)) ↦ absurd (ground arith)
  ]

  abbrev recorded_without : State → Text → Action W Text
  recorded_without st p = write m.host_fs (remove_shim st shim_name) >>= λ _. pure p

  abbrev removed : State → Text → Action W Text
  removed st p =
      attempt (m.host_fs.remove p) >>= λ r. tolerate_missing m p r >>= λ _. recorded_without st p

  abbrev Done : (Text → Option (Option Shim)) → W → Outcome Text × W → Type 0
  Done find before r = (s : Shim) × Uninstalled find before r s

  recorded-Uninstalled :
      (st : State) (s : Shim) (find : Text → Option (Option Shim)) (before w : W) {q : Text}
      → Finds st find
      → st.lock_file_path ≡ lock_path c.rcm_path
      → find shim_name ≡ some (some s)
      → ((q : Text) → L.content w q ≡ (if q == L.resolve s.path then none else L.content before q))
      → (recorded_without st s.path w).0 ≡ ok q
      → Uninstalled find before (recorded_without st s.path w) s
  recorded-Uninstalled st s find before w finds located known gone h =
      let st' = remove_shim st shim_name in
      let (_, wrote, step) = >>=-eq-ok (write m.host_fs st') (λ _. pure s.path) w h in
      let path : st'.lock_file_path ≡ lock_path c.rcm_path =
        remove_shim-lock_file_path st shim_name ∙ located in
      let others : (q : Text)
          → q ≢ L.resolve (lock_path c.rcm_path)
          → L.content (write m.host_fs st' w).1 q
            ≡ (if q == L.resolve s.path then none else L.content before q) =
        λ q a. write-others m.host_fs L st' w q (λ e. a (e ∙ ap L.resolve path)) wrote ∙ gone q in
      rw step (record {
        path = refl;
        known = known;
        recorded =
            Holds-map (ap (λ v. L.content (write m.host_fs st' w).1 (L.resolve v)) (sym path))
              (λ n. refl) (write-Holds m.host_fs L st' w (remove_shim-Finds shim_name finds) wrote);
        gone = λ a. others (L.resolve s.path) a ∙ rw ==_refl refl;
        others = λ q a b. others q b ∙ rw (==_ne q (L.resolve s.path) a) refl;
      })

  -- A call of Uninstall that goes through on a lawful file system implements the removal from a
  -- finite map: if the lock file recorded a map before, it had an entry for the shim, whose path
  -- is returned, and the lock file records the same map without it afterwards; nothing lies at
  -- that path, unless it is the lock file, and every other file is kept.
  pub uninstall-Uninstalled :
      (find : Text → Option (Option Shim)) (w : W) {p : Text}
      → Holds (lock_content m.host_fs L c.rcm_path w) find
      → (uninstall m c shim_name w).0 ≡ ok p
      → (s : Shim) × Uninstalled find w (uninstall m c shim_name w) s
  unfolding uninstall
  uninstall-Uninstalled find w holds h =
      >>=_elim (get m.host_fs c.rcm_path)
        (λ st. installed_path m shim_name (find_shim st shim_name) >>= removed st) w (Done find w) h
        (λ st got h1.
          let w1 = (get m.host_fs c.rcm_path w).1 in
          let kept : (q : Text) → L.content w1 q ≡ L.content w q = get-Keeps m L c shim_name w in
          let finds = get-Finds m.host_fs L c.rcm_path w holds got in
          let (s, found, next) =
            installed_path-cases m L c shim_name w (find_shim st shim_name) (removed st) w1 h1 in
          let h2 : (removed st s.path w1).0 ≡ ok _ = ap (λ r. r.0) (sym next) ∙ h1 in
          subst⁻¹ (Done find w) next (
            >>=_elim (attempt (m.host_fs.remove s.path))
              (λ r. tolerate_missing m s.path r >>= λ _. recorded_without st s.path) w1
              (Done find w) h2
              (λ r attempted h3.
                let w2 = (attempt (m.host_fs.remove s.path) w1).1 in
                >>=_elim (tolerate_missing m s.path r) (λ _. recorded_without st s.path) w2
                  (Done find w) h3
                  (λ _ tolerated h4. (
                    s,
                    recorded-Uninstalled st s find w (tolerate_missing m s.path r w2).1 finds
                        (get-lock_file_path m.host_fs c.rcm_path w got)
                        (sym (find_shim-Finds finds shim_name) ∙ found)
                        (λ q.
                          removed-content s.path w1 attempted tolerated q
                          ∙ ap (λ o. if q == L.resolve s.path then none else o) (kept q))
                        h4,
                  )))))
