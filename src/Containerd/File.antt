-- ===== src/Containerd/File.antt =====
-- `AddRuntime` and `RemoveRuntime` on a lawful file system.
use runtime_class_manager.Base.{
  ◌≡◌, ◌∙◌, sym, ap, Bool, true, false, some, ◌++◌, Text, txt, text_eq, ◌==◌, ==_refl, arith,
  if◌then◌else◌, inl, inr, Bool-cases,
}
use runtime_class_manager.Go.Strings.{includes, remove_all}
use runtime_class_manager.Go.Strings.Laws.{Lacks, includes-append_right, remove_all-absent}
use runtime_class_manager.Go.Outcome.{ok, ◌>>◌}
use runtime_class_manager.Go.Outcome.Laws.{>>=-eq-ok, attempt_world}
use runtime_class_manager.Machine.{Fs}
use runtime_class_manager.Machine.Laws.{IsLawful, read_file-step}
use runtime_class_manager.Containerd.{
  Config, generate_config, name_of, append_config, add_entry, add_runtime, remove_entry,
  remove_runtime,
}
use runtime_class_manager.Containerd.Entry.{includes-generate_config, remove_all-generate_config}

module _ (c : Config) (p : Text) where
  -- The entry for a file's contents.
  abbrev pub entry : Text → Text
  entry contents = generate_config p (name_of p) c.runtime_options contents

  -- A file's contents with the entry added, unless the runtime's name occurs already.
  abbrev pub added : Text → Text
  added contents = if includes contents (name_of p) then contents else contents ++ entry contents

  -- A file's contents with the entry removed, if the runtime's name occurs.
  abbrev pub removed : Text → Text
  removed contents =
      if includes contents (name_of p) then remove_all contents (entry contents) else contents

module _ {W : Type 0} (fs : Fs W) (L : IsLawful fs) (c : Config) (p : Text) where
  abbrev file : Text
  file = L.resolve c.config_path

  append_config-content :
      (old cfg : Text) (w : W) (q : Text)
      → L.content w file ≡ some old
      → (append_config fs c cfg w).0 ≡ ok tt
      → L.content (append_config fs c cfg w).1 q
        ≡ (if q == file then some (old ++ cfg) else L.content w q)
  unfolding append_config
  append_config-content old cfg w q e h =
      ap (λ v. L.content v q)
        (attempt_world (fs.close c.config_path) (fs.append c.config_path cfg w).1)
      ∙ (L.close-Keeps c.config_path _ q ∙ L.content-append c.config_path cfg w q e h)

  appended-content :
      (old cfg : Text) (w : W) (q : Text)
      → L.content w file ≡ some old
      → ((fs.open_append c.config_path >> append_config fs c cfg) w).0 ≡ ok tt
      → L.content ((fs.open_append c.config_path >> append_config fs c cfg) w).1 q
        ≡ (if q == file then some (old ++ cfg) else L.content w q)
  appended-content old cfg w q e h =
      let (_, _, step) =
        >>=-eq-ok (fs.open_append c.config_path) (λ _. append_config fs c cfg) w h in
      let opened = (fs.open_append c.config_path w).1 in
      ap (λ r. L.content r.1 q) step
      ∙ (append_config-content old cfg opened q (L.open_append-Keeps c.config_path w file ∙ e)
            (ap (λ r. r.0) (sym step) ∙ h)
          ∙ ap (λ v. if q == file then some (old ++ cfg) else v)
              (L.open_append-Keeps c.config_path w q))

  add_entry-content :
      (old : Text) (w : W) (q : Text)
      → L.content w file ≡ some old
      → (add_entry fs c p old w).0 ≡ ok tt
      → L.content (add_entry fs c p old w).1 q
        ≡ (if q == file then some (added c p old) else L.content w q)
  unfolding add_entry
  add_entry-content old w q e h = elim (Bool-cases (includes old (name_of p))) [
    | inl present ↦ rw present (ground arith)
    | inr absent ↦ rw absent (appended-content old (entry c p old) w q e (rw absent at h))
  ]

  -- Once `AddRuntime` has gone through, the configuration file holds what it held, with the entry behind
  -- it unless the name of the runtime occurred already; no other file has changed.
  pub add_runtime-content :
      (old : Text) (w : W) (q : Text)
      → L.content w file ≡ some old
      → (add_runtime fs c p w).0 ≡ ok tt
      → L.content (add_runtime fs c p w).1 q
        ≡ (if q == file then some (added c p old) else L.content w q)
  unfolding add_runtime
  add_runtime-content old w q e h =
      let step = read_file-step fs L c.config_path (add_entry fs c p) w old e h in
      let opened = (fs.read_file c.config_path w).1 in
      ap (λ r. L.content r.1 q) step
      ∙ (add_entry-content old opened q (L.read_file-Keeps c.config_path w file ∙ e)
            (ap (λ r. r.0) (sym step) ∙ h)
          ∙ ap (λ v. if q == file then some (added c p old) else v)
              (L.read_file-Keeps c.config_path w q))

  remove_entry-content :
      (old : Text) (w : W) (q : Text) {changed : Bool}
      → L.content w file ≡ some old
      → (remove_entry fs c p old w).0 ≡ ok changed
      → (changed ≡ includes old (name_of p))
        × (L.content (remove_entry fs c p old w).1 q
            ≡ (if q == file then some (removed c p old) else L.content w q))
  unfolding remove_entry
  remove_entry-content old w q e h =
      ground (arith, L.content-write_file c.config_path (remove_all old (entry c p old)) w q)

  -- Once `RemoveRuntime` has gone through, it says whether the name of the runtime occurred; if so the
  -- entry is removed from the configuration file, and no other file has changed.
  pub remove_runtime-content :
      (old : Text) (w : W) (q : Text) {changed : Bool}
      → L.content w file ≡ some old
      → (remove_runtime fs c p w).0 ≡ ok changed
      → (changed ≡ includes old (name_of p))
        × (L.content (remove_runtime fs c p w).1 q
            ≡ (if q == file then some (removed c p old) else L.content w q))
  unfolding remove_runtime
  remove_runtime-content old w q e h =
      let step = read_file-step fs L c.config_path (remove_entry fs c p) w old e h in
      let opened = (fs.read_file c.config_path w).1 in
      let rest =
        remove_entry-content old opened q (L.read_file-Keeps c.config_path w file ∙ e)
          (ap (λ r. r.0) (sym step) ∙ h) in
      (
        rest.0,
        ap (λ r. L.content r.1 q) step
            ∙ (rest.1
                ∙ ap (λ v. if q == file then some (removed c p old) else v)
                    (L.read_file-Keeps c.config_path w q)),
      )

  includes-added : (old : Text) → includes (added c p old) (name_of p) ≡ true
  includes-added old = ground (
    arith,
    includes-append_right old (entry c p old) (name_of p)
        (includes-generate_config p (name_of p) c.runtime_options old),
  )

  added_twice : (old : Text) → added c p (added c p old) ≡ added c p old
  added_twice old = elim (Bool-cases (includes old (name_of p))) [
    | inl present ↦ rw present (rw present)
    | inr absent ↦ ground (arith, includes-added old)
  ]

  removed-added :
      (old : Text)
      → includes old (name_of p) ≡ false
      → Lacks 10 (name_of p)
      → includes (entry c p old) (txt "version = 3") ≡ false
      → removed c p (added c p old) ≡ old
  removed-added old fresh clean_name plain =
      rw (includes-added, fresh)
        (remove_all-generate_config p (name_of p) c.runtime_options old clean_name fresh plain)

  module _ (old : Text) (w : W) (q : Text) (holds : L.content w file ≡ some old)
      (added_once : (add_runtime fs c p w).0 ≡ ok tt) where
    after : L.content (add_runtime fs c p w).1 file ≡ some (added c p old)
    after = add_runtime-content old w file holds added_once ∙ rw ==_refl

    -- On a lawful file system, where the configuration file exists and two calls of AddRuntime for
    -- the same binary go through, the second changes no file: whatever the first call left in a
    -- file, the second leaves there too.
    pub add_runtime-add_runtime :
        (add_runtime fs c p (add_runtime fs c p w).1).0 ≡ ok tt
        → L.content (add_runtime fs c p (add_runtime fs c p w).1).1 q
          ≡ L.content (add_runtime fs c p w).1 q
    add_runtime-add_runtime again =
        add_runtime-content (added c p old) _ q after again
        ∙ rw (added_twice old, add_runtime-content old w q holds added_once) (ground arith)

    -- RemoveRuntime undoes AddRuntime on a lawful file system, where both calls go through: if the
    -- configuration did not mention the name of the runtime, a name with no newline, and the entry
    -- does not speak of the version, then removing the entry that was added says that the
    -- configuration changed, and gives every file the contents it had before.
    pub remove_runtime-add_runtime :
        {changed : Bool}
        → includes old (name_of p) ≡ false
        → Lacks 10 (name_of p)
        → includes (entry c p old) (txt "version = 3") ≡ false
        → (remove_runtime fs c p (add_runtime fs c p w).1).0 ≡ ok changed
        → (changed ≡ true)
          × (L.content (remove_runtime fs c p (add_runtime fs c p w).1).1 q ≡ L.content w q)
    remove_runtime-add_runtime fresh clean_name plain h =
        let rest = remove_runtime-content (added c p old) _ q after h in
        (
          rest.0 ∙ includes-added old,
          rest.1
              ∙ rw
                  (
                    removed-added old fresh clean_name plain,
                    add_runtime-content old w q holds added_once,
                  )
                  (ground arith),
        )

  -- On a lawful file system, where the entry that RemoveRuntime generates is not in the
  -- configuration file, as after a loop that met the options in another order, but the name of the
  -- runtime is, a call that goes through reports a change, and every file keeps its contents.
  pub remove_runtime_other_entry :
      (old : Text) (w : W) (q : Text) {changed : Bool}
      → L.content w file ≡ some old
      → includes old (name_of p) ≡ true
      → includes old (entry c p old) ≡ false
      → (remove_runtime fs c p w).0 ≡ ok changed
      → (changed ≡ true) × (L.content (remove_runtime fs c p w).1 q ≡ L.content w q)
  remove_runtime_other_entry old w q holds present absent h =
      let rest = remove_runtime-content old w q holds h in
      (
        rest.0 ∙ present,
        rest.1 ∙ rw (present, remove_all-absent old (entry c p old) absent) (ground arith),
      )
