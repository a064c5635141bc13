-- ===== src/Shim/Installation.antt =====
-- `Install` on a lawful file system, as an update of the map that the lock file records.
use runtime_class_manager.Base.{
  ◌<◌, ◌≡◌, ◌≢◌, refl, sym, ◌∙◌, Bool, Option, none, some, [], ◌∷◌, Text, text_eq, ==_refl, ==_ne,
  arith, All,
}
use runtime_class_manager.Go.Outcome.{Err, Outcome, ok, Action, ◌>>=◌, ◌>>◌}
use runtime_class_manager.Go.Outcome.Laws.{>>=_elim}
use runtime_class_manager.Go.Paths.{path_join, dir}
use runtime_class_manager.Machine.{Machine}
use runtime_class_manager.Machine.Laws.{IsLawful}
use runtime_class_manager.State.{State, get, lock_path}
use runtime_class_manager.State.Entry.{Shim}
use runtime_class_manager.State.Store.{IsAscii, Holds, Holds-map}
use runtime_class_manager.State.Disk.{get-Finds, lock_content}
use runtime_class_manager.Shim.{Config, runtime_name, dst_path, copy_hashed, install, first_error}
use runtime_class_manager.Shim.Removal.{get_world, get-lock_file_path}
use runtime_class_manager.Shim.Recording
use runtime_class_manager.Shim.Recording.{
  IsSource, Installed, Spares, finish-Done, first_error-none,
}

module _ {W : Type 0} (m : Machine W) (L : IsLawful m.host_fs) (c : Config) (shim_name : Text) where
  module _ (apart : L.resolve (dst_path c shim_name) ≢ L.resolve (lock_path c.rcm_path))
      (source : IsSource m L) (name_ascii : IsAscii (runtime_name shim_name))
      (dst_ascii : IsAscii (dst_path c shim_name))
      (digest : (bytes : Text) → All (λ b. b < 256) (m.sha256 bytes)) where
    abbrev src : Text
    src = path_join (c.asset_path ∷ shim_name ∷ [])

    abbrev dst : Text
    dst = dst_path c shim_name

    -- The end of the installation, and what is shown of it.
    abbrev finish : State → Text → Err → Action W (Text × Bool)
    finish = Recording.finish m L c shim_name apart source name_ascii dst_ascii digest

    abbrev Done : (Text → Option (Option Shim)) → W → Outcome (Text × Bool) × W → Type 0
    Done = Recording.Done m L c shim_name apart source name_ascii dst_ascii digest

    -- Copying into the emptied file leaves the bytes that were hashed, and the other files as they were.
    copy_hashed-content :
        (w : W) {r : Text × Err}
        → L.content w (L.resolve dst) ≡ some []
        → (copy_hashed m src dst w).0 ≡ ok r
        → (L.content (copy_hashed m src dst w).1 (L.resolve dst) ≡ some r.0)
          × ((q : Text)
              → q ≢ L.resolve dst
              → L.content (copy_hashed m src dst w).1 q ≡ L.content w q)
          × (r.1 ≡ none → (v : W) × ((m.root_fs.read_all src v).0 ≡ (r.0, none)))
    unfolding copy_hashed first_error
    copy_hashed-content w {r} empty h =
        let read = m.root_fs.read_all src w in
        let empty' = source.read_all-Keeps src w (L.resolve dst) ∙ empty in
        let same : (m.host_fs.write_all dst read.0.0 read.1).0.0 ≡ r.0 = ground arith in
        (
          L.content-write_all dst read.0.0 read.1 (L.resolve dst) empty' ∙ rw (==_refl, same) refl,
          λ q other.
              L.content-write_all dst read.0.0 read.1 q empty'
              ∙ rw (==_ne q (L.resolve dst) other) (source.read_all-Keeps src w q),
          λ complete.
              let wrote : (m.host_fs.write_all dst read.0.0 read.1).0.1 ≡ none =
                first_error-none (m.host_fs.write_all dst read.0.0 read.1).0.1 read.0.1
                  (ground (arith, complete)) in
              (
                w,
                ground (arith, complete, wrote, same, L.write_all-whole dst read.0.0 read.1 wrote),
              ),
        )

    abbrev stored : Action W (Text × Bool)
    stored = get m.host_fs c.rcm_path >>= λ st.
        copy_hashed m src dst >>= λ (hashed, copy_error). finish st hashed copy_error

    stored-Done :
        (find : Text → Option (Option Shim)) (before w : W) {result : Text × Bool}
        → Spares m L c shim_name before w
        → Holds (lock_content m.host_fs L c.rcm_path w) find
        → L.content w (L.resolve dst) ≡ some []
        → (stored w).0 ≡ ok result
        → Done find before (stored w)
    stored-Done find before w spared holds empty h =
        let read = L.read_file-Keeps (lock_path c.rcm_path) w in
        let kept : (q : Text) → L.content (get m.host_fs c.rcm_path w).1 q ≡ L.content w q =
          λ q. rw (get_world m.host_fs c.rcm_path w) (read q) in
        >>=_elim (get m.host_fs c.rcm_path)
          (λ st. copy_hashed m src dst >>= λ (hashed, copy_error). finish st hashed copy_error) w
          (Done find before) h
          (λ st got h'.
            let w' = (get m.host_fs c.rcm_path w).1 in
            >>=_elim (copy_hashed m src dst) (λ (hashed, copy_error). finish st hashed copy_error)
              w' (Done find before) h'
              (λ (hashed, copy_error) copied h''.
                let (there, rest, whole) =
                  copy_hashed-content w' (kept (L.resolve dst) ∙ empty) copied in
                finish-Done m L c shim_name apart source name_ascii dst_ascii digest st find hashed
                  copy_error before (copy_hashed m src dst w').1 whole
                  (λ q a b. rest q a ∙ (kept q ∙ spared q a b))
                  (get-Finds m.host_fs L c.rcm_path w holds got)
                  (get-lock_file_path m.host_fs c.rcm_path w got)
                  (Holds-map
                    (rest (L.resolve (lock_path c.rcm_path)) (λ e. apart (sym e))
                      ∙ kept (L.resolve (lock_path c.rcm_path)))
                    (λ n. refl) holds)
                  there h''))

    -- A call of Install that goes through on a lawful file system implements the update of a
    -- finite map, where the destination is not the lock file, reading the source changes no file,
    -- the runtime name and the destination are in ASCII, and digests are made of bytes: if the
    -- lock file recorded a map before, it records the same map with the entry of the binary
    -- afterwards, whose digest is that of the bytes now at the destination; these bytes are all
    -- that a read of the asset gave; the call reports no change exactly if that entry was there,
    -- and keeps every other file.
    pub install-Installed :
        (find : Text → Option (Option Shim)) (w : W) {result : Text × Bool}
        → Holds (lock_content m.host_fs L c.rcm_path w) find
        → (install m c shim_name w).0 ≡ ok result
        → (changed : Bool) × (bytes : Text) × Installed m L c shim_name find w
            (install m c shim_name w)
            changed
            bytes
    unfolding install
    install-Installed find w holds h =
        let lock = L.resolve (lock_path c.rcm_path) in
        >>=_elim (m.root_fs.open_read src)
          (λ _. m.host_fs.mkdir_all (dir dst) >> (m.host_fs.open_trunc dst >> stored)) w
          (Done find w) h
          (λ _ _ h1.
            let w1 = (m.root_fs.open_read src w).1 in
            >>=_elim (m.host_fs.mkdir_all (dir dst)) (λ _. m.host_fs.open_trunc dst >> stored) w1
              (Done find w) h1
              (λ _ _ h2.
                let w2 = (m.host_fs.mkdir_all (dir dst) w1).1 in
                >>=_elim (m.host_fs.open_trunc dst) (λ _. stored) w2 (Done find w) h2
                  (λ _ opened h3.
                    let w3 = (m.host_fs.open_trunc dst w2).1 in
                    let kept : (q : Text) → q ≢ L.resolve dst → L.content w3 q ≡ L.content w q =
                      λ q a.
                        L.content-open_trunc dst w2 q opened
                        ∙ rw (==_ne q (L.resolve dst) a)
                            (L.mkdir_all-Keeps (dir dst) w1 q ∙ source.open_read-Keeps src w q) in
                    stored-Done find w w3 (λ q a _. kept q a)
                      (Holds-map (kept lock (λ e. apart (sym e))) (λ n. refl) holds)
                      (L.content-open_trunc dst w2 (L.resolve dst) opened ∙ rw ==_refl refl) h3)))
