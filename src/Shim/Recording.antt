-- ===== src/Shim/Recording.antt =====
-- The end of `Install` on a lawful file system: what is recorded in the lock file.
use runtime_class_manager.Base.{
  ◌<◌, ◌≡◌, ◌≢◌, ◌↔◌, refl, sym, ap, ◌∙◌, Bool, true, false, Option, none, some, [], ◌∷◌, Text,
  text_eq, arith, All,
}
use runtime_class_manager.Go.Outcome.{Err, Outcome, ok, Action, pure, return_err, lift, ◌>>=◌, ◌>>◌}
use runtime_class_manager.Go.Outcome.Laws.{>>=_elim}
use runtime_class_manager.Go.Paths.{path_join}
use runtime_class_manager.Machine.{Machine}
use runtime_class_manager.Machine.Laws.{IsLawful}
use runtime_class_manager.State.{State, lock_path, shim_changed, write}
use runtime_class_manager.State.Entry.{Shim}
use runtime_class_manager.State.Laws.{shim_changed_iff}
use runtime_class_manager.State.Store.{
  with_entry, update_shim-Finds, IsAscii, Holds, Holds-map, Finds, find_shim-Finds,
}
use runtime_class_manager.State.Disk.{write-others, write-Holds, lock_content}
use runtime_class_manager.Shim.{Config, runtime_name, dst_path, record_shim, first_error}

-- Reading through the root file system changes no file of the host.
pub record IsSource {W : Type 0} (m : Machine W) (L : IsLawful m.host_fs) : Type 0 where
  pub open_read-Keeps :
      (p : Text) (w : W) (q : Text) → L.content (m.root_fs.open_read p w).1 q ≡ L.content w q
  pub read_all-Keeps :
      (p : Text) (w : W) (q : Text) → L.content (m.root_fs.read_all p w).1 q ≡ L.content w q

pub first_error-none : (e e' : Err) → first_error e e' ≡ none → e ≡ none
unfolding first_error
first_error-none none e' h = refl
first_error-none (some e) e' h = absurd (ground arith)

returned-none : {W : Type 0} (e : Err) (w : W) → (return_err e w).0 ≡ ok tt → e ≡ none
returned-none none w h = refl
returned-none (some e) w h = absurd (ground arith)

return_err_world : {W : Type 0} (e : Err) (w : W) → (return_err e w).1 ≡ w
return_err_world none w = refl
return_err_world (some e) w = refl

ok_injective : {a b : Bool} → ok a ≡ ok b → a ≡ b
ok_injective h = ground arith

module _ {W : Type 0} (m : Machine W) (L : IsLawful m.host_fs) (c : Config) (shim_name : Text) where
  abbrev dst : Text
  dst = dst_path c shim_name

  abbrev name : Text
  name = runtime_name shim_name

  abbrev pub recorded_shim : Text → Shim
  recorded_shim bytes = record { sha256 = m.sha256 bytes; path = dst_path c shim_name }

  -- The files other than the binary and the lock file.
  abbrev pub Spares : W → W → Type 0
  Spares w w' =
      (q : Text)
      → q ≢ L.resolve (dst_path c shim_name)
      → q ≢ L.resolve (lock_path c.rcm_path)
      → L.content w' q ≡ L.content w q

  -- What an installation leaves behind: the binary, the lock file that records its digest and its
  -- path beside what it recorded, whether that is news, and the other files as they were;
  -- the binary is all that was read of the asset.
  pub record Installed (find : Text → Option (Option Shim)) (w : W) (r : Outcome (Text × Bool) × W)
      (changed : Bool) (bytes : Text) : Type 0 where
    pub path : r.0 ≡ ok (dst_path c shim_name, changed)
    pub copied : L.content r.1 (L.resolve (dst_path c shim_name)) ≡ some bytes
    pub recorded :
        Holds
          (lock_content m.host_fs L c.rcm_path r.1)
          (with_entry (runtime_name shim_name) (recorded_shim bytes) find)
    pub news :
        (changed ≡ false) ↔ (find (runtime_name shim_name) ≡ some (some (recorded_shim bytes)))
    pub others : Spares w r.1
    pub whole :
        (v : W) × ((m.root_fs.read_all (path_join (c.asset_path ∷ shim_name ∷ [])) v).0
          ≡ (bytes, none))

  module _ (apart : L.resolve (dst_path c shim_name) ≢ L.resolve (lock_path c.rcm_path))
      (source : IsSource m L) (name_ascii : IsAscii (runtime_name shim_name))
      (dst_ascii : IsAscii (dst_path c shim_name))
      (digest : (bytes : Text) → All (λ b. b < 256) (m.sha256 bytes)) where
    abbrev src : Text
    src = path_join (c.asset_path ∷ shim_name ∷ [])

    abbrev pub finish : State → Text → Err → Action W (Text × Bool)
    finish st hashed copy_error = lift (shim_changed st name (m.sha256 hashed) dst) >>= λ changed.
        record_shim m st name (m.sha256 hashed) dst changed
        >> (return_err copy_error >> pure (dst, changed))

    record_shim-Installed :
        (st : State) (find : Text → Option (Option Shim)) (bytes : Text) (w : W) (changed : Bool)
        → Finds st find
        → st.lock_file_path ≡ lock_path c.rcm_path
        → Holds (lock_content m.host_fs L c.rcm_path w) find
        → L.content w (L.resolve dst) ≡ some bytes
        → shim_changed st name (m.sha256 bytes) dst ≡ ok changed
        → (record_shim m st name (m.sha256 bytes) dst changed w).0 ≡ ok tt
        → let w' = (record_shim m st name (m.sha256 bytes) dst changed w).1 in
          (L.content w' (L.resolve dst) ≡ some bytes)
          × Holds
              (lock_content m.host_fs L c.rcm_path w')
              (with_entry name (recorded_shim bytes) find)
          × Spares w w'
    unfolding record_shim
    record_shim-Installed st find bytes w false finds located holds there same h =
        let known : find name ≡ some (some (recorded_shim bytes)) =
          sym (find_shim-Finds finds name)
          ∙ (shim_changed_iff st name (m.sha256 bytes) dst).0 same in
        (there, Holds-map refl (λ n. ground (arith, known)) holds, λ q _ _. refl)
    record_shim-Installed st find bytes w true finds located holds there same h =
        let (st', e, finds', kept) =
          update_shim-Finds name (recorded_shim bytes) finds
            (name_ascii, (digest bytes, dst_ascii)) in
        let path : st'.lock_file_path ≡ lock_path c.rcm_path = kept ∙ located in
        let step : record_shim m st name (m.sha256 bytes) dst true w ≡ write m.host_fs st' w =
          ground (arith, e) in
        let wrote : (write m.host_fs st' w).0 ≡ ok tt = ap (λ r. r.0) (sym step) ∙ h in
        (
          ap (λ r. L.content r.1 (L.resolve dst)) step
              ∙ (write-others m.host_fs L st' w (L.resolve dst) (λ e. apart (e ∙ ap L.resolve path))
                    wrote
                  ∙ there),
          Holds-map
              (ap (λ r. lock_content m.host_fs L c.rcm_path r.1) step
                ∙ ap (λ v. L.content (write m.host_fs st' w).1 (L.resolve v)) (sym path))
              (λ n. refl) (write-Holds m.host_fs L st' w finds' wrote),
          λ q _ other.
              ap (λ r. L.content r.1 q) step
              ∙ write-others m.host_fs L st' w q (λ e. other (e ∙ ap L.resolve path)) wrote,
        )

    abbrev pub Done : (Text → Option (Option Shim)) → W → Outcome (Text × Bool) × W → Type 0
    Done find before r = (changed : Bool) × (bytes : Text) × Installed find before r changed bytes

    pub finish-Done :
        (st : State) (find : Text → Option (Option Shim)) (bytes : Text) (copy_error : Err)
        (before w : W) {result : Text × Bool}
        → (copy_error ≡ none → (v : W) × ((m.root_fs.read_all src v).0 ≡ (bytes, none)))
        → Spares before w
        → Finds st find
        → st.lock_file_path ≡ lock_path c.rcm_path
        → Holds (lock_content m.host_fs L c.rcm_path w) find
        → L.content w (L.resolve dst) ≡ some bytes
        → (finish st bytes copy_error w).0 ≡ ok result
        → Done find before (finish st bytes copy_error w)
    finish-Done st find bytes copy_error before w whole spared finds located holds there h =
        >>=_elim (lift (shim_changed st name (m.sha256 bytes) dst))
          (λ changed.
            record_shim m st name (m.sha256 bytes) dst changed
            >> (return_err copy_error >> pure (dst, changed)))
          w (Done find before) h
          (λ changed same h'.
            >>=_elim (record_shim m st name (m.sha256 bytes) dst changed)
              (λ _. return_err copy_error >> pure (dst, changed)) w (Done find before) h'
              (λ _ recorded h''.
                let (copied, holds', spared') =
                  record_shim-Installed st find bytes w changed finds located holds there same
                    recorded in
                let w' = (record_shim m st name (m.sha256 bytes) dst changed w).1 in
                >>=_elim (return_err copy_error) (λ _. pure (dst, changed)) w' (Done find before)
                  h''
                  (λ _ returned _. (
                    changed,
                    bytes,
                    record {
                      path = refl;
                      copied = rw (return_err_world copy_error w') copied;
                      recorded = rw (return_err_world copy_error w') holds';
                      whole = whole (returned-none copy_error w' returned);
                      others = λ q a b.
                          rw (return_err_world copy_error w') (spared' q a b ∙ spared q a b);
                      news = (
                        λ e.
                            sym (find_shim-Finds finds name)
                            ∙ (shim_changed_iff st name (m.sha256 bytes) dst).0 (rw (← e) same),
                        λ e. ok_injective (
                            sym same
                            ∙ (shim_changed_iff st name (m.sha256 bytes) dst).1
                                (find_shim-Finds finds name ∙ e)),
                      );
                    },
                  ))))
