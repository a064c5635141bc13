-- ===== src/State/Disk.antt =====
-- The lock file on a lawful file system: `Get` and `Write`.
use runtime_class_manager.Base.{
  ◌≡◌, ◌≢◌, refl, sym, ◌∙◌, Option, [], Text, text_eq, ==_refl, ==_ne, arith, inl, inr,
}
use runtime_class_manager.Base.Dict.{lookup}
use runtime_class_manager.Go.Outcome.{ok}
use runtime_class_manager.Go.Outcome.Laws.{Outcome-cases}
use runtime_class_manager.Go.Json.Print.{marshal_indent}
use runtime_class_manager.Machine.{Fs}
use runtime_class_manager.Machine.Laws.{IsLawful}
use runtime_class_manager.State.{State, to_value, get, write, loaded, parsed_state, lock_path}
use runtime_class_manager.State.Entry.{Shim}
use runtime_class_manager.State.Store.{
  Holds, absent, written, Finds, find_shim-Finds, parse_shims-marshal_indent,
}

module _ {W : Type 0} (fs : Fs W) (L : IsLawful fs) where
  -- What stands in the lock file.
  abbrev pub lock_content : Text → W → Option Text
  lock_content rcm_path w = L.content w (L.resolve (lock_path rcm_path))

  pub get-Finds :
      (rcm_path : Text) (w : W) {st : State} {find : Text → Option (Option Shim)}
      → Holds (lock_content rcm_path w) find
      → (get fs rcm_path w).0 ≡ ok st
      → Finds st find
  unfolding get loaded parsed_state lookup
  get-Finds rcm_path w (absent none_there unknown) h =
      elim (Outcome-cases (fs.read_file (lock_path rcm_path) w).0) [
        | inl (t, e) ↦ absurd (ground (arith, L.content-read_file (lock_path rcm_path) t w e))
        | inr (inl (e, p)) ↦ record {
          map = [];
          shims-map = ground arith;
          map-IsCleanMap = record { entries = tt; distinct = tt };
          lookup-map = λ name. sym (unknown name);
        }
        | inr (inr (t, p)) ↦ absurd (ground arith)
      ]
  get-Finds rcm_path w (written text d there parsed clean agrees) h =
      elim (Outcome-cases (fs.read_file (lock_path rcm_path) w).0) [
        | inl (t, e) ↦ record {
          map = d;
          shims-map = ground (arith, L.content-read_file (lock_path rcm_path) t w e);
          map-IsCleanMap = clean;
          lookup-map = agrees;
        }
        | inr (inl (e, p)) ↦ absurd (ground (arith, L.missing-read_file (lock_path rcm_path) e w p))
        | inr (inr (t, p)) ↦ absurd (ground arith)
      ]

  pub write-Holds :
      (st : State) (w : W) {find : Text → Option (Option Shim)}
      → Finds st find
      → (write fs st w).0 ≡ ok tt
      → Holds (L.content (write fs st w).1 (L.resolve st.lock_file_path)) find
  unfolding write
  write-Holds st w f h =
      let (d', parsed, clean, found) =
        parse_shims-marshal_indent st f.map f.shims-map f.map-IsCleanMap in
      written (marshal_indent (to_value st)) d'
        (L.content-write_file st.lock_file_path (marshal_indent (to_value st)) w
            (L.resolve st.lock_file_path) h
          ∙ rw ==_refl refl)
        parsed clean (λ name. found name ∙ find_shim-Finds f name)

  pub write-others :
      (st : State) (w : W) (q : Text)
      → q ≢ L.resolve st.lock_file_path
      → (write fs st w).0 ≡ ok tt
      → L.content (write fs st w).1 q ≡ L.content w q
  unfolding write
  write-others st w q other h =
      L.content-write_file st.lock_file_path (marshal_indent (to_value st)) w q h
      ∙ rw (==_ne q (L.resolve st.lock_file_path) other) refl
