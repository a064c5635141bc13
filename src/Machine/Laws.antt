-- ===== src/Machine/Laws.antt =====
-- What the proofs use of a file system, as `afero` documents it: the contents of the regular files
-- by resolved name, and how the calls that go through change them.
use runtime_class_manager.Base.{
  ◌≡◌, sym, ap, ◌∙◌, Option, none, some, [], ◌++◌, true, Text, text_eq, ◌==◌, if◌then◌else◌,
}
use runtime_class_manager.Go.Outcome.{Error, is_not_exist, ok, err, Action, ◌>>=◌}
use runtime_class_manager.Go.Outcome.Laws.{>>=-eq-ok}
use mathlib.Core.Option.{some-injective}
use runtime_class_manager.Machine.{Fs}

-- The calls that change no file, whether they fail or not.
abbrev pub Keeps : {W A : Type 0} → (W → Text → Option Text) → Action W A → Type 0
Keeps {W} content m = (w : W) (q : Text) → content (m w).1 q ≡ content w q

pub record IsLawful {W : Type 0} (fs : Fs W) : Type 0 where
  pub content : W → Text → Option Text
  pub resolve : Text → Text
  pub read_file-Keeps : (p : Text) → Keeps content (fs.read_file p)
  pub stat-Keeps : (p : Text) → Keeps content (fs.stat p)
  pub mkdir_all-Keeps : (p : Text) → Keeps content (fs.mkdir_all p)
  pub open_append-Keeps : (p : Text) → Keeps content (fs.open_append p)
  pub close-Keeps : (p : Text) → Keeps content (fs.close p)
  pub content-read_file :
      (p b : Text) (w : W) → (fs.read_file p w).0 ≡ ok b → content w (resolve p) ≡ some b
  pub missing-read_file :
      (p : Text) (e : Error) (w : W)
      → (fs.read_file p w).0 ≡ err e
      → is_not_exist e ≡ true
      → content w (resolve p) ≡ none
  pub content-open_trunc :
      (p : Text) (w : W) (q : Text)
      → (fs.open_trunc p w).0 ≡ ok tt
      → content (fs.open_trunc p w).1 q ≡ (if q == resolve p then some [] else content w q)
  pub content-write_all :
      (p b : Text) (w : W) (q : Text) {old : Text}
      → content w (resolve p) ≡ some old
      → content (fs.write_all p b w).1 q
        ≡ (if q == resolve p then some (old ++ (fs.write_all p b w).0.0) else content w q)
  pub write_all-whole :
      (p b : Text) (w : W) → (fs.write_all p b w).0.1 ≡ none → (fs.write_all p b w).0.0 ≡ b
  pub content-write_file :
      (p b : Text) (w : W) (q : Text)
      → (fs.write_file p b w).0 ≡ ok tt
      → content (fs.write_file p b w).1 q ≡ (if q == resolve p then some b else content w q)
  pub content-append :
      (p b : Text) (w : W) (q : Text) {old : Text}
      → content w (resolve p) ≡ some old
      → (fs.append p b w).0 ≡ ok tt
      → content (fs.append p b w).1 q ≡ (if q == resolve p then some (old ++ b) else content w q)
  pub content-remove :
      (p : Text) (w : W) (q : Text)
      → (fs.remove p w).0 ≡ ok tt
      → content (fs.remove p w).1 q ≡ (if q == resolve p then none else content w q)
  pub missing-remove :
      (p : Text) (e : Error) (w : W)
      → (fs.remove p w).0 ≡ err e
      → is_not_exist e ≡ true
      → (content w (resolve p) ≡ none) × ((q : Text) → content (fs.remove p w).1 q ≡ content w q)

module _ {W B : Type 0} (fs : Fs W) (L : IsLawful fs) (p : Text) (f : Text → Action W B)
    (w : W) where
  -- A read that went through gave the contents of the file.
  pub read_file-step :
      (old : Text) {b : B}
      → L.content w (L.resolve p) ≡ some old
      → ((fs.read_file p >>= f) w).0 ≡ ok b
      → (fs.read_file p >>= f) w ≡ f old (fs.read_file p w).1
  read_file-step old e h =
      let (contents, read, step) = >>=-eq-ok (fs.read_file p) f w h in
      let same : contents ≡ old =
        some-injective contents old (sym (L.content-read_file p contents w read) ∙ e) in
      step ∙ ap (λ t. f t (fs.read_file p w).1) same
