-- ===== src/Shim/Runs.antt =====
-- Sequences of installations and removals of shims on one host.
use runtime_class_manager.Base.{
  ◌<◌, ◌≡◌, ◌≢◌, refl, sym, ap, ◌∙◌, Bool, Option, none, some, Text, text_eq, ◌==◌, ==_iff, arith,
  All, inl, inr, Bool-cases,
}
use mathlib.Core.Option.{some-injective}
use runtime_class_manager.Go.Outcome.{ok}
use runtime_class_manager.Machine.{Machine}
use runtime_class_manager.Machine.Laws.{IsLawful}
use runtime_class_manager.State.{State, get, lock_path, find_shim}
use runtime_class_manager.State.Entry.{Shim}
use runtime_class_manager.State.Store.{with_entry, without_entry, IsAscii, Holds, find_shim-Finds}
use runtime_class_manager.State.Disk.{get-Finds, lock_content}
use runtime_class_manager.Shim.{Config, runtime_name, dst_path, install, uninstall}
use runtime_class_manager.Shim.Recording.{IsSource, recorded_shim, Installed}
use runtime_class_manager.Shim.Installation.{install-Installed}
use runtime_class_manager.Shim.Uninstallation.{Uninstalled, uninstall-Uninstalled}

-- What is asked of the binaries that are installed: their destinations are no two the same, unless
-- the binaries have one runtime name, and none is the lock file.
pub record AreApart {W : Type 0} (m : Machine W) (L : IsLawful m.host_fs) (c : Config)
    (IsBinary : Text → Type 0) : Type 0 where
  pub from_lock :
      (a : Text) → IsBinary a → L.resolve (dst_path c a) ≢ L.resolve (lock_path c.rcm_path)
  pub same_name :
      (a b : Text)
      → IsBinary a
      → IsBinary b
      → L.resolve (dst_path c a) ≡ L.resolve (dst_path c b)
      → runtime_name a ≡ runtime_name b
  pub name_ascii : (a : Text) → IsBinary a → IsAscii (runtime_name a)
  pub dst_ascii : (a : Text) → IsBinary a → IsAscii (dst_path c a)

module _ {W : Type 0} (m : Machine W) (c : Config) (IsBinary : Text → Type 0) where
  -- One installation or removal that went through, and any number of them.
  pub data Step (w : W) : W → Type 0 where
    installs :
        {r : Text × Bool} (bin : Text)
        → IsBinary bin
        → (install m c bin w).0 ≡ ok r
        → Step w (install m c bin w).1
    uninstalls :
        {p : Text} (name : Text) → (uninstall m c name w).0 ≡ ok p → Step w (uninstall m c name w).1

  pub data Run (w : W) : W → Type 0 where
    start : Run w w
    next : {w' w'' : W} → Run w w' → Step w' w'' → Run w w''

entry_injective : {a b : Shim} → some (some a) ≡ some (some b) → a ≡ b
entry_injective h = some-injective _ _ (some-injective _ _ h)

module _ {W : Type 0} (m : Machine W) (L : IsLawful m.host_fs) (c : Config)
    (IsBinary : Text → Type 0) where
  -- The binary of an entry: it lies where the entry says, and the entry has its digest.
  pub record IsStored (name : Text) (s : Shim) (w : W) : Type 0 where
    pub bin : Text
    pub bytes : Text
    pub bin-IsBinary : IsBinary bin
    pub named : runtime_name bin ≡ name
    pub located : s.path ≡ dst_path c bin
    pub copied : L.content w (L.resolve s.path) ≡ some bytes
    pub hashed : m.sha256 bytes ≡ s.sha256

  abbrev pub AreStored : (Text → Option (Option Shim)) → W → Type 0
  AreStored find w = (name : Text) (s : Shim) → find name ≡ some (some s) → IsStored name s w

  record IsConsistent (w : W) : Type 0 where
    pub find : Text → Option (Option Shim)
    pub holds : Holds (lock_content m.host_fs L c.rcm_path w) find
    pub stored : AreStored find w

  module _ (apart : AreApart m L c IsBinary) (source : IsSource m L)
      (digest : (bytes : Text) → All (λ b. b < 256) (m.sha256 bytes)) where
    pub install-AreStored :
        (find : Text → Option (Option Shim)) (bin bytes : Text) (w : W) {r : _} {changed : Bool}
        → IsBinary bin
        → AreStored find w
        → Installed m L c bin find w r changed bytes
        → AreStored (with_entry (runtime_name bin) (recorded_shim m L c bin bytes) find) r.1
    install-AreStored find bin bytes w binary stored i name s found =
        elim (Bool-cases (name == runtime_name bin)) [
          | inl same ↦
              let is : recorded_shim m L c bin bytes ≡ s = entry_injective (rw (same) at found) in
              let named : name ≡ runtime_name bin = (==_iff name (runtime_name bin)).0 same in
              rw (← is) (record {
                bin = bin;
                bytes = bytes;
                bin-IsBinary = binary;
                named = sym named;
                located = refl;
                copied = i.copied;
                hashed = refl;
              })
          | inr other ↦
              let old = stored name s (rw (other) at found) in
              let differs : name ≢ runtime_name bin =
                λ e. absurd (ground (arith, other, (==_iff name (runtime_name bin)).1 e)) in
              record {
                bin = old.bin;
                bytes = old.bytes;
                bin-IsBinary = old.bin-IsBinary;
                named = old.named;
                located = old.located;
                copied =
                    i.others (L.resolve s.path)
                      (λ e. differs (
                        sym old.named
                        ∙ apart.same_name old.bin bin old.bin-IsBinary binary
                            (ap L.resolve (sym old.located) ∙ e)))
                      (λ e.
                        apart.from_lock old.bin old.bin-IsBinary
                          (ap L.resolve (sym old.located) ∙ e))
                    ∙ old.copied;
                hashed = old.hashed;
              }
        ]

    uninstall-AreStored :
        (find : Text → Option (Option Shim)) (removed : Text) (w : W) {r : _} {gone : Shim}
        → AreStored find w
        → Uninstalled m L c removed find w r gone
        → AreStored (without_entry removed find) r.1
    uninstall-AreStored find removed w {r} {gone} stored u name s found =
        elim (Bool-cases (name == removed)) [
          | inl same ↦ absurd (ground (arith, found, same))
          | inr other ↦
              let old = stored name s (rw (other) at found) in
              let was = stored removed gone u.known in
              let differs : name ≢ removed =
                λ e. absurd (ground (arith, other, (==_iff name removed).1 e)) in
              record {
                bin = old.bin;
                bytes = old.bytes;
                bin-IsBinary = old.bin-IsBinary;
                named = old.named;
                located = old.located;
                copied =
                    u.others (L.resolve s.path)
                      (λ e. differs (
                        sym old.named
                        ∙ apart.same_name old.bin was.bin old.bin-IsBinary was.bin-IsBinary
                            (ap L.resolve (sym old.located) ∙ e ∙ ap L.resolve was.located)
                        ∙ was.named))
                      (λ e.
                        apart.from_lock old.bin old.bin-IsBinary
                          (ap L.resolve (sym old.located) ∙ e))
                    ∙ old.copied;
                hashed = old.hashed;
              }
        ]

    Step-IsConsistent : {w w' : W} → IsConsistent w → Step m c IsBinary w w' → IsConsistent w'
    Step-IsConsistent {w} k (installs bin binary h) =
        let (changed, bytes, i) =
          install-Installed m L c bin (apart.from_lock bin binary) source
            (apart.name_ascii bin binary) (apart.dst_ascii bin binary) digest k.find w k.holds h in
        record {
          find = with_entry (runtime_name bin) (recorded_shim m L c bin bytes) k.find;
          holds = i.recorded;
          stored = install-AreStored k.find bin bytes w binary k.stored i;
        }
    Step-IsConsistent {w} k (uninstalls name h) =
        let (s, u) = uninstall-Uninstalled m L c name k.find w k.holds h in
        record {
          find = without_entry name k.find;
          holds = u.recorded;
          stored = uninstall-AreStored k.find name w k.stored u;
        }

    Run-IsConsistent : {w w' : W} → IsConsistent w → Run m c IsBinary w w' → IsConsistent w'
    Run-IsConsistent k start = k
    Run-IsConsistent k (next run step) = Step-IsConsistent (Run-IsConsistent k run) step

    -- However installations and removals that go through follow each other on a lawful file system
    -- without a lock file at first, every entry that the lock file then gives has a file at its
    -- path whose digest is that of the entry: where destinations are not the lock file, no two of
    -- them are the same unless the runtime names are, names and destinations are in ASCII, reading
    -- the source changes no file, and digests are made of bytes.
    pub Run-find_shim :
        {w w' : W}
        → lock_content m.host_fs L c.rcm_path w ≡ none
        → Run m c IsBinary w w'
        → (st : State) (name : Text) (s : Shim) → (get m.host_fs c.rcm_path w').0 ≡ ok st
        → find_shim st name ≡ some (some s)
        → (bytes : Text) × (L.content w' (L.resolve s.path) ≡ some bytes)
          × (m.sha256 bytes ≡ s.sha256)
    Run-find_shim {w} {w'} empty run st name s got found =
        let begun : IsConsistent w = record {
          find = λ _. none;
          holds = Holds.absent empty (λ _. refl);
          stored = λ n t e. absurd (ground arith);
        } in
        let k = Run-IsConsistent begun run in
        let finds = get-Finds m.host_fs L c.rcm_path w' k.holds got in
        let stored = k.stored name s (sym (find_shim-Finds finds name) ∙ found) in
        (stored.bytes, stored.copied, stored.hashed)
