-- ===== src/Installer/Hosting.antt =====
-- What the node installer keeps of a host: the lock file with its binaries, and the configuration.
use runtime_class_manager.Base.{
  ◌<◌, ◌≡◌, ◌≢◌, refl, sym, ap, ◌∙◌, Bool, Option, some, List, [], ◌∷◌, Text, text_eq, All,
}
use runtime_class_manager.Machine.{Machine, FileInfo}
use runtime_class_manager.Machine.Laws.{IsLawful}
use runtime_class_manager.State.{lock_path}
use runtime_class_manager.State.Entry.{Shim}
use runtime_class_manager.State.Store.{with_entry, Holds, Holds-map}
use runtime_class_manager.State.Disk.{lock_content}
use runtime_class_manager.Shim
use runtime_class_manager.Shim.{runtime_name, dst_path, install}
use runtime_class_manager.Shim.Recording.{IsSource, recorded_shim, Installed}
use runtime_class_manager.Shim.Runs.{AreApart, AreStored, install-AreStored}
use runtime_class_manager.Containerd
use runtime_class_manager.Containerd.{add_runtime}
use runtime_class_manager.Containerd.File.{added}

abbrev pub Find : Type 0
Find = Text → Option (Option Shim)

module _ {W : Type 0} (m : Machine W) (L : IsLawful m.host_fs) (sc : Shim.Config)
    (cc : Containerd.Config) (IsBinary : Text → Type 0) where
  -- The map of the lock file and the configuration, after the files whose bytes are these.
  abbrev pub registered : List FileInfo → List Text → Find → Find
  registered [] bytes find = find
  registered (f ∷ fs) [] find = find
  registered (f ∷ fs) (b ∷ bytes) find =
      registered fs bytes (with_entry (runtime_name f.name) (recorded_shim m L sc f.name b) find)

  abbrev pub configured : List FileInfo → Text → Text
  configured [] old = old
  configured (f ∷ fs) old = configured fs (added cc (dst_path sc f.name) old)

  -- A file that is neither one of the binaries, nor the lock file, nor the configuration.
  abbrev pub IsOther : List FileInfo → Text → Type 0
  IsOther files q =
      All (λ f. q ≢ L.resolve (dst_path sc f.name)) files
      × (q ≢ L.resolve (lock_path sc.rcm_path))
      × (q ≢ L.resolve cc.config_path)

  -- The lock file records a map, every entry of which has its binary, and the configuration is this.
  pub record IsHost (find : Find) (config : Text) (w : W) : Type 0 where
    pub holds : Holds (lock_content m.host_fs L sc.rcm_path w) find
    pub stored : AreStored m L sc IsBinary find w
    pub conf : L.content w (L.resolve cc.config_path) ≡ some config

  -- The configuration is neither the lock file nor a binary.
  pub record IsApartFile : Type 0 where
    pub from_lock : L.resolve cc.config_path ≢ L.resolve (lock_path sc.rcm_path)
    pub from_binary : (a : Text) → IsBinary a → L.resolve cc.config_path ≢ L.resolve (dst_path sc a)

  module _ (apart : AreApart m L sc IsBinary) (alone : IsApartFile) (source : IsSource m L)
      (digest : (bytes : Text) → All (λ b. b < 256) (m.sha256 bytes)) where
    -- A change of the configuration alone.
    pub moved-IsHost :
        (find : Find) (old new : Text) (w w' : W)
        → ((q : Text) → q ≢ L.resolve cc.config_path → L.content w' q ≡ L.content w q)
        → L.content w' (L.resolve cc.config_path) ≡ some new
        → IsHost find old w
        → IsHost find new w'
    moved-IsHost find old new w w' kept written h = record {
      holds =
          Holds-map (kept (L.resolve (lock_path sc.rcm_path)) (λ e. alone.from_lock (sym e)))
            (λ n. refl) h.holds;
      stored = λ name s found.
          let i = h.stored name s found in
          record {
            bin = i.bin;
            bytes = i.bytes;
            bin-IsBinary = i.bin-IsBinary;
            named = i.named;
            located = i.located;
            copied =
                kept (L.resolve s.path)
                  (λ e. alone.from_binary i.bin i.bin-IsBinary (sym e ∙ ap L.resolve i.located))
                ∙ i.copied;
            hashed = i.hashed;
          };
      conf = written;
    }

    pub Installed-IsHost :
        (f : FileInfo) (find : Find) (config bytes : Text) (w : W) {r : _} {changed : Bool}
        → IsBinary f.name
        → IsHost find config w
        → Installed m L sc f.name find w r changed bytes
        → IsHost
            (with_entry (runtime_name f.name) (recorded_shim m L sc f.name bytes) find)
            config
            r.1
    Installed-IsHost f find config bytes w binary h i = record {
      holds = i.recorded;
      stored =
          install-AreStored m L sc IsBinary apart source digest find f.name bytes w binary h.stored
            i;
      conf =
          i.others (L.resolve cc.config_path) (alone.from_binary f.name binary) alone.from_lock
          ∙ h.conf;
    }
