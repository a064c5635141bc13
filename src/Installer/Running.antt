-- ===== src/Installer/Running.antt =====
-- `RunInstall` on a lawful file system, as updates of the map in the lock file and of containerd's
-- configuration.
use runtime_class_manager.Base.{
  length, ◌<◌, ◌≡◌, refl, sym, ap, ◌∙◌, inl, inr, Bool, false, ◌||◌, some, List, [], ◌∷◌, ◌++◌,
  Text, txt, text_eq, ◌==◌, ==_ne, ==_refl, ==_iff, arith, All, Bool-cases, if◌then◌else◌,
}
use mathlib.Core.Path.{subst, subst⁻¹}
use runtime_class_manager.Go.Outcome.{Outcome, ok, Action, wrap, pure, ◌>>◌}
use runtime_class_manager.Go.Outcome.Laws.{>>=_elim, wrap-eq-ok, wrap_world}
use runtime_class_manager.Machine.{Machine, FileInfo}
use runtime_class_manager.Machine.Laws.{IsLawful}
use runtime_class_manager.State.Store.{with_entry}
use runtime_class_manager.Shim
use runtime_class_manager.Shim.{runtime_name, dst_path, install}
use runtime_class_manager.Shim.Recording.{IsSource, recorded_shim, Installed}
use runtime_class_manager.Shim.Installation.{install-Installed}
use runtime_class_manager.Shim.Runs.{AreApart}
use runtime_class_manager.Containerd
use runtime_class_manager.Containerd.{add_runtime}
use runtime_class_manager.Containerd.File.{added, add_runtime-content}
use runtime_class_manager.Installer.{install_file, install_files}
use runtime_class_manager.Installer.Hosting.{
  Find, registered, configured, IsOther, IsHost, IsApartFile, moved-IsHost, Installed-IsHost,
}

module _ {W : Type 0} (m : Machine W) (L : IsLawful m.host_fs) (sc : Shim.Config)
    (cc : Containerd.Config) (IsBinary : Text → Type 0) where
  abbrev Host : Find → Text → W → Type 0
  Host = IsHost m L sc cc IsBinary

  abbrev Other : List FileInfo → Text → Type 0
  Other = IsOther m L sc cc IsBinary

  abbrev entries : List FileInfo → List Text → Find → Find
  entries = registered m L sc cc IsBinary

  abbrev configs : List FileInfo → Text → Text
  configs = configured m L sc cc IsBinary

  -- What an installation of the files leaves behind.
  pub record Ran (files : List FileInfo) (find : Find) (config : Text) (before w : W)
      (was changed : Bool) : Type 0 where
    -- the bytes of each of the files
    pub bytes : List Text
    pub sized : length bytes ≡ length files
    pub host : Host (entries files bytes find) (configs files config) w
    -- no news means that nothing was new, and that the lock file says what it said
    pub news : changed ≡ false → (was ≡ false) × ((n : Text) → entries files bytes find n ≡ find n)
    pub others : (q : Text) → Other files q → L.content w q ≡ L.content before q

  module _ (apart : AreApart m L sc IsBinary) (alone : IsApartFile m L sc cc IsBinary)
      (source : IsSource m L) (digest : (bytes : Text) → All (λ b. b < 256) (m.sha256 bytes)) where
    -- One file: its entry, the configuration, and what is news.
    record FileRan (f : FileInfo) (find : Find) (config : Text) (before : W) (r : Outcome Bool × W)
        : Type 0 where
      pub now : Bool
      pub bytes : Text
      pub result : r.0 ≡ ok now
      pub host :
          Host
            (with_entry (runtime_name f.name) (recorded_shim m L sc f.name bytes) find)
            (added cc (dst_path sc f.name) config)
            r.1
      pub known :
          now ≡ false → find (runtime_name f.name) ≡ some (some (recorded_shim m L sc f.name bytes))
      pub others : (q : Text) → Other (f ∷ []) q → L.content r.1 q ≡ L.content before q

    add_runtime-FileRan :
        (f : FileInfo) (find : Find) (config bytes : Text) (before w : W) (now : Bool)
        {r : Outcome (Text × Bool) × W}
        → Host (with_entry (runtime_name f.name) (recorded_shim m L sc f.name bytes) find) config w
        → Installed m L sc f.name find before r now bytes
        → ((q : Text) → L.content w q ≡ L.content r.1 q)
        → let add =
            wrap
              (txt "failed to write containerd config")
              (add_runtime m.host_fs cc (dst_path sc f.name)) in
          (add w).0 ≡ ok tt → FileRan f find config before (ok now, (add w).1)
    add_runtime-FileRan f find config bytes before w now {r} h i same went =
        let t = txt "failed to write containerd config" in
        let m' = add_runtime m.host_fs cc (dst_path sc f.name) in
        let change : (q : Text)
            → L.content (wrap t m' w).1 q ≡ (
                if q == L.resolve cc.config_path
                then some (added cc (dst_path sc f.name) config)
                else L.content w q) =
          λ q.
            ap (λ v. L.content v q) (wrap_world m' w t)
            ∙ add_runtime-content m.host_fs L cc (dst_path sc f.name) config w q h.conf
                (wrap-eq-ok m' w t went) in
        record {
          now = now;
          bytes = bytes;
          result = refl;
          host =
              moved-IsHost m L sc cc IsBinary apart alone source digest _ config
                (added cc (dst_path sc f.name) config) w (wrap t m' w).1
                (λ q other. change q ∙ rw (==_ne q (L.resolve cc.config_path) other) refl)
                (change (L.resolve cc.config_path) ∙ rw (==_refl (L.resolve cc.config_path)) refl)
                h;
          known = λ e. i.news.0 e;
          others = λ q (binaries, lock, conf).
              change q
              ∙ (rw (==_ne q (L.resolve cc.config_path) conf) (same q)
                  ∙ i.others q binaries.0 lock);
        }

    install_file-FileRan :
        (f : FileInfo) (find : Find) (config : Text) (w : W) {now : Bool}
        → IsBinary f.name
        → Host find config w
        → (install_file m sc cc f.name w).0 ≡ ok now
        → FileRan f find config w (install_file m sc cc f.name w)
    unfolding install_file
    install_file-FileRan f find config w binary h went =
        let t = txt "failed to install shim '" ++ (runtime_name f.name ++ txt "'") in
        let t' = txt "failed to write containerd config" in
        let inst = install m sc f.name in
        let w1 = (wrap t inst w).1 in
        let add : Text → Action W (Unit {0}) = λ p. wrap t' (add_runtime m.host_fs cc p) in
        >>=_elim (wrap t inst) (λ (p, now). add p >> pure now) w (FileRan f find config w) went
          (λ (p, now) got h1.
            >>=_elim (add p) (λ _. pure now) w1 (FileRan f find config w) h1
              (λ _ wrote _.
                let got' = wrap-eq-ok inst w t got in
                let (changed, bytes, i) =
                  install-Installed m L sc f.name (apart.from_lock f.name binary) source
                    (apart.name_ascii f.name binary) (apart.dst_ascii f.name binary) digest find w
                    h.holds got' in
                let same : (p, now) ≡ (dst_path sc f.name, changed) =
                  ground (arith, i.path, got') in
                let h' = subst⁻¹ (Host _ config) (wrap_world inst w t) (
                  Installed-IsHost m L sc cc IsBinary apart alone source digest f find config bytes
                    w binary h i) in
                let ran =
                  add_runtime-FileRan f find config bytes w w1 changed h' i
                    (λ q. ap (λ v. L.content v q) (wrap_world inst w t))
                    (subst (λ (p, _). (add p w1).0 ≡ ok tt) same wrote) in
                subst⁻¹ (λ (p, now). FileRan f find config w (ok now, (add p w1).1)) same ran))

    file-Ran :
        (f : FileInfo) (files : List FileInfo) (find : Find) (config : Text) (w w' : W)
        (was now changed : Bool) {r : Outcome Bool × W}
        → (fr : FileRan f find config w r) → fr.now ≡ now
        → Ran files
            (with_entry (runtime_name f.name) (recorded_shim m L sc f.name fr.bytes) find)
            (added cc (dst_path sc f.name) config)
            r.1
            w'
            (was || now)
            changed
        → Ran (f ∷ files) find config w w' was changed
    file-Ran f files find config w w' was now changed fr same rest = record {
      bytes = fr.bytes ∷ rest.bytes;
      sized = omega (arith, rest.sized);
      host = rest.host;
      news = λ e.
          let (neither, kept) = rest.news e in
          let old : now ≡ false = ground (arith, neither) in
          let known = fr.known (same ∙ old) in
          (
            ground (arith, neither),
            λ n. kept n ∙ (elim (Bool-cases (n == runtime_name f.name)) [
              | inl is ↦ rw is (sym known ∙ ap find (sym ((==_iff n (runtime_name f.name)).0 is)))
              | inr other ↦ rw other refl
            ]),
          );
      others = λ q (binaries, lock, conf).
          rest.others q (binaries.1, lock, conf) ∙ fr.others q ((binaries.0, tt), lock, conf);
    }

    pub install_files-Ran :
        (files : List FileInfo) (find : Find) (config : Text) (was : Bool) (w : W) {changed : Bool}
        → All (λ f. IsBinary f.name) files
        → Host find config w
        → (install_files m sc cc files was w).0 ≡ ok changed
        → Ran files find config w (install_files m sc cc files was w).1 was changed
    unfolding install_files
    install_files-Ran [] find config was w {changed} binaries h went =
        let same : was ≡ changed = ground arith in
        record {
          bytes = [];
          sized = refl;
          host = h;
          news = λ e. (same ∙ e, λ n. refl);
          others = λ q _. refl;
        }
    install_files-Ran (f ∷ files) find config was w {changed} binaries h went =
        >>=_elim (install_file m sc cc f.name) (λ now. install_files m sc cc files (was || now)) w
          (λ r. Ran (f ∷ files) find config w r.1 was changed) went
          (λ now got went'.
            let fr = install_file-FileRan f find config w binaries.0 h got in
            let same : fr.now ≡ now = ground (arith, fr.result, got) in
            let w1 = (install_file m sc cc f.name w).1 in
            file-Ran f files find config w (install_files m sc cc files (was || now) w1).1 was now
              changed fr same
              (install_files-Ran files _ _ (was || now) w1 binaries.1 fr.host went'))
