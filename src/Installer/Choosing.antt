-- ===== src/Installer/Choosing.antt =====
-- Which distribution is detected, and the order in which the loop meets the map.
use runtime_class_manager.Base.{
  ◌≡◌, sym, ap, ◌∙◌, Bool, true, false, some, List, [], ◌∷◌, ◌++◌, Text, text_eq, ◌==◌, arith, All,
  Any, ◌⊎◌, ◌↔◌, inl, inr, Bool-cases, Option-cases,
}
use runtime_class_manager.Go.Outcome.{Error, Err, ok, err, join}
use runtime_class_manager.Machine.{Fs, FileInfo}
use runtime_class_manager.Preset.{Settings, default_settings}
use runtime_class_manager.Installer.Detect.{
  Locations, default_containerd_config_location, undetected, detect_default, detect_from,
  detect_distro,
}

-- What is asked of `Stat`: it goes through exactly on what exists, and changes nothing.
pub record Stats {W : Type 0} (fs : Fs W) : Type 0 where
  pub exists : W → Text → Bool
  pub stat-exists :
      (p : Text) (w : W) → exists w p ≡ true → (i : FileInfo) × ((fs.stat p w).0 ≡ ok i)
  pub stat-missing :
      (p : Text) (w : W) → exists w p ≡ false → (e : Error) × ((fs.stat p w).0 ≡ err e)
  pub stat-Keeps : (p : Text) (w : W) (q : Text) → exists (fs.stat p w).1 q ≡ exists w q

module _ {W : Type 0} (fs : Fs W) (S : Stats fs) where
  abbrev pub Location : Type 0
  Location = Text × Settings W

  -- The location is listed, and exists.
  abbrev pub Present : W → Settings W → Location → Type 0
  Present w d (p, settings) = (settings ≡ d) × (S.exists w p ≡ true)

  -- What a detection finds: a location that exists, or else the default one.
  abbrev Finds : Locations W → W → Settings W → Type 0
  Finds locations w d =
      Any (Present w d) locations
      ⊎ (All (λ l. S.exists w l.0 ≡ false) locations
          × (S.exists w default_containerd_config_location ≡ true)
          × (d ≡ default_settings))

  undetected-fails : (errs : List Err) (w : W) (d : Settings W) → (undetected errs w).0 ≡ ok d → ⊥
  unfolding undetected
  undetected-fails errs w d h = elim (Option-cases (join errs)) [
    | inl e ↦ absurd (ground arith)
    | inr (x, e) ↦ absurd (ground arith)
  ]

  kept-Present :
      (p : Text) (w : W) (d : Settings W) (locations : Locations W)
      → Any (Present (fs.stat p w).1 d) locations
      → Any (Present w d) locations
  kept-Present p w d [] none_there = absurd none_there
  kept-Present p w d (l ∷ ls) (inl (same, there)) = inl (same, sym (S.stat-Keeps p w l.0) ∙ there)
  kept-Present p w d (l ∷ ls) (inr later) = inr (kept-Present p w d ls later)

  missing-Keeps :
      (p : Text) (w : W) (locations : Locations W)
      → All (λ l. S.exists (fs.stat p w).1 l.0 ≡ false) locations
      → All (λ l. S.exists w l.0 ≡ false) locations
  missing-Keeps p w [] h = tt
  missing-Keeps p w (l ∷ ls) h = (sym (S.stat-Keeps p w l.0) ∙ h.0, missing-Keeps p w ls h.1)

  detect_from-Finds :
      (locations : Locations W) (errs : List Err) (w : W) (d : Settings W)
      → (detect_from fs locations errs w).0 ≡ ok d
      → Finds locations w d
  unfolding detect_from detect_default
  detect_from-Finds [] errs w d h =
      elim (Bool-cases (S.exists w default_containerd_config_location)) [
        | inl there ↦
            let (i, e) = S.stat-exists default_containerd_config_location w there in
            inr (tt, there, ground arith)
        | inr missing ↦
            let (x, e) = S.stat-missing default_containerd_config_location w missing in
            absurd (undetected-fails (errs ++ (some x ∷ [])) _ d (rw (e, detect_default) at h))
      ]
  detect_from-Finds ((p, settings) ∷ locations) errs w d h = elim (Bool-cases (S.exists w p)) [
    | inl there ↦ let (i, e) = S.stat-exists p w there in inl (inl (ground arith, there))
    | inr missing ↦
        let (x, e) = S.stat-missing p w missing in
        let rest =
          detect_from-Finds locations (errs ++ (some x ∷ [])) (fs.stat p w).1 d
            (rw (e, detect_from) at h) in
        elim rest [
          | inl found ↦ inl (inr (kept-Present p w d locations found))
          | inr (none_there, default_there, same) ↦ inr (
            (missing, missing-Keeps p w locations none_there),
            sym (S.stat-Keeps p w default_containerd_config_location) ∙ default_there,
            same,
          )
        ]
  ]

  later-Present :
      (p : Text) (w : W) (d : Settings W) (locations : Locations W)
      → Any (Present w d) locations
      → Any (Present (fs.stat p w).1 d) locations
  later-Present p w d [] none_there = absurd none_there
  later-Present p w d (l ∷ ls) (inl (same, there)) = inl (same, S.stat-Keeps p w l.0 ∙ there)
  later-Present p w d (l ∷ ls) (inr later) = inr (later-Present p w d ls later)

  detect_from-ok :
      (locations : Locations W) (errs : List Err) (w : W) (d : Settings W)
      → Any (Present w d) locations ⊎ (S.exists w default_containerd_config_location ≡ true)
      → (d' : Settings W) × ((detect_from fs locations errs w).0 ≡ ok d')
  unfolding detect_from detect_default
  detect_from-ok [] errs w d (inl none_there) = absurd none_there
  detect_from-ok [] errs w d (inr there) =
      let (i, e) = S.stat-exists default_containerd_config_location w there in
      (default_settings, ground arith)
  detect_from-ok ((p, settings) ∷ locations) errs w d h = elim (Bool-cases (S.exists w p)) [
    | inl there ↦ let (i, e) = S.stat-exists p w there in (settings, ground arith)
    | inr missing ↦
        let (x, e) = S.stat-missing p w missing in
        let later : Any (Present (fs.stat p w).1 d) locations
            ⊎ (S.exists (fs.stat p w).1 default_containerd_config_location ≡ true) =
          elim h [
            | inl found ↦ elim found [
              | inl (same, there) ↦ absurd (ground (arith, there, missing))
              | inr rest ↦ inl (later-Present p w d locations rest)
            ]
            | inr there ↦ inr (S.stat-Keeps p w default_containerd_config_location ∙ there)
          ] in
        let (d', found) =
          detect_from-ok locations (errs ++ (some x ∷ [])) (fs.stat p w).1 d later in
        (d', rw (e, detect_from) found)
  ]

  missing-Present :
      (w : W) (d : Settings W) (locations : Locations W)
      → Any (Present w d) locations
      → All (λ l. S.exists w l.0 ≡ false) locations
      → ⊥
  missing-Present w d [] found missing = absurd found
  missing-Present w d (l ∷ ls) (inl (same, there)) missing = absurd (ground (arith, missing.0))
  missing-Present w d (l ∷ ls) (inr later) missing = missing-Present w d ls later missing.1

  -- Where a lookup goes through exactly on a file that exists, and changes nothing: if two orders
  -- of the map have the same locations that exist, and these all belong to one distribution, then
  -- what is detected in the one order is detected in the other.
  pub detect_distro-order :
      (locations locations' : Locations W) (config_path : Text) (w : W) (d : Settings W)
      → ((d : Settings W) → Any (Present w d) locations ↔ Any (Present w d) locations')
      → ((d d' : Settings W) → Any (Present w d) locations → Any (Present w d') locations → d ≡ d')
      → (detect_distro locations config_path fs w).0 ≡ ok d
      → (detect_distro locations' config_path fs w).0 ≡ ok d
  unfolding detect_distro
  detect_distro-order locations locations' config_path w d same one h =
      elim (Bool-cases (config_path == [])) [
        | inl empty ↦
            let found : Finds locations w d =
              detect_from-Finds locations [] w d (rw (empty, detect_distro) at h) in
            let (d', ends) = detect_from-ok locations' [] w d (elim found [
              | inl present ↦ inl ((same d).0 present)
              | inr (missing, there, _) ↦ inr there
            ]) in
            let equal : d' ≡ d = agree d d' found (detect_from-Finds locations' [] w d' ends) in
            rw (empty, detect_distro) (ends ∙ ap ok equal)
        | inr explicit ↦ rw (explicit, detect_distro) (rw (explicit, detect_distro) at h)
      ]
    where
      agree : (d d' : Settings W) → Finds locations w d → Finds locations' w d' → d' ≡ d
      agree d d' (inl p) (inl q) = one d' d ((same d').1 q) p
      agree d d' (inl p) (inr (missing, _, _)) =
          absurd (missing-Present w d locations' ((same d).0 p) missing)
      agree d d' (inr (missing, _, _)) (inl q) =
          absurd (missing-Present w d' locations ((same d').1 q) missing)
      agree d d' (inr (_, _, e)) (inr (_, _, e')) = e' ∙ sym e
