-- ===== src/Preset/Setup.antt =====
-- The setup of RKE2 and K3s on a lawful file system.
use runtime_class_manager.Base.{
  ◌≡◌, ◌≢◌, refl, sym, ap, ◌∙◌, ◌⊎◌, inl, inr, true, some, none, [], Text, txt, text_eq, ◌==◌,
  ==_ne, ==_refl, if◌then◌else◌, arith, Bool-cases,
}
use runtime_class_manager.Go.Strings.{cut_suffix}
use runtime_class_manager.Go.Outcome.{Error, Err, ok, err, is_not_exist, attempt, ◌>>=◌, Action}
use runtime_class_manager.Go.Outcome.Laws.{Outcome-cases, >>=_elim, attempt_world}
use runtime_class_manager.Machine.{Fs, FileInfo}
use runtime_class_manager.Machine.Laws.{IsLawful, Keeps}
use runtime_class_manager.Shim.{first_error}
use runtime_class_manager.Preset.{
  unless_exists, copy, finish_copy, copy_into, create_from, rke2_setup,
}

-- What is asked of reads besides: they change no file, a read to the end gives the contents, and a
-- file that `Stat` does not find has none.
pub record Reads {W : Type 0} (fs : Fs W) (L : IsLawful fs) : Type 0 where
  pub open_read-Keeps : (p : Text) → Keeps L.content (fs.open_read p)
  pub sync-Keeps : (p : Text) → Keeps L.content (fs.sync p)
  pub read_all-Keeps :
      (p : Text) (w : W) (q : Text) → L.content (fs.read_all p w).1 q ≡ L.content w q
  pub content-read_all :
      (p b : Text) (w : W) → (fs.read_all p w).0 ≡ (b, none) → L.content w (L.resolve p) ≡ some b
  pub stat-missing :
      (p : Text) (e : Error) (w : W)
      → (fs.stat p w).0 ≡ err e
      → is_not_exist e ≡ true
      → L.content w (L.resolve p) ≡ none

both_none : (e e' : Err) → first_error e e' ≡ none → (e ≡ none) × (e' ≡ none)
unfolding first_error
both_none none e' h = (refl, h)
both_none (some e) e' h = absurd (ground arith)

module _ {W : Type 0} {fs : Fs W} (L : IsLawful fs) (src p : Text) where
  -- The file at `p` has become a copy of that at `src`, and nothing else has changed.
  abbrev pub Copied : W → W → Type 0
  Copied w w' =
      (base : Text) × (L.content w (L.resolve src) ≡ some base)
      × ((q : Text) → L.content w' q ≡ (if q == L.resolve p then some base else L.content w q))

  later-Copied :
      {w w' w'' : W} → Copied w w' → ((q : Text) → L.content w'' q ≡ L.content w' q) → Copied w w''
  later-Copied (base, e, c) same = (base, e, λ q. same q ∙ c q)

  earlier-Copied :
      {w w' w'' : W} → ((q : Text) → L.content w' q ≡ L.content w q) → Copied w' w'' → Copied w w''
  earlier-Copied same (base, e, c) =
      (base, sym (same (L.resolve src)) ∙ e, λ q. ground (arith, c q, same q))

  -- An emptied file that becomes a copy is a copy of what the other file held before.
  emptied-Copied :
      {w w' w'' : W}
      → L.resolve src ≢ L.resolve p
      → ((q : Text) → L.content w' q ≡ (if q == L.resolve p then some [] else L.content w q))
      → Copied w' w''
      → Copied w w''
  emptied-Copied {w} {w'} {w''} apart emptied (base, e, c) = (
    base,
    sym (emptied (L.resolve src) ∙ rw (==_ne (L.resolve src) (L.resolve p) apart) refl) ∙ e,
    λ q. ground (arith, emptied q, c q),
  )

module _ {W : Type 0} (fs : Fs W) (L : IsLawful fs) (R : Reads fs L) (src p : Text) where
  copy-Copied :
      (w : W)
      → L.content w (L.resolve p) ≡ some []
      → (copy fs src p w).0 ≡ none
      → Copied L src p w (copy fs src p w).1
  unfolding copy
  copy-Copied w empty h =
      let read = fs.read_all src w in
      let wrote = fs.write_all p read.0.0 read.1 in
      let (written, complete) = both_none wrote.0.1 read.0.1 h in
      let kept = R.read_all-Keeps src w in
      (
        read.0.0,
        R.content-read_all src read.0.0 w (ap (λ e. (read.0.0, e)) complete),
        λ q.
            L.content-write_all p read.0.0 read.1 q (kept (L.resolve p) ∙ empty)
            ∙ rw (L.write_all-whole p read.0.0 read.1 written, kept) refl,
      )

  -- The calls that follow the copy change no file.
  closing-Keeps :
      (w : W) (q : Text)
      → L.content (attempt (fs.close src) (attempt (fs.close p) (attempt (fs.sync p) w).1).1).1 q
        ≡ L.content w q
  closing-Keeps w q =
      let w1 = (attempt (fs.sync p) w).1 in
      let w2 = (attempt (fs.close p) w1).1 in
      ap (λ v. L.content v q) (attempt_world (fs.close src) w2)
      ∙ L.close-Keeps src w2 q
      ∙ ap (λ v. L.content v q) (attempt_world (fs.close p) w1)
      ∙ L.close-Keeps p w1 q
      ∙ ap (λ v. L.content v q) (attempt_world (fs.sync p) w)
      ∙ R.sync-Keeps p w q

  finish_copy-eq-ok :
      (e : Err) (w : W)
      → (finish_copy fs p e w).0 ≡ ok tt
      → (e ≡ none) × ((finish_copy fs p e w).1 ≡ (attempt (fs.sync p) w).1)
  unfolding finish_copy
  finish_copy-eq-ok none w h = (refl, refl)
  finish_copy-eq-ok (some e) w h = absurd (ground arith)

  copy_into-Copied :
      (w : W)
      → L.content w (L.resolve p) ≡ some []
      → (copy_into fs src p w).0 ≡ ok tt
      → Copied L src p w (copy_into fs src p w).1
  unfolding copy_into
  copy_into-Copied w empty h =
      let c = copy fs src p w in
      let (done, closed) = finish_copy-eq-ok c.0 c.1 h in
      later-Copied L src p (copy-Copied w empty done) (λ q. rw closed (closing-Keeps c.1 q))

  create_from_lem :
      (w : W)
      → (fs.open_trunc p w).0 ≡ ok tt
      → create_from fs src p w ≡ copy_into fs src p (fs.open_trunc p w).1
  unfolding create_from
  create_from_lem w e = ground arith

  create_from-eq-ok : (w : W) → (create_from fs src p w).0 ≡ ok tt → (fs.open_trunc p w).0 ≡ ok tt
  unfolding create_from
  create_from-eq-ok w h = elim (Outcome-cases (fs.open_trunc p w).0) [
    | inl (_, e) ↦ e
    | inr (inl (x, e)) ↦ absurd (ground arith)
    | inr (inr (x, e)) ↦ absurd (ground arith)
  ]

  create_from-Copied :
      (w : W)
      → L.resolve src ≢ L.resolve p
      → (create_from fs src p w).0 ≡ ok tt
      → Copied L src p w (create_from fs src p w).1
  create_from-Copied w apart h =
      let opened = create_from-eq-ok w h in
      let step = create_from_lem w opened in
      let emptied = λ (q : Text). L.content-open_trunc p w q opened in
      let w' = (fs.open_trunc p w).1 in
      let empty : L.content w' (L.resolve p) ≡ some [] = rw (emptied, ==_refl) refl in
      rw step (
        emptied-Copied L src p apart emptied
          (copy_into-Copied w' empty (ap (λ r. r.0) (sym step) ∙ h)))

unless_exists-eq-ok :
    {W : Type 0} (fs : Fs W) (p : Text) (create : Action W (Unit {0})) (w : W)
    → (unless_exists fs p create w).0 ≡ ok tt
    → ((info : FileInfo) × ((fs.stat p w).0 ≡ ok info)
        × ((unless_exists fs p create w).1 ≡ (fs.stat p w).1))
      ⊎ ((e : Error) × ((fs.stat p w).0 ≡ err e)
          × (is_not_exist e ≡ true)
          × (unless_exists fs p create w ≡ create (fs.stat p w).1))
unfolding unless_exists
unless_exists-eq-ok fs p create w h = elim (Outcome-cases (fs.stat p w).0) [
  | inl (info, e) ↦ inl (info, e, ground arith)
  | inr (inl (x, e)) ↦ elim (Bool-cases (is_not_exist x)) [
    | inl missing ↦ inr (x, e, missing, ground arith)
    | inr other ↦ absurd (ground arith)
  ]
  | inr (inr (t, e)) ↦ absurd (ground arith)
]

module _ {W : Type 0} (fs : Fs W) (L : IsLawful fs) (R : Reads fs L) (p : Text) (w : W) where
  -- A setup of RKE2 or K3s that goes through, on lawful files where the template is not the file of
  -- the base configuration, reads change no file, and a file that is not found has no contents,
  -- either found the template and left every file as it was, or found none, and the template now
  -- holds what the base configuration held, with every other file as it was.
  pub rke2_setup-content :
      L.resolve (cut_suffix p (txt ".tmpl")) ≢ L.resolve p
      → (rke2_setup fs p w).0 ≡ ok tt
      → ((info : FileInfo) × ((fs.stat p w).0 ≡ ok info)
          × ((q : Text) → L.content (rke2_setup fs p w).1 q ≡ L.content w q))
        ⊎ ((L.content w (L.resolve p) ≡ none)
            × Copied L (cut_suffix p (txt ".tmpl")) p w (rke2_setup fs p w).1)
  unfolding rke2_setup
  rke2_setup-content apart h =
      let src = cut_suffix p (txt ".tmpl") in
      let w' = (fs.stat p w).1 in
      let create : Action W (Unit {0}) = fs.open_read src >>= λ _. create_from fs src p in
      elim (unless_exists-eq-ok fs p create w h) [
        | inl (info, e, same) ↦
            inl (info, e, λ q. ap (λ v. L.content v q) same ∙ L.stat-Keeps p w q)
        | inr (x, e, missing, step) ↦
            let read = fs.open_read src w' in
            let kept = λ (q : Text). R.open_read-Keeps src w' q ∙ L.stat-Keeps p w q in
            let through = ap (λ r. r.0) (sym step) ∙ h in
            let copied : Copied L src p w (create w').1 =
              >>=_elim (fs.open_read src) (λ _. create_from fs src p) w' (λ r. Copied L src p w r.1)
                through
                (λ _ _ done.
                  earlier-Copied L src p kept
                    (create_from-Copied fs L R src p read.1 apart done)) in
            inr (R.stat-missing p x w e missing, rw step copied)
      ]
