-- ===== src/Containerd/Choice.antt =====
-- Which service or process a restart picks.
use runtime_class_manager.Base.{
  ℕ, ◌≡◌, ◌≢◌, refl, sym, ap, ◌∙◌, ◌↔◌, ◌++◌, All, inr, txt, ◌==◌, Bool-cases, true, false, List,
  [], ◌∷◌, Text, text_eq, arith, ◌⊎◌, inl,
}
use runtime_class_manager.Go.Strings.{has_prefix, includes}
use runtime_class_manager.Go.Outcome.{Outcome, ok}
use runtime_class_manager.Machine.{Machine, Process}
use runtime_class_manager.Containerd.Restart.{
  find_either, named, only_pid, get_pid, list_systemd_units, restart_service, restart,
  k0s_restarter, rke2_restarter, restart_k0s, restart_rke2,
}

find_either-includes :
    (x y : ℕ) (xs ys s : Text)
    → ((find_either (x ∷ xs) (y ∷ ys) s ≡ [])
        × (includes s (x ∷ xs) ≡ false)
        × (includes s (y ∷ ys) ≡ false))
      ⊎ (((find_either (x ∷ xs) (y ∷ ys) s ≡ x ∷ xs) × (includes s (x ∷ xs) ≡ true))
          ⊎ ((find_either (x ∷ xs) (y ∷ ys) s ≡ y ∷ ys) × (includes s (y ∷ ys) ≡ true)))
unfolding find_either includes has_prefix
find_either-includes x y xs ys [] = inl (refl, refl, refl)
find_either-includes x y xs ys (c ∷ s) = ground (arith, find_either-includes x y xs ys s)

module _ {W : Type 0} (m : Machine W) where
  -- What ended as `r` was the restart of a service: of one of the two that the list of units
  -- mentions, or, if it mentions neither, of the service with the empty name.
  abbrev pub Restarts : Text → Text → Text → W → Outcome (Unit {0}) × W → Type 0
  Restarts first second units w r =
      (service : Text) × (r ≡ restart_service m service w)
      × (((service ≡ []) × (includes units first ≡ false) × (includes units second ≡ false))
          ⊎ (((service ≡ first) × (includes units first ≡ true))
              ⊎ ((service ≡ second) × (includes units second ≡ true))))

  -- Where the units can be listed, restarting K0s restarts its worker or its controller, and restarting
  -- RKE2 its agent or its server, whichever the list mentions. If it mentions neither, what is
  -- restarted is a service with the empty name.
  pub restart-Restarts :
      (w : W) {units : Text}
      → (list_systemd_units m w).0 ≡ ok units
      → Restarts
          (txt "k0sworker")
          (txt "k0scontroller")
          units
          (list_systemd_units m w).1
          (restart m k0s_restarter w)
        × Restarts
            (txt "rke2-agent")
            (txt "rke2-server")
            units
            (list_systemd_units m w).1
            (restart m rke2_restarter w)
  unfolding restart restart_k0s restart_rke2 txt
  restart-Restarts w {units} listed = (
    (
      find_either (txt "k0sworker") (txt "k0scontroller") units,
      ground arith,
      find_either-includes _ _ _ _ units,
    ),
    (
      find_either (txt "rke2-agent") (txt "rke2-server") units,
      ground arith,
      find_either-includes _ _ _ _ units,
    ),
  )

-- The one process of the list with the executable's name.
pub record OnlyProcess (executable : Text) (ps : List Process) (p : Process) : Type 0 where
  pub before : List Process
  pub after : List Process
  pub split : ps ≡ before ++ (p ∷ after)
  pub is_named : p.executable ≡ executable
  pub none_before : All (λ q. q.executable ≢ executable) before
  pub none_after : All (λ q. q.executable ≢ executable) after

named-none :
    (executable : Text) (ps : List Process)
    → (named executable ps ≡ []) ↔ All (λ q. q.executable ≢ executable) ps
unfolding named
named-none executable [] = (λ _. tt, λ _. refl)
named-none executable (q ∷ ps) =
    let rest = named-none executable ps in
    (λ h. (ground arith, rest.0 (ground arith)), λ (ne, others). ground (arith, rest.1 others))

named-only :
    (executable : Text) (ps : List Process) (p : Process)
    → named executable ps ≡ p ∷ []
    → OnlyProcess executable ps p
unfolding named
named-only executable [] p h = absurd (ground arith)
named-only executable (q ∷ ps) p h = elim (Bool-cases (q.executable == executable)) [
  | inl hit ↦
      let same : q ≡ p = ground arith in
      record {
        before = [];
        after = ps;
        split = ap (λ r. r ∷ ps) same;
        is_named = ground arith;
        none_before = tt;
        none_after = (named-none executable ps).0 (ground arith);
      }
  | inr miss ↦
      let o = named-only executable ps p (ground arith) in
      record {
        before = q ∷ o.before;
        after = o.after;
        split = ap (λ r. q ∷ r) o.split;
        is_named = o.is_named;
        none_before = (λ e. absurd (ground arith), o.none_before);
        none_after = o.none_after;
      }
]

only-named :
    (executable : Text) (before after : List Process) (p : Process)
    → p.executable ≡ executable
    → All (λ q. q.executable ≢ executable) before
    → All (λ q. q.executable ≢ executable) after
    → named executable (before ++ (p ∷ after)) ≡ p ∷ []
unfolding named
only-named executable [] after p same before_it after_it =
    let rest = (named-none executable after).1 after_it in ground arith
only-named executable (q ∷ before) after p same before_it after_it =
    let rest = only-named executable before after p same before_it.1 after_it in
    let ne = before_it.0 in ground arith

only_pid_iff :
    {W : Type 0} (m : Machine W) (qs : List Process) (w : W) (pid : ℕ)
    → ((only_pid m qs w).0 ≡ ok pid) ↔ ((p : Process) × (qs ≡ p ∷ []) × (p.pid ≡ pid))
unfolding only_pid
only_pid_iff m [] w pid = (λ h. absurd (ground arith), λ (p, e, i). absurd (ground arith))
only_pid_iff m (p ∷ []) w pid = (λ h. (p, refl, ground arith), λ (q, e, i). ground arith)
only_pid_iff m (p ∷ q ∷ qs) w pid = (λ h. absurd (ground arith), λ (r, e, i). absurd (ground arith))

-- With the list of processes at hand, the identifier is found exactly if one process of the list, and
-- no other, has the executable's name, and is that of this process.
pub get_pid_iff :
    {W : Type 0} (m : Machine W) (executable : Text) (w : W) (ps : List Process) (pid : ℕ)
    → (m.processes w).0 ≡ ok ps
    → ((get_pid m executable w).0 ≡ ok pid)
      ↔ ((p : Process) × OnlyProcess executable ps p × (p.pid ≡ pid))
unfolding get_pid
get_pid_iff m executable w ps pid listed =
    let step : get_pid m executable w ≡ only_pid m (named executable ps) (m.processes w).1 =
      ground arith in
    let found = only_pid_iff m (named executable ps) (m.processes w).1 pid in
    (
      λ h.
          let (p, e, same) = found.0 (ap (λ r. r.0) (sym step) ∙ h) in
          (p, named-only executable ps p e, same),
      λ (p, o, same).
          ap (λ r. r.0) step
          ∙ found.1 (
            p,
            ap (named executable) o.split
                ∙ only-named executable o.before o.after p o.is_named o.none_before o.none_after,
            same,
          ),
    )
