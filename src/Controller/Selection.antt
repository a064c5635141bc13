-- ===== src/Controller/Selection.antt =====
-- The artifact that a node gets, against an independent description of the choice.
use runtime_class_manager.Base.{
  ◌≡◌, refl, ◌∙◌, sym, ap, ◌↔◌, ◌≢◌, ◌⊎◌, txt, text_eq, ◌==◌, true, false, some, List, [], ◌∷◌,
  ◌++◌, Text, arith, All, inl, inr, Bool-cases, Option-cases,
}
use runtime_class_manager.Go.Strings.{equal_fold}
use runtime_class_manager.Go.Outcome.{ok}
use runtime_class_manager.Api.{PlatformArtifact, AnonHttpSpec, Shim}
use runtime_class_manager.Controller.Objects.{Node}
use runtime_class_manager.Controller.Artifact.{
  ResolvedArtifact, normalize_arch, matches_platform, find_platform, resolve_from,
  resolve_artifact_for_node,
}

-- What `uname` calls an architecture that Go calls `go_arch`.
abbrev pub UnameOf : Text → Text → Type 0
UnameOf go_arch uname =
    ((go_arch ≡ txt "amd64") × (uname ≡ txt "x86_64"))
    ⊎ (((go_arch ≡ txt "arm64") × (uname ≡ txt "aarch64"))
        ⊎ ((go_arch ≡ txt "arm") × (uname ≡ txt "armv7l")))

-- A platform suits a node with the same operating system, and with the same architecture or one that
-- the platform names as `uname` does, up to case.
abbrev pub Suits : PlatformArtifact → Text → Text → Type 0
Suits p os arch =
    (equal_fold p.os os ≡ true)
    × ((equal_fold p.arch arch ≡ true)
        ⊎ ((uname : Text) × UnameOf arch uname × (equal_fold p.arch uname ≡ true)))

normalize_arch-cases :
    (arch : Text) → UnameOf arch (normalize_arch arch) ⊎ (normalize_arch arch ≡ arch)
unfolding normalize_arch
normalize_arch-cases arch = elim (Bool-cases (arch == txt "amd64")) [
  | inl e ↦ inl (inl (ground arith, ground arith))
  | inr e ↦ elim (Bool-cases (arch == txt "arm64")) [
    | inl e' ↦ inl (inr (inl (ground arith, ground arith)))
    | inr e' ↦ elim (Bool-cases (arch == txt "arm")) [
      | inl e'' ↦ inl (inr (inr (ground arith, ground arith)))
      | inr e'' ↦ inr (ground arith)
    ]
  ]
]

normalize_arch-UnameOf : (arch uname : Text) → UnameOf arch uname → normalize_arch arch ≡ uname
unfolding normalize_arch txt text_eq
normalize_arch-UnameOf arch uname (inl (e, u)) = ap normalize_arch e ∙ sym u
normalize_arch-UnameOf arch uname (inr (inl (e, u))) = ap normalize_arch e ∙ sym u
normalize_arch-UnameOf arch uname (inr (inr (e, u))) = ap normalize_arch e ∙ sym u

matches_platform-Suits :
    (p : PlatformArtifact) (os arch : Text) → matches_platform p os arch ≡ true → Suits p os arch
unfolding matches_platform
matches_platform-Suits p os arch h = elim (Bool-cases (equal_fold p.arch arch)) [
  | inl same ↦ (ground arith, inl same)
  | inr other ↦ elim (normalize_arch-cases arch) [
    | inl known ↦ (ground arith, inr (normalize_arch arch, known, ground arith))
    | inr kept ↦ absurd (ground arith)
  ]
]

Suits-matches_platform :
    (p : PlatformArtifact) (os arch : Text) → Suits p os arch → matches_platform p os arch ≡ true
unfolding matches_platform
Suits-matches_platform p os arch (on, inl same) = ground arith
Suits-matches_platform p os arch (on, inr (uname, known, same)) =
    let e = normalize_arch-UnameOf arch uname known in ground arith

matches_platform_iff :
    (p : PlatformArtifact) (os arch : Text) → (matches_platform p os arch ≡ true) ↔ Suits p os arch
matches_platform_iff p os arch =
    (matches_platform-Suits p os arch, Suits-matches_platform p os arch)

matches_platform-ne :
    (p : PlatformArtifact) (os arch : Text)
    → (matches_platform p os arch ≡ false) ↔ (¬ Suits p os arch)
matches_platform-ne p os arch =
    let same = matches_platform_iff p os arch in
    (
      λ h s. absurd (ground (arith, same.1 s)),
      λ h. elim (Bool-cases (matches_platform p os arch)) [
        | inl e ↦ absurd (h (same.0 e))
        | inr e ↦ e
      ],
    )

none-Suits :
    (ps : List PlatformArtifact) (os arch : Text)
    → All (λ q. ¬ Suits q os arch) ps
    → All (λ q. matches_platform q os arch ≡ false) ps
none-Suits [] os arch h = tt
none-Suits (q ∷ ps) os arch h = ((matches_platform-ne q os arch).1 h.0, none-Suits ps os arch h.1)

-- The platforms before the first one that suits the node, and that one.
pub record FirstMatch (ps : List PlatformArtifact) (os arch : Text) (p : PlatformArtifact)
    : Type 0 where
  pub skipped : List PlatformArtifact
  pub others : List PlatformArtifact
  pub split : ps ≡ skipped ++ (p ∷ others)
  pub no_earlier : All (λ q. ¬ Suits q os arch) skipped
  pub matching : Suits p os arch

find_platform-FirstMatch :
    (ps : List PlatformArtifact) (os arch : Text) {p : PlatformArtifact}
    → find_platform ps os arch ≡ some p
    → FirstMatch ps os arch p
unfolding find_platform
find_platform-FirstMatch [] os arch h = absurd (ground arith)
find_platform-FirstMatch (q ∷ ps) os arch {p} h = elim (Bool-cases (matches_platform q os arch)) [
  | inl hit ↦
      let same : q ≡ p = ground arith in
      record {
        skipped = [];
        others = ps;
        split = ap (λ r. r ∷ ps) same;
        no_earlier = tt;
        matching = rw (← same) ((matches_platform_iff q os arch).0 hit);
      }
  | inr miss ↦
      let later = find_platform-FirstMatch ps os arch (rw miss at h) in
      record {
        skipped = q ∷ later.skipped;
        others = later.others;
        split = ap (λ r. q ∷ r) later.split;
        no_earlier = ((matches_platform-ne q os arch).0 miss, later.no_earlier);
        matching = later.matching;
      }
]

find_platform_skipped :
    (skipped others : List PlatformArtifact) (p : PlatformArtifact) (os arch : Text)
    → All (λ q. matches_platform q os arch ≡ false) skipped
    → matches_platform p os arch ≡ true
    → find_platform (skipped ++ (p ∷ others)) os arch ≡ some p
unfolding find_platform
find_platform_skipped [] others p os arch h m = rw m
find_platform_skipped (q ∷ skipped) others p os arch h m =
    rw h.0 (find_platform_skipped skipped others p os arch h.1 m)

-- What the node gets: the first platform that matches, with its digest, or, with no platforms
-- listed, the anonymous source with no digest.
pub data Selects (shim : Shim) (node : Node) (a : ResolvedArtifact) : Type 0 where
  platform :
      (p : PlatformArtifact)
      → FirstMatch shim.spec.fetch_strategy.platforms node.operating_system node.architecture p
      → a ≡ record { location = p.location; sha256 = p.sha256 }
      → Selects shim node a
  anonymous :
      (h : AnonHttpSpec)
      → shim.spec.fetch_strategy.platforms ≡ []
      → shim.spec.fetch_strategy.anon_http ≡ some h
      → a ≡ record { location = h.location; sha256 = [] }
      → Selects shim node a

append_cons-ne-nil {ℓ} : {A : Type ℓ} (xs : List A) (y : A) (ys : List A) → xs ++ (y ∷ ys) ≢ []
append_cons-ne-nil [] y ys e = cc
append_cons-ne-nil (x ∷ xs) y ys e = cc

Selects-resolve_from :
    (ps : List PlatformArtifact) (shim : Shim) (node : Node) (a : ResolvedArtifact)
    → shim.spec.fetch_strategy.platforms ≡ ps
    → resolve_from ps shim node ≡ ok a
    → Selects shim node a
unfolding resolve_from
Selects-resolve_from [] shim node a listed h =
    elim (Option-cases shim.spec.fetch_strategy.anon_http) [
      | inl missing ↦ absurd (ground arith)
      | inr (source, e) ↦ anonymous source listed e (ground arith)
    ]
Selects-resolve_from (q ∷ ps) shim node a listed h =
    elim (Option-cases (find_platform (q ∷ ps) node.operating_system node.architecture)) [
      | inl missing ↦ absurd (ground arith)
      | inr (p, e) ↦ platform p (rw listed (find_platform-FirstMatch (q ∷ ps) _ _ e)) (ground arith)
    ]

resolve_from-Selects :
    (ps : List PlatformArtifact) (shim : Shim) (node : Node) (a : ResolvedArtifact)
    → shim.spec.fetch_strategy.platforms ≡ ps
    → Selects shim node a
    → resolve_from ps shim node ≡ ok a
unfolding resolve_from
resolve_from-Selects [] shim node a listed (platform p first same) =
    absurd (append_cons-ne-nil first.skipped p first.others (sym first.split ∙ listed))
resolve_from-Selects [] shim node a listed (anonymous source empty e same) = ground arith
resolve_from-Selects (q ∷ ps) shim node a listed (platform p first same) =
    let e : find_platform (q ∷ ps) node.operating_system node.architecture ≡ some p =
      ap (λ r. find_platform r node.operating_system node.architecture) (sym listed ∙ first.split)
      ∙ find_platform_skipped first.skipped first.others p _ _
          (none-Suits first.skipped _ _ first.no_earlier)
          ((matches_platform_iff p _ _).1 first.matching) in
    ground (arith, e)
resolve_from-Selects (q ∷ ps) shim node a listed (anonymous source empty e same) =
    absurd (ground arith)

-- An artifact is resolved exactly if it is the one that the description selects: the platforms take
-- precedence, and the first wins that has the operating system of the node and its architecture, as
-- the node says it or as `uname` calls what the node says. A list of platforms of which none suits
-- is an error even where an anonymous source is given.
pub resolve_artifact_for_node_iff :
    (shim : Shim) (node : Node) (a : ResolvedArtifact)
    → (resolve_artifact_for_node shim node ≡ ok a) ↔ Selects shim node a
unfolding resolve_artifact_for_node
resolve_artifact_for_node_iff shim node a =
    (Selects-resolve_from _ shim node a refl, resolve_from-Selects _ shim node a refl)
