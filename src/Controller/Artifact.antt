-- ===== src/Controller/Artifact.antt =====
-- Which artifact a node gets: `resolveArtifactForNode` and what it calls.
use runtime_class_manager.Base.{
  Bool, ◌&&◌, ◌||◌, Option, none, some, List, [], ◌∷◌, ◌++◌, Text, txt, text_eq, ◌==◌,
  if◌then◌else◌,
}
use runtime_class_manager.Go.Strings.{equal_fold}
use runtime_class_manager.Go.Outcome.{failure, Outcome, ok, err}
use runtime_class_manager.Api.{PlatformArtifact, AnonHttpSpec, Shim}
use runtime_class_manager.Controller.Objects.{Node}

-- `resolvedArtifact`
pub record ResolvedArtifact : Type 0 where
  pub location : Text
  pub sha256 : Text

-- `normalizeArch`
unfoldable pub normalize_arch : Text → Text
normalize_arch go_arch =
    if go_arch == txt "amd64"
    then txt "x86_64"
    else if go_arch == txt "arm64"
    then txt "aarch64"
    else if go_arch == txt "arm"
    then txt "armv7l"
    else go_arch

-- `matchesPlatform`
unfoldable pub matches_platform : PlatformArtifact → Text → Text → Bool
matches_platform p node_os node_go_arch =
    equal_fold p.os node_os
    && (equal_fold p.arch node_go_arch || equal_fold p.arch (normalize_arch node_go_arch))

-- The loop over the platforms.
unfoldable pub find_platform : List PlatformArtifact → Text → Text → Option PlatformArtifact
find_platform [] os arch = none
find_platform (p ∷ ps) os arch =
    if matches_platform p os arch then some p else find_platform ps os arch

-- The case of a list of platforms.
from_platforms : List PlatformArtifact → Node → Outcome ResolvedArtifact
from_platforms ps node = elim (find_platform ps node.operating_system node.architecture) [
  | some p ↦ ok (record { location = p.location; sha256 = p.sha256 })
  | none ↦ err (
      failure (
        txt "no platform artifact matches node "
        ++ (node.name
            ++ (txt " ("
                ++ (node.operating_system ++ (txt "/" ++ (node.architecture ++ txt ")")))))))
]

from_anon_http : Option AnonHttpSpec → Text → Outcome ResolvedArtifact
from_anon_http (some a) name = ok (record { location = a.location; sha256 = [] })
from_anon_http none name = err (failure (txt "no fetch source configured for shim " ++ name))

-- The two sources, by the list of platforms.
unfoldable pub resolve_from : List PlatformArtifact → Shim → Node → Outcome ResolvedArtifact
unfolding from_platforms from_anon_http
resolve_from [] shim node = from_anon_http shim.spec.fetch_strategy.anon_http shim.name
resolve_from (p ∷ ps) shim node = from_platforms (p ∷ ps) node

-- `resolveArtifactForNode`
unfoldable pub resolve_artifact_for_node : Shim → Node → Outcome ResolvedArtifact
resolve_artifact_for_node shim node = resolve_from shim.spec.fetch_strategy.platforms shim node
