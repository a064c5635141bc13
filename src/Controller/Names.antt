-- ===== src/Controller/Names.antt =====
-- The names of the jobs: cut to the length that Kubernetes allows.
use runtime_class_manager.Base.{
  ℕ, zero, suc, drop, ◌+◌, ◌≤◌, ◌≡◌, ◌∙◌, sym, ap, ◌↔◌, ◌≢◌, [], ◌∷◌, ◌++◌, append_assoc, Text, txt,
  arith, length, take, length-append, length-take, take_all, take-append_left,
}
use runtime_class_manager.Controller.Objects.{
  Node, Job, OwnerReference, install_type, uninstall_type,
}
use runtime_class_manager.Api.{Shim}
use runtime_class_manager.Go.Outcome.{Outcome, ok}
use runtime_class_manager.Controller.Artifact.{ResolvedArtifact}
use runtime_class_manager.Controller.Manifest.{
  truncate_name, full_job_name, job_manifest, create_job_manifest,
}

-- What the names of a shim's jobs on a node begin with.
stem : Text → Text → Text
stem node_name shim_name = node_name ++ (txt "-" ++ (shim_name ++ txt "-"))

full_job_name-stem :
    (node_name shim_name operation : Text)
    → full_job_name node_name shim_name operation ≡ stem node_name shim_name ++ operation
unfolding full_job_name stem
full_job_name-stem node_name shim_name operation = simp append_assoc

length-stem :
    (node_name shim_name : Text)
    → length (stem node_name shim_name) ≡ length node_name + length shim_name + 2
unfolding stem txt
length-stem node_name shim_name = omega (
  arith,
  length-append node_name (b'-' ∷ (shim_name ++ (b'-' ∷ []))),
  length-append shim_name (b'-' ∷ []),
)

length-truncate_name :
    (name : Text)
    → (length (truncate_name name) ≤ 63) × ((truncate_name name ≡ name) ↔ (length name ≤ 63))
unfolding truncate_name
length-truncate_name name =
    let cut : length (take 63 name) ≤ 63 = omega (arith, length-take 63 name) in
    (cut, (λ e. rw (← e) (omega (arith, length-take 63 (take 63 name))), take_all 63 name))

-- The name of a job that the controller creates has at most 63 bytes. It is made of the names of the
-- node and the shim and of the operation, and these stand in it whole exactly if they have no more
-- than 61 bytes together.
pub create_job_manifest-name :
    (getenv : Text → Text) (reference : Outcome OwnerReference) (shim : Shim) (node : Node)
    (operation : Text) (a : ResolvedArtifact) {job : Job}
    → create_job_manifest getenv reference shim node operation a ≡ ok job
    → (length job.name ≤ 63)
      × ((job.name ≡ node.name ++ (txt "-" ++ (shim.name ++ (txt "-" ++ operation))))
          ↔ (length node.name + length shim.name + length operation ≤ 61))
unfolding create_job_manifest job_manifest full_job_name
create_job_manifest-name getenv reference shim node operation a {job} created =
    let full = full_job_name node.name shim.name operation in
    let cut = length-truncate_name full in
    let name : job.name ≡ truncate_name full = ground arith in
    let size : length full ≡ length node.name + length shim.name + length operation + 2 =
      ap length (full_job_name-stem node.name shim.name operation)
      ∙ omega (
        arith,
        length-append (stem node.name shim.name) operation,
        length-stem node.name shim.name,
      ) in
    rw name (cut.0, (λ e. omega (arith, cut.1.0 e, size), λ h. cut.1.1 (omega (arith, h, size))))

length-ge_of_take-eq :
    (n : ℕ) (s : Text) (x y : ℕ) (xs ys : Text)
    → x ≢ y
    → take n (s ++ (x ∷ xs)) ≡ take n (s ++ (y ∷ ys))
    → n ≤ length s
length-ge_of_take-eq zero s x y xs ys ne e = omega arith
length-ge_of_take-eq (suc n) [] x y xs ys ne e = absurd (ne (cc))
length-ge_of_take-eq (suc n) (c ∷ s) x y xs ys ne e =
    omega (arith, length-ge_of_take-eq n s x y xs ys ne (ap (drop 1) e))

take-eq_iff :
    (n : ℕ) (s : Text)
    → (take n (s ++ install_type) ≡ take n (s ++ uninstall_type)) ↔ (n ≤ length s)
unfolding txt
take-eq_iff n s = (
  length-ge_of_take-eq n s _ _ _ _ (omega arith),
  λ h. take-append_left n s install_type h ∙ sym (take-append_left n s uninstall_type h),
)

-- The install job and the uninstall job of a shim on a node have the same name exactly if the names
-- of the node and the shim have 61 bytes or more together.
pub truncate_name-eq_iff :
    (node_name shim_name : Text)
    → (truncate_name (full_job_name node_name shim_name install_type)
        ≡ truncate_name (full_job_name node_name shim_name uninstall_type))
      ↔ (61 ≤ length node_name + length shim_name)
unfolding truncate_name
truncate_name-eq_iff node_name shim_name =
    rw (full_job_name-stem, full_job_name-stem)
      (let fits = take-eq_iff 63 (stem node_name shim_name) in
        let size = length-stem node_name shim_name in
        (λ e. omega (arith, fits.0 e, size), λ h. fits.1 (omega (arith, h, size))))
