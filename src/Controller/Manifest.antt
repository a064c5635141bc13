-- ===== src/Controller/Manifest.antt =====
-- The manifests that the controller applies: `createJobManifest`, `createRuntimeClassManifest`.
use runtime_class_manager.Base.{
  ℕ, ◌+◌, ◌-◌, ◌*◌, Bool, true, ◌&&◌, Option, none, some, List, [], ◌∷◌, ◌++◌, Text, txt, text_eq,
  ◌==◌, ◌=ℕ◌, ltb, leb, if◌then◌else◌, take,
}
use runtime_class_manager.Base.Dict.{Dict, insert}
use runtime_class_manager.Go.Outcome.{wrapped, Outcome, ok, err, panic}
use runtime_class_manager.Go.Json.Value.{str, obj, Fields, end, field}
use runtime_class_manager.Go.Json.Sort.{sort_keys}
use runtime_class_manager.Go.Json.Print.{marshal}
use runtime_class_manager.Api.{Shim}
use runtime_class_manager.Controller.Objects.{
  Node, EnvVar, Container, OwnerReference, Job, RuntimeClass, install_type, uninstall_type,
  k8s_name_max_length,
}
use runtime_class_manager.Controller.Artifact.{ResolvedArtifact}

-- `name[:nameMax]` with `nameMax` the lesser of the length and `K8sNameMaxLength`.
unfoldable pub truncate_name : Text → Text
truncate_name name = take k8s_name_max_length name

-- The name of a job before it is cut.
unfoldable pub full_job_name : Text → Text → Text → Text
full_job_name node_name shim_name operation =
    node_name ++ (txt "-" ++ (shim_name ++ (txt "-" ++ operation)))

-- `opConfig`
pub record OpConfig : Type 0 where
  pub operation : Text
  pub privileged : Bool
  pub init_container : List Container
  pub args : List Text

is_digit : ℕ → Bool
is_digit c = leb b'0' c && leb c b'9'

-- The value of a text of digits, behind the value of those read.
read_digits : Text → ℕ → Option ℕ
unfolding is_digit
read_digits [] acc = some acc
read_digits (c ∷ s) acc =
    let rest = read_digits s (acc * 10 + (c - b'0')) in if is_digit c then rest else none

-- One digit or more.
read_number : Text → Option ℕ
unfolding read_digits
read_number [] = none
read_number (c ∷ s) = read_digits (c ∷ s) 0

unsigned_part : Text → Text
unsigned_part [] = []
unsigned_part (c ∷ s) = if c =ℕ b'+' then s else c ∷ s

-- `strconv.ParseInt(s, 10, 32)`, where that is positive; a value past 2^31 - 1 is an error there.
unfoldable pub parse_ttl : Text → Option ℕ
unfolding read_number unsigned_part
parse_ttl s = elim (read_number (unsigned_part s)) [
  | none ↦ none
  | some n ↦ if ltb 0 n && ltb n 2147483648 then some n else none
]

checksum_env : Text → List EnvVar
checksum_env sha256 =
    if sha256 == [] then [] else record { name = txt "SHIM_SHA256"; value = sha256 } ∷ []

config_map_env : Text → List Text
config_map_env name = if name == [] then [] else name ∷ []

install_args : Text → Text → List Text
install_args command shim_name =
    command ∷ txt "-H" ∷ txt "/mnt/node-root" ∷ txt "-r" ∷ shim_name ∷ []

option_fields : Dict Text Text → Fields
option_fields [] = end
option_fields ((k, v) ∷ d) = field k (str v) (option_fields d)

-- The variable `RUNTIME_OPTIONS`, if the shim has runtime options.
options_env : Option (Dict Text Text) → List EnvVar
unfolding option_fields
options_env none = []
options_env (some options) =
    record {
      name = txt "RUNTIME_OPTIONS";
      value = marshal (obj (option_fields (sort_keys options)));
    }
    ∷ []

module _ (getenv : Text → Text) where
  -- The init container of an installation.
  downloader : Shim → Bool → ResolvedArtifact → Container
  unfolding checksum_env config_map_env
  downloader shim privileged artifact = record {
    image = getenv (txt "SHIM_DOWNLOADER_IMAGE");
    name = txt "downloader";
    args = [];
    privileged = privileged;
    env =
        record { name = txt "SHIM_NAME"; value = shim.name }
        ∷ record { name = txt "SHIM_LOCATION"; value = artifact.location }
        ∷ checksum_env artifact.sha256;
    env_from = config_map_env (getenv (txt "SHIM_DOWNLOADER_CONFIG_MAP"));
    volume_mounts = record { name = txt "shim-download"; mount_path = txt "/assets" } ∷ [];
  }

  configure_install : Shim → ResolvedArtifact → OpConfig → OpConfig
  unfolding downloader install_args
  configure_install shim artifact o =
      if o.operation == install_type
      then record o {
        init_container = downloader shim o.privileged artifact ∷ [];
        args = install_args (txt "install") shim.name;
      }
      else o

  configure_uninstall : Shim → OpConfig → OpConfig
  unfolding install_args
  configure_uninstall shim o =
      if o.operation == uninstall_type
      then record o { init_container = []; args = install_args (txt "uninstall") shim.name }
      else o

  -- `setOperationConfiguration`
  unfoldable pub set_operation_configuration : Shim → OpConfig → ResolvedArtifact → OpConfig
  unfolding configure_install configure_uninstall
  set_operation_configuration shim o artifact =
      configure_uninstall shim (configure_install shim artifact o)

  provisioner : OpConfig → Option (Dict Text Text) → Container
  unfolding options_env
  provisioner o options = record {
    image = getenv (txt "SHIM_NODE_INSTALLER_IMAGE");
    name = txt "provisioner";
    args = o.args;
    privileged = o.privileged;
    env = record { name = txt "HOST_ROOT"; value = txt "/mnt/node-root" } ∷ options_env options;
    env_from = [];
    volume_mounts =
        record { name = txt "root-mount"; mount_path = txt "/mnt/node-root" }
        ∷ record { name = txt "shim-download"; mount_path = txt "/assets" }
        ∷ [];
  }

  -- The manifest before the controller reference is set.
  unfoldable pub job_manifest : Shim → Node → Text → ResolvedArtifact → Job
  unfolding provisioner
  job_manifest shim node operation artifact =
      let o : OpConfig =
        set_operation_configuration shim
          (record { operation = operation; privileged = true; init_container = []; args = [] })
          artifact in
      let name = truncate_name (full_job_name node.name shim.name operation) in
      record {
        name = name;
        namespace = getenv (txt "CONTROLLER_NAMESPACE");
        annotations = insert (txt "spinkube.dev/nodeName") node.name (
            insert (txt "spinkube.dev/shimName") shim.name
              (insert (txt "spinkube.dev/operation") operation []));
        labels = insert (txt "spinkube.dev/job") (txt "true") (
            insert (txt "spinkube.dev/operation") operation
              (insert (txt "spinkube.dev/shimName") shim.name (insert name (txt "true") [])));
        owner = none;
        node_name = node.name;
        host_pid = true;
        volumes =
            record { name = txt "shim-download"; host_path = none }
            ∷ record { name = txt "root-mount"; host_path = some (txt "/") }
            ∷ [];
        init_containers = o.init_container;
        containers = provisioner o shim.spec.containerd_runtime_options ∷ [];
        restart_policy = txt "Never";
        ttl_seconds_after_finished = parse_ttl (getenv (txt "SHIM_NODE_INSTALLER_JOB_TTL"));
        conditions = [];
      }

  -- What `ctrl.SetControllerReference` makes of a job.
  own_job : Job → Outcome OwnerReference → Outcome Job
  own_job job (ok r) = ok (record job { owner = some r })
  own_job job (err e) = err (wrapped (txt "failed to set controller reference") e)
  own_job job (panic t) = panic t

  -- `createJobManifest`; `reference` is the controller reference to the shim.
  unfoldable pub create_job_manifest :
      Outcome OwnerReference → Shim → Node → Text → ResolvedArtifact → Outcome Job
  unfolding own_job
  create_job_manifest reference shim node operation artifact =
      if operation == install_type
      then own_job (job_manifest shim node operation artifact) reference
      else ok (job_manifest shim node operation artifact)

selector_or_empty : Option (Dict Text Text) → Dict Text Text
selector_or_empty none = []
selector_or_empty (some d) = d

runtime_class_of : Shim → OwnerReference → RuntimeClass
unfolding selector_or_empty
runtime_class_of shim r = record {
  name = truncate_name shim.spec.runtime_class.name;
  labels = (truncate_name shim.spec.runtime_class.name, txt "true") ∷ [];
  handler = shim.spec.runtime_class.handler;
  node_selector = selector_or_empty shim.spec.node_selector;
  owner = some r;
}

-- `createRuntimeClassManifest`
unfoldable pub create_runtime_class_manifest : Outcome OwnerReference → Shim → Outcome RuntimeClass
unfolding runtime_class_of
create_runtime_class_manifest (ok r) shim = ok (runtime_class_of shim r)
create_runtime_class_manifest (err e) shim =
    err (wrapped (txt "failed to set controller reference") e)
create_runtime_class_manifest (panic t) shim = panic t
