-- ===== src/Controller/Objects.antt =====
-- The Kubernetes objects that the controller handles, with the fields that it reads or sets, and the
-- client by which it reaches the API server.
use runtime_class_manager.Base.{ℕ, Bool, Option, none, some, List, Text, txt, text_eq}
use runtime_class_manager.Base.Dict.{Dict, lookup}
use runtime_class_manager.Go.Outcome.{Action, Outcome}
use runtime_class_manager.Api.{Shim}

-- `types.NamespacedName`
pub record NamespacedName : Type 0 where
  pub name : Text
  pub namespace : Text

-- `corev1.Node`
pub record Node : Type 0 where
  pub name : Text
  pub labels : Option (Dict Text Text)
  pub operating_system : Text
  pub architecture : Text

pub record EnvVar : Type 0 where
  pub name : Text
  pub value : Text

pub record VolumeMount : Type 0 where
  pub name : Text
  pub mount_path : Text

pub record Volume : Type 0 where
  pub name : Text
  pub host_path : Option Text

pub record Container : Type 0 where
  pub image : Text
  pub name : Text
  pub args : List Text
  pub privileged : Bool
  pub env : List EnvVar
  -- the names of the config maps in `EnvFrom`
  pub env_from : List Text
  pub volume_mounts : List VolumeMount

pub record OwnerReference : Type 0 where
  pub name : Text
  pub uid : Text

-- `batchv1.JobCondition`
pub record JobCondition : Type 0 where
  pub type : Text
  pub status : Text

-- `batchv1.Job`
pub record Job : Type 0 where
  pub name : Text
  pub namespace : Text
  pub annotations : Dict Text Text
  pub labels : Dict Text Text
  pub owner : Option OwnerReference
  pub node_name : Text
  pub host_pid : Bool
  pub volumes : List Volume
  pub init_containers : List Container
  pub containers : List Container
  pub restart_policy : Text
  pub ttl_seconds_after_finished : Option ℕ
  pub conditions : List JobCondition

-- `nodev1.RuntimeClass`
pub record RuntimeClass : Type 0 where
  pub name : Text
  pub labels : Dict Text Text
  pub handler : Text
  pub node_selector : Dict Text Text
  pub owner : Option OwnerReference

-- The calls of `client.Client` that the controller makes. An update answers with the object as the
-- server stored it.
pub record Client (W : Type 0) : Type 0 where
  pub get_shim : NamespacedName → Action W Shim
  pub list_shims : Action W (List Shim)
  pub update_shim : Shim → Action W Shim
  pub get_node : Text → Action W Node
  -- with `client.MatchingLabels`, or without
  pub list_nodes : Option (Dict Text Text) → Action W (List Node)
  pub update_node : Node → Action W Node
  pub get_job : NamespacedName → Action W Job
  -- server-side apply, forced, by the field manager `shim-operator`
  pub patch_job : Job → Action W (Unit {0})
  pub get_runtime_class : NamespacedName → Action W RuntimeClass
  pub patch_runtime_class : RuntimeClass → Action W (Unit {0})
  -- the reference that `ctrl.SetControllerReference` adds
  pub controller_reference : Shim → Outcome OwnerReference
  -- `os.Getenv`
  pub getenv : Text → Text

-- `node.Labels[key]`: the empty text if there is no such label, or no map.
unfoldable pub label_of : Node → Text → Option Text
label_of n key = elim n.labels [ none ↦ none | some labels ↦ lookup key labels ]

-- The values of `jobType`, of the node label, and of the finalizer.
abbrev pub install_type : Text
install_type = txt "install"

abbrev pub uninstall_type : Text
uninstall_type = txt "uninstall"

abbrev pub provisioned : Text
provisioned = txt "provisioned"

abbrev pub pending : Text
pending = txt "pending"

abbrev pub failed : Text
failed = txt "failed"

abbrev pub rcm_operator_finalizer : Text
rcm_operator_finalizer = txt "rcm.spinkube.dev/finalizer"

abbrev pub k8s_name_max_length : ℕ
k8s_name_max_length = 63
