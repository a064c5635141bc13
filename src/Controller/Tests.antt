-- ===== src/Controller/Tests.antt =====
-- The controller on a small cluster.
use runtime_class_manager.Base.{
  ◌≡◌, refl, ◌↔◌, ◌⊎◌, ◌≤◌, ◌+◌, ◌++◌, false, true, none, some, List, [], ◌∷◌, Text, txt, text_eq,
  arith, All, length, if◌then◌else◌, not, ◌||◌, ◌&&◌, ◌==◌,
}
use runtime_class_manager.Base.Dict.{insert, lookup}
use runtime_class_manager.Go.Outcome.{
  Err, api_not_found, is_not_found, Outcome, ok, panic, Action, pure, raise, ◌>>=◌,
}
use runtime_class_manager.Go.Strings.{equal_fold}
use runtime_class_manager.Api.{Shim, recreate_type}
use runtime_class_manager.Controller.Objects.{
  Node, Job, JobCondition, OwnerReference, Client, install_type, uninstall_type, provisioned,
  pending,
}
use runtime_class_manager.Controller.Artifact.{
  ResolvedArtifact, matches_platform, resolve_artifact_for_node, resolve_from, find_platform,
  normalize_arch,
}
use runtime_class_manager.Controller.Selection.{Selects, resolve_artifact_for_node_iff}
use runtime_class_manager.Controller.Manifest.{
  truncate_name, full_job_name, create_job_manifest, job_manifest,
}
use runtime_class_manager.Controller.Names.{create_job_manifest-name, truncate_name-eq_iff}
use runtime_class_manager.Controller.Reconcile.{
  needs_install, is_labelled, recreate_strategy_rollout, handle_delete_shim, update_status,
}
use runtime_class_manager.Controller.Job.{
  job_complete, job_failed, is_final, is_job_finished, get_node, follow, reconcile_job,
  delete_node_label,
}
use runtime_class_manager.Controller.Contract.{
  settle, installed, uninstalled, broken, reconcile_job-installed, reconcile_job-uninstalled,
  reconcile_job-broken,
}
use runtime_class_manager.Controller.Following.{
  Ends, FirstEnd, is_job_finished_cases, follow_quiet, reconcile_job_missing_node,
}
use runtime_class_manager.Controller.Deploy.{update_node_labels, deploy_job_on_node}
use runtime_class_manager.Controller.Order.{Deployed, deploy_job_on_node-Deployed}
use runtime_class_manager.Controller.Labels.{
  is_settled, delete_node_label-sent, update_node_labels-sent,
}
use runtime_class_manager.Controller.Counts.{
  is_ready, update_status-sent, Deployments, recreate_strategy_rollout-Deployments,
}
use runtime_class_manager.Controller.Log.{logged, sent_node, sent_shim}
use runtime_class_manager.Controller.Rollout.{
  Named, IsAbout, names_where, recreate_strategy_rollout-IsAbout, handle_delete_shim-IsAbout,
}

abbrev pub shim : Shim
shim = record {
  name = txt "spin-v1";
  namespace = [];
  finalizers = [];
  deleting = false;
  spec = record {
    node_selector = none;
    fetch_strategy = record {
      type = [];
      anon_http = some (record { location = txt "https://a" });
      platforms =
          record {
            os = txt "linux";
            arch = txt "amd64";
            location = txt "https://x";
            sha256 = txt "ab";
          }
          ∷ record {
            os = txt "Linux";
            arch = txt "AARCH64";
            location = txt "https://y";
            sha256 = [];
          }
          ∷ [];
    };
    runtime_class = record { name = txt "spin"; handler = txt "spin" };
    rollout_strategy = record { type = recreate_type; rolling = record { max_update = 0 } };
    containerd_runtime_options = none;
  };
  status = record { node_count = 0; node_ready_count = 0 };
}

abbrev node_named : Text → Node
node_named name = record {
  name = name;
  labels = some [];
  operating_system = txt "linux";
  architecture = txt "arm64";
}

abbrev pub provisioned_node : Node
provisioned_node = record {
  name = txt "node-2";
  labels = some ((txt "spin-v1", provisioned) ∷ []);
  operating_system = txt "linux";
  architecture = txt "amd64";
}

abbrev pub nodes : List Node
nodes = node_named (txt "node-1") ∷ provisioned_node ∷ []

abbrev absent : {W A : Type 0} → Action W A
absent = raise (api_not_found [])

-- A server that knows every node, and stores what it is sent.
abbrev pub server : Client (Unit {0})
server = record {
  get_shim = λ k. absent;
  list_shims = pure [];
  update_shim = λ s. pure s;
  get_node = λ name. pure (node_named name);
  list_nodes = λ s. pure nodes;
  update_node = λ n. pure n;
  get_job = λ k. absent;
  patch_job = λ j. pure tt;
  get_runtime_class = λ k. absent;
  patch_runtime_class = λ rc. pure tt;
  controller_reference = λ s. ok (record { name = s.name; uid = txt "1" });
  getenv = λ name. [];
}

-- The same server without nodes.
abbrev bare_server : Client (Unit {0})
bare_server = record server { get_node = λ name. absent }

pub server-Named : Named server
server-Named = record {
  get_node-name = λ name w n h. ground arith;
  update_node-name = λ sent n w h. ground arith;
}

recreate_strategy_rollout-IsAbout_example :
    All
      (IsAbout (names_where (needs_install (txt "spin-v1")) nodes))
      (recreate_strategy_rollout (logged server) shim nodes (tt, [])).1.1
recreate_strategy_rollout-IsAbout_example =
    recreate_strategy_rollout-IsAbout server server-Named shim nodes tt

handle_delete_shim-IsAbout_example :
    All
      (IsAbout (names_where (is_labelled (txt "spin-v1")) nodes))
      (handle_delete_shim (logged server) shim nodes (tt, [])).1.1
handle_delete_shim-IsAbout_example = handle_delete_shim-IsAbout server server-Named shim nodes tt

abbrev second_artifact : ResolvedArtifact
second_artifact = record { location = txt "https://y"; sha256 = [] }

resolved_second : resolve_artifact_for_node shim (node_named (txt "node-1")) ≡ ok second_artifact
unfolding resolve_artifact_for_node resolve_from find_platform normalize_arch matches_platform
    equal_fold txt text_eq
resolved_second = refl

resolve_artifact_for_node_iff_example :
    (resolve_artifact_for_node shim (node_named (txt "node-1")) ≡ ok second_artifact)
    ↔ Selects shim (node_named (txt "node-1")) second_artifact
resolve_artifact_for_node_iff_example =
    resolve_artifact_for_node_iff shim (node_named (txt "node-1")) second_artifact

truncate_name-eq_iff_example :
    (truncate_name (full_job_name (txt "node-1") (txt "spin-v1") install_type)
      ≡ truncate_name (full_job_name (txt "node-1") (txt "spin-v1") uninstall_type))
    ↔ (61 ≤ length (txt "node-1") + length (txt "spin-v1"))
truncate_name-eq_iff_example = truncate_name-eq_iff (txt "node-1") (txt "spin-v1")

abbrev owner : Outcome OwnerReference
owner = ok (record { name = txt "spin-v1"; uid = txt "1" })

install_job : Job
install_job =
    record (job_manifest server.getenv shim (node_named (txt "node-1")) install_type
      second_artifact) { owner = some (record { name = txt "spin-v1"; uid = txt "1" }) }

create_job_manifest-name_example :
    (length install_job.name ≤ 63)
    × ((install_job.name
          ≡ txt "node-1" ++ (txt "-" ++ (txt "spin-v1" ++ (txt "-" ++ install_type))))
        ↔ (length (txt "node-1") + length (txt "spin-v1") + length install_type ≤ 61))
unfolding install_job create_job_manifest txt text_eq
create_job_manifest-name_example =
    create_job_manifest-name server.getenv owner shim (node_named (txt "node-1")) install_type
      second_artifact {job = install_job} refl

uninstall_job : Job
uninstall_job =
    job_manifest server.getenv shim (node_named (txt "node-1")) uninstall_type second_artifact

abbrev conditions : Text → List JobCondition
conditions type =
    record { type = txt "Suspended"; status = txt "False" }
    ∷ record { type = type; status = txt "True" }
    ∷ []

reconcile_job-installed_example :
    reconcile_job server (record install_job { conditions = conditions job_complete }) tt
    ≡ (get_node server (txt "node-1") >>= settle server installed (txt "spin-v1")) tt
unfolding install_job create_job_manifest is_job_finished is_final txt text_eq
reconcile_job-installed_example =
    reconcile_job-installed server shim (node_named (txt "node-1")) install_type second_artifact
      {job = install_job} (conditions job_complete) tt refl refl refl

reconcile_job-uninstalled_example :
    reconcile_job server (record uninstall_job { conditions = conditions job_complete }) tt
    ≡ (get_node server (txt "node-1") >>= settle server uninstalled (txt "spin-v1")) tt
unfolding uninstall_job create_job_manifest is_job_finished is_final txt text_eq
reconcile_job-uninstalled_example =
    reconcile_job-uninstalled server shim (node_named (txt "node-1")) uninstall_type second_artifact
      {job = uninstall_job} (conditions job_complete) tt refl refl refl

reconcile_job-broken_example :
    reconcile_job server (record install_job { conditions = conditions job_failed }) tt
    ≡ (get_node server (txt "node-1") >>= settle server broken (txt "spin-v1")) tt
unfolding install_job create_job_manifest is_job_finished is_final txt text_eq
reconcile_job-broken_example =
    reconcile_job-broken server shim (node_named (txt "node-1")) install_type second_artifact
      {job = install_job} (conditions job_failed) tt refl refl

is_job_finished_cases_example :
    ((is_job_finished (conditions job_complete) ≡ (false, []))
      × All (λ c. ¬ Ends c) (conditions job_complete))
    ⊎ ((type : Text) × (is_job_finished (conditions job_complete) ≡ (true, type))
        × FirstEnd (conditions job_complete) type)
is_job_finished_cases_example = is_job_finished_cases (conditions job_complete)

follow_quiet_example :
    (follow server install_job (node_named (txt "node-1")) (txt "spin-v1") job_complete tt).0
    ≡ ok tt
follow_quiet_example =
    follow_quiet server (λ n w t e. cc) install_job (node_named (txt "node-1")) [] (txt "spin-v1")
      job_complete tt refl

reconcile_job_missing_node_example :
    (t : Text) × ((reconcile_job bare_server
        (record install_job { conditions = conditions job_failed })
        tt).0
      ≡ panic t)
unfolding install_job job_manifest truncate_name full_job_name is_not_found is_job_finished is_final
    lookup insert txt text_eq
reconcile_job_missing_node_example =
    reconcile_job_missing_node bare_server
      (record install_job { conditions = conditions job_failed }) (txt "spin-v1") tt
      {e = api_not_found []} refl refl refl refl

update_status-sent_example :
    (sent : Shim) × ((update_status (logged server) nodes (shim, (tt, []))).1.1.1
      ≡ sent_shim sent ∷ [])
    × (record sent { status = shim.status } ≡ shim)
    × (sent.status.node_count ≡ length nodes)
    × (sent.status.node_ready_count ≡ length (names_where (is_ready shim.name) nodes))
    × (sent.status.node_ready_count ≤ sent.status.node_count)
update_status-sent_example = update_status-sent server nodes shim (tt, [])

recreate_strategy_rollout-Deployments_example :
    ((errs : List Err) × Deployments server shim nodes tt errs
        (recreate_strategy_rollout server shim nodes tt).1
      × (((recreate_strategy_rollout server shim nodes tt).0 ≡ ok tt) ↔ All (λ e. e ≡ none) errs))
    ⊎ ((t : Text) × ((recreate_strategy_rollout server shim nodes tt).0 ≡ panic t))
recreate_strategy_rollout-Deployments_example =
    recreate_strategy_rollout-Deployments server shim nodes tt

update_node_labels-sent_example :
    (sent : Node) × ((update_node_labels
        (logged server)
        (node_named (txt "node-1"))
        (txt "spin-v1")
        provisioned
        (tt, [])).1.1
      ≡ sent_node sent ∷ [])
    × (needs_install (txt "spin-v1") sent ≡ (
        if txt "spin-v1" == txt "spin-v1"
        then not (is_settled provisioned)
        else needs_install (txt "spin-v1") (node_named (txt "node-1"))))
    × (is_labelled (txt "spin-v1") sent ≡ (
        (txt "spin-v1" == txt "spin-v1")
        || is_labelled (txt "spin-v1") (node_named (txt "node-1"))))
update_node_labels-sent_example =
    update_node_labels-sent server (node_named (txt "node-1")) (txt "spin-v1") (tt, [])
      (txt "spin-v1") [] provisioned refl

delete_node_label-sent_example :
    (sent : Node) × ((delete_node_label
        (logged server)
        provisioned_node
        (txt "spin-v1")
        (tt, [])).1.1
      ≡ sent_node sent ∷ [])
    × (needs_install (txt "spin-v1") sent
        ≡ ((txt "spin-v1" == txt "spin-v1") || needs_install (txt "spin-v1") provisioned_node))
    × (is_labelled (txt "spin-v1") sent
        ≡ (not (txt "spin-v1" == txt "spin-v1") && is_labelled (txt "spin-v1") provisioned_node))
delete_node_label-sent_example =
    delete_node_label-sent server provisioned_node (txt "spin-v1") (tt, []) (txt "spin-v1")

deploy_job_on_node-Deployed_example :
    Deployed
      (txt "node-1")
      shim.name
      pending
      []
      (deploy_job_on_node
        (logged server)
        shim
        (node_named (txt "node-1"))
        install_type
        (tt, [])).1.1
deploy_job_on_node-Deployed_example =
    deploy_job_on_node-Deployed server shim server-Named (node_named (txt "node-1")) (tt, [])
