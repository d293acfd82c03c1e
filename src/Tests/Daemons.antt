-- ===== src/Tests/Daemons.antt =====
-- The backup daemons: two of them, the second without a machine.
use opsmanager_crossplane_pr.Common.{
  ◌≡◌, ◌↔◌, refl, true, false, [], ◌∷◌, none, some, pos, string_eq, ◌==◌, if◌then◌else◌, arith,
  List, String, ap, ◌||◌, is_none,
}
use opsmanager_crossplane_pr.Effects.{Result, ok, err, St}
use opsmanager_crossplane_pr.BackupDaemon.{
  BackupDaemonParameters, BackupDaemonResource, Daemon, DaemonCall, get, list, update,
  DaemonService,
}
use opsmanager_crossplane_pr.BackupDaemon.Convert.{
  late_init_daemon, apply_parameters, daemon_is_up_to_date, daemon_api_id,
}
use opsmanager_crossplane_pr.BackupDaemon.Convert.LateInit.{late_init_daemon_again}
use opsmanager_crossplane_pr.BackupDaemon.Convert.Apply.{
  daemon_is_up_to_date-apply_parameters, daemon_api_id-apply_parameters,
}
use opsmanager_crossplane_pr.BackupDaemon.Convert.Drift.{InSync, daemon_is_up_to_date_iff}
use opsmanager_crossplane_pr.BackupDaemon.Handlers.{
  find_daemon, get_daemon, lookup_daemon, observe, observation, create, update_daemon, delete,
}
use opsmanager_crossplane_pr.BackupDaemon.Handlers.Finding.{replaced}
use opsmanager_crossplane_pr.BackupDaemon.Handlers.Rounds.{
  Keeps, FoundUpToDate, update_then_observe_daemon,
}
use opsmanager_crossplane_pr.Tests.{not_found}
use opsmanager_crossplane_pr.BackupDaemon.Handlers.Methods.{
  observed_times, late_initialized_forever,
}

abbrev pub spec : BackupDaemonParameters
spec = record {
  machine = "host2";
  labels = none;
  assignment_enabled = some true;
  uri = "";
  write_concern = "";
  ssl = none;
  encrypted_credentials = none;
  backup_jobs_enabled = some true;
  garbage_collection_enabled = none;
  resource_usage_enabled = none;
  restore_queryable_jobs_enabled = none;
  head_disk_type = "SSD";
  num_workers = pos 0;
  head_root_directory = "";
}

abbrev first : Daemon
first = record {
  id = "host1/%2Fhead";
  uri = "";
  write_concern = "";
  labels = some ("eu" ∷ []);
  ssl = none;
  assignment_enabled = none;
  encrypted_credentials = none;
  used_size = pos 0;
  backup_jobs_enabled = false;
  configured = true;
  garbage_collection_enabled = false;
  resource_usage_enabled = false;
  restore_queryable_jobs_enabled = false;
  head_disk_type = "HDD";
  num_workers = pos 4;
  machine = some (record { machine = "host1"; head_root_directory = "/head" });
}

abbrev second : Daemon
second = record first { id = "host2/%2Fhead"; machine = none }

abbrev both : DaemonService
both = record {
  get = λ h id. ok first;
  list = λ h. ok (first ∷ second ∷ []);
  update = λ h id d. ok tt;
  path_escape = λ s. s;
}

abbrev pub cr : BackupDaemonResource
cr = record {
  annotations = [];
  deleted = false;
  ready = false;
  provider_config_ref = none;
  for_provider = spec;
  at_provider = record { configured = false };
}

abbrev at_start : St DaemonCall BackupDaemonResource
at_start = record { cr = cr; calls = []; events = [] }

second_found : find_daemon "host2" (first ∷ second ∷ []) ≡ some second
unfolding find_daemon string_eq opsmanager_crossplane_pr.BackupDaemon.Handlers.is_machine
second_found = refl

abbrev leaving : St DaemonCall BackupDaemonResource
leaving = record at_start { cr = record cr { deleted = true } }

late_initialized_forever_example :
    (observation both second (observed_times both second 3 cr)).resource_late_initialized ≡ true
late_initialized_forever_example = late_initialized_forever both second 3 cr refl refl

late_init_daemon_again_example :
    let q = (late_init_daemon spec first).0 in
    (late_init_daemon q first).1
    ≡ (is_none q.assignment_enabled || (is_none q.ssl || is_none q.encrypted_credentials))
late_init_daemon_again_example = late_init_daemon_again spec first

daemon_is_up_to_date-apply_parameters_example :
    daemon_is_up_to_date spec (apply_parameters spec first) true ≡ false
daemon_is_up_to_date-apply_parameters_example = daemon_is_up_to_date-apply_parameters spec first

abbrev with_head : BackupDaemonParameters
with_head = record spec { head_root_directory = "/data" }

daemon_api_id-apply_parameters_example :
    daemon_api_id (λ s. s) (apply_parameters with_head second) ≡ "//data"
unfolding string_eq
daemon_api_id-apply_parameters_example = daemon_api_id-apply_parameters (λ s. s) with_head second

daemon_is_up_to_date_iff_example :
    (daemon_is_up_to_date spec second true ≡ true) ↔ InSync spec second true
daemon_is_up_to_date_iff_example = daemon_is_up_to_date_iff spec second true

-- An API that keeps what it is sent.
last_sent : List DaemonCall → String → Result Daemon
last_sent [] id = err not_found
last_sent (update j d ∷ h) id = let before = last_sent h id in if j == id then ok d else before
last_sent (c ∷ h) id = last_sent h id

daemons_now : List DaemonCall → List Daemon
daemons_now [] = first ∷ second ∷ []
daemons_now (update j d ∷ h) = replaced d (daemons_now h)
daemons_now (c ∷ h) = daemons_now h

abbrev keeping : DaemonService
keeping = record both { get = last_sent; list = λ h. ok (daemons_now h) }

abbrev labelled : St DaemonCall BackupDaemonResource
labelled = record at_start { cr = record cr { for_provider = record spec { labels = some [] } } }

labelled-Keeps : Keeps keeping labelled
unfolding last_sent daemons_now
labelled-Keeps = record {
  got = λ h id d a. ground arith;
  listed = λ h ds id d l a. ap (λ r. ok (replaced d (elim r [ ok x ↦ x | err e ↦ [] ]))) l;
  on_machine = λ d h. absurd (ground arith);
}

update_then_observe_daemon_example : FoundUpToDate keeping (update_daemon keeping labelled).1
unfolding update_daemon lookup_daemon get_daemon find_daemon string_eq
    opsmanager_crossplane_pr.BackupDaemon.Handlers.is_machine daemons_now
update_then_observe_daemon_example =
    update_then_observe_daemon keeping labelled labelled-Keeps refl refl refl
