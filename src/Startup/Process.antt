-- ===== src/Startup/Process.antt =====
-- `main`: flags, logger, configuration, manager, the setups in their order, and the manager's run.
use opsmanager_crossplane_pr.Common.{
  true, none, some, List, [], ◌∷◌, String, ◌!=◌, string_eq, if◌then◌else◌,
}
use opsmanager_crossplane_pr.Effects.{ok, ◌>>=◌, ◌>>◌, return, ask}
use opsmanager_crossplane_pr.Startup.{
  new_global, ControllerOptions, Registration, Flags, FlagSpec, App, debug_level, info_level,
  panic_level, LogOption, use_dev_mode, stacktrace_level, level, write_to, ManagerOptions, parse,
  set_logger, get_config, new_manager, start, Platform, Run,
}
use opsmanager_crossplane_pr.Startup.Setup.{
  register, config_registration, project_registration, s3blockstore_registration,
  s3oplogstore_registration, backupdaemon_registration,
}

abbrev pub flag : String → String → FlagSpec
flag name default = record { name = name; short = none; default = default; envar = none }

abbrev pub flags : List FlagSpec
flags =
    record (flag "debug" "true") { short = some "d" }
    ∷ flag "sync-interval" "1h"
    ∷ flag "poll-interval" "1m"
    ∷ record (flag "leader-election" "true") { short = some "l"; envar = some "LEADER_ELECTION" }
    ∷ flag "max-reconcile-rate" "10"
    ∷ record (flag "log-file" "") { envar = some "LOG_FILE" }
    ∷ flag "log-file-max-size" "100"
    ∷ flag "log-file-max-backups" "5"
    ∷ flag "log-file-max-age" "30"
    ∷ []

abbrev pub app : App
app = record {
  name = "provider-opsmanager";
  help = "Crossplane provider for MongoDB Ops Manager.";
  default_envars = true;
  flags = flags;
}

unfoldable pub log_options : Flags → List LogOption
log_options f =
    use_dev_mode true
    ∷ stacktrace_level panic_level
    ∷ level (if f.debug then debug_level else info_level)
    ∷ (if f.log_file != ""
        then write_to (record {
          filename = f.log_file;
          max_size = f.log_file_max_size;
          max_backups = f.log_file_max_backups;
          max_age = f.log_file_max_age;
          compress = true;
        })
          ∷ []
        else [])

unfoldable pub manager_options : Flags → ManagerOptions
manager_options f = record {
  leader_election = f.leader_election;
  leader_election_id = "crossplane-provider-opsmanager-leader";
  leader_election_namespace = "crossplane-system";
  sync_period = f.sync_interval;
}

unfoldable pub controller_options : Flags → ControllerOptions
controller_options f = record {
  max_concurrent_reconciles = f.max_reconcile_rate;
  poll_interval = f.poll_interval;
  global_rate_limiter = new_global f.max_reconcile_rate;
}

module _ (platform : Platform) where
  -- The table of the setups, each with the registration that it makes.
  unfoldable pub setups : List (String × (ControllerOptions → Registration))
  setups =
      ("ClusterProviderConfig/ProviderConfig", config_registration platform)
      ∷ ("OpsManagerProject", project_registration platform)
      ∷ ("S3Blockstore", s3blockstore_registration platform)
      ∷ ("S3OplogStore", s3oplogstore_registration platform)
      ∷ ("BackupDaemon", backupdaemon_registration platform)
      ∷ []

  -- The loop over them.
  unfoldable pub set_up :
      List (String × (ControllerOptions → Registration))
      → platform.Manager
      → ControllerOptions
      → Run (Unit {0})
  unfolding register
  set_up [] mgr o = return tt
  set_up ((name, registration) ∷ rest) mgr o =
      register platform (registration o) mgr >> set_up rest mgr o

  unfoldable pub run_manager : Flags → platform.Manager → Run (Unit {0})
  unfolding set_up
  run_manager f mgr =
      set_up setups mgr (controller_options f) >> ask start (λ h. platform.start h mgr)

  unfoldable pub run_flags : Flags → Run (Unit {0})
  unfolding run_manager
  run_flags f = do
    ask (set_logger (log_options f)) (λ h. ok tt)
    cfg ← ask get_config platform.get_config
    mgr ←
        ask (new_manager (manager_options f)) (λ h. platform.new_manager h cfg (manager_options f))
    run_manager f mgr

  unfoldable pub main : Run (Unit {0})
  unfolding run_flags
  main = do f ← ask (parse app) (λ h. platform.parse h app); run_flags f
