-- ===== src/Tests/Starting.antt =====
-- A start of the process where every library call succeeds, and one where a registration fails.
use opsmanager_crossplane_pr.Common.{◌≡◌, refl, ◌<>◌, true, pos, [], ◌∷◌, String}
use opsmanager_crossplane_pr.Effects.{ok, err}
use opsmanager_crossplane_pr.Startup.{
  Flags, StartCall, Registration, complete, start, parse, set_logger, get_config, new_manager,
  Platform,
}
use opsmanager_crossplane_pr.Startup.Setup.{config_registration}
use opsmanager_crossplane_pr.Startup.Process.{
  app, log_options, manager_options, controller_options, main,
}
use opsmanager_crossplane_pr.Startup.Order.{started, boot, Started, main-Started}
use opsmanager_crossplane_pr.Tests.{not_found}

abbrev values : Flags
values = record {
  debug = true;
  sync_interval = pos 3600000000000;
  poll_interval = pos 60000000000;
  leader_election = true;
  max_reconcile_rate = pos 10;
  log_file = "";
  log_file_max_size = pos 100;
  log_file_max_backups = pos 5;
  log_file_max_age = pos 30;
}

abbrev pub cluster : Platform
cluster = record {
  RestConfig = String;
  Manager = String;
  parse = λ h specs. ok values;
  get_config = λ h. ok "config";
  new_manager = λ h cfg o. ok "manager";
  managed_name = λ kind. "managed/" <> kind;
  provider_config_name = λ kind. "providerconfig/" <> kind;
  complete = λ h mgr r. ok tt;
  start = λ h mgr. ok tt;
}

main-Started_example : Started cluster (main cluster boot).1.calls
unfolding main started opsmanager_crossplane_pr.Startup.Process.setups
main-Started_example = main-Started cluster refl

-- The registration of the configurations' controller is the last call if it fails.
failing_start :
    (main (record cluster { complete = λ h mgr r. err not_found }) boot).1.calls
    ≡ complete (config_registration cluster (controller_options values))
      ∷ new_manager (manager_options values)
      ∷ get_config
      ∷ set_logger (log_options values)
      ∷ parse app
      ∷ []
unfolding main opsmanager_crossplane_pr.Startup.Process.setups config_registration
failing_start = refl
