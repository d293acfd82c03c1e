-- ===== src/Startup/Setup.antt =====
-- The `Setup` functions of the five controllers.
use opsmanager_crossplane_pr.Common.{ℤ, pos, true, false, Option, none, some, String}
use opsmanager_crossplane_pr.Effects.{ask}
use opsmanager_crossplane_pr.Startup.{
  GroupVersionKind, ControllerOptions, managed, provider_config, Registration, complete, Platform,
  Run,
}

abbrev pub group : String
group = "opsmanager.crossplane.io"

abbrev pub managed_kind : String → GroupVersionKind
managed_kind kind = record { group = group; version = "v1alpha1"; kind = kind }

abbrev pub config_kind : String → GroupVersionKind
config_kind kind = record { group = group; version = "v1beta1"; kind = kind }

-- `5*time.Minute`
abbrev pub five_minutes : ℤ
five_minutes = pos 300000000000

module _ (platform : Platform) where
  -- `Complete`, with which each `Setup` ends; what it is called on follows from the options alone.
  unfoldable pub register : Registration → platform.Manager → Run (Unit {0})
  register r mgr = ask (complete r) (λ h. platform.complete h mgr r)

  -- What the `Setup` functions of the managed kinds have in common.
  unfoldable pub managed_by : GroupVersionKind → Option ℤ → ControllerOptions → Registration
  managed_by gvk timeout o = record {
    name = platform.managed_name gvk.kind;
    options = o;
    desired_state_changed = true;
    for_kind = gvk;
    watches = none;
    reconciler = managed gvk o.poll_interval timeout;
  }

  unfoldable pub project_registration : ControllerOptions → Registration
  project_registration o = managed_by (managed_kind "OpsManagerProject") none o

  unfoldable pub s3blockstore_registration : ControllerOptions → Registration
  s3blockstore_registration o = managed_by (managed_kind "S3Blockstore") (some five_minutes) o

  unfoldable pub s3oplogstore_registration : ControllerOptions → Registration
  s3oplogstore_registration o = managed_by (managed_kind "S3OplogStore") (some five_minutes) o

  unfoldable pub backupdaemon_registration : ControllerOptions → Registration
  backupdaemon_registration o = managed_by (managed_kind "BackupDaemon") none o

  unfoldable pub config_registration : ControllerOptions → Registration
  config_registration o = record {
    name = platform.provider_config_name "ClusterProviderConfig";
    options = o;
    desired_state_changed = false;
    for_kind = config_kind "ClusterProviderConfig";
    watches = some (config_kind "ClusterProviderConfigUsage");
    reconciler =
        provider_config (config_kind "ClusterProviderConfig")
          (config_kind "ClusterProviderConfigUsage") (config_kind "ClusterProviderConfigUsageList");
  }
