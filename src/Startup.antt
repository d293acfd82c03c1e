-- ===== src/Startup.antt =====
-- cmd/provider/main.go: how the process starts, and the `Setup` of the controllers, of
-- internal/controller. What libraries build is kept as what they are given.
pub mod Setup
pub mod Scheme
pub mod Process
pub mod Order
use opsmanager_crossplane_pr.Common.{ℤ, Bool, Option, List, String}
use opsmanager_crossplane_pr.Effects.{Result, M}

-- `schema.GroupVersionKind`
pub record GroupVersionKind : Type 0 where
  pub group : String
  pub version : String
  pub kind : String

-- `ratelimiter.NewGlobal`
pub data RateLimiter : Type 0 where
  new_global : ℤ → RateLimiter

-- `controller.Options` but for the logger and the features, which are empty. Durations are in
-- nanoseconds.
pub record ControllerOptions : Type 0 where
  pub max_concurrent_reconciles : ℤ
  pub poll_interval : ℤ
  pub global_rate_limiter : RateLimiter

-- `managed.NewReconciler` with its poll interval and timeout, and `providerconfig.NewReconciler`
-- with the kinds of a configuration, its usage and the list of usages.
pub data Reconciler : Type 0 where
  managed : GroupVersionKind → ℤ → Option ℤ → Reconciler
  provider_config : GroupVersionKind → GroupVersionKind → GroupVersionKind → Reconciler

-- What a builder of `ctrl.NewControllerManagedBy` holds when `Complete` is called, whose reconciler
-- is limited by the global rate limiter of the options.
pub record Registration : Type 0 where
  pub name : String
  pub options : ControllerOptions
  pub desired_state_changed : Bool
  pub for_kind : GroupVersionKind
  pub watches : Option GroupVersionKind
  pub reconciler : Reconciler

-- The values of the flags.
pub record Flags : Type 0 where
  pub debug : Bool
  pub sync_interval : ℤ
  pub poll_interval : ℤ
  pub leader_election : Bool
  pub max_reconcile_rate : ℤ
  pub log_file : String
  pub log_file_max_size : ℤ
  pub log_file_max_backups : ℤ
  pub log_file_max_age : ℤ

-- A flag as it is declared.
pub record FlagSpec : Type 0 where
  pub name : String
  pub short : Option String
  pub default : String
  pub envar : Option String

-- `kingpin.New` with its flags; with the default variables, each flag that names no variable has one
-- that is made of the names of the application and of the flag.
pub record App : Type 0 where
  pub name : String
  pub help : String
  pub default_envars : Bool
  pub flags : List FlagSpec

pub data Level : Type 0 where
  debug_level info_level panic_level : Level

-- `lumberjack.Logger`
pub record RotatedFile : Type 0 where
  pub filename : String
  pub max_size : ℤ
  pub max_backups : ℤ
  pub max_age : ℤ
  pub compress : Bool

-- `zap.Opts`
pub data LogOption : Type 0 where
  use_dev_mode : Bool → LogOption
  stacktrace_level level : Level → LogOption
  write_to : RotatedFile → LogOption

-- `ctrl.Options` but for the scheme.
pub record ManagerOptions : Type 0 where
  pub leader_election : Bool
  pub leader_election_id : String
  pub leader_election_namespace : String
  pub sync_period : ℤ

pub data StartCall : Type 0 where
  parse : App → StartCall
  set_logger : List LogOption → StartCall
  get_config : StartCall
  new_manager : ManagerOptions → StartCall
  complete : Registration → StartCall
  start : StartCall

-- kingpin, controller-runtime and crossplane-runtime, with the types of a REST configuration and of
-- a manager.
pub record Platform : Type 1 where
  pub RestConfig : Type 0
  pub Manager : Type 0
  pub parse : List StartCall → App → Result Flags
  pub get_config : List StartCall → Result RestConfig
  pub new_manager : List StartCall → RestConfig → ManagerOptions → Result Manager
  pub managed_name : String → String
  pub provider_config_name : String → String
  pub complete : List StartCall → Manager → Registration → Result (Unit {0})
  pub start : List StartCall → Manager → Result (Unit {0})

-- An error is the end of the process with status 1.
abbrev pub Run : Type 0 → Type 0
Run A = M StartCall (Unit {0}) A
