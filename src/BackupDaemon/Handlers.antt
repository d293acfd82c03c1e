-- ===== src/BackupDaemon/Handlers.antt =====
-- `getDaemon`, `Observe`, `Create`, `Update` and `Delete`.
pub mod Lookup
pub mod Methods
pub mod Finding
pub mod Settling
pub mod Rounds
use opsmanager_crossplane_pr.Common.{
  Bool, true, false, ◌&&◌, Option, none, some, List, [], ◌∷◌, String, ◌<>◌, ◌==◌, ◌!=◌, string_eq,
  if◌then◌else◌,
}
use text.Mathlib.Text.{starts_with}
use opsmanager_crossplane_pr.Errors.{Err, new_error, is_not_found}
use opsmanager_crossplane_pr.Effects.{
  Result, ok, err, normal, M, ◌>>=◌, ◌>>◌, return, fail, or_wrap, wrapping, call, resource, modify,
  emit,
}
use opsmanager_crossplane_pr.Managed.{
  ExternalObservation, absent, annotate, set_external_name, set_available,
}
use opsmanager_crossplane_pr.Labels.{annotation_labels_adopted, labels_adopted, adopted_labels}
use opsmanager_crossplane_pr.BackupDaemon.{
  BackupDaemonParameters, BackupDaemonResource, Daemon, Machine, DaemonCall, get, list, update,
  DaemonService,
}
use opsmanager_crossplane_pr.BackupDaemon.Convert.{
  late_init_daemon, apply_parameters, daemon_is_up_to_date, daemon_api_id,
}

abbrev pub err_list_daemons : String
err_list_daemons = "cannot list backup daemons from Ops Manager"

abbrev pub err_update_daemon : String
err_update_daemon = "cannot update backup daemon in Ops Manager"

abbrev pub err_daemon_not_found : String
err_daemon_not_found =
    "backup daemon not found in Ops Manager; ensure the backup agent is running and has registered"

-- The two tests of the loop: by the machine, or by the ID where the API gives no machine.
unfoldable pub is_machine : String → String → Option Machine → Bool
is_machine name id (some m) = m.machine == name
is_machine name id none = starts_with id (name <> "/")

unfoldable pub find_daemon : String → List Daemon → Option Daemon
find_daemon name [] = none
find_daemon name (d ∷ ds) = if is_machine name d.id d.machine then some d else find_daemon name ds

unfoldable pub adopt_labels : Daemon → BackupDaemonResource → BackupDaemonResource
unfolding adopted_labels annotate
adopt_labels observed cr =
    let p = cr.for_provider in
    annotate annotation_labels_adopted "true"
      (record cr { for_provider = record p { labels = adopted_labels p.labels observed.labels } })

module _ (svc : DaemonService) where
  abbrev pub api_id : Daemon → String
  api_id = daemon_api_id svc.path_escape

  unfoldable pub take_over : Daemon → BackupDaemonResource → BackupDaemonResource
  unfolding set_external_name set_available
  take_over observed cr =
      let named = set_available (
        set_external_name (api_id observed)
          (record cr { at_provider = record { configured = observed.configured } })) in
      record named { for_provider = (late_init_daemon cr.for_provider observed).0 }

  unfoldable pub observed_cr : Daemon → BackupDaemonResource → BackupDaemonResource
  observed_cr d cr = let t = take_over d cr in if labels_adopted t then t else adopt_labels d t

  -- `labelsAdopted` is true on both paths where `isUpToDate` is called.
  unfoldable pub observation : Daemon → BackupDaemonResource → ExternalObservation
  observation d cr = record {
    resource_exists = true;
    resource_up_to_date = daemon_is_up_to_date (observed_cr d cr).for_provider d true;
    resource_late_initialized =
        if labels_adopted (take_over d cr) then (late_init_daemon cr.for_provider d).1 else true;
  }

  got_daemon : Result Daemon → M DaemonCall BackupDaemonResource (Option Daemon)
  got_daemon (ok d) = return (some d)
  got_daemon (err e) = if is_not_found (some e) then return none else fail e

  listed_daemons : String → Result (List Daemon) → M DaemonCall BackupDaemonResource (Option Daemon)
  listed_daemons name (ok ds) = return (find_daemon name ds)
  listed_daemons name (err e) = fail e

  unfoldable pub get_daemon :
      BackupDaemonParameters → M DaemonCall BackupDaemonResource (Option Daemon)
  unfolding got_daemon listed_daemons
  get_daemon p =
      if p.head_root_directory != ""
      then (do
        let id = p.machine <> ("/" <> svc.path_escape p.head_root_directory)
        r ← call (get id) (λ h. svc.get h id)
        got_daemon r)
      else (do r ← call list svc.list; listed_daemons p.machine r)

  -- `getDaemon` with the error wrapped, as each handler calls it.
  unfoldable pub lookup_daemon : M DaemonCall BackupDaemonResource (Option Daemon)
  lookup_daemon = do cr ← resource; wrapping err_list_daemons (get_daemon cr.for_provider)

  observe_found : Option Daemon → M DaemonCall BackupDaemonResource ExternalObservation
  observe_found none = return absent
  observe_found (some d) = do cr ← resource; modify (observed_cr d); return (observation d cr)

  observe_live : M DaemonCall BackupDaemonResource ExternalObservation
  unfolding observe_found
  observe_live = do observed ← lookup_daemon; observe_found observed

  unfoldable pub observe : M DaemonCall BackupDaemonResource ExternalObservation
  unfolding observe_live
  observe = do cr ← resource; if cr.deleted then return absent else observe_live

  create_found : Option Daemon → M DaemonCall BackupDaemonResource (Unit {0})
  create_found none = fail (new_error err_daemon_not_found)
  create_found (some existing) = do
    modify (λ c. record c { at_provider = record { configured = existing.configured } })
    modify (set_external_name (api_id existing))
    modify (λ c. record c { for_provider = (late_init_daemon c.for_provider existing).0 })
    cr ← resource
    emit normal "AdoptedDaemon" ("adopted existing backup daemon " <> cr.for_provider.machine)

  unfoldable pub create : M DaemonCall BackupDaemonResource (Unit {0})
  unfolding create_found
  create = do existing ← lookup_daemon; create_found existing

  update_found : Option Daemon → M DaemonCall BackupDaemonResource (Unit {0})
  update_found none = fail (new_error err_daemon_not_found)
  update_found (some current) = do
    cr ← resource
    let applied = apply_parameters cr.for_provider current
    r ← call (update (api_id applied) applied) (λ h. svc.update h (api_id applied) applied)
    or_wrap err_update_daemon r

  unfoldable pub update_daemon : M DaemonCall BackupDaemonResource (Unit {0})
  unfolding update_found
  update_daemon = do current ← lookup_daemon; update_found current

  unfoldable pub delete : M DaemonCall BackupDaemonResource (Unit {0})
  delete = return tt
