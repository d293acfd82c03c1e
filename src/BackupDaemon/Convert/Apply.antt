-- ===== src/BackupDaemon/Convert/Apply.antt =====
-- What `applyParameters` leaves, against `isUpToDate` and the ID under which it is sent.
use opsmanager_crossplane_pr.Common.{
  ◌≡◌, refl, Bool, true, false, not, ◌||◌, ◌&&◌, Option, none, some, String, ◌<>◌, List, [], ◌∷◌,
  elements, is_some, is_empty, arith, ◌==◌, ◌!=◌, string_eq, bool_eq, nat_eq, if◌then◌else◌,
}
use opsmanager_crossplane_pr.Labels.{string_slices_equal, flag_differs, labels_differ}
use opsmanager_crossplane_pr.Labels.Compare.{labels_differ_iff}
use opsmanager_crossplane_pr.BackupDaemon.{BackupDaemonParameters, Daemon, Machine}
use opsmanager_crossplane_pr.BackupDaemon.Convert.{
  apply_parameters, override, override_flag, override_text, override_head, set_flag_differs,
  daemon_is_up_to_date, daemon_api_id, machine_id, machine_or_new,
}

flag_differs-override : (p d : Option Bool) → flag_differs p (override p d) ≡ false
unfolding flag_differs override bool_eq
flag_differs-override none d = refl
flag_differs-override (some true) d = refl
flag_differs-override (some false) d = refl

set_flag_differs-override :
    (p : Option Bool) (d : Bool) → set_flag_differs p (override_flag p d) ≡ false
unfolding set_flag_differs override_flag bool_eq
set_flag_differs-override none d = refl
set_flag_differs-override (some true) d = refl
set_flag_differs-override (some false) d = refl

text_differs-override : (p d : String) → (p != "" && p != override_text p d) ≡ false
unfolding override_text
text_differs-override p d = ground arith

labels_differ-override :
    (p d : Option (List String))
    → labels_differ p (override p d) true ≡ not (is_some p || is_empty (elements d))
unfolding override
labels_differ-override (some l) d = (labels_differ_iff (some l) (some l) true).1 (λ h. refl)
labels_differ-override none none = (labels_differ_iff none none true).1 (λ h. refl)
labels_differ-override none (some []) = (labels_differ_iff none (some []) true).1 (λ h. refl)
labels_differ-override none (some (x ∷ xs)) =
    unfold labels_differ string_slices_equal nat_eq in ground arith

-- A daemon to which the parameters were applied is up to date with them exactly if the spec has
-- labels or the daemon has none.
pub daemon_is_up_to_date-apply_parameters :
    (p : BackupDaemonParameters) (d : Daemon)
    → daemon_is_up_to_date p (apply_parameters p d) true
      ≡ (is_some p.labels || is_empty (elements d.labels))
unfolding daemon_is_up_to_date apply_parameters
daemon_is_up_to_date-apply_parameters p d = ground (
  arith,
  labels_differ-override p.labels d.labels,
  flag_differs-override p.assignment_enabled d.assignment_enabled,
  set_flag_differs-override p.backup_jobs_enabled d.backup_jobs_enabled,
  set_flag_differs-override p.garbage_collection_enabled d.garbage_collection_enabled,
  set_flag_differs-override p.resource_usage_enabled d.resource_usage_enabled,
  text_differs-override p.head_disk_type d.head_disk_type,
)

abbrev pub machine_name : Option Machine → String
machine_name none = ""
machine_name (some m) = m.machine

machine_id-override_head :
    (path_escape : String → String) (id head : String) (m : Option Machine)
    → machine_id path_escape id (override_head head m) ≡ (
        if head == ""
        then machine_id path_escape id m
        else machine_name m <> ("/" <> path_escape head))
unfolding machine_id override_head machine_or_new
machine_id-override_head e id head none = ground arith
machine_id-override_head e id head (some m) = ground arith

-- The ID under which the daemon is sent after the parameters were applied is the one that it had
-- before if the spec names no head directory. If it names one, the ID is made of the machine's
-- name in the API's answer, which is empty if the answer has no machine, and of that directory.
pub daemon_api_id-apply_parameters :
    (path_escape : String → String) (p : BackupDaemonParameters) (d : Daemon)
    → daemon_api_id path_escape (apply_parameters p d) ≡ (
        if p.head_root_directory == ""
        then daemon_api_id path_escape d
        else machine_name d.machine <> ("/" <> path_escape p.head_root_directory))
unfolding daemon_api_id apply_parameters
daemon_api_id-apply_parameters e p d =
    machine_id-override_head e d.id p.head_root_directory d.machine
