-- ===== src/Project/History.antt =====
-- What has been called after any number of methods of the project's controller, in any order.
use opsmanager_crossplane_pr.Common.{
  ◌≡◌, refl, ◌∙◌, ◌≢◌, Bool, true, false, ◌&&◌, ◌||◌, not, List, [], ◌∷◌, String, ◌==◌, string_eq,
  arith, Bool-cases, inl, inr, some,
}
use opsmanager_crossplane_pr.Errors.{Err, is_not_found}
use opsmanager_crossplane_pr.Effects.{Result, ok, err, Result-cases, St}
use opsmanager_crossplane_pr.Project.{
  OpsManagerProject, ApiProject, BackupConfig, ProjectCall, get_by_name, create, list_configs,
  delete, ProjectService,
}
use opsmanager_crossplane_pr.Project.Handlers.{
  observe, schedule_up_to_date, new_project, create_project, update_project,
}
use opsmanager_crossplane_pr.Project.Removal.{
  is_started, is_stopped, is_ending, stopping, ending, Phase, patch_all, drain, deleted,
  delete_listed, delete_project,
}
use opsmanager_crossplane_pr.Project.Removal.Drain.{
  NoneIs, none_or_some, SentOnly, none_sent, one_more, patch_all-SentOnly,
}
use opsmanager_crossplane_pr.Project.Removal.Deleting.{
  listed, delete_failed, drain_started, drain_ending, drain_none,
}

-- No backup config is started, stopped or terminating.
unfoldable pub idle : List BackupConfig → Bool
idle [] = true
idle (c ∷ cs) = not (is_started c || is_ending c) && idle cs

idle-NoneIs : (cs : List BackupConfig) → NoneIs is_started cs → NoneIs is_ending cs → idle cs ≡ true
unfolding idle
idle-NoneIs [] a b = refl
idle-NoneIs (c ∷ cs) (n, ns) (m, ms) = ground (arith, idle-NoneIs cs ns ms)

idle_listing : Result (List BackupConfig) → Bool
unfolding idle
idle_listing (ok cs) = idle cs
idle_listing (err e) = false

missing : Result ApiProject → Bool
missing (ok o) = false
missing (err e) = is_not_found (some e)

module _ (svc : ProjectService) where
  -- The newest call has listed the backup configs of the project, and the API has answered that none
  -- is left to stop or to terminate.
  unfoldable pub just_idle : String → List ProjectCall → Bool
  unfolding idle_listing
  just_idle id (list_configs p ∷ h) = p == id && idle_listing (svc.list_configs h id)
  just_idle id h = false

  -- The newest call has looked the name up, and the API has answered by a 404.
  unfoldable pub just_missing : String → List ProjectCall → Bool
  unfolding missing
  just_missing name (get_by_name n ∷ h) = n == name && missing (svc.get_by_name h name)
  just_missing name h = false

  -- Each deletion of a project came straight after such a listing, each creation after such a
  -- lookup.
  unfoldable pub guarded : List ProjectCall → Bool
  guarded [] = true
  guarded (delete id ∷ h) = just_idle id h && guarded h
  guarded (create p ∷ h) = just_missing p.name h && guarded h
  guarded (q ∷ h) = guarded h

  guarded-observe :
      (s : St ProjectCall OpsManagerProject) → guarded (observe svc s).1.calls ≡ guarded s.calls
  unfolding guarded observe schedule_up_to_date
  guarded-observe s = ground arith

  guarded-create_project :
      (s : St ProjectCall OpsManagerProject)
      → guarded (create_project svc s).1.calls ≡ guarded s.calls
  unfolding guarded just_missing create_project new_project
  guarded-create_project s = ground arith

  guarded-update_project :
      (s : St ProjectCall OpsManagerProject)
      → guarded (update_project svc s).1.calls ≡ guarded s.calls
  unfolding guarded update_project
  guarded-update_project s = ground arith

  guarded-SentOnly :
      {id : String} {phase : Phase} {h k : List ProjectCall}
      → SentOnly id phase h k
      → guarded k ≡ guarded h
  unfolding guarded
  guarded-SentOnly none_sent = refl
  guarded-SentOnly (one_more c m) = guarded-SentOnly m

  -- A deletion that fails before it deletes has sent patches only.
  guarded_failed :
      (s : St ProjectCall OpsManagerProject) (cs : List BackupConfig) (phase : Phase)
      (test : BackupConfig → Bool) (e : Err)
      → s.cr.at_provider.id ≢ ""
      → svc.list_configs s.calls s.cr.at_provider.id ≡ ok cs
      → drain svc s.cr.at_provider.id cs (listed svc s)
        ≡ (err e, (patch_all svc s.cr.at_provider.id phase test cs (listed svc s)).1)
      → guarded (delete_project svc s).1.calls ≡ guarded s.calls
  unfolding guarded
  guarded_failed s cs phase test e n l d =
      let id = s.cr.at_provider.id in
      rw (delete_failed svc s cs e _ n l d) (
        guarded-SentOnly
          (patch_all-SentOnly svc id phase test cs (listed svc s).calls (listed svc s) none_sent))

  guarded_drained :
      (s : St ProjectCall OpsManagerProject) (cs : List BackupConfig)
      → s.cr.at_provider.id ≢ ""
      → svc.list_configs s.calls s.cr.at_provider.id ≡ ok cs
      → NoneIs is_started cs
      → NoneIs is_ending cs
      → guarded (delete_project svc s).1.calls ≡ guarded s.calls
  unfolding guarded just_idle delete_project delete_listed deleted
  guarded_drained s cs n l a b =
      let d = drain_none svc s.cr.at_provider.id cs (listed svc s) a b in
      let i = idle-NoneIs cs a b in ground arith

  guarded-delete_project :
      (s : St ProjectCall OpsManagerProject)
      → guarded (delete_project svc s).1.calls ≡ guarded s.calls
  unfolding guarded delete_project delete_listed
  guarded-delete_project s =
      let id = s.cr.at_provider.id in
      elim (Bool-cases (id == "")) [
        | inl e ↦ ground arith
        | inr n ↦ elim (Result-cases (svc.list_configs s.calls id)) [
          | inr (x, l) ↦ ground arith
          | inl (cs, l) ↦ elim (none_or_some is_started cs) [
            | inr m ↦
                let (e, d) = drain_started svc id cs (listed svc s) m in
                guarded_failed s cs stopping is_started e (λ e. ground arith) l d
            | inl a ↦ elim (none_or_some is_ending cs) [
              | inr m ↦
                  let (e, d) = drain_ending svc id cs (listed svc s) a m in
                  guarded_failed s cs ending is_stopped e (λ e. ground arith) l d
              | inl b ↦ guarded_drained s cs (λ e. ground arith) l a b
            ]
          ]
        ]
      ]

  -- What a state becomes by methods in any order, between which the resource may be edited.
  pub data Reaches (s : St ProjectCall OpsManagerProject)
      : St ProjectCall OpsManagerProject → Type 0 where
    start : Reaches s s
    edited :
        {t : St ProjectCall OpsManagerProject} (cr : OpsManagerProject)
        → Reaches s t
        → Reaches s (record t { cr = cr })
    observed : {t : St ProjectCall OpsManagerProject} → Reaches s t → Reaches s (observe svc t).1
    created :
        {t : St ProjectCall OpsManagerProject} → Reaches s t → Reaches s (create_project svc t).1
    updated :
        {t : St ProjectCall OpsManagerProject} → Reaches s t → Reaches s (update_project svc t).1
    removed :
        {t : St ProjectCall OpsManagerProject} → Reaches s t → Reaches s (delete_project svc t).1

  -- If each deletion of a project that was sent came straight after a listing of its backup configs to
  -- which the API answered that none is started, stopped or terminating, and each creation straight
  -- after a lookup of its name that the API answered by a 404, this is so after any methods, called in
  -- any order and with any edits of the resource between them.
  pub guarded_project :
      (s t : St ProjectCall OpsManagerProject)
      → guarded s.calls ≡ true
      → Reaches s t
      → guarded t.calls ≡ true
  guarded_project s t g start = g
  guarded_project s t g (edited cr r) = guarded_project s _ g r
  guarded_project s t g (observed {t = u} r) = guarded-observe u ∙ guarded_project s u g r
  guarded_project s t g (created {t = u} r) = guarded-create_project u ∙ guarded_project s u g r
  guarded_project s t g (updated {t = u} r) = guarded-update_project u ∙ guarded_project s u g r
  guarded_project s t g (removed {t = u} r) = guarded-delete_project u ∙ guarded_project s u g r
