-- ===== src/Project/Removal/Absence.antt =====
-- What `Observe` of a project reports after a `Delete`, or several, that returned no error.
use opsmanager_crossplane_pr.Common.{◌≡◌, ◌≢◌, ◌⊎◌, true, ℕ, List, ◌∷◌, String, some, arith}
use opsmanager_crossplane_pr.Errors.{Err, is_not_found}
use opsmanager_crossplane_pr.Effects.{ok, err, St}
use opsmanager_crossplane_pr.Managed.{absent}
use opsmanager_crossplane_pr.Project.{OpsManagerProject, ProjectCall, delete, ProjectService}
use opsmanager_crossplane_pr.Project.Handlers.{observe}
use opsmanager_crossplane_pr.Project.Removal.{delete_project}
use opsmanager_crossplane_pr.Project.Removal.Deleting.{
  listed, never_created, drained, delete_project-ProjectDeleted,
}
use opsmanager_crossplane_pr.Project.Removal.Rounds.{deletions, Obeys, Done, deletions-Done}

module _ (svc : ProjectService) where
  -- `Observe` reports that the project is absent.
  abbrev pub FoundAbsent : St ProjectCall OpsManagerProject → Type 0
  FoundAbsent t = (observe svc t).0 ≡ ok absent

  -- The API has accepted a deletion, or has answered it that there is no such project.
  abbrev pub Deletes : List ProjectCall → String → Type 0
  Deletes h id =
      (svc.delete h id ≡ ok tt)
      ⊎ ((e : Err) × (svc.delete h id ≡ err e) × (is_not_found (some e) ≡ true))

  -- The API answers the lookup of the name that there is no such project.
  abbrev pub Lacks : List ProjectCall → String → Type 0
  Lacks h name = (e : Err) × (svc.get_by_name h name ≡ err e) × (is_not_found (some e) ≡ true)

  absent_after :
      (t : St ProjectCall OpsManagerProject) → Lacks t.calls t.cr.for_provider.name → FoundAbsent t
  unfolding observe
  absent_after t (e, q, n) = ground arith

  -- If the resource has a project's ID, `Delete` returns no error, and the API answers the lookup of
  -- the name after a deletion that it accepted, or answered by a 404, with a 404, the next `Observe`
  -- reports that the project is absent.
  pub delete_then_observe_project :
      (s : St ProjectCall OpsManagerProject)
      → s.cr.at_provider.id ≢ ""
      → ((h : List ProjectCall)
          → Deletes h s.cr.at_provider.id
          → Lacks (delete s.cr.at_provider.id ∷ h) s.cr.for_provider.name)
      → (delete_project svc s).0 ≡ ok tt
      → FoundAbsent (delete_project svc s).1
  delete_then_observe_project s n gone done =
      let t = (delete_project svc s).1 in
      elim (delete_project-ProjectDeleted svc s done) [
        | never_created e same ↦ absurd (n e)
        | drained cs l a b c d same ↦ absent_after t (rw (same, c) (gone (listed svc s).calls d))
      ]

  -- If the resource has a project's ID, the API makes progress, and it answers the lookup of the name
  -- after a deletion that it accepted with a 404, then one deletion, called again as often as it fails,
  -- returns no error after at most as many more as there is work left; its last call is the deletion
  -- of the project, which the API has accepted, the resource is as before, and the next `Observe`
  -- reports that the project is absent.
  pub deletions_then_observe :
      (s : St ProjectCall OpsManagerProject) (left : List ProjectCall → ℕ)
      → s.cr.at_provider.id ≢ ""
      → Obeys svc s.cr.at_provider.id s.calls left
      → ((h : List ProjectCall)
          → svc.delete h s.cr.at_provider.id ≡ ok tt
          → Lacks (delete s.cr.at_provider.id ∷ h) s.cr.for_provider.name)
      → Done svc s (deletions svc (left s.calls) s) × FoundAbsent (deletions svc (left s.calls) s).1
  deletions_then_observe s left n obeys gone =
      let d = deletions-Done svc s left n obeys in
      (
        d,
        absent_after (deletions svc (left s.calls) s).1
            (rw (d.same_cr, d.last) (gone d.before d.accepted)),
      )
