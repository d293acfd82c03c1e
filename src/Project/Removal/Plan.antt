-- ===== src/Project/Removal/Plan.antt =====
-- What a deletion of the project is to send, as a function of the listed backup configs alone.
use opsmanager_crossplane_pr.Common.{
  ◌≡◌, ◌≢◌, refl, Bool, true, false, ◌||◌, List, [], ◌∷◌, String, string_eq, if◌then◌else◌, arith,
  inl, inr,
}
use opsmanager_crossplane_pr.Effects.{ok, Result-cases, St}
use opsmanager_crossplane_pr.Project.{
  OpsManagerProject, BackupConfig, ProjectCall, delete, ProjectService,
}
use opsmanager_crossplane_pr.Project.Removal.{
  is_started, is_stopped, is_ending, stopping, ending, deleted, delete_listed, delete_project,
}
use opsmanager_crossplane_pr.Project.Removal.Drain.{
  NoneIs, SomeIs, here, later, none_or_some, patches, Accepts,
}
use opsmanager_crossplane_pr.Project.Removal.Deleting.{
  listed, drain_none, delete_stops, delete_terminates,
}

unfoldable pub any : (BackupConfig → Bool) → List BackupConfig → Bool
any test [] = false
any test (c ∷ cs) = test c || any test cs

-- Stop what is started; if nothing is, terminate what is stopped; and if nothing is left that is
-- stopped or terminating, delete the project.
unfoldable pub plan : String → List BackupConfig → List ProjectCall → List ProjectCall
plan id cs h =
    if any is_started cs
    then patches id stopping is_started cs h
    else if any is_ending cs
    then patches id ending is_stopped cs h
    else delete id ∷ h

any_none :
    (test : BackupConfig → Bool) (cs : List BackupConfig) → NoneIs test cs → any test cs ≡ false
unfolding any
any_none test [] n = refl
any_none test (c ∷ cs) (n, ns) = ground (arith, any_none test cs ns)

any_some :
    (test : BackupConfig → Bool) (cs : List BackupConfig) → SomeIs test cs → any test cs ≡ true
unfolding any
any_some test [] m = elim m [ ]
any_some test (c ∷ cs) (here t) = ground arith
any_some test (c ∷ cs) (later m) = ground (arith, any_some test cs m)

module _ (svc : ProjectService) (s : St ProjectCall OpsManagerProject)
    (cs : List BackupConfig) where
  delete_sent :
      s.cr.at_provider.id ≢ ""
      → svc.list_configs s.calls s.cr.at_provider.id ≡ ok cs
      → NoneIs is_started cs
      → NoneIs is_ending cs
      → (delete_project svc s).1.calls ≡ delete s.cr.at_provider.id ∷ (listed svc s).calls
  unfolding delete_project delete_listed deleted
  delete_sent n l a b =
      let d = drain_none svc s.cr.at_provider.id cs (listed svc s) a b in
      elim (Result-cases (svc.delete (listed svc s).calls s.cr.at_provider.id)) [
        | inl (x, q) ↦ ground arith
        | inr (e, q) ↦ ground arith
      ]

  -- If the project has an ID, the API lists its backup configs, and accepts every patch, `Delete`
  -- sends after the listing what the plan says for them: patches to stop the started configs, or
  -- else patches to terminate the stopped ones, or else the deletion.
  pub delete_project-plan :
      s.cr.at_provider.id ≢ ""
      → svc.list_configs s.calls s.cr.at_provider.id ≡ ok cs
      → Accepts svc s.cr.at_provider.id
      → (delete_project svc s).1.calls ≡ plan s.cr.at_provider.id cs (listed svc s).calls
  unfolding plan
  delete_project-plan n l a = elim (none_or_some is_started cs) [
    | inr m ↦ rw (any_some is_started cs m) (delete_stops svc s cs n l a m).1
    | inl k ↦ elim (none_or_some is_ending cs) [
      | inr m ↦
          rw (any_none is_started cs k, any_some is_ending cs m)
            (delete_terminates svc s cs n l a k m).1
      | inl b ↦ rw (any_none is_started cs k, any_none is_ending cs b) (delete_sent n l k b)
    ]
  ]
