-- ===== src/Project/Removal/Deleting.antt =====
-- What `Delete` of the project does for each set of backup configs.
use opsmanager_crossplane_pr.Common.{
  ◌≡◌, ◌≢◌, ◌∙◌, ap, ◌⊎◌, true, List, ◌∷◌, String, string_eq, ◌==◌, arith, Bool-cases, inl, inr,
  some,
}
use opsmanager_crossplane_pr.Errors.{Err, is_not_found}
use opsmanager_crossplane_pr.Effects.{
  ok, err, Result-cases, St, M, ◌>>◌, then_ok, then_err, with_state,
}
use opsmanager_crossplane_pr.Project.{
  OpsManagerProject, BackupConfig, ProjectCall, list_configs, delete, ProjectService,
}
use opsmanager_crossplane_pr.Project.Removal.{
  is_started, is_stopped, is_ending, stopping, ending, patch_all, wait_for, drain, deleted,
  delete_listed, delete_project,
}
use opsmanager_crossplane_pr.Project.Removal.Drain.{
  NoneIs, SomeIs, none_or_some, none_stopped, patches, SentOnly, none_sent, patch_all_none,
  wait_for_none, wait_for_some, patch_all_accepted, patch_all-SentOnly, Accepts,
}

module _ (svc : ProjectService) (id : String) (cs : List BackupConfig)
    (s : St ProjectCall OpsManagerProject) where
  abbrev stop : M ProjectCall OpsManagerProject (Unit {0})
  stop = patch_all svc id stopping is_started cs

  abbrev await_stop : M ProjectCall OpsManagerProject (Unit {0})
  await_stop = wait_for svc id "waiting for backup config %s to stop" is_started cs

  abbrev terminate : M ProjectCall OpsManagerProject (Unit {0})
  terminate = patch_all svc id ending is_stopped cs

  abbrev await_end : M ProjectCall OpsManagerProject (Unit {0})
  await_end = wait_for svc id "waiting for backup config %s to terminate" is_ending cs

  pub drain_started : SomeIs is_started cs → (e : Err) × (drain svc id cs s ≡ (err e, (stop s).1))
  unfolding drain
  drain_started m =
      let rest = await_stop >> (terminate >> await_end) in
      elim (Result-cases (stop s).0) [
        | inl (a, r) ↦
            let (e, q) =
              wait_for_some svc id "waiting for backup config %s to stop" is_started cs (stop s).1
                m in
            (
              e,
              then_ok stop rest s (with_state stop s r)
                  ∙ then_err await_stop (terminate >> await_end) (stop s).1 q,
            )
        | inr (x, r) ↦ (x, then_err stop rest s (with_state stop s r))
      ]

  drain_stopped : NoneIs is_started cs → drain svc id cs s ≡ (terminate >> await_end) s
  unfolding drain
  drain_stopped n =
      let first = patch_all_none svc id stopping is_started cs s n in
      let second = wait_for_none svc id "waiting for backup config %s to stop" is_started cs s n in
      then_ok stop (await_stop >> (terminate >> await_end)) s first
      ∙ then_ok await_stop (terminate >> await_end) s second

  pub drain_ending :
      NoneIs is_started cs
      → SomeIs is_ending cs
      → (e : Err) × (drain svc id cs s ≡ (err e, (terminate s).1))
  drain_ending n m = elim (Result-cases (terminate s).0) [
    | inl (a, r) ↦
        let (e, q) =
          wait_for_some svc id "waiting for backup config %s to terminate" is_ending cs
            (terminate s).1 m in
        (e, drain_stopped n ∙ then_ok terminate await_end s (with_state terminate s r) ∙ q)
    | inr (x, r) ↦ (x, drain_stopped n ∙ then_err terminate await_end s (with_state terminate s r))
  ]

  pub drain_none : NoneIs is_started cs → NoneIs is_ending cs → drain svc id cs s ≡ (ok tt, s)
  drain_none n m =
      drain_stopped n
      ∙ then_ok terminate await_end s
          (patch_all_none svc id ending is_stopped cs s (none_stopped cs m))
      ∙ wait_for_none svc id "waiting for backup config %s to terminate" is_ending cs s m

module _ (svc : ProjectService) (s : St ProjectCall OpsManagerProject) where
  abbrev pub listed : St ProjectCall OpsManagerProject
  listed = record s { calls = list_configs s.cr.at_provider.id ∷ s.calls }

  pub delete_failed :
      (cs : List BackupConfig) (e : Err) (t : St ProjectCall OpsManagerProject)
      → s.cr.at_provider.id ≢ ""
      → svc.list_configs s.calls s.cr.at_provider.id ≡ ok cs
      → drain svc s.cr.at_provider.id cs listed ≡ (err e, t)
      → delete_project svc s ≡ (err e, t)
  unfolding delete_project delete_listed
  delete_failed cs e t n l d = ground arith

  -- While the API lists a backup config that is started, `Delete` of a project with an ID fails, and
  -- after listing the configs it sends only requests to stop: it terminates no backup and does not delete the
  -- project.
  pub delete_waits_for_stop :
      (cs : List BackupConfig)
      → s.cr.at_provider.id ≢ ""
      → svc.list_configs s.calls s.cr.at_provider.id ≡ ok cs
      → SomeIs is_started cs
      → ((e : Err) × ((delete_project svc s).0 ≡ err e))
        × SentOnly s.cr.at_provider.id stopping listed.calls (delete_project svc s).1.calls
  delete_waits_for_stop cs n l m =
      let id = s.cr.at_provider.id in
      let (e, q) = drain_started svc id cs listed m in
      let whole = delete_failed cs e _ n l q in
      (
        (e, ap (λ (x : _ × _). x.0) whole),
        rw whole (patch_all-SentOnly svc id stopping is_started cs listed.calls listed none_sent),
      )

  module _ (cs : List BackupConfig) (n : s.cr.at_provider.id ≢ "")
      (l : svc.list_configs s.calls s.cr.at_provider.id ≡ ok cs)
      (a : Accepts svc s.cr.at_provider.id) where
    -- If the project has an ID, a listed config is started, and the API accepts every patch, `Delete`
    -- sends one to each started config, to stop it, and fails.
    pub delete_stops :
        SomeIs is_started cs
        → ((e : Err) × ((delete_project svc s).0 ≡ err e))
          × ((delete_project svc s).1.calls
              ≡ patches s.cr.at_provider.id stopping is_started cs listed.calls)
    delete_stops m =
        let id = s.cr.at_provider.id in
        let (e, q) = drain_started svc id cs listed m in
        let whole = delete_failed cs e _ n l q in
        (
          (e, ap (λ (x : _ × _). x.0) whole),
          rw whole (patch_all_accepted svc id stopping is_started cs listed a).1,
        )

    -- If the project has an ID, no listed config is started, one is stopped or terminating, and the
    -- API accepts every patch, `Delete` sends one to each stopped config, to terminate it, and fails.
    pub delete_terminates :
        NoneIs is_started cs
        → SomeIs is_ending cs
        → ((e : Err) × ((delete_project svc s).0 ≡ err e))
          × ((delete_project svc s).1.calls
              ≡ patches s.cr.at_provider.id ending is_stopped cs listed.calls)
    delete_terminates k m =
        let id = s.cr.at_provider.id in
        let (e, q) = drain_ending svc id cs listed k m in
        let whole = delete_failed cs e _ n l q in
        (
          (e, ap (λ (x : _ × _). x.0) whole),
          rw whole (patch_all_accepted svc id ending is_stopped cs listed a).1,
        )

  -- What a deletion that returns no error has sent: nothing for a project without an ID, and
  -- otherwise the listing and, as no listed config was left to stop or to terminate, the deletion.
  pub data ProjectDeleted (t : St ProjectCall OpsManagerProject) : Type 0 where
    never_created : s.cr.at_provider.id ≡ "" → t ≡ s → ProjectDeleted t
    drained :
        (cs : List BackupConfig)
        → svc.list_configs s.calls s.cr.at_provider.id ≡ ok cs
        → NoneIs is_started cs
        → NoneIs is_ending cs
        → t.calls ≡ delete s.cr.at_provider.id ∷ listed.calls
        → (svc.delete listed.calls s.cr.at_provider.id ≡ ok tt)
          ⊎ ((e : Err) × (svc.delete listed.calls s.cr.at_provider.id ≡ err e)
              × (is_not_found (some e) ≡ true))
        → t.cr ≡ s.cr
        → ProjectDeleted t

  delete_drained :
      (cs : List BackupConfig)
      → s.cr.at_provider.id ≢ ""
      → svc.list_configs s.calls s.cr.at_provider.id ≡ ok cs
      → NoneIs is_started cs
      → NoneIs is_ending cs
      → (delete_project svc s).0 ≡ ok tt
      → ProjectDeleted (delete_project svc s).1
  unfolding delete_project delete_listed deleted
  delete_drained cs n l a b h =
      let d = drain_none svc s.cr.at_provider.id cs listed a b in
      elim (Result-cases (svc.delete listed.calls s.cr.at_provider.id)) [
        | inl (x, q) ↦ drained cs l a b (ground arith) (inl q) (ground arith)
        | inr (e, q) ↦ drained cs l a b (ground arith) (inr (e, q, ground arith)) (ground arith)
      ]

  not_failed :
      {A : Type 0} {t : St ProjectCall OpsManagerProject} (cs : List BackupConfig)
      → (delete_project svc s).0 ≡ ok tt
      → s.cr.at_provider.id ≢ ""
      → svc.list_configs s.calls s.cr.at_provider.id ≡ ok cs
      → (e : Err) × (drain svc s.cr.at_provider.id cs listed ≡ (err e, t))
      → A
  not_failed cs h n l (e, q) = absurd (ground (arith, delete_failed cs e _ n l q))

  -- `Delete` returns no error only if the resource has no project's ID, with nothing called, or if
  -- no listed backup config is started, stopped or terminating and the deletion, its only call after
  -- the listing, was accepted or answered by a 404; the resource is as before.
  pub delete_project-ProjectDeleted :
      (delete_project svc s).0 ≡ ok tt → ProjectDeleted (delete_project svc s).1
  unfolding delete_project delete_listed
  delete_project-ProjectDeleted h = elim (Bool-cases (s.cr.at_provider.id == "")) [
    | inl e ↦ never_created (ground arith) (ground arith)
    | inr n ↦ elim (Result-cases (svc.list_configs s.calls s.cr.at_provider.id)) [
      | inr (x, l) ↦ absurd (ground arith)
      | inl (cs, l) ↦ elim (none_or_some is_started cs) [
        | inr m ↦
            not_failed cs h (λ e. ground arith) l
              (drain_started svc s.cr.at_provider.id cs listed m)
        | inl a ↦ elim (none_or_some is_ending cs) [
          | inr m ↦
              not_failed cs h (λ e. ground arith) l
                (drain_ending svc s.cr.at_provider.id cs listed a m)
          | inl b ↦ delete_drained cs (λ e. ground arith) l a b h
        ]
      ]
    ]
  ]
