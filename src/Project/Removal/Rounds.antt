-- ===== src/Project/Removal/Rounds.antt =====
-- `Delete` of the project called again and again, as long as it fails.
use opsmanager_crossplane_pr.Common.{
  ℕ, zero, suc, ◌<◌, ◌≤◌, ◌≡◌, ◌≢◌, refl, ◌∙◌, ap, ◌⊎◌, inl, inr, Bool, List, ◌∷◌, String,
  string_eq, arith,
}
use opsmanager_crossplane_pr.Errors.{Err}
use opsmanager_crossplane_pr.Effects.{Result, ok, err, St, with_state}
use opsmanager_crossplane_pr.Project.{
  OpsManagerProject, BackupConfig, ProjectCall, list_configs, update_config, delete, ProjectService,
}
use opsmanager_crossplane_pr.Project.Removal.{
  is_started, is_stopped, is_ending, status_patch, Phase, stopping, ending, patch_all, deleted,
  delete_listed, drain, delete_project,
}
use opsmanager_crossplane_pr.Project.Removal.Drain.{
  NoneIs, SomeIs, none_or_some, patches, patch_all_while, cr-patch_all,
}
use opsmanager_crossplane_pr.Project.Removal.Deleting.{
  listed, delete_failed, drain_started, drain_ending, drain_none,
}

module _ (svc : ProjectService) where
  -- A deletion that fails is called again, at most `n` times more.
  unfoldable pub deletions :
      ℕ → St ProjectCall OpsManagerProject → Result (Unit {0}) × St ProjectCall OpsManagerProject
  deletions zero s = delete_project svc s
  deletions (suc n) s =
      let (r, t) = delete_project svc s in
      let again = deletions n t in elim r [ ok a ↦ (ok a, t) | err e ↦ again ]

  -- Since `before`, only the backup configs of the project were listed and patched.
  pub data Later (id : String) (before : List ProjectCall) : List ProjectCall → Type 0 where
    now : Later id before before
    after_listing :
        {h : List ProjectCall} → Later id before h → Later id before (list_configs id ∷ h)
    after_patch :
        {h : List ProjectCall} (c : String) (p : BackupConfig)
        → Later id before h
        → Later id before (update_config id c p ∷ h)

  -- An API that makes progress, while the backup configs are only listed and patched: it answers each
  -- listing and accepts each patch; a listing that shows a started config, with the patches that stop
  -- those that are, leaves less to do, and so does one that shows none that is started but one that
  -- is stopped or terminating, with the patches that terminate those that are stopped; and straight
  -- after a listing that shows none of these it accepts the deletion. What is left to do is any number
  -- that the calls determine.
  pub record Obeys (id : String) (before : List ProjectCall) (left : List ProjectCall → ℕ)
      : Type 0 where
    pub accepts :
        (h : List ProjectCall) (c status : String)
        → Later id before h
        → svc.update_config h id c (status_patch status) ≡ ok tt
    pub lists :
        (h : List ProjectCall)
        → Later id before h
        → (cs : List BackupConfig) × (svc.list_configs h id ≡ ok cs)
    pub stops :
        (h : List ProjectCall) (cs : List BackupConfig)
        → Later id before h
        → svc.list_configs h id ≡ ok cs
        → SomeIs is_started cs
        → left (patches id stopping is_started cs (list_configs id ∷ h)) < left h
    pub ends :
        (h : List ProjectCall) (cs : List BackupConfig)
        → Later id before h
        → svc.list_configs h id ≡ ok cs
        → NoneIs is_started cs
        → SomeIs is_ending cs
        → left (patches id ending is_stopped cs (list_configs id ∷ h)) < left h
    pub deletes :
        (h : List ProjectCall) (cs : List BackupConfig)
        → Later id before h
        → svc.list_configs h id ≡ ok cs
        → NoneIs is_started cs
        → NoneIs is_ending cs
        → svc.delete (list_configs id ∷ h) id ≡ ok tt

  again :
      (n : ℕ) (s t : St ProjectCall OpsManagerProject) (e : Err)
      → delete_project svc s ≡ (err e, t)
      → deletions (suc n) s ≡ deletions n t
  unfolding deletions
  again n s t e h =
      ap
        (λ (x : Result (Unit {0}) × St ProjectCall OpsManagerProject). elim x.0 [
          | ok a ↦ (ok a, x.1)
          | err e ↦ deletions n x.1
        ])
        h

  -- The deletion has succeeded as the last call.
  pub record Done (s : St ProjectCall OpsManagerProject)
      (x : Result (Unit {0}) × St ProjectCall OpsManagerProject) : Type 0 where
    pub succeeded : x.0 ≡ ok tt
    pub before : List ProjectCall
    pub last : x.1.calls ≡ delete s.cr.at_provider.id ∷ before
    pub accepted : svc.delete before s.cr.at_provider.id ≡ ok tt
    pub same_cr : x.1.cr ≡ s.cr

  settled :
      (n : ℕ) (s : St ProjectCall OpsManagerProject)
      → (delete_project svc s).0 ≡ ok tt
      → deletions n s ≡ delete_project svc s
  unfolding deletions
  settled zero s h = refl
  settled (suc n) s h = rw (with_state (delete_project svc) s h, deletions) refl

  Done-later :
      (s t : St ProjectCall OpsManagerProject)
      (x : Result (Unit {0}) × St ProjectCall OpsManagerProject)
      → t.cr ≡ s.cr
      → Done t x
      → Done s x
  Done-later s t x same d = record {
    succeeded = d.succeeded;
    before = d.before;
    last = rw same at d.last;
    accepted = rw same at d.accepted;
    same_cr = d.same_cr ∙ same;
  }

  module _ (before : List ProjectCall) (left : List ProjectCall → ℕ) where
    -- A deletion that has failed, and has left less to do.
    record Failed (s : St ProjectCall OpsManagerProject) : Type 0 where
      pub t : St ProjectCall OpsManagerProject
      pub e : Err
      pub whole : delete_project svc s ≡ (err e, t)
      pub same_cr : t.cr ≡ s.cr
      pub later : Later s.cr.at_provider.id before t.calls
      pub less : left t.calls < left s.calls

    module _ (s : St ProjectCall OpsManagerProject) (n : s.cr.at_provider.id ≢ "")
        (o : Obeys s.cr.at_provider.id before left)
        (since : Later s.cr.at_provider.id before s.calls) where
      Failed-phase :
          (phase : Phase) (test : BackupConfig → Bool) (cs : List BackupConfig)
          → svc.list_configs s.calls s.cr.at_provider.id ≡ ok cs
          → left (
              patches s.cr.at_provider.id phase test cs
                (list_configs s.cr.at_provider.id ∷ s.calls))
            < left s.calls
          → (e : Err) × (drain svc s.cr.at_provider.id cs (listed svc s)
              ≡ (err e, (patch_all svc s.cr.at_provider.id phase test cs (listed svc s)).1))
          → Failed s
      Failed-phase phase test cs l less (e, q) =
          let id = s.cr.at_provider.id in
          let (r, c, k) =
            patch_all_while svc id (Later id before) phase (λ h c p. o.accepts h c phase.status p)
              (λ h c p. after_patch c (status_patch phase.status) p) test cs (listed svc s)
              (after_listing since) in
          record {
            t = (patch_all svc id phase test cs (listed svc s)).1;
            e = e;
            whole = delete_failed svc s cs e _ n l q;
            same_cr = cr-patch_all svc id phase test cs (listed svc s);
            later = k;
            less = rw c less;
          }

      Done-drained :
          (cs : List BackupConfig)
          → svc.list_configs s.calls s.cr.at_provider.id ≡ ok cs
          → NoneIs is_started cs
          → NoneIs is_ending cs
          → Done s (delete_project svc s)
      unfolding delete_project delete_listed deleted
      Done-drained cs l a b =
          let d = drain_none svc s.cr.at_provider.id cs (listed svc s) a b in
          let q = o.deletes s.calls cs since l a b in
          record {
            succeeded = ground arith;
            before = (listed svc s).calls;
            last = ground arith;
            accepted = q;
            same_cr = ground arith;
          }

      delete_round : Done s (delete_project svc s) ⊎ Failed s
      delete_round =
          let id = s.cr.at_provider.id in
          let (cs, l) = o.lists s.calls since in
          elim (none_or_some is_started cs) [
            | inr m ↦ inr (
                Failed-phase stopping is_started cs l (o.stops s.calls cs since l m)
                  (drain_started svc id cs (listed svc s) m))
            | inl a ↦ elim (none_or_some is_ending cs) [
              | inr m ↦ inr (
                  Failed-phase ending is_stopped cs l (o.ends s.calls cs since l a m)
                    (drain_ending svc id cs (listed svc s) a m))
              | inl b ↦ inl (Done-drained cs l a b)
            ]
          ]

    -- As many deletions more as there is work left are enough.
    Done-deletions :
        (n : ℕ) (s : St ProjectCall OpsManagerProject)
        → s.cr.at_provider.id ≢ ""
        → Obeys s.cr.at_provider.id before left
        → Later s.cr.at_provider.id before s.calls
        → left s.calls ≤ n
        → Done s (deletions n s)
    Done-deletions zero s named o since enough = elim (delete_round s named o since) [
      | inl d ↦ rw (settled zero s d.succeeded) d
      | inr f ↦ let less = f.less in absurd (omega arith)
    ]
    Done-deletions (suc n) s named o since enough = elim (delete_round s named o since) [
      | inl d ↦ rw (settled (suc n) s d.succeeded) d
      | inr f ↦
          let less = f.less in
          let rest =
            Done-deletions n f.t (rw f.same_cr named) (rw f.same_cr o) (rw f.same_cr f.later)
              (omega arith) in
          rw (again n s f.t f.e f.whole) (Done-later s f.t _ f.same_cr rest)
    ]

  -- If a project has an ID, and the API makes progress, then one deletion, called again as often as it
  -- fails, returns no error after at most as many more as there is work left; its last call is the
  -- deletion of the project, which the API has accepted, and the resource is as before.
  pub deletions-Done :
      (s : St ProjectCall OpsManagerProject) (left : List ProjectCall → ℕ)
      → s.cr.at_provider.id ≢ ""
      → Obeys s.cr.at_provider.id s.calls left
      → Done s (deletions (left s.calls) s)
  deletions-Done s left n o = Done-deletions s.calls left (left s.calls) s n o now (omega arith)
