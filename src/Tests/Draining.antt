-- ===== src/Tests/Draining.antt =====
-- An API with one backup, which takes two requests to stop, and a listing to terminate.
use opsmanager_crossplane_pr.Common.{
  ℕ, zero, suc, ◌<◌, ◌≡◌, refl, List, [], ◌∷◌, string_eq, ◌==◌, if◌then◌else◌, arith,
}
use opsmanager_crossplane_pr.Effects.{Result, ok, err, St}
use opsmanager_crossplane_pr.Project.{
  OpsManagerProject, ApiProject, BackupConfig, ProjectCall, list_configs, update_config, delete,
  ProjectService,
}
use opsmanager_crossplane_pr.Project.Removal.{
  status_patch, delete_project, is_started, is_stopped, is_ending, stopping, ending,
}
use opsmanager_crossplane_pr.Project.Removal.Drain.{NoneIs, SomeIs, here, later, patches}
use opsmanager_crossplane_pr.Project.Removal.Rounds.{deletions, Obeys, Done}
use opsmanager_crossplane_pr.Project.Removal.Absence.{
  FoundAbsent, Lacks, delete_then_observe_project, deletions_then_observe,
}
use opsmanager_crossplane_pr.Tests.{not_found}
use opsmanager_crossplane_pr.Tests.Projects.{stored, config, with_configs, at_start, text_ne}

-- What is left to do: 4 and 3 while the backup is started, 2 if it is stopped, 1 if it is terminating.
abbrev pub after_patch : ℕ → ℕ
after_patch zero = zero
after_patch (suc zero) = suc zero
after_patch (suc (suc n)) = suc n

abbrev pub after_list : ℕ → ℕ
after_list zero = zero
after_list (suc zero) = zero
after_list (suc (suc n)) = suc (suc n)

abbrev pub stage : List ProjectCall → ℕ
stage [] = 4
stage (update_config id c p ∷ h) = after_patch (stage h)
stage (list_configs id ∷ h) = after_list (stage h)
stage (q ∷ h) = stage h

abbrev pub configs_at : ℕ → List BackupConfig
configs_at zero = []
configs_at (suc zero) = config "c" "TERMINATING" ∷ []
configs_at (suc (suc zero)) = config "c" "STOPPED" ∷ []
configs_at (suc (suc (suc n))) = config "c" "STARTED" ∷ []

-- The project is there until it is deleted.
abbrev pub lookup : List ProjectCall → Result ApiProject
lookup [] = ok stored
lookup (delete id ∷ h) = err not_found
lookup (q ∷ h) = lookup h

abbrev pub draining : ProjectService
draining = record (with_configs []) {
  list_configs = λ h id. ok (configs_at (stage h));
  get_by_name = λ h name. lookup h;
}

-- The backup has been asked to stop and to end, and is gone.
abbrev at_end : St ProjectCall OpsManagerProject
at_end = record at_start {
  calls =
      list_configs "p1"
      ∷ update_config "p1" "c" (status_patch "TERMINATING")
      ∷ update_config "p1" "c" (status_patch "STOPPED")
      ∷ update_config "p1" "c" (status_patch "STOPPED")
      ∷ [];
}

ok_inj : {A : Type 0} {a b : A} → ok a ≡ ok b → a ≡ b
ok_inj h = cc

stops_at :
    (n : ℕ) (h : List ProjectCall)
    → stage h ≡ n
    → SomeIs is_started (configs_at n)
    → stage (patches "p1" stopping is_started (configs_at n) (list_configs "p1" ∷ h)) < n
unfolding patches string_eq
stops_at zero h e m = elim m [ ]
stops_at (suc zero) h e (here q) = absurd (ground arith)
stops_at (suc zero) h e (later m) = elim m [ ]
stops_at (suc (suc zero)) h e (here q) = absurd (ground arith)
stops_at (suc (suc zero)) h e (later m) = elim m [ ]
stops_at (suc (suc (suc n))) h e m = rw e (omega arith)

ends_at :
    (n : ℕ) (h : List ProjectCall)
    → stage h ≡ n
    → NoneIs is_started (configs_at n)
    → SomeIs is_ending (configs_at n)
    → stage (patches "p1" ending is_stopped (configs_at n) (list_configs "p1" ∷ h)) < n
unfolding patches string_eq
ends_at zero h e a m = elim m [ ]
ends_at (suc zero) h e a m = rw e (omega arith)
ends_at (suc (suc zero)) h e a m = rw e (omega arith)
ends_at (suc (suc (suc n))) h e a m = absurd (ground arith)

draining-Obeys : Obeys draining "p1" [] stage
draining-Obeys = record {
  accepts = λ h c p since. refl;
  lists = λ h since. (configs_at (stage h), refl);
  stops = λ h cs since l m. rw (← ok_inj l) (stops_at (stage h) h refl (rw (ok_inj l) m));
  ends = λ h cs since l a m.
      rw (← ok_inj l) (ends_at (stage h) h refl (rw (ok_inj l) a) (rw (ok_inj l) m));
  deletes = λ h cs since l a b. refl;
}

gone_after : (h : List ProjectCall) → Lacks draining (delete "p1" ∷ h) "shop"
unfolding opsmanager_crossplane_pr.Errors.is_not_found opsmanager_crossplane_pr.Common.nat_eq
    native.Mathlib.Decide.ℕ_discrete
gone_after h = (not_found, refl, refl)

deletions_then_observe_example :
    Done draining at_start (deletions draining 4 at_start)
    × FoundAbsent draining (deletions draining 4 at_start).1
unfolding string_eq
deletions_then_observe_example =
    deletions_then_observe draining at_start stage (text_ne {a = "p1"} {b = ""} refl) draining-Obeys
      (λ h a. gone_after h)

delete_then_observe_project_example : FoundAbsent draining (delete_project draining at_end).1
unfolding string_eq delete_project opsmanager_crossplane_pr.Project.Removal.delete_listed
    opsmanager_crossplane_pr.Project.Removal.drain
    opsmanager_crossplane_pr.Project.Removal.patch_all
    opsmanager_crossplane_pr.Project.Removal.wait_for
    opsmanager_crossplane_pr.Project.Removal.deleted
delete_then_observe_project_example =
    delete_then_observe_project draining at_end (text_ne {a = "p1"} {b = ""} refl)
      (λ h a. gone_after h) refl
