-- ===== src/Project/Removal/Drain.antt =====
-- In which order `Delete` of the project stops, terminates and deletes.
use mathlib.Core.Bool.{cond}
use opsmanager_crossplane_pr.Common.{
  ◌≡◌, refl, ◌∙◌, ◌⊎◌, Bool, true, false, List, [], ◌∷◌, String, ◌<>◌, string_eq, arith, Bool-cases,
  inl, inr, if◌then◌else◌,
}
use opsmanager_crossplane_pr.Errors.{Err, formatted, wrap}
use opsmanager_crossplane_pr.Effects.{ok, err, Result, Result-cases, St, normal}
use opsmanager_crossplane_pr.Project.{
  OpsManagerProject, BackupConfig, ProjectCall, update_config, ProjectService,
}
use opsmanager_crossplane_pr.Project.Removal.{
  is_stopped, is_ending, status_patch, Phase, send_patch, patch_all, wait_for,
}

abbrev pub NoneIs : (BackupConfig → Bool) → List BackupConfig → Type 0
NoneIs test [] = Unit
NoneIs test (c ∷ cs) = (test c ≡ false) × NoneIs test cs

-- Some backup config passes the test.
pub data SomeIs (test : BackupConfig → Bool) : List BackupConfig → Type 0 where
  here : {c : BackupConfig} {cs : List BackupConfig} → test c ≡ true → SomeIs test (c ∷ cs)
  later : {c : BackupConfig} {cs : List BackupConfig} → SomeIs test cs → SomeIs test (c ∷ cs)

pub none_stopped : (cs : List BackupConfig) → NoneIs is_ending cs → NoneIs is_stopped cs
none_stopped [] n = tt
none_stopped (c ∷ cs) (n, ns) = (ground arith, none_stopped cs ns)

pub none_or_some :
    (test : BackupConfig → Bool) (cs : List BackupConfig) → NoneIs test cs ⊎ SomeIs test cs
none_or_some test [] = inl tt
none_or_some test (c ∷ cs) = elim (Bool-cases (test c)) [
  | inl t ↦ inr (here t)
  | inr n ↦ elim (none_or_some test cs) [ inl ns ↦ inl (n, ns) | inr m ↦ inr (later m) ]
]

-- The calls that a phase adds to those before it when the API accepts each.
unfoldable pub patches :
    String → Phase → (BackupConfig → Bool) → List BackupConfig → List ProjectCall → List ProjectCall
patches id phase test [] h = h
patches id phase test (c ∷ cs) h =
    let more = update_config id c.cluster_id (status_patch phase.status) ∷ h in
    patches id phase test cs (if test c then more else h)

-- Between two lists of calls, only patches of this phase were sent.
pub data SentOnly (id : String) (phase : Phase) (before : List ProjectCall)
    : List ProjectCall → Type 0 where
  none_sent : SentOnly id phase before before
  one_more :
      (cluster_id : String) {h : List ProjectCall}
      → SentOnly id phase before h
      → SentOnly id phase before (update_config id cluster_id (status_patch phase.status) ∷ h)

module _ (svc : ProjectService) (id : String) where
  abbrev pub Accepts : Type 0
  Accepts =
      (h : List ProjectCall) (c : String) (p : BackupConfig) → svc.update_config h id c p ≡ ok tt

  module _ (phase : Phase) (test : BackupConfig → Bool) (c : BackupConfig) (cs : List BackupConfig)
      (s : St ProjectCall OpsManagerProject) where
    -- The state once the patch of `c` is sent.
    abbrev after_patch : St ProjectCall OpsManagerProject
    after_patch = record s {
      calls = update_config id c.cluster_id (status_patch phase.status) ∷ s.calls;
      events =
          record { kind = normal; reason = phase.reason; message = phase.message <> c.cluster_id }
          ∷ s.events;
    }

    abbrev answer : Result (Unit {0})
    answer = svc.update_config s.calls id c.cluster_id (status_patch phase.status)

    patch_all_skip :
        test c ≡ false → patch_all svc id phase test (c ∷ cs) s ≡ patch_all svc id phase test cs s
    unfolding patch_all
    patch_all_skip n = ground arith

    patch_all_sent :
        test c ≡ true
        → answer ≡ ok tt
        → patch_all svc id phase test (c ∷ cs) s ≡ patch_all svc id phase test cs after_patch
    unfolding patch_all send_patch
    patch_all_sent t a = ground arith

    patch_all_failed :
        (e : Err)
        → test c ≡ true
        → answer ≡ err e
        → patch_all svc id phase test (c ∷ cs) s ≡ (err (wrap phase.failure e), after_patch)
    unfolding patch_all send_patch
    patch_all_failed e t a = ground arith

  pub patch_all_none :
      (phase : Phase) (test : BackupConfig → Bool) (cs : List BackupConfig)
      (s : St ProjectCall OpsManagerProject)
      → NoneIs test cs
      → patch_all svc id phase test cs s ≡ (ok tt, s)
  unfolding patch_all
  patch_all_none phase test [] s n = refl
  patch_all_none phase test (c ∷ cs) s (n, ns) =
      patch_all_skip phase test c cs s n ∙ patch_all_none phase test cs s ns

  pub wait_for_none :
      (text : String) (test : BackupConfig → Bool) (cs : List BackupConfig)
      (s : St ProjectCall OpsManagerProject)
      → NoneIs test cs
      → wait_for svc id text test cs s ≡ (ok tt, s)
  unfolding wait_for
  wait_for_none text test [] s n = refl
  wait_for_none text test (c ∷ cs) s (n, ns) = rw (n, cond) (wait_for_none text test cs s ns)

  pub wait_for_some :
      (text : String) (test : BackupConfig → Bool) (cs : List BackupConfig)
      (s : St ProjectCall OpsManagerProject)
      → SomeIs test cs
      → (e : Err) × (wait_for svc id text test cs s ≡ (err e, s))
  unfolding wait_for
  wait_for_some text test [] s m = elim m [ ]
  wait_for_some text test (c ∷ cs) s (here t) =
      (formatted text (c.cluster_id ∷ []), rw (t, cond) refl)
  wait_for_some text test (c ∷ cs) s (later m) = elim (Bool-cases (test c)) [
    | inl t ↦ (formatted text (c.cluster_id ∷ []), rw (t, cond) refl)
    | inr n ↦ let (e, q) = wait_for_some text test cs s m in (e, rw (n, cond) q)
  ]

  -- The patches leave the resource as it is.
  pub cr-patch_all :
      (phase : Phase) (test : BackupConfig → Bool) (cs : List BackupConfig)
      (s : St ProjectCall OpsManagerProject)
      → (patch_all svc id phase test cs s).1.cr ≡ s.cr
  unfolding patch_all
  cr-patch_all phase test [] s = refl
  cr-patch_all phase test (c ∷ cs) s = elim (Bool-cases (test c)) [
    | inr n ↦ rw (patch_all_skip phase test c cs s n) (cr-patch_all phase test cs s)
    | inl t ↦ elim (Result-cases (answer phase test c cs s)) [
      | inl (a, q) ↦
          rw (patch_all_sent phase test c cs s t q)
            (cr-patch_all phase test cs (after_patch phase test c cs s))
      | inr (e, q) ↦ rw (patch_all_failed phase test c cs s e t q) refl
    ]
  ]

  -- The patches are all sent if the API accepts each that is sent where `P` holds, and `P` holds at
  -- first and after each.
  pub patch_all_while :
      (P : List ProjectCall → Type 0) (phase : Phase)
      → ((h : List ProjectCall) (c : String)
          → P h
          → svc.update_config h id c (status_patch phase.status) ≡ ok tt)
      → ((h : List ProjectCall) (c : String)
          → P h
          → P (update_config id c (status_patch phase.status) ∷ h))
      → (test : BackupConfig → Bool) (cs : List BackupConfig) (s : St ProjectCall OpsManagerProject)
      → P s.calls
      → let (r, t) = patch_all svc id phase test cs s in
        (r ≡ ok tt) × (t.calls ≡ patches id phase test cs s.calls) × P t.calls
  unfolding patch_all send_patch patches
  patch_all_while P phase accepts keeps test [] s p = (refl, refl, p)
  patch_all_while P phase accepts keeps test (c ∷ cs) s p = elim (Bool-cases (test c)) [
    | inr n ↦
        let (r, q, k) = patch_all_while P phase accepts keeps test cs s p in
        rw (patch_all_skip phase test c cs s n, n, cond) (r, q, k)
    | inl t ↦
        let (r, q, k) =
          patch_all_while P phase accepts keeps test cs (after_patch phase test c cs s)
            (keeps s.calls c.cluster_id p) in
        rw (patch_all_sent phase test c cs s t (accepts s.calls c.cluster_id p), t, cond) (r, q, k)
  ]

  pub patch_all_accepted :
      (phase : Phase) (test : BackupConfig → Bool) (cs : List BackupConfig)
      (s : St ProjectCall OpsManagerProject)
      → Accepts
      → let (r, t) = patch_all svc id phase test cs s in
        (r ≡ ok tt) × (t.calls ≡ patches id phase test cs s.calls)
  patch_all_accepted phase test cs s a =
      let (r, q, k) =
        patch_all_while (λ h. Unit {0}) phase (λ h c p. a _ _ _) (λ h c p. tt) test cs s tt in
      (r, q)

  pub patch_all-SentOnly :
      (phase : Phase) (test : BackupConfig → Bool) (cs : List BackupConfig)
      (before : List ProjectCall) (s : St ProjectCall OpsManagerProject)
      → SentOnly id phase before s.calls
      → SentOnly id phase before (patch_all svc id phase test cs s).1.calls
  unfolding patch_all send_patch
  patch_all-SentOnly phase test [] before s b = b
  patch_all-SentOnly phase test (c ∷ cs) before s b = elim (Bool-cases (test c)) [
    | inr n ↦ rw (patch_all_skip phase test c cs s n) (patch_all-SentOnly phase test cs before s b)
    | inl t ↦
        let u = after_patch phase test c cs s in
        let sent : SentOnly id phase before u.calls = one_more c.cluster_id b in
        elim (Result-cases (answer phase test c cs s)) [
          | inl (a, q) ↦
              rw (patch_all_sent phase test c cs s t q)
                (patch_all-SentOnly phase test cs before u sent)
          | inr (e, q) ↦ rw (patch_all_failed phase test c cs s e t q) sent
        ]
  ]
