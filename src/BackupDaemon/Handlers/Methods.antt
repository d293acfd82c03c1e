-- ===== src/BackupDaemon/Handlers/Methods.antt =====
-- What the methods of the daemon's controller do.
use opsmanager_crossplane_pr.Common.{
  ℕ, zero, suc, ◌≡◌, refl, true, Option, none, some, ◌∷◌, arith, Bool-cases, inl, inr, string_eq,
}
use mathlib.Core.Bool.{cond}
use opsmanager_crossplane_pr.Effects.{Result, ok, err, Result-cases, St}
use opsmanager_crossplane_pr.Managed.{absent}
use opsmanager_crossplane_pr.Labels.{labels_adopted}
use opsmanager_crossplane_pr.BackupDaemon.{
  BackupDaemonResource, Daemon, DaemonCall, update, DaemonService,
}
use opsmanager_crossplane_pr.BackupDaemon.Convert.{
  late_init_daemon, or_else, apply_parameters, daemon_api_id,
}
use opsmanager_crossplane_pr.BackupDaemon.Handlers.{
  lookup_daemon, observe, observed_cr, observation, take_over, adopt_labels, create, update_daemon,
  delete,
}
use opsmanager_crossplane_pr.BackupDaemon.Handlers.Lookup.{lookup_daemon_frame}

-- While the resource is being deleted, `Observe` and `Delete` call nothing and change nothing, and
-- `Observe` reports that the daemon is absent: the daemon stays in Ops Manager.
pub deleted_untouched :
    (svc : DaemonService) (s : St DaemonCall BackupDaemonResource)
    → s.cr.deleted ≡ true
    → (observe svc s ≡ (ok absent, s)) × (delete svc s ≡ (ok tt, s))
unfolding observe delete
deleted_untouched svc s h = ground arith

module _ (svc : DaemonService) (s : St DaemonCall BackupDaemonResource) where
  -- What an update that returns no error has sent and left.
  pub record Updated (t : St DaemonCall BackupDaemonResource) : Type 0 where
    pub current : Daemon
    pub looked_up : (lookup_daemon svc s).0 ≡ ok (some current)
    pub sent :
        let applied = apply_parameters s.cr.for_provider current in
        t.calls
        ≡ update (daemon_api_id svc.path_escape applied) applied ∷ (lookup_daemon svc s).1.calls
    pub accepted :
        let applied = apply_parameters s.cr.for_provider current in
        svc.update (lookup_daemon svc s).1.calls (daemon_api_id svc.path_escape applied) applied
        ≡ ok tt
    pub resource : t.cr ≡ s.cr
    pub events : t.events ≡ s.events

  -- If `Update` returns no error, it has found the daemon, and its last call was an update with
  -- the spec applied to what it had read, which the API accepted. The resource and the events are
  -- as before.
  pub update_daemon-Updated : (update_daemon svc s).0 ≡ ok tt → Updated (update_daemon svc s).1
  unfolding update_daemon
  update_daemon-Updated done =
      let frame = lookup_daemon_frame svc s in go frame (lookup_daemon svc s).0 refl
    where
      go :
          let t = (lookup_daemon svc s).1 in
          (t.cr ≡ s.cr) × (t.events ≡ s.events)
          → (r : Result (Option Daemon)) → (lookup_daemon svc s).0 ≡ r
          → Updated (update_daemon svc s).1
      go f (err e) q = absurd (ground arith)
      go f (ok none) q = absurd (ground arith)
      go f (ok (some d)) q = record {
        current = d;
        looked_up = q;
        sent = ground arith;
        accepted = ground arith;
        resource = ground arith;
        events = ground arith;
      }

  -- If `Create` returns no error, the lookup has found a daemon, and no call was made beyond the
  -- lookup's: a daemon is adopted, never created.
  pub create_only_adopts :
      (create svc s).0 ≡ ok tt
      → (d : Daemon) × ((lookup_daemon svc s).0 ≡ ok (some d))
        × ((create svc s).1.calls ≡ (lookup_daemon svc s).1.calls)
  unfolding create
  create_only_adopts done = elim (Result-cases (lookup_daemon svc s).0) [
    | inr (e, q) ↦ absurd (ground arith)
    | inl (none, q) ↦ absurd (ground arith)
    | inl (some d, q) ↦ (d, q, ground arith)
  ]

module _ (svc : DaemonService) (d : Daemon) where
  -- The resource after `n` observations that all find this daemon.
  pub observed_times : ℕ → BackupDaemonResource → BackupDaemonResource
  observed_times zero cr = cr
  observed_times (suc n) cr = observed_times n (observed_cr svc d cr)

  ssl-observed_cr :
      (cr : BackupDaemonResource)
      → (observed_cr svc d cr).for_provider.ssl ≡ or_else cr.for_provider.ssl d.ssl
  unfolding observed_cr take_over adopt_labels late_init_daemon
  ssl-observed_cr cr = elim (Bool-cases (labels_adopted (take_over svc d cr))) [
    | inl a ↦ rw (a, cond)
    | inr a ↦ rw (a, cond)
  ]

  ssl-observed_times :
      (n : ℕ) (cr : BackupDaemonResource)
      → d.ssl ≡ none
      → cr.for_provider.ssl ≡ none
      → (observed_times n cr).for_provider.ssl ≡ none
  unfolding observed_times or_else
  ssl-observed_times zero cr a b = b
  ssl-observed_times (suc n) cr a b =
      ssl-observed_times n (observed_cr svc d cr) a (ground (arith, ssl-observed_cr cr))

  late-observation :
      (cr : BackupDaemonResource)
      → cr.for_provider.ssl ≡ none
      → (observation svc d cr).resource_late_initialized ≡ true
  unfolding observation late_init_daemon
  late-observation cr h = ground arith

  -- If neither the spec nor the API has a value for SSL, every `Observe` reports a late
  -- initialisation, after any number of observations.
  pub late_initialized_forever :
      (n : ℕ) (cr : BackupDaemonResource)
      → d.ssl ≡ none
      → cr.for_provider.ssl ≡ none
      → (observation svc d (observed_times n cr)).resource_late_initialized ≡ true
  late_initialized_forever n cr a b =
      late-observation (observed_times n cr) (ssl-observed_times n cr a b)
