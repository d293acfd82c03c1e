-- ===== src/BackupDaemon/Handlers/Rounds.antt =====
-- Two methods in a row: what `Observe` of a daemon reports after an `Update`.
use opsmanager_crossplane_pr.Common.{
  ◌≡◌, refl, ◌∙◌, true, false, some, is_some, zero_string, List, ◌∷◌, String, ◌!=◌, string_eq,
  arith,
}
use opsmanager_crossplane_pr.Effects.{ok, St}
use opsmanager_crossplane_pr.Managed.{ExternalObservation}
use opsmanager_crossplane_pr.BackupDaemon.{
  BackupDaemonParameters, BackupDaemonResource, Daemon, DaemonCall, list, update, DaemonService,
}
use opsmanager_crossplane_pr.BackupDaemon.Convert.Drift.{daemon_is_up_to_date_iff}
use opsmanager_crossplane_pr.BackupDaemon.Convert.{
  override_head, apply_parameters, daemon_api_id, daemon_is_up_to_date,
}
use opsmanager_crossplane_pr.BackupDaemon.Convert.Apply.{
  machine_name, daemon_is_up_to_date-apply_parameters, daemon_api_id-apply_parameters,
}
use opsmanager_crossplane_pr.BackupDaemon.Handlers.{
  is_machine, lookup_daemon, observe, observation, observed_cr, update_daemon,
}
use opsmanager_crossplane_pr.BackupDaemon.Handlers.Lookup.{lookup_daemon_frame}
use opsmanager_crossplane_pr.BackupDaemon.Handlers.Methods.{Updated, update_daemon-Updated}
use opsmanager_crossplane_pr.BackupDaemon.Handlers.Finding.{
  spec_id, by_id, by_list, lookup_daemon-FoundBy, lookup_by_id, lookup_by_list, replaced,
  find_daemon-match, find_daemon-replaced,
}
use opsmanager_crossplane_pr.BackupDaemon.Handlers.Settling.{observed-InSync}

-- The ID under which the daemon is sent is that under which it was looked up, if the API has the
-- machine of the spec.
applied_id :
    (path_escape : String → String) (p : BackupDaemonParameters) (d : Daemon)
    → p.head_root_directory != "" ≡ true
    → machine_name d.machine ≡ p.machine
    → daemon_api_id path_escape (apply_parameters p d) ≡ spec_id path_escape p
applied_id path_escape p d named m = daemon_api_id-apply_parameters path_escape p d ∙ ground arith

id-apply_parameters : (p : BackupDaemonParameters) (d : Daemon) → (apply_parameters p d).id ≡ d.id
unfolding apply_parameters
id-apply_parameters p d = refl

applied-match :
    (p : BackupDaemonParameters) (d : Daemon)
    → p.head_root_directory != "" ≡ false
    → is_machine p.machine d.id d.machine ≡ true
    → let e = apply_parameters p d in is_machine p.machine e.id e.machine ≡ true
unfolding apply_parameters override_head
applied-match p d unnamed m = ground arith

module _ (svc : DaemonService) where
  -- `Observe` finds the daemon, and finds it up to date.
  pub record FoundUpToDate (t : St DaemonCall BackupDaemonResource) : Type 0 where
    pub value : ExternalObservation
    pub observed : (observe svc t).0 ≡ ok value
    pub exists : value.resource_exists ≡ true
    pub up_to_date : value.resource_up_to_date ≡ true

  observe_at :
      (t : St DaemonCall BackupDaemonResource) (d : Daemon)
      → t.cr.deleted ≡ false
      → (lookup_daemon svc t).0 ≡ ok (some d)
      → (observe svc t).0 ≡ ok (observation svc d t.cr)
  unfolding observe
  observe_at t d h q = let (same, events) = lookup_daemon_frame svc t in ground arith

  found_up_to_date :
      (t : St DaemonCall BackupDaemonResource) (d : Daemon)
      → t.cr.deleted ≡ false
      → (lookup_daemon svc t).0 ≡ ok (some d)
      → daemon_is_up_to_date t.cr.for_provider d true ≡ true
      → FoundUpToDate t
  unfolding observation
  found_up_to_date t d h q u = record {
    value = observation svc d t.cr;
    observed = observe_at t d h q;
    exists = refl;
    up_to_date =
        (daemon_is_up_to_date_iff (observed_cr svc d t.cr).for_provider d true).1
          (observed-InSync svc d t.cr ((daemon_is_up_to_date_iff t.cr.for_provider d true).0 u));
  }

  -- The API keeps what an update that it accepts has sent: a GET of its ID answers it, the list has
  -- it in place of the daemon with its ID. What a GET of the ID of the spec answers now is on the
  -- machine of the spec.
  pub record Keeps (s : St DaemonCall BackupDaemonResource) : Type 0 where
    pub got :
        (h : List DaemonCall) (id : String) (d : Daemon)
        → svc.update h id d ≡ ok tt
        → svc.get (update id d ∷ h) id ≡ ok d
    pub listed :
        (h : List DaemonCall) (ds : List Daemon) (id : String) (d : Daemon)
        → svc.list h ≡ ok ds
        → svc.update (list ∷ h) id d ≡ ok tt
        → svc.list (update id d ∷ list ∷ h) ≡ ok (replaced d ds)
    pub on_machine :
        (d : Daemon)
        → svc.get s.calls (spec_id svc.path_escape s.cr.for_provider) ≡ ok d
        → machine_name d.machine ≡ s.cr.for_provider.machine

  -- The daemon that was sent is what the next lookup finds.
  lookup_after :
      (s : St DaemonCall BackupDaemonResource)
      → Keeps s
      → (u : Updated svc s (update_daemon svc s).1)
      → (lookup_daemon svc (update_daemon svc s).1).0
        ≡ ok (some (apply_parameters s.cr.for_provider u.current))
  lookup_after s keeps u =
      let p = s.cr.for_provider in
      let t = (update_daemon svc s).1 in
      let d = apply_parameters p u.current in
      elim (lookup_daemon-FoundBy svc s u.current u.looked_up) [
        | by_id named q c ↦
            let same =
              applied_id svc.path_escape p u.current named (keeps.on_machine u.current q) in
            lookup_by_id svc t d (rw u.resource named)
              (rw (u.resource, u.sent, ← same) (keeps.got _ _ d u.accepted))
        | by_list ds unnamed q f c ↦
            lookup_by_list svc t (replaced d ds) d (rw u.resource unnamed)
              (rw (u.sent, c) (keeps.listed s.calls ds _ d q (rw c at u.accepted)))
              (rw u.resource (
                find_daemon-replaced p.machine d u.current ds (id-apply_parameters p u.current)
                  (applied-match p u.current unnamed (find_daemon-match p.machine u.current ds f))
                  f))
      ]

  -- If the spec has labels and the resource is not being deleted, `Update` returns no error, and the
  -- API keeps what an update that it accepts has sent, the next `Observe` finds the daemon and finds
  -- it up to date.
  pub update_then_observe_daemon :
      (s : St DaemonCall BackupDaemonResource)
      → Keeps s
      → s.cr.deleted ≡ false
      → is_some s.cr.for_provider.labels ≡ true
      → (update_daemon svc s).0 ≡ ok tt
      → FoundUpToDate (update_daemon svc s).1
  update_then_observe_daemon s keeps alive labelled done =
      let u = update_daemon-Updated svc s done in
      let t = (update_daemon svc s).1 in
      let d = apply_parameters s.cr.for_provider u.current in
      let sync : daemon_is_up_to_date s.cr.for_provider d true ≡ true =
        ground (arith, daemon_is_up_to_date-apply_parameters s.cr.for_provider u.current) in
      found_up_to_date t d (rw u.resource alive) (lookup_after s keeps u) (rw u.resource sync)
