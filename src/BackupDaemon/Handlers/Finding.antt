-- ===== src/BackupDaemon/Handlers/Finding.antt =====
-- How the lookup finds a daemon, by its ID or in the list, also after the list has changed.
use opsmanager_crossplane_pr.Common.{
  ◌≡◌, true, false, some, zero_string, List, [], ◌∷◌, String, ◌<>◌, ◌==◌, ◌!=◌, inl, inr,
  Bool-cases, string_eq, if◌then◌else◌, arith,
}
use opsmanager_crossplane_pr.Effects.{ok, Result-cases, St}
use opsmanager_crossplane_pr.BackupDaemon.{
  BackupDaemonParameters, BackupDaemonResource, Daemon, DaemonCall, get, list, DaemonService,
}
use opsmanager_crossplane_pr.BackupDaemon.Handlers.{
  is_machine, find_daemon, get_daemon, lookup_daemon,
}

-- The ID under which a daemon with a head directory is looked up.
abbrev pub spec_id : (String → String) → BackupDaemonParameters → String
spec_id path_escape p = p.machine <> ("/" <> path_escape p.head_root_directory)

module _ (svc : DaemonService) (s : St DaemonCall BackupDaemonResource) where
  -- How the lookup has found a daemon: by its ID if the spec names a head directory, and else as the
  -- first that matches in the list.
  pub data FoundBy (d : Daemon) : Type 0 where
    by_id :
        s.cr.for_provider.head_root_directory != "" ≡ true
        → svc.get s.calls (spec_id svc.path_escape s.cr.for_provider) ≡ ok d
        → (lookup_daemon svc s).1.calls ≡ get (spec_id svc.path_escape s.cr.for_provider) ∷ s.calls
        → FoundBy d
    by_list :
        (ds : List Daemon)
        → s.cr.for_provider.head_root_directory != "" ≡ false
        → svc.list s.calls ≡ ok ds
        → find_daemon s.cr.for_provider.machine ds ≡ some d
        → (lookup_daemon svc s).1.calls ≡ list ∷ s.calls
        → FoundBy d

  pub lookup_daemon-FoundBy : (d : Daemon) → (lookup_daemon svc s).0 ≡ ok (some d) → FoundBy d
  unfolding lookup_daemon get_daemon
  lookup_daemon-FoundBy d h = elim (Bool-cases (s.cr.for_provider.head_root_directory != "")) [
    | inl named ↦
        elim (Result-cases (svc.get s.calls (spec_id svc.path_escape s.cr.for_provider))) [
          | inl (x, q) ↦ by_id named (ground arith) (ground arith)
          | inr (e, q) ↦ absurd (ground arith)
        ]
    | inr unnamed ↦ elim (Result-cases (svc.list s.calls)) [
      | inl (ds, q) ↦ by_list ds unnamed q (ground arith) (ground arith)
      | inr (e, q) ↦ absurd (ground arith)
    ]
  ]

  pub lookup_by_id :
      (d : Daemon)
      → s.cr.for_provider.head_root_directory != "" ≡ true
      → svc.get s.calls (spec_id svc.path_escape s.cr.for_provider) ≡ ok d
      → (lookup_daemon svc s).0 ≡ ok (some d)
  unfolding lookup_daemon get_daemon
  lookup_by_id d h q = ground arith

  pub lookup_by_list :
      (ds : List Daemon) (d : Daemon)
      → s.cr.for_provider.head_root_directory != "" ≡ false
      → svc.list s.calls ≡ ok ds
      → find_daemon s.cr.for_provider.machine ds ≡ some d
      → (lookup_daemon svc s).0 ≡ ok (some d)
  unfolding lookup_daemon get_daemon
  lookup_by_list ds d h q f = ground arith

-- The listed daemons, with `d` in place of what has its ID.
unfoldable pub replaced : Daemon → List Daemon → List Daemon
replaced d [] = []
replaced d (x ∷ xs) = (if x.id == d.id then d else x) ∷ replaced d xs

pub find_daemon-match :
    (name : String) (c : Daemon) (ds : List Daemon)
    → find_daemon name ds ≡ some c
    → is_machine name c.id c.machine ≡ true
unfolding find_daemon
find_daemon-match name c [] f = absurd (ground arith)
find_daemon-match name c (x ∷ xs) f = ground (arith, find_daemon-match name c xs)

pub find_daemon-replaced :
    (name : String) (d c : Daemon) (ds : List Daemon)
    → d.id ≡ c.id
    → is_machine name d.id d.machine ≡ true
    → find_daemon name ds ≡ some c
    → find_daemon name (replaced d ds) ≡ some d
unfolding find_daemon replaced
find_daemon-replaced name d c [] e m f = absurd (ground arith)
find_daemon-replaced name d c (x ∷ xs) e m f = ground (arith, find_daemon-replaced name d c xs)
