-- ===== src/BackupDaemon/Handlers/Lookup.antt =====
-- Which daemon the lookup finds.
use opsmanager_crossplane_pr.Common.{
  ◌≡◌, refl, ap, true, false, Option, none, some, List, [], ◌∷◌, ◌++◌, String, arith, Bool-cases,
  inl, inr, string_eq,
}
use mathlib.Core.Bool.{cond}
use opsmanager_crossplane_pr.Effects.{St}
use opsmanager_crossplane_pr.BackupDaemon.{BackupDaemonResource, Daemon, DaemonCall, DaemonService}
use opsmanager_crossplane_pr.BackupDaemon.Handlers.{
  is_machine, find_daemon, get_daemon, lookup_daemon,
}

abbrev pub Matches : String → Daemon → Type 0
Matches name d = is_machine name d.id d.machine ≡ true

abbrev pub NoneMatches : String → List Daemon → Type 0
NoneMatches name [] = Unit
NoneMatches name (d ∷ ds) = (is_machine name d.id d.machine ≡ false) × NoneMatches name ds

-- The first daemon of a list that matches, or none where none does.
pub data First (name : String) (ds : List Daemon) : Option Daemon → Type 0 where
  found :
      (before : List Daemon) (d : Daemon) (behind : List Daemon)
      → ds ≡ before ++ (d ∷ behind)
      → NoneMatches name before
      → Matches name d
      → First name ds (some d)
  missing : NoneMatches name ds → First name ds none

First-later :
    (name : String) (d : Daemon) (ds : List Daemon) (o : Option Daemon)
    → is_machine name d.id d.machine ≡ false
    → First name ds o
    → First name (d ∷ ds) o
First-later name d ds (some _) n (found before y behind e u m) =
    found (d ∷ before) y behind (ap (λ (l : List Daemon). d ∷ l) e) (n, u) m
First-later name d ds none n (missing u) = missing (n, u)

-- The loop over the listed daemons gives the first one whose machine has the name, or whose ID
-- starts with the name and a slash where the API gives no machine; and none only if no daemon
-- matches.
pub find_daemon-First : (name : String) (ds : List Daemon) → First name ds (find_daemon name ds)
unfolding find_daemon
find_daemon-First name [] = missing tt
find_daemon-First name (d ∷ ds) = elim (Bool-cases (is_machine name d.id d.machine)) [
  | inl m ↦ rw (m, cond) (found [] d ds refl tt m)
  | inr n ↦ rw (n, cond) (First-later name d ds (find_daemon name ds) n (find_daemon-First name ds))
]

-- The lookup leaves the resource and the events alone.
pub lookup_daemon_frame :
    (svc : DaemonService) (s : St DaemonCall BackupDaemonResource)
    → let t = (lookup_daemon svc s).1 in (t.cr ≡ s.cr) × (t.events ≡ s.events)
unfolding lookup_daemon get_daemon
lookup_daemon_frame svc s = ground arith
