-- ===== src/DeepCopy/Independence.antt =====
-- What a deep copy and its source are to each other.
use opsmanager_crossplane_pr.Common.{◌≡◌, ◌∙◌}
use opsmanager_crossplane_pr.DeepCopy.Memory.{Heap, SameOn}
use opsmanager_crossplane_pr.DeepCopy.Copying.{Copying, Below, Between, Copied, IsDeep}
use opsmanager_crossplane_pr.DeepCopy.Stores.{
  S3StoreCell, copy_store_parameters, store_parameters, store_parameters-IsDeep,
}
use opsmanager_crossplane_pr.DeepCopy.Daemons.{
  DaemonCell, copy_daemon_parameters, daemon_parameters, daemon_parameters-IsDeep,
}
use opsmanager_crossplane_pr.DeepCopy.Projects.{
  ProjectCell, copy_project_parameters, view_project_parameters, project_parameters,
  project_parameters-IsDeep,
}
use opsmanager_crossplane_pr.DeepCopy.Configs.{
  ConfigSpecCell, copy_config_spec, config_spec, config_spec-IsDeep,
}
use opsmanager_crossplane_pr.DeepCopy.Kinds.{Kind, copy_project, kind_copying, kind-IsDeep}
use opsmanager_crossplane_pr.Project.{OpsManagerProjectObservation}

module _ {A V : Type 0} (c : Copying A V) (deep : IsDeep c) (h : Heap) (a : A)
    (inside : c.Within (Below h.next) h a) where
  pub copy_stays :
      (k : Heap)
      → SameOn (Between h.next (c.copy a h).1.next) (c.copy a h).1 k
      → c.view k (c.copy a h).0 ≡ c.view h a
  copy_stays k s = let d = deep.copied h a inside in deep.view_same _ _ k _ d.fresh s ∙ d.same_value

  pub source_stays : (k : Heap) → SameOn (Below h.next) (c.copy a h).1 k → c.view k a ≡ c.view h a
  source_stays k s =
      let d = deep.copied h a inside in
      deep.view_same _ _ k a (deep.within_same _ h _ a inside d.kept) s
      ∙ deep.view_same _ h _ a inside d.kept

module _ (h : Heap) where
  -- The copy of a store's parameters, which lie in the heap, reads as they do, reaches only new
  -- memory, and leaves the memory that was there as it was.
  pub copy_store_parameters-Copied :
      (p : S3StoreCell)
      → store_parameters.Within (Below h.next) h p
      → let (q, g) = copy_store_parameters p h in Copied store_parameters h p q g
  copy_store_parameters-Copied p w = store_parameters-IsDeep.copied h p w

  -- The copy of a daemon's parameters, which lie in the heap, reads as they do, reaches only new
  -- memory, and leaves the memory that was there as it was.
  pub copy_daemon_parameters-Copied :
      (p : DaemonCell)
      → daemon_parameters.Within (Below h.next) h p
      → let (q, g) = copy_daemon_parameters p h in Copied daemon_parameters h p q g
  copy_daemon_parameters-Copied p w = daemon_parameters-IsDeep.copied h p w

  -- The copy of a provider's configuration, which lies in the heap, reads as it does, reaches only
  -- new memory, and leaves the memory that was there as it was.
  pub copy_config_spec-Copied :
      (p : ConfigSpecCell)
      → config_spec.Within (Below h.next) h p
      → let (q, g) = copy_config_spec p h in Copied config_spec h p q g
  copy_config_spec-Copied p w = config_spec-IsDeep.copied h p w

  -- The copy of a project's parameters reads as they did, whatever is written later outside the
  -- memory that the copy has allocated.
  pub project_copy_stays :
      (p : ProjectCell) (k : Heap)
      → project_parameters.Within (Below h.next) h p
      → SameOn
          (Between h.next (copy_project_parameters p h).1.next)
          (copy_project_parameters p h).1
          k
      → view_project_parameters k (copy_project_parameters p h).0 ≡ view_project_parameters h p
  project_copy_stays p k w s = copy_stays project_parameters project_parameters-IsDeep h p w k s

  -- The parameters of a project that was copied read as before, whatever is written later into the
  -- memory that the copy has allocated.
  pub project_source_stays :
      (p : ProjectCell) (k : Heap)
      → project_parameters.Within (Below h.next) h p
      → SameOn (Below h.next) (copy_project_parameters p h).1 k
      → view_project_parameters k p ≡ view_project_parameters h p
  project_source_stays p k w s = source_stays project_parameters project_parameters-IsDeep h p w k s

-- If the copies of `ObjectMeta`, `ManagedResourceSpec` and `ResourceStatus` are deep, so is that of a
-- whole project resource: it reads as its source, reaches only new memory, and leaves the memory
-- that was there as it was.
pub copy_project-Copied :
    {X XV M MV R RV : Type 0} (meta : Copying X XV) (managed : Copying M MV)
    (resource : Copying R RV)
    → IsDeep meta
    → IsDeep managed
    → IsDeep resource
    → (h : Heap) (k : Kind X M R ProjectCell OpsManagerProjectObservation)
    → (kind_copying meta managed resource project_parameters).Within (Below h.next) h k
    → let (q, g) = copy_project meta managed resource k h in
      Copied (kind_copying meta managed resource project_parameters) h k q g
unfolding copy_project
copy_project-Copied meta managed resource xd md rd h k w =
    (kind-IsDeep meta managed resource project_parameters xd md rd project_parameters-IsDeep).copied
      h k w
