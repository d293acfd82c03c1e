-- ===== src/Startup/Scheme/Known.antt =====
-- The kinds that the controllers ask the manager for are in its scheme.
use opsmanager_crossplane_pr.Common.{
  ◌≡◌, refl, ◌∙◌, Bool, true, false, ◌||◌, Option, none, some, List, [], ◌∷◌, ◌<>◌, String, ◌==◌,
  string_eq, arith,
}
use opsmanager_crossplane_pr.Effects.{ok, err, Result}
use opsmanager_crossplane_pr.Startup.{
  GroupVersionKind, Reconciler, managed, provider_config, ControllerOptions, Registration, Platform,
}
use opsmanager_crossplane_pr.Startup.Setup.{
  managed_by, config_registration, project_registration, s3blockstore_registration,
  s3oplogstore_registration, backupdaemon_registration,
}
use opsmanager_crossplane_pr.Startup.Process.{setups}
use opsmanager_crossplane_pr.Startup.Scheme.{
  SchemeBuilder, with_kind, register_objects, init_backup_daemon, init_project, init_blockstore,
  init_oplog_store, init_provider_config, v1alpha1_builder, v1beta1_builder, SchemeLibrary, must,
  add_v1beta1, add_v1alpha1, init,
}

-- The name is one of the list.
unfoldable pub listed : String → List String → Bool
listed kind [] = false
listed kind (k ∷ ks) = k == kind || listed kind ks

module _ (library : SchemeLibrary) where
  -- What `Scheme.AddKnownTypes`, on which a builder's `AddToScheme` rests, says of itself: it adds
  -- the kinds of the given objects to the group and version, and removes none.
  pub record AddsKinds : Type 0 where
    pub adds :
        (b : SchemeBuilder) (s t : library.Scheme) (kind : String)
        → library.add_to_scheme b s ≡ ok t
        → listed kind b.objects ≡ true
        → library.recognizes t (with_kind b.group_version kind) ≡ true
    pub keeps :
        (b : SchemeBuilder) (s t : library.Scheme) (k : GroupVersionKind)
        → library.add_to_scheme b s ≡ ok t
        → library.recognizes s k ≡ true
        → library.recognizes t k ≡ true

  module _ (s : library.Scheme) where
    abbrev pub Recognized : GroupVersionKind → Type 0
    Recognized k = library.recognizes s k ≡ true

    abbrev pub list_of : GroupVersionKind → GroupVersionKind
    list_of k = record k { kind = k.kind <> "List" }

    -- A reconciler reads the object of its kind, and that of configurations the list of the usages.
    abbrev pub KindsOf : Reconciler → Type 0
    KindsOf (managed k poll timeout) = Recognized k
    KindsOf (provider_config config usage usages) =
        Recognized config × Recognized usage × Recognized usages

    abbrev pub Watched : Option GroupVersionKind → Type 0
    Watched none = Unit
    Watched (some k) = Recognized k × Recognized (list_of k)

    -- All kinds of a registration are in the scheme, and the lists of those that it watches.
    abbrev pub KindsKnown : Registration → Type 0
    KindsKnown r =
        Recognized r.for_kind
        × Recognized (list_of r.for_kind)
        × Watched r.watches
        × KindsOf r.reconciler

    abbrev pub EachKnown : List (String × (ControllerOptions → Registration)) → Type 0
    EachKnown [] = Unit
    EachKnown ((name, registration) ∷ rest) =
        ((o : ControllerOptions) → KindsKnown (registration o)) × EachKnown rest

module _ (library : SchemeLibrary) (adds_kinds : AddsKinds library) (s : library.Scheme)
    (done : init library ≡ ok s) where
  must_ok :
      (r : Result library.Scheme) (next : library.Scheme → Result library.Scheme)
      → must library r next ≡ ok s
      → (a : library.Scheme) × (r ≡ ok a) × (next a ≡ ok s)
  must_ok (ok a) next h = (a, refl, h)
  must_ok (err e) next h = absurd (ground arith)

  -- The two packages were added to a scheme, one after the other.
  init-steps :
      (a t : library.Scheme) × (library.add_to_scheme v1alpha1_builder a ≡ ok t)
      × (library.add_to_scheme v1beta1_builder t ≡ ok s)
  unfolding init
  init-steps =
      let (a, p, h) =
        must_ok (library.add_client_go library.new_scheme) (add_v1alpha1 library) done in
      let (t, q, k) = must_ok (library.add_to_scheme v1alpha1_builder a) (add_v1beta1 library) h in
      let (u, r, l) = must_ok (library.add_to_scheme v1beta1_builder t) ok k in (a, t, q, r ∙ l)

  of_v1alpha1 :
      (kind : String)
      → listed kind v1alpha1_builder.objects ≡ true
      → Recognized library s (with_kind v1alpha1_builder.group_version kind)
  of_v1alpha1 kind l =
      let (a, t, p, q) = init-steps in
      adds_kinds.keeps v1beta1_builder t s _ q (adds_kinds.adds v1alpha1_builder a t kind p l)

  of_v1beta1 :
      (kind : String)
      → listed kind v1beta1_builder.objects ≡ true
      → Recognized library s (with_kind v1beta1_builder.group_version kind)
  of_v1beta1 kind l = let (a, t, p, q) = init-steps in adds_kinds.adds v1beta1_builder t s kind q l

  managed_known :
      (kind : String) (timeout : _) (platform : Platform)
      → listed kind v1alpha1_builder.objects ≡ true
      → listed (kind <> "List") v1alpha1_builder.objects ≡ true
      → (o : ControllerOptions)
      → KindsKnown library s
          (managed_by platform (with_kind v1alpha1_builder.group_version kind) timeout o)
  unfolding managed_by
  managed_known kind timeout platform k l o =
      let one = of_v1alpha1 kind k in (one, of_v1alpha1 (kind <> "List") l, tt, one)

  config_known :
      (platform : Platform) (o : ControllerOptions)
      → KindsKnown library s (config_registration platform o)
  unfolding config_registration v1beta1_builder init_provider_config register_objects listed
      string_eq
  config_known platform o =
      let config = of_v1beta1 "ClusterProviderConfig" refl in
      let usage = of_v1beta1 "ClusterProviderConfigUsage" refl in
      let usages = of_v1beta1 "ClusterProviderConfigUsageList" refl in
      (
        config,
        of_v1beta1 "ClusterProviderConfigList" refl,
        (usage, usages),
        (config, usage, usages),
      )

  -- If `init` returns, every kind that a registered controller is for or watches, and that its
  -- reconciler reads, is in the scheme, with its list.
  pub setups-EachKnown : (platform : Platform) → EachKnown library s (setups platform)
  unfolding setups v1alpha1_builder init_backup_daemon init_project init_blockstore init_oplog_store
      register_objects listed project_registration s3blockstore_registration
      s3oplogstore_registration backupdaemon_registration string_eq
  setups-EachKnown platform = (
    config_known platform,
    (
      managed_known "OpsManagerProject" _ platform refl refl,
      (
        managed_known "S3Blockstore" _ platform refl refl,
        (
          managed_known "S3OplogStore" _ platform refl refl,
          (managed_known "BackupDaemon" _ platform refl refl, tt),
        ),
      ),
    ),
  )
