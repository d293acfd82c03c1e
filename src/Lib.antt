-- ===== src/Lib.antt =====
-- The Crossplane provider for MongoDB Ops Manager: its four controllers and the client code that
-- they share.
--
-- A controller is an external client of crossplane-runtime with `Observe`, `Create`, `Update` and
-- `Delete` for one kind of custom resource. The reconciler calls `Connect` first, which finds the
-- credentials; `Observe` then compares the resource with what the Ops Manager API answers, and
-- depending on its value one of the others is called. The parts, with the files that model them:
--   Clients.Resolve   internal/clients/opsmanager.go, apis/v1beta1/providerconfig_types.go and
--                     what `Connect` of the controllers calls
--   Connectors        the `connector` and `external` of the controllers, with the services of the
--                     client that each takes
--   Clients.Retry     internal/clients/retry.go, the retry that the S3 updates use
--   Errors            `isNotFound` of the controllers and `IsS3ValidationConflict`
--   Labels, Managed   the adoption of labels, and the resource's metadata
--   S3Store           internal/controller/s3blockstore/s3blockstore.go; the oplog store's
--                     controller, internal/controller/s3oplogstore/s3oplogstore.go, has the same
--                     code but for texts and endpoint, which are parameters (Texts, S3Service) that
--                     S3Blockstore and S3OplogStore give
--   BackupDaemon      internal/controller/backupdaemon/backupdaemon.go
--   Project           internal/controller/project/project.go, with children for the schedule, the
--                     LDAP mappings, `Observe`, `Create` and `Update` (Handlers) and `Delete`
--                     (Removal)
--   Startup           cmd/provider/main.go and the controllers' `Setup`, among them
--                     internal/controller/config/config.go,
--                     with Scheme for `init` there and in apis
--   DeepCopy          apis/v1alpha1/zz_generated.deepcopy.go, apis/v1beta1/zz_generated.deepcopy.go,
--                     with Lists for the list kinds and their `GetItems`
--   Accessors         apis/v1alpha1/zz_generated.managed.go, apis/v1beta1/zz_generated.pcu.go
-- Types of apis/v1alpha1 are records with the fields' names; a pointer is an Option, a nil slice of
-- labels is told from an empty one, and other slices are lists. A module Convert has the functions
-- between spec and API object, Handlers has the methods, and the children state what holds of them.
-- History, of stores and of projects, has the states that methods in any order lead to, with edits of
-- the resource between them, and a test of all calls that were made until then.
-- Tests has the theorems at concrete inputs.
--
-- A handler takes a state (Effects.St): the custom resource, the calls that have left the provider
-- and the events, both newest first. It returns a value or an error (Effects.Result), and the state
-- that it leaves; errors keep the API's answer under their wrapping texts.
--
-- In the handlers a pointer is its value. DeepCopy has records with references in their place, the
-- cells, and a heap with an area for each type behind a pointer or slice; an area's laws are those
-- of a store. A struct that is copied is itself a value there, and only what it refers to is in
-- the heap. The arrays of list kinds lie beside it, in a Store, where the pointers of `GetItems` lead.
-- The interface Copying joins a copy with the value that is read from a cell and with the
-- addresses that it reaches, and IsDeep has what makes the copy deep. A handler's resource, of
-- Managed, is a view of the whole custom resource: Accessors.View has the view.
--
-- Parameters are what is not in the repository's own code: the services of the Ops Manager SDK, the
-- Kubernetes client, the usage tracker, the client's constructor, `url.PathEscape` and whether a
-- backoff passes. Each is a function of the calls made so far, so that an answer may change from
-- call to call; a platform of Startup does the same for the process. No theorem assumes that
-- answers are consistent unless its hypotheses say so.
--
-- The loops are structural recursion over lists. The retry recurses on the tries that are left, of
-- which there are as many as the source's bound, at least one; so there is no fuel. A deletion that
-- is called again is repeated as often as a measure of the work left says.
--
-- Not modelled: logging; the URL that `Resolve` returns beside an error, which no caller reads; the
-- sharing of pointers between the spec and the API object, which nothing writes through later;
-- the vendored libraries. Integers are only compared and passed on, and have no width. Texts are
-- compared by code points, which for UTF-8 is the order of bytes.
pub mod Common
pub mod Errors
pub mod Effects
pub mod Managed
pub mod Labels
pub mod Clients
pub mod S3Store
pub mod S3Blockstore
pub mod S3OplogStore
pub mod BackupDaemon
pub mod Project
pub mod DeepCopy
pub mod Accessors
pub mod Connectors
pub mod Startup
pub mod Tests
