-- ===== src/S3Store.antt =====
-- What the S3 blockstores and the S3 oplog stores share. The two controllers,
-- internal/controller/s3blockstore and internal/controller/s3oplogstore, have the same code but
-- for their texts and the endpoint behind their service; both texts and service are parameters
-- here, and S3Blockstore and S3OplogStore give them.
pub mod Convert
pub mod Handlers
pub mod LateInit
pub mod Drift
pub mod History
use opsmanager_crossplane_pr.Common.{ℕ, ℤ, Bool, Option, List, String}
use opsmanager_crossplane_pr.Effects.{Result}
use opsmanager_crossplane_pr.Managed.{Managed, SecretKeySelector}

-- `S3BlockstoreParameters`, whose fields `S3OplogStoreParameters` has too.
pub record S3StoreParameters : Type 0 where
  pub id : String
  pub uri : String
  pub labels : Option (List String)
  pub assignment_enabled : Option Bool
  pub ssl : Option Bool
  pub write_concern : String
  pub encrypted_credentials : Option Bool
  pub load_factor : Option ℤ
  pub max_capacity_gb : Option ℤ
  pub provisioned : Option Bool
  pub sync_source : String
  pub username : String
  pub s3_bucket_endpoint : String
  pub s3_bucket_name : String
  pub s3_auth_method : String
  pub aws_access_key : String
  pub aws_secret_key_secret_ref : Option SecretKeySelector
  pub s3_max_connections : ℤ
  pub path_style_access_enabled : Option Bool
  pub sse_enabled : Option Bool
  pub accepted_tos : Option Bool
  pub disable_proxy_s3 : Option Bool

pub record S3StoreObservation : Type 0 where
  pub used_size : ℤ

abbrev pub S3Store : Type 0
S3Store = Managed S3StoreParameters S3StoreObservation

-- `opsmngr.S3Blockstore` with the structs that it embeds.
pub record ApiStore : Type 0 where
  pub id : String
  pub uri : String
  pub write_concern : String
  pub labels : Option (List String)
  pub ssl : Option Bool
  pub assignment_enabled : Option Bool
  pub encrypted_credentials : Option Bool
  pub used_size : ℤ
  pub load_factor : Option ℤ
  pub max_capacity_gb : Option ℤ
  pub provisioned : Option Bool
  pub sync_source : String
  pub username : String
  pub aws_access_key : String
  pub aws_secret_key : String
  pub s3_auth_method : String
  pub s3_bucket_endpoint : String
  pub s3_bucket_name : String
  pub s3_max_connections : ℤ
  pub disable_proxy_s3 : Option Bool
  pub accepted_tos : Option Bool
  pub sse_enabled : Option Bool
  pub path_style_access_enabled : Option Bool

-- The calls of the handlers: the store's endpoint, the secret in the cluster, and the backoff of
-- the retry.
pub data S3Call : Type 0 where
  get delete : String → S3Call
  create : ApiStore → S3Call
  update : String → ApiStore → S3Call
  get_secret : String → String → S3Call
  sleep : ℕ → S3Call

-- What answers them, after the calls made before, the newest first. `elapsed` is false where the
-- context is done before the backoff has passed.
pub record S3Service : Type 0 where
  pub get : List S3Call → String → Result ApiStore
  pub create : List S3Call → ApiStore → Result (Unit {0})
  pub update : List S3Call → String → ApiStore → Result (Unit {0})
  pub delete : List S3Call → String → Result (Unit {0})
  pub secret : List S3Call → String → String → Result (List (String × String))
  pub elapsed : List S3Call → Bool

-- The texts in which the controllers differ.
pub record Texts : Type 0 where
  pub err_get : String
  pub err_create : String
  pub err_update : String
  pub err_delete : String
  pub reason_adopted : String
  pub reason_created : String
  pub reason_deleted : String
  pub adopted : String
  pub created : String
  pub deleted : String
