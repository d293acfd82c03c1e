-- ===== src/S3OplogStore.antt =====
-- internal/controller/s3oplogstore/s3oplogstore.go: the S3 code at the oplog store's texts. Its
-- functions are those of the blockstore controller line by line.
use opsmanager_crossplane_pr.Common.{Bool, Option, String}
use opsmanager_crossplane_pr.Managed.{Managed, ExternalObservation, SecretKeySelector}
use opsmanager_crossplane_pr.Effects.{M}
use opsmanager_crossplane_pr.S3Store.{
  S3StoreParameters, S3StoreObservation, ApiStore, S3Call, S3Service, Texts,
}
use opsmanager_crossplane_pr.S3Store.Convert
use opsmanager_crossplane_pr.S3Store.Handlers

abbrev pub S3OplogStoreParameters : Type 0
S3OplogStoreParameters = S3StoreParameters

abbrev pub S3OplogStoreObservation : Type 0
S3OplogStoreObservation = S3StoreObservation

abbrev pub S3OplogStore : Type 0
S3OplogStore = Managed S3OplogStoreParameters S3OplogStoreObservation

abbrev pub oplog_store_texts : Texts
oplog_store_texts = record {
  err_get = "cannot get S3 oplog store from Ops Manager";
  err_create = "cannot create S3 oplog store in Ops Manager";
  err_update = "cannot update S3 oplog store in Ops Manager";
  err_delete = "cannot delete S3 oplog store from Ops Manager";
  reason_adopted = "AdoptedOplogStore";
  reason_created = "CreatedOplogStore";
  reason_deleted = "DeletedOplogStore";
  adopted = "adopted existing S3 oplog store ";
  created = "created S3 oplog store ";
  deleted = "deleted S3 oplog store ";
}

unfoldable pub late_init_oplog_store :
    S3OplogStoreParameters → ApiStore → S3OplogStoreParameters × Bool
late_init_oplog_store p o = Convert.late_init p o

unfoldable pub to_sdk_store : S3OplogStoreParameters → String → ApiStore
to_sdk_store p aws_secret_key = Convert.to_sdk p aws_secret_key

unfoldable pub oplog_is_up_to_date : S3OplogStoreParameters → ApiStore → Bool → Bool
oplog_is_up_to_date p o labels_adopted = Convert.is_up_to_date p o labels_adopted

module _ (svc : S3Service) where
  unfoldable pub observe_oplog_store : M S3Call S3OplogStore ExternalObservation
  observe_oplog_store = Handlers.observe svc oplog_store_texts

  unfoldable pub oplog_get_aws_secret_key : Option SecretKeySelector → M S3Call S3OplogStore String
  oplog_get_aws_secret_key ref = Handlers.get_aws_secret_key svc oplog_store_texts ref

  unfoldable pub create_oplog_store : M S3Call S3OplogStore (Unit {0})
  create_oplog_store = Handlers.create_store svc oplog_store_texts

  unfoldable pub update_oplog_store : M S3Call S3OplogStore (Unit {0})
  update_oplog_store = Handlers.update_store svc oplog_store_texts

  unfoldable pub delete_oplog_store : M S3Call S3OplogStore (Unit {0})
  delete_oplog_store = Handlers.delete_store svc oplog_store_texts
