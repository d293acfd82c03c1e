-- ===== src/S3Blockstore.antt =====
-- internal/controller/s3blockstore/s3blockstore.go: the S3 code at the blockstore's texts.
use opsmanager_crossplane_pr.Managed.{Managed, ExternalObservation}
use opsmanager_crossplane_pr.Effects.{M}
use opsmanager_crossplane_pr.S3Store.{
  S3StoreParameters, S3StoreObservation, S3Call, S3Service, Texts,
}
use opsmanager_crossplane_pr.S3Store.Handlers

abbrev pub S3Blockstore : Type 0
S3Blockstore = Managed S3StoreParameters S3StoreObservation

abbrev pub blockstore_texts : Texts
blockstore_texts = record {
  err_get = "cannot get S3 blockstore from Ops Manager";
  err_create = "cannot create S3 blockstore in Ops Manager";
  err_update = "cannot update S3 blockstore in Ops Manager";
  err_delete = "cannot delete S3 blockstore from Ops Manager";
  reason_adopted = "AdoptedBlockstore";
  reason_created = "CreatedBlockstore";
  reason_deleted = "DeletedBlockstore";
  adopted = "adopted existing S3 blockstore ";
  created = "created S3 blockstore ";
  deleted = "deleted S3 blockstore ";
}

module _ (svc : S3Service) where
  abbrev pub observe_blockstore : M S3Call S3Blockstore ExternalObservation
  observe_blockstore = Handlers.observe svc blockstore_texts

  abbrev pub create_blockstore : M S3Call S3Blockstore (Unit {0})
  create_blockstore = Handlers.create_store svc blockstore_texts

  abbrev pub update_blockstore : M S3Call S3Blockstore (Unit {0})
  update_blockstore = Handlers.update_store svc blockstore_texts

  abbrev pub delete_blockstore : M S3Call S3Blockstore (Unit {0})
  delete_blockstore = Handlers.delete_store svc blockstore_texts
