-- ===== src/S3Store/History/Guarding.antt =====
-- The methods of a store's controller keep its calls guarded.
use opsmanager_crossplane_pr.Common.{string_eq}
use opsmanager_crossplane_pr.S3Store.{S3Store}
