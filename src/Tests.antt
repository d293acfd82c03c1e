-- ===== src/Tests.antt =====
-- The theorems at concrete inputs, and runs of the handlers on them.
pub mod Stores
pub mod Connecting
pub mod Copies
pub mod Accessing
pub mod Items
pub mod Daemons
pub mod Projects
pub mod Draining
pub mod Histories
pub mod Keeping
pub mod Opening
pub mod Starting
pub mod Schemes
use opsmanager_crossplane_pr.Common.{some}
use opsmanager_crossplane_pr.Errors.{Err, api}

-- The API's answer for what it does not have, and its refusal of a bucket that another store is
-- validating.
abbrev pub not_found : Err
not_found = api (record { status = some 404; error_code = "RESOURCE_NOT_FOUND" })

abbrev pub conflict : Err
conflict = api (record { status = some 409; error_code = "BACKUP-S3-VALIDATION_FAILED" })
