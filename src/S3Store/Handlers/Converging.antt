-- ===== src/S3Store/Handlers/Converging.antt =====
-- After a write that the API keeps, the resource is up to date.
use opsmanager_crossplane_pr.Common.{
  ℤ, ◌≡◌, refl, ap, true, Option, none, some, String, List, elements, fill_self, zero_string,
  zero_option, arith, Bool-cases, inl, inr,
}
use mathlib.Core.Bool.{cond}
use opsmanager_crossplane_pr.Labels.{labels_adopted, adopted_labels}
use opsmanager_crossplane_pr.S3Store.{S3Store, ApiStore}
use opsmanager_crossplane_pr.S3Store.Convert.{late_init, to_sdk}
use opsmanager_crossplane_pr.S3Store.Drift.{InSync, is_up_to_date_iff}
use opsmanager_crossplane_pr.S3Store.Handlers.{adopt_labels, take_over, observed_cr, observation}

adopted_labels_self : (l : Option (List String)) → adopted_labels l l ≡ l
unfolding adopted_labels
adopted_labels_self none = refl
adopted_labels_self (some l) = ground arith

module _ (cr : S3Store) (key : String) (used : ℤ) where
  sent : ApiStore
  sent = record (to_sdk cr.for_provider key) { used_size = used }

  taken-InSync : InSync (take_over sent cr).for_provider sent true
  unfolding take_over late_init sent to_sdk
  taken-InSync =
      let p = cr.for_provider in
      record {
        bucket_name = refl;
        bucket_endpoint = fill_self p.s3_bucket_endpoint;
        auth_method = fill_self p.s3_auth_method;
        access_key = λ n. fill_self p.aws_access_key;
        labels = λ n. refl;
        assignment = λ b e. rw (← fill_self p.assignment_enabled) e;
        path_style = λ b e. rw (← fill_self p.path_style_access_enabled) e;
        sse = λ b e. rw (← fill_self p.sse_enabled) e;
        accepted_tos = λ b e. rw (← fill_self p.accepted_tos) e;
      }

  adopted-InSync : InSync (adopt_labels sent (take_over sent cr)).for_provider sent true
  unfolding adopt_labels take_over sent to_sdk late_init
  adopted-InSync = record {
    bucket_name = taken-InSync.bucket_name;
    bucket_endpoint = taken-InSync.bucket_endpoint;
    auth_method = taken-InSync.auth_method;
    access_key = taken-InSync.access_key;
    assignment = taken-InSync.assignment;
    path_style = taken-InSync.path_style;
    sse = taken-InSync.sse;
    accepted_tos = taken-InSync.accepted_tos;
    labels = λ n. ap elements (adopted_labels_self cr.for_provider.labels);
  }

  -- If the API has what `Create` or `Update` sends for the spec, with any key and any used size,
  -- `Observe` finds the store up to date.
  pub observation_after_write :
      (observation
        (record (to_sdk cr.for_provider key) { used_size = used })
        cr).resource_up_to_date
      ≡ true
  unfolding observation observed_cr sent
  observation_after_write =
      (is_up_to_date_iff (observed_cr sent cr).for_provider sent true).1
        (elim (Bool-cases (labels_adopted (take_over sent cr))) [
          | inl a ↦ rw (a, cond) taken-InSync
          | inr a ↦ rw (a, cond) adopted-InSync
        ])
