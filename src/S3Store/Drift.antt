-- ===== src/S3Store/Drift.antt =====
-- What it means that a store is up to date.
use opsmanager_crossplane_pr.Common.{
  ◌≡◌, refl, ◌≢◌, ◌↔◌, ◌⊎◌, Bool, true, none, String, elements, string_eq, bool_eq, nat_eq, arith,
}
use opsmanager_crossplane_pr.Labels.Compare.{Agrees, labels_differ_iff, flag_differs_iff}
use opsmanager_crossplane_pr.S3Store.{S3StoreParameters, ApiStore}
use opsmanager_crossplane_pr.S3Store.Convert.{to_sdk, is_up_to_date}

pub record InSync (p : S3StoreParameters) (o : ApiStore) (labels_adopted : Bool) : Type 0 where
  pub bucket_name : p.s3_bucket_name ≡ o.s3_bucket_name
  pub bucket_endpoint : p.s3_bucket_endpoint ≡ o.s3_bucket_endpoint
  pub auth_method : p.s3_auth_method ≡ o.s3_auth_method
  pub access_key : p.aws_access_key ≢ "" → p.aws_access_key ≡ o.aws_access_key
  pub labels : (labels_adopted ≡ true) ⊎ (p.labels ≢ none) → elements p.labels ≡ elements o.labels
  pub assignment : Agrees p.assignment_enabled o.assignment_enabled
  pub path_style : Agrees p.path_style_access_enabled o.path_style_access_enabled
  pub sse : Agrees p.sse_enabled o.sse_enabled
  pub accepted_tos : Agrees p.accepted_tos o.accepted_tos

up_to_date-InSync :
    (p : S3StoreParameters) (o : ApiStore) (labels_adopted : Bool)
    → is_up_to_date p o labels_adopted ≡ true
    → InSync p o labels_adopted
unfolding is_up_to_date
up_to_date-InSync p o b h = record {
  bucket_name = ground arith;
  bucket_endpoint = ground arith;
  auth_method = ground arith;
  access_key = ground arith;
  labels = (labels_differ_iff p.labels o.labels b).0 (ground arith);
  assignment = (flag_differs_iff p.assignment_enabled o.assignment_enabled).0 (ground arith);
  path_style =
      (flag_differs_iff p.path_style_access_enabled o.path_style_access_enabled).0 (ground arith);
  sse = (flag_differs_iff p.sse_enabled o.sse_enabled).0 (ground arith);
  accepted_tos = (flag_differs_iff p.accepted_tos o.accepted_tos).0 (ground arith);
}

InSync-up_to_date :
    (p : S3StoreParameters) (o : ApiStore) (labels_adopted : Bool)
    → InSync p o labels_adopted
    → is_up_to_date p o labels_adopted ≡ true
unfolding is_up_to_date
InSync-up_to_date p o b s =
    let labels = (labels_differ_iff p.labels o.labels b).1 s.labels in
    let assignment = (flag_differs_iff p.assignment_enabled o.assignment_enabled).1 s.assignment in
    let path_style =
      (flag_differs_iff p.path_style_access_enabled o.path_style_access_enabled).1 s.path_style in
    let sse = (flag_differs_iff p.sse_enabled o.sse_enabled).1 s.sse in
    let tos = (flag_differs_iff p.accepted_tos o.accepted_tos).1 s.accepted_tos in ground arith

-- A store is reported up to date exactly if bucket, endpoint and authentication method are equal,
-- the access key is if the spec sets one, the labels are if they are adopted or the spec sets
-- them, and each of the four flags that the spec sets has its value in the API.
pub is_up_to_date_iff :
    (p : S3StoreParameters) (o : ApiStore) (labels_adopted : Bool)
    → (is_up_to_date p o labels_adopted ≡ true) ↔ InSync p o labels_adopted
is_up_to_date_iff p o b = (up_to_date-InSync p o b, InSync-up_to_date p o b)

-- What is sent to the API is up to date with the spec that it was made from.
pub is_up_to_date-to_sdk :
    (p : S3StoreParameters) (aws_secret_key : String) (labels_adopted : Bool)
    → is_up_to_date p (to_sdk p aws_secret_key) labels_adopted ≡ true
is_up_to_date-to_sdk p key b = InSync-up_to_date p (to_sdk p key) b (
    unfold to_sdk in
    record {
      bucket_name = refl;
      bucket_endpoint = refl;
      auth_method = refl;
      access_key = λ n. refl;
      labels = λ n. refl;
      assignment = λ c e. e;
      path_style = λ c e. e;
      sse = λ c e. e;
      accepted_tos = λ c e. e;
    })
