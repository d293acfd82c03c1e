-- ===== src/DeepCopy/Stores.antt =====
-- The deep copies of `S3BlockstoreParameters` and `S3OplogStoreParameters`, which have the same fields.
use opsmanager_crossplane_pr.Common.{ℤ, refl, Bool, Option, List, String}
use opsmanager_crossplane_pr.Managed.{SecretKeySelector}
use opsmanager_crossplane_pr.DeepCopy.Memory.{Ref, Heap, Alloc, ◌>>=◌, return}
use opsmanager_crossplane_pr.DeepCopy.Memory.Areas.{
  bool_area, int_area, texts_area, selector_area, mappings_area, schedule_area,
}
use opsmanager_crossplane_pr.DeepCopy.Copying.{
  copy_or_nil, Copying, IsDeep, flat, ◌⊗◌, ◌&◌, ◌⊕◌, both-IsDeep, of_fields-IsDeep,
}
use opsmanager_crossplane_pr.DeepCopy.Copying.References.{
  view_behind, value, copy_value, value-IsDeep,
}
use opsmanager_crossplane_pr.S3Store.{S3StoreParameters}

-- `S3BlockstoreParameters`, with its pointers.
pub record S3StoreCell : Type 0 where
  pub id : String
  pub uri : String
  pub labels : Option (Ref (List String))
  pub assignment_enabled : Option (Ref Bool)
  pub ssl : Option (Ref Bool)
  pub write_concern : String
  pub encrypted_credentials : Option (Ref Bool)
  pub load_factor : Option (Ref ℤ)
  pub max_capacity_gb : Option (Ref ℤ)
  pub provisioned : Option (Ref Bool)
  pub sync_source : String
  pub username : String
  pub s3_bucket_endpoint : String
  pub s3_bucket_name : String
  pub s3_auth_method : String
  pub aws_access_key : String
  pub aws_secret_key_secret_ref : Option (Ref SecretKeySelector)
  pub s3_max_connections : ℤ
  pub path_style_access_enabled : Option (Ref Bool)
  pub sse_enabled : Option (Ref Bool)
  pub accepted_tos : Option (Ref Bool)
  pub disable_proxy_s3 : Option (Ref Bool)

unfoldable pub copy_store_parameters : S3StoreCell → Alloc S3StoreCell
copy_store_parameters p = do
  labels ← copy_value p.labels
  assignment_enabled ← copy_value p.assignment_enabled
  ssl ← copy_value p.ssl
  encrypted_credentials ← copy_value p.encrypted_credentials
  load_factor ← copy_value p.load_factor
  max_capacity_gb ← copy_value p.max_capacity_gb
  provisioned ← copy_value p.provisioned
  aws_secret_key_secret_ref ← copy_value p.aws_secret_key_secret_ref
  path_style_access_enabled ← copy_value p.path_style_access_enabled
  sse_enabled ← copy_value p.sse_enabled
  accepted_tos ← copy_value p.accepted_tos
  disable_proxy_s3 ← copy_value p.disable_proxy_s3
  return (record p {
    labels = labels;
    assignment_enabled = assignment_enabled;
    ssl = ssl;
    encrypted_credentials = encrypted_credentials;
    load_factor = load_factor;
    max_capacity_gb = max_capacity_gb;
    provisioned = provisioned;
    aws_secret_key_secret_ref = aws_secret_key_secret_ref;
    path_style_access_enabled = path_style_access_enabled;
    sse_enabled = sse_enabled;
    accepted_tos = accepted_tos;
    disable_proxy_s3 = disable_proxy_s3;
  })

unfoldable pub view_store_parameters : Heap → S3StoreCell → S3StoreParameters
view_store_parameters h p = record {
  id = p.id;
  uri = p.uri;
  labels = view_behind flat h p.labels;
  assignment_enabled = view_behind flat h p.assignment_enabled;
  ssl = view_behind flat h p.ssl;
  write_concern = p.write_concern;
  encrypted_credentials = view_behind flat h p.encrypted_credentials;
  load_factor = view_behind flat h p.load_factor;
  max_capacity_gb = view_behind flat h p.max_capacity_gb;
  provisioned = view_behind flat h p.provisioned;
  sync_source = p.sync_source;
  username = p.username;
  s3_bucket_endpoint = p.s3_bucket_endpoint;
  s3_bucket_name = p.s3_bucket_name;
  s3_auth_method = p.s3_auth_method;
  aws_access_key = p.aws_access_key;
  aws_secret_key_secret_ref = view_behind flat h p.aws_secret_key_secret_ref;
  s3_max_connections = p.s3_max_connections;
  path_style_access_enabled = view_behind flat h p.path_style_access_enabled;
  sse_enabled = view_behind flat h p.sse_enabled;
  accepted_tos = view_behind flat h p.accepted_tos;
  disable_proxy_s3 = view_behind flat h p.disable_proxy_s3;
}

abbrev pub store_parameters_fields :
    Copying
      (Option (Ref (List String))
        ⊗ Option (Ref Bool)
        ⊗ Option (Ref Bool)
        ⊗ Option (Ref Bool)
        ⊗ Option (Ref ℤ)
        ⊗ Option (Ref ℤ)
        ⊗ Option (Ref Bool)
        ⊗ Option (Ref SecretKeySelector)
        ⊗ Option (Ref Bool)
        ⊗ Option (Ref Bool)
        ⊗ Option (Ref Bool)
        ⊗ Option (Ref Bool))
      (Option (List String)
        ⊗ Option Bool
        ⊗ Option Bool
        ⊗ Option Bool
        ⊗ Option ℤ
        ⊗ Option ℤ
        ⊗ Option Bool
        ⊗ Option SecretKeySelector
        ⊗ Option Bool
        ⊗ Option Bool
        ⊗ Option Bool
        ⊗ Option Bool)
store_parameters_fields =
    value ⊕ value ⊕ value ⊕ value ⊕ value ⊕ value ⊕ value ⊕ value ⊕ value ⊕ value ⊕ value ⊕ value

-- The interface of `S3StoreCell`.
abbrev pub store_parameters : Copying S3StoreCell S3StoreParameters
store_parameters = record {
  copy = copy_store_parameters;
  view = view_store_parameters;
  Within = λ P h p. store_parameters_fields.Within P h (
      p.labels & p.assignment_enabled & p.ssl & p.encrypted_credentials & p.load_factor
      & p.max_capacity_gb & p.provisioned & p.aws_secret_key_secret_ref
      & p.path_style_access_enabled & p.sse_enabled & p.accepted_tos & p.disable_proxy_s3);
}

pub store_parameters-IsDeep : IsDeep store_parameters
unfolding copy_store_parameters view_store_parameters
store_parameters-IsDeep =
    of_fields-IsDeep
      (λ (p : S3StoreCell).
        p.labels & p.assignment_enabled & p.ssl & p.encrypted_credentials & p.load_factor
        & p.max_capacity_gb & p.provisioned & p.aws_secret_key_secret_ref
        & p.path_style_access_enabled & p.sse_enabled & p.accepted_tos & p.disable_proxy_s3)
      (λ p t. record p {
        labels = t.0;
        assignment_enabled = t.1.0;
        ssl = t.1.1.0;
        encrypted_credentials = t.1.1.1.0;
        load_factor = t.1.1.1.1.0;
        max_capacity_gb = t.1.1.1.1.1.0;
        provisioned = t.1.1.1.1.1.1.0;
        aws_secret_key_secret_ref = t.1.1.1.1.1.1.1.0;
        path_style_access_enabled = t.1.1.1.1.1.1.1.1.0;
        sse_enabled = t.1.1.1.1.1.1.1.1.1.0;
        accepted_tos = t.1.1.1.1.1.1.1.1.1.1.0;
        disable_proxy_s3 = t.1.1.1.1.1.1.1.1.1.1.1;
      })
      (λ p t. record {
        id = p.id;
        uri = p.uri;
        labels = t.0;
        assignment_enabled = t.1.0;
        ssl = t.1.1.0;
        write_concern = p.write_concern;
        encrypted_credentials = t.1.1.1.0;
        load_factor = t.1.1.1.1.0;
        max_capacity_gb = t.1.1.1.1.1.0;
        provisioned = t.1.1.1.1.1.1.0;
        sync_source = p.sync_source;
        username = p.username;
        s3_bucket_endpoint = p.s3_bucket_endpoint;
        s3_bucket_name = p.s3_bucket_name;
        s3_auth_method = p.s3_auth_method;
        aws_access_key = p.aws_access_key;
        aws_secret_key_secret_ref = t.1.1.1.1.1.1.1.0;
        s3_max_connections = p.s3_max_connections;
        path_style_access_enabled = t.1.1.1.1.1.1.1.1.0;
        sse_enabled = t.1.1.1.1.1.1.1.1.1.0;
        accepted_tos = t.1.1.1.1.1.1.1.1.1.1.0;
        disable_proxy_s3 = t.1.1.1.1.1.1.1.1.1.1.1;
      })
      store_parameters_fields
      (both-IsDeep value-IsDeep (
        both-IsDeep value-IsDeep (
          both-IsDeep value-IsDeep (
            both-IsDeep value-IsDeep (
              both-IsDeep value-IsDeep (
                both-IsDeep value-IsDeep (
                  both-IsDeep value-IsDeep (
                    both-IsDeep value-IsDeep (
                      both-IsDeep value-IsDeep
                        (both-IsDeep value-IsDeep (both-IsDeep value-IsDeep value-IsDeep)))))))))))
      (λ p t. refl) (λ p t v. refl)

unfoldable pub deep_copy_blockstore_parameters : Option S3StoreCell → Alloc (Option S3StoreCell)
deep_copy_blockstore_parameters = copy_or_nil copy_store_parameters

-- `S3OplogStoreParameters.DeepCopyInto`, which is the same line by line.
unfoldable pub copy_oplog_store_parameters : S3StoreCell → Alloc S3StoreCell
unfolding copy_store_parameters
copy_oplog_store_parameters = copy_store_parameters

unfoldable pub deep_copy_oplog_store_parameters : Option S3StoreCell → Alloc (Option S3StoreCell)
deep_copy_oplog_store_parameters = copy_or_nil copy_oplog_store_parameters
