-- ===== src/S3Store/Convert.antt =====
-- The functions between the spec and the API object: `lateInitBlockstore`, `toSDKBlockstore`,
-- `isUpToDate` and their helpers in internal/controller/s3blockstore/s3blockstore.go.
use opsmanager_crossplane_pr.Common.{
  ℤ, pos, Bool, true, false, ◌&&◌, Option, none, some, List, [], ◌∷◌, String, any, fill, fills,
  zero_string, zero_int, zero_option, ◌==◌, ◌!=◌, string_eq, bool_eq, nat_eq, int_eq, if◌then◌else◌,
}
use opsmanager_crossplane_pr.Labels.{flag_differs, labels_differ}
use opsmanager_crossplane_pr.S3Store.{S3StoreParameters, ApiStore}

-- Which fields `set`, `setPtr`, `setPtrInt64` and `setInt` write, in the order of the calls.
unfoldable pub late_changes : S3StoreParameters → ApiStore → List Bool
late_changes p o =
    fills p.uri o.uri
    ∷ fills p.s3_bucket_endpoint o.s3_bucket_endpoint
    ∷ fills p.s3_auth_method o.s3_auth_method
    ∷ fills p.write_concern o.write_concern
    ∷ fills p.sync_source o.sync_source
    ∷ fills p.username o.username
    ∷ fills p.aws_access_key o.aws_access_key
    ∷ fills p.assignment_enabled o.assignment_enabled
    ∷ fills p.ssl o.ssl
    ∷ fills p.encrypted_credentials o.encrypted_credentials
    ∷ fills p.load_factor o.load_factor
    ∷ fills p.max_capacity_gb o.max_capacity_gb
    ∷ fills p.provisioned o.provisioned
    ∷ fills p.s3_max_connections o.s3_max_connections
    ∷ fills p.path_style_access_enabled o.path_style_access_enabled
    ∷ fills p.sse_enabled o.sse_enabled
    ∷ fills p.accepted_tos o.accepted_tos
    ∷ fills p.disable_proxy_s3 o.disable_proxy_s3
    ∷ []

-- The parameters after the calls, and `changed`.
unfoldable pub late_init : S3StoreParameters → ApiStore → S3StoreParameters × Bool
unfolding late_changes
late_init p o = (
  record p {
    uri = fill p.uri o.uri;
    s3_bucket_endpoint = fill p.s3_bucket_endpoint o.s3_bucket_endpoint;
    s3_auth_method = fill p.s3_auth_method o.s3_auth_method;
    write_concern = fill p.write_concern o.write_concern;
    sync_source = fill p.sync_source o.sync_source;
    username = fill p.username o.username;
    aws_access_key = fill p.aws_access_key o.aws_access_key;
    assignment_enabled = fill p.assignment_enabled o.assignment_enabled;
    ssl = fill p.ssl o.ssl;
    encrypted_credentials = fill p.encrypted_credentials o.encrypted_credentials;
    load_factor = fill p.load_factor o.load_factor;
    max_capacity_gb = fill p.max_capacity_gb o.max_capacity_gb;
    provisioned = fill p.provisioned o.provisioned;
    s3_max_connections = fill p.s3_max_connections o.s3_max_connections;
    path_style_access_enabled = fill p.path_style_access_enabled o.path_style_access_enabled;
    sse_enabled = fill p.sse_enabled o.sse_enabled;
    accepted_tos = fill p.accepted_tos o.accepted_tos;
    disable_proxy_s3 = fill p.disable_proxy_s3 o.disable_proxy_s3;
  },
  any (late_changes p o),
)

abbrev pub default_max_connections : ℤ
default_max_connections = pos 50

-- `disableProxy`: nil becomes a pointer to false.
or_false : Option Bool → Option Bool
or_false none = some false
or_false (some b) = some b

unfoldable pub to_sdk : S3StoreParameters → String → ApiStore
unfolding or_false
to_sdk p aws_secret_key = record {
  id = p.id;
  uri = p.uri;
  write_concern = p.write_concern;
  labels = p.labels;
  ssl = p.ssl;
  assignment_enabled = p.assignment_enabled;
  encrypted_credentials = p.encrypted_credentials;
  used_size = pos 0;
  load_factor = p.load_factor;
  max_capacity_gb = p.max_capacity_gb;
  provisioned = p.provisioned;
  sync_source = p.sync_source;
  username = p.username;
  aws_access_key = p.aws_access_key;
  aws_secret_key = aws_secret_key;
  s3_auth_method = p.s3_auth_method;
  s3_bucket_endpoint = p.s3_bucket_endpoint;
  s3_bucket_name = p.s3_bucket_name;
  s3_max_connections =
      if p.s3_max_connections == pos 0 then default_max_connections else p.s3_max_connections;
  disable_proxy_s3 = or_false p.disable_proxy_s3;
  accepted_tos = p.accepted_tos;
  sse_enabled = p.sse_enabled;
  path_style_access_enabled = p.path_style_access_enabled;
}

unfoldable pub is_up_to_date : S3StoreParameters → ApiStore → Bool → Bool
is_up_to_date p o labels_adopted =
    if p.s3_bucket_name != o.s3_bucket_name
    then false
    else if p.s3_bucket_endpoint != o.s3_bucket_endpoint
    then false
    else if p.s3_auth_method != o.s3_auth_method
    then false
    else if p.aws_access_key != "" && p.aws_access_key != o.aws_access_key
    then false
    else if labels_differ p.labels o.labels labels_adopted
    then false
    else if flag_differs p.assignment_enabled o.assignment_enabled
    then false
    else if flag_differs p.path_style_access_enabled o.path_style_access_enabled
    then false
    else if flag_differs p.sse_enabled o.sse_enabled
    then false
    else if flag_differs p.accepted_tos o.accepted_tos
    then false
    else true
