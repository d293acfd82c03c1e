-- ===== src/S3Store/LateInit.antt =====
-- What late initialisation does to the spec.
use opsmanager_crossplane_pr.Common.{
  ◌≡◌, ◌∙◌, sym, Bool, ◌≢◌, ◌↔◌, true, false, is_none, any-AllFalse, fill_lem, fill-false,
  fill-fill, fills-fill, zero_string, zero_int, zero_option, ◌==◌, string_eq, int_eq, if◌then◌else◌,
  pos, ap, Bool-cases, inl, inr,
}
use opsmanager_crossplane_pr.S3Store.{S3StoreParameters, ApiStore}
use opsmanager_crossplane_pr.S3Store.Convert.{late_changes, late_init}

-- A field that is set keeps its value, and one that is not takes the API's. No other field changes.
abbrev pub late_spec : S3StoreParameters → ApiStore → S3StoreParameters
late_spec p o = record p {
  uri = if p.uri == "" then o.uri else p.uri;
  s3_bucket_endpoint =
      if p.s3_bucket_endpoint == "" then o.s3_bucket_endpoint else p.s3_bucket_endpoint;
  s3_auth_method = if p.s3_auth_method == "" then o.s3_auth_method else p.s3_auth_method;
  write_concern = if p.write_concern == "" then o.write_concern else p.write_concern;
  sync_source = if p.sync_source == "" then o.sync_source else p.sync_source;
  username = if p.username == "" then o.username else p.username;
  aws_access_key = if p.aws_access_key == "" then o.aws_access_key else p.aws_access_key;
  assignment_enabled =
      if is_none p.assignment_enabled then o.assignment_enabled else p.assignment_enabled;
  ssl = if is_none p.ssl then o.ssl else p.ssl;
  encrypted_credentials =
      if is_none p.encrypted_credentials then o.encrypted_credentials else p.encrypted_credentials;
  load_factor = if is_none p.load_factor then o.load_factor else p.load_factor;
  max_capacity_gb = if is_none p.max_capacity_gb then o.max_capacity_gb else p.max_capacity_gb;
  provisioned = if is_none p.provisioned then o.provisioned else p.provisioned;
  s3_max_connections =
      if p.s3_max_connections == pos 0 then o.s3_max_connections else p.s3_max_connections;
  path_style_access_enabled =
      if is_none p.path_style_access_enabled
      then o.path_style_access_enabled
      else p.path_style_access_enabled;
  sse_enabled = if is_none p.sse_enabled then o.sse_enabled else p.sse_enabled;
  accepted_tos = if is_none p.accepted_tos then o.accepted_tos else p.accepted_tos;
  disable_proxy_s3 = if is_none p.disable_proxy_s3 then o.disable_proxy_s3 else p.disable_proxy_s3;
}

-- Late initialisation gives each optional field that is unset the API's value, and leaves the
-- fields that are set, and all others, as they are.
pub late_init_params : (p : S3StoreParameters) (o : ApiStore) → (late_init p o).0 ≡ late_spec p o
unfolding late_init
late_init_params p o = λ i. record p {
  uri = fill_lem p.uri o.uri i;
  s3_bucket_endpoint = fill_lem p.s3_bucket_endpoint o.s3_bucket_endpoint i;
  s3_auth_method = fill_lem p.s3_auth_method o.s3_auth_method i;
  write_concern = fill_lem p.write_concern o.write_concern i;
  sync_source = fill_lem p.sync_source o.sync_source i;
  username = fill_lem p.username o.username i;
  aws_access_key = fill_lem p.aws_access_key o.aws_access_key i;
  assignment_enabled = fill_lem p.assignment_enabled o.assignment_enabled i;
  ssl = fill_lem p.ssl o.ssl i;
  encrypted_credentials = fill_lem p.encrypted_credentials o.encrypted_credentials i;
  load_factor = fill_lem p.load_factor o.load_factor i;
  max_capacity_gb = fill_lem p.max_capacity_gb o.max_capacity_gb i;
  provisioned = fill_lem p.provisioned o.provisioned i;
  s3_max_connections = fill_lem p.s3_max_connections o.s3_max_connections i;
  path_style_access_enabled = fill_lem p.path_style_access_enabled o.path_style_access_enabled i;
  sse_enabled = fill_lem p.sse_enabled o.sse_enabled i;
  accepted_tos = fill_lem p.accepted_tos o.accepted_tos i;
  disable_proxy_s3 = fill_lem p.disable_proxy_s3 o.disable_proxy_s3 i;
}

-- A second run with the same answer of the API changes nothing, and reports no change.
pub late_init_idem :
    (p : S3StoreParameters) (o : ApiStore)
    → late_init (late_init p o).0 o ≡ ((late_init p o).0, false)
unfolding late_init
late_init_idem p o = simp (fill-fill, fills-fill)

late_init-unchanged :
    (p : S3StoreParameters) (o : ApiStore) → (late_init p o).1 ≡ false → (late_init p o).0 ≡ p
unfolding late_init
late_init-unchanged p o h =
    let (
      h0,
      (
        h1,
        (
          h2,
          (
            h3,
            (
              h4,
              (
                h5,
                (h6, (h7, (h8, (h9, (h10, (h11, (h12, (h13, (h14, (h15, (h16, (h17, hz)))))))))))),
              ),
            ),
          ),
        ),
      ),
    ) =
      any-AllFalse (late_changes p o) h in
    λ i. record p {
      uri = fill-false p.uri o.uri h0 i;
      s3_bucket_endpoint = fill-false p.s3_bucket_endpoint o.s3_bucket_endpoint h1 i;
      s3_auth_method = fill-false p.s3_auth_method o.s3_auth_method h2 i;
      write_concern = fill-false p.write_concern o.write_concern h3 i;
      sync_source = fill-false p.sync_source o.sync_source h4 i;
      username = fill-false p.username o.username h5 i;
      aws_access_key = fill-false p.aws_access_key o.aws_access_key h6 i;
      assignment_enabled = fill-false p.assignment_enabled o.assignment_enabled h7 i;
      ssl = fill-false p.ssl o.ssl h8 i;
      encrypted_credentials = fill-false p.encrypted_credentials o.encrypted_credentials h9 i;
      load_factor = fill-false p.load_factor o.load_factor h10 i;
      max_capacity_gb = fill-false p.max_capacity_gb o.max_capacity_gb h11 i;
      provisioned = fill-false p.provisioned o.provisioned h12 i;
      s3_max_connections = fill-false p.s3_max_connections o.s3_max_connections h13 i;
      path_style_access_enabled =
          fill-false p.path_style_access_enabled o.path_style_access_enabled h14 i;
      sse_enabled = fill-false p.sse_enabled o.sse_enabled h15 i;
      accepted_tos = fill-false p.accepted_tos o.accepted_tos h16 i;
      disable_proxy_s3 = fill-false p.disable_proxy_s3 o.disable_proxy_s3 h17 i;
    }

pub unchanged-late_init :
    (p : S3StoreParameters) (o : ApiStore) → (late_init p o).0 ≡ p → (late_init p o).1 ≡ false
unchanged-late_init p o h =
    ap (λ (q : S3StoreParameters). (late_init q o).1) (sym h)
    ∙ ap (λ (x : S3StoreParameters × Bool). x.1) (late_init_idem p o)

-- It reports a change exactly if it changes the spec.
pub late_init_changed :
    (p : S3StoreParameters) (o : ApiStore) → ((late_init p o).1 ≡ true) ↔ ((late_init p o).0 ≢ p)
late_init_changed p o = (
  λ c e. cc (unchanged-late_init p o e),
  λ n. elim (Bool-cases (late_init p o).1) [
    | inl c ↦ c
    | inr c ↦ absurd (n (late_init-unchanged p o c))
  ],
)
