-- ===== src/Oidc/Tests/DeviceCodes.antt =====
-- The theorems on backend/internal/oidc/device_service.go at an approval.
use pocket_id.Prelude.{true, ◌||◌, none, some, List, [], ◌∷◌, ◌++◌, ◌≡◌, refl, arith, if◌then◌else◌}
use pocket_id.Result.{ok}
use pocket_id.Exec.{◌>>=◌}
use pocket_id.CallbackUrl.Bytes.{Bytes, bytes}
use pocket_id.Outbound.Text.{trim_left, trim_right, trim_space}
use pocket_id.Oidc.Scopes.{has_text, has_text-append}
use pocket_id.Oidc.Resource.{
  is_standard_scope, trim_slashes, collect, grant_from, grant_api, resolve_resource,
  consent_scope_key, consent_scope_keys, consent_audience_key, consent_keys_for_grant,
}
use pocket_id.Oidc.Consent.{
  consent_scopes_include, add_unseen, merge_consent_scopes, keep_approved, narrow_approved_scopes,
  group_allowed, is_user_group_allowed_to_authorize, consent_first, consent_rounds,
  required_consent_scopes,
}
use pocket_id.Oidc.Interaction.{with_tx}
use pocket_id.Oidc.Steps.{resolve_grant, record_consent}
use pocket_id.Oidc.Device.{
  unused, DeviceSession, DeviceRequest, valid, DeviceServices, Approval, normalize_user_code,
  delete_others, narrow_device_request_scopes, copy_device_code_expiry, grant_resource_indicator,
  device_request_from_user_code, load_device_authorization_user, reauthenticated_time, approve,
  accept_for, accept_device_code,
}
use pocket_id.Oidc.Device.Storing.{Known}
use pocket_id.Oidc.Device.Approved.{Approved, accept_device_code-Approved}
use pocket_id.Oidc.Device.Selected.{GrantsOnly, accept_device_code-selected}
use pocket_id.Oidc.Tests.{Table, client, services}

abbrev requested : List Bytes
requested = bytes "openid" ∷ bytes "read" ∷ []

abbrev nobody : DeviceSession
nobody = record {
  session = record {
    subject = [];
    authentication_method = [];
    authentication_time = 0;
    requested_at = 0;
  };
  device_code_expires_at = 90;
  user_code_expires_at = 90;
}

abbrev pending : DeviceRequest
pending = record {
  client = client;
  get_resource = ok (bytes "r");
  requested_at = 6;
  requested_scopes = requested;
  granted_scopes = requested;
  granted_audience = bytes "r" ∷ [];
  user_code_state = unused;
  session = nobody;
}

abbrev add_scope : List Bytes → Bytes → List Bytes
add_scope gs s = if has_text gs s then gs else gs ++ (s ∷ [])

abbrev device : DeviceServices (Unit {0}) (Unit {0}) Table
device = record {
  services = services;
  grant_scope = add_scope;
  grant_audience = add_scope;
  new_device_request = λ w. (ok pending, w);
  new_device_response = λ r w. (ok tt, w);
  user_code_signature = λ c w. (ok c, w);
  find_device_request = λ s w. (ok (some pending), w);
  validate_user_code = λ r c w. (ok valid, w);
  apply_id_token_claims = λ s ss c w. (ok s, w);
  create_device_audit_log = λ k m u n w. w;
  accept_device_code_session = λ s r w. (ok (bytes "d"), w);
  create_openid_connect_session = λ s r w. (ok tt, w);
}

add_scope_only : GrantsOnly device
add_scope_only gs s t h = ground (arith, has_text-append gs (s ∷ []) t)

abbrev approval : Approval
approval = record {
  user_code = bytes " iok2 ";
  user_id = bytes "u";
  authentication_method = bytes "passkey";
  authentication_time = 7;
  approved_scopes = some (bytes "openid" ∷ []);
  reauthentication_token = [];
  meta = record { ip_address = []; user_agent = [] };
}

abbrev stored : DeviceRequest
stored = record pending {
  requested_scopes = bytes "openid" ∷ [];
  granted_scopes = bytes "openid" ∷ [];
  session = record nobody {
    session = record {
      subject = bytes "u";
      authentication_method = bytes "passkey";
      authentication_time = 7;
      requested_at = 6;
    };
  };
}

-- blanks, lower case and look-alikes
normalizing : normalize_user_code (bytes " iok2 ") ≡ bytes "10K2"
unfolding normalize_user_code trim_space trim_left trim_right
normalizing = refl

approving :
    accept_device_code device approval none
    ≡ (ok stored, some (bytes "openid" ∷ consent_audience_key (bytes "r") ∷ []))
unfolding accept_device_code device_request_from_user_code load_device_authorization_user accept_for
    is_user_group_allowed_to_authorize group_allowed narrow_device_request_scopes delete_others
    narrow_approved_scopes keep_approved resolve_grant resolve_resource grant_api grant_from collect
    is_standard_scope trim_slashes grant_resource_indicator with_tx approve reauthenticated_time
    copy_device_code_expiry record_consent consent_rounds consent_first consent_scopes_include
    merge_consent_scopes add_unseen consent_keys_for_grant consent_scope_keys consent_scope_key
    consent_audience_key ◌>>=◌
approving = refl

accept_device_code-Approved_example :
    Approved device approval stored none
      (some (bytes "openid" ∷ consent_audience_key (bytes "r") ∷ []))
accept_device_code-Approved_example =
    accept_device_code-Approved device approval stored none
      (some (bytes "openid" ∷ consent_audience_key (bytes "r") ∷ [])) approving

accept_device_code-selected_example :
    (r : DeviceRequest) × (signature : Bytes) × (v : Table) × Known device approval.user_code none r
      signature v
    × ((t : Bytes)
        → has_text stored.granted_scopes t ≡ true
        → (has_text r.requested_scopes t ≡ true)
          × (has_text stored.requested_scopes t ≡ true)
          × ((has_text (bytes "openid" ∷ []) t || has_text required_consent_scopes t) ≡ true))
accept_device_code-selected_example =
    accept_device_code-selected device add_scope_only approval (bytes "openid" ∷ []) stored none
      (some (bytes "openid" ∷ consent_audience_key (bytes "r") ∷ [])) refl approving
