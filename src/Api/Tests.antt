-- ===== src/Api/Tests.antt =====
-- The theorems on backend/internal/api/service.go at a database with one API, `r`, one client of it,
-- and two permissions, which only users are granted.
use pocket_id.Prelude.{Bool, true, false, some, List, [], ◌∷◌, ◌≡◌, refl, All}
use pocket_id.Result.{ok, err}
use pocket_id.Exec.{◌>>=◌}
use pocket_id.CallbackUrl.Bytes.{Bytes, bytes}
use pocket_id.Outbound.Text.{to_lower}
use pocket_id.Oidc.Resource.{
  SubjectType, subject_user, subject_client, is_standard_scope, trim_slashes,
}
use pocket_id.Oidc.Consent.Merging.{Distinct}
use pocket_id.Api.{
  Api, ApiClientGrant, ApiStore, is_permission_key_reserved, check_keys, is_issuer_audience,
  intersect_ids, collect_ids, applied_grant, get_api, load_oidc_client, delete_api_client_grants,
  insert_client_grants, in_transaction, set_access_inside, set_api_client_access, create_api,
  invalid_field,
}
use pocket_id.Api.Applied.{Applied, set_api_client_access-Applied}
use pocket_id.Api.Keys.{check_keys-Distinct}

abbrev books : Api
books = record {
  id = bytes "1";
  audience = bytes "r";
  permissions =
      record { id = bytes "p"; key = bytes "read" }
      ∷ record { id = bytes "q"; key = bytes "write" }
      ∷ [];
}

abbrev keys_of : SubjectType → List Bytes
keys_of subject_user = bytes "read" ∷ []
keys_of subject_client = []

abbrev store : ApiStore (Unit {0})
store = record {
  find_by_audience = λ a w. (ok (some (bytes "1", true)), w);
  count_grants = λ c a s w. (ok 1, w);
  granted_keys = λ c a s w. (ok (keys_of s), w);
  cimd_api_ids = λ c a w. (ok (bytes "1" ∷ []), w);
  cimd_keys = λ ids w. (ok (bytes "read" ∷ bytes "write" ∷ []), w);
  find_api = λ id w. (ok (some books), w);
  find_client = λ id w. (ok (some true), w);
  create_api = λ n a w. (ok (some books), w);
  delete_api_grants = λ c a w. (ok tt, w);
  delete_permission_grants = λ c ids w. (ok tt, w);
  insert_api_grants = λ c rows w. (ok tt, w);
  insert_permission_grants = λ c rows w. (ok tt, w);
  begin_transaction = λ w. w;
  commit_transaction = λ w. (ok tt, w);
  rollback = λ w. w;
}

abbrev any_uri : Bytes → Bool
any_uri uri = true

abbrev wanted : ApiClientGrant
wanted = record {
  user_delegated_access = false;
  client_access = true;
  user_delegated_permission_ids = bytes "x" ∷ bytes "q" ∷ [];
  client_permission_ids = bytes "p" ∷ [];
}

-- the client is public
abbrev given : ApiClientGrant
given = record {
  user_delegated_access = true;
  client_access = false;
  user_delegated_permission_ids = bytes "q" ∷ [];
  client_permission_ids = [];
}

applying : set_api_client_access store (bytes "1") (bytes "app") wanted tt ≡ (ok given, tt)
unfolding set_api_client_access in_transaction set_access_inside get_api load_oidc_client
    delete_api_client_grants insert_client_grants applied_grant intersect_ids collect_ids ◌>>=◌
applying = refl

set_api_client_access-Applied_example : Applied store (bytes "1") (bytes "app") wanted given tt tt
set_api_client_access-Applied_example =
    set_api_client_access-Applied store (bytes "1") (bytes "app") wanted given tt tt applying

checking : check_keys any_uri [] (bytes "read" ∷ bytes "write" ∷ []) ≡ ok tt
unfolding check_keys is_permission_key_reserved to_lower
checking = refl

check_keys-Distinct_example :
    All
      (λ k. (any_uri k ≡ true) × (is_standard_scope k ≡ false))
      (bytes "read" ∷ bytes "write" ∷ [])
    × Distinct (bytes "read" ∷ bytes "write" ∷ [])
check_keys-Distinct_example =
    check_keys-Distinct any_uri (bytes "read" ∷ bytes "write" ∷ []) checking

-- the issuer in capitals, with a slash
reserved_issuer : create_api store (bytes "https://id") (bytes "Me") (bytes "https://ID/") tt ≡ (
  err (
      invalid_field "resource" "reserved"
        "is reserved by Pocket ID and cannot be used for a custom API"),
  tt,
)
unfolding create_api is_issuer_audience trim_slashes to_lower
reserved_issuer = refl
