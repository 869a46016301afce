-- ===== src/Oidc/Tests/Stepping.antt =====
-- A session that is stored in a table of one row, and a step on it.
use pocket_id.Prelude.{
  sym, ap, ◌∙◌, subst, Bool-cases, inl, inr, true, false, Option, none, some, [], ◌∷◌, ◌≡◌, refl,
  arith, if◌then◌else◌,
}
use pocket_id.Result.{ok}
use pocket_id.CallbackUrl.Bytes.{Bytes, bytes}
use pocket_id.Oidc.Scopes.{has_text}
use pocket_id.Oidc.Interaction.{consent, InteractionSession, Services}
use pocket_id.Oidc.Steps.{StepInput}
use pocket_id.CallbackUrl.Bytes.{eq_bytes, eq_bytes_iff}
use pocket_id.Oidc.Scopes.{eq_bytes_refl}
use pocket_id.Oidc.Steps.Bounded.{SessionLaws}
use pocket_id.Oidc.Tests.{api_access, user, session}

abbrev row : InteractionSession → Bytes → Option InteractionSession
row w id = if eq_bytes w.id id then some w else none

abbrev services : Services (Unit {0}) (Unit {0}) InteractionSession
services = record {
  provider = record {
    is_valid_resource_indicator_uri = λ r. true;
    arguments_has = has_text;
    allowed_scopes_for_audience = λ c r s w. (ok api_access, w);
  };
  consents = record {
    find = λ c u w. (ok none, w);
    touch = λ c u w. (ok tt, w);
    replace = λ c u ss w. (ok tt, w);
    create = λ c u ss w. (ok true, w);
  };
  now = λ w. (10, w);
  find_session = λ id w. (ok (row w id), w);
  create_session = λ s w. (ok s, s);
  update_session = λ s w. (ok tt, s);
  delete_session = λ id w. (ok 1, w);
  find_user = λ id w. (ok (some user), w);
  flag_pkce_supported = λ id w. w;
  consume_reauthentication_token = λ t u w. (ok 9, w);
  create_audit_log = λ e m u n w. w;
  begin_transaction = λ w. (ok tt, w);
  commit_transaction = λ w. (ok tt, w);
  rollback = λ w. w;
  map_client = λ c w. (ok tt, w);
  describe_permissions = λ r ks w. (ok [], w);
}

row_named :
    (w : InteractionSession) (id : Bytes) (s : InteractionSession) → row w id ≡ some s → s.id ≡ id
row_named w id s h = elim (Bool-cases (eq_bytes w.id id)) [
  | inl on ↦
      let h' = rw on at h in
      let same : w ≡ s = cc in
      ap (λ (x : InteractionSession). x.id) (sym same) ∙ (eq_bytes_iff w.id id).0 on
  | inr off ↦ let h' = rw off at h in cc
]

updated_row :
    (s w w' : InteractionSession) → services.update_session s w ≡ (ok tt, w') → row w' s.id ≡ some s
updated_row s w w' h =
    let same : s ≡ w' = ground arith in
    subst (λ x. row x s.id ≡ some s) same (rw (eq_bytes_refl s.id) refl)

found_row :
    (id : Bytes) (w w' : InteractionSession) (found : Option InteractionSession)
    → services.find_session id w ≡ (ok found, w')
    → found ≡ row w id
found_row id w w' found h = cc

abbrev laws : SessionLaws services
laws = record { stored = row; id_law = row_named; find_law = found_row; update_law = updated_row }

abbrev step_input : StepInput
step_input = record {
  user_id = bytes "u";
  step = consent;
  approved_scopes = some (bytes "openid" ∷ []);
  reauthentication_token = [];
  authentication_time = 5;
  meta = record { ip_address = []; user_agent = [] };
}

abbrev consented_session : InteractionSession
consented_session = record session {
  scopes = bytes "openid" ∷ [];
  user_id = some (bytes "u");
  consent_required = false;
  parameters = (bytes "resource", bytes "r") ∷ (bytes "scope", bytes "openid") ∷ [];
}
