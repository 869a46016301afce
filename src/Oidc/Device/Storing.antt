-- ===== src/Oidc/Device/Storing.antt =====
-- The steps of an approval: the request of a code, what the user left of its scopes, and the transaction
-- that stores it (backend/internal/oidc/device_service.go).
use pocket_id.Prelude.{
  ℕ, Bool, true, false, ◌&&◌, ◌∷◌, eqb, if◌then◌else◌, Option, none, some, List, [], ◌≡◌, ◌≢◌, inl,
  inr, refl, subst, arith, Bool-cases,
}
use pocket_id.AppError.{plain, reauthentication_required}
use pocket_id.Result.{Result, ok, err}
use pocket_id.Exec.{pure, raise}
use pocket_id.Exec.Runs.{steps, bind-Steps, unless_raised}
use pocket_id.CallbackUrl.Bytes.{Bytes, bytes, eq_bytes, eq_bytes_iff}
use pocket_id.Oidc.Scopes.{has_text}
use pocket_id.Oidc.Resource.{is_empty, not_empty}
use pocket_id.Oidc.Consent.{Client, consent_rounds, narrow_approved_scopes}
use pocket_id.Oidc.Consent.Narrowing.{Narrowed, narrow_approved_scopes-Narrowed}
use pocket_id.Oidc.Interaction.{current_time}
use pocket_id.Oidc.Steps.{record_consent}
use pocket_id.Oidc.Device.{
  DeviceRequest, DeviceServices, Approval, DeviceSession, CodeCheck, valid, expired,
  normalize_user_code, checked_code, found_code, copy_device_code_expiry, delete_others,
  narrowed_request, narrow_device_request_scopes, grant_scopes, device_request_from_user_code,
  reauthenticated_time, approve,
}

has_text-delete_others :
    (kept gs : List Bytes) (t : Bytes)
    → has_text (delete_others kept gs) t ≡ (has_text gs t && has_text kept t)
unfolding delete_others
has_text-delete_others kept [] t = refl
has_text-delete_others kept (g ∷ gs) t = elim (Bool-cases (eq_bytes g t)) [
  | inl same ↦
      let same' : g ≡ t = (eq_bytes_iff g t).0 same in
      ground (arith, has_text-delete_others kept gs t)
  | inr other ↦ ground (arith, has_text-delete_others kept gs t)
]

-- the request without what the user left out: of the scopes granted already those that are kept
pub data Reduced (r : DeviceRequest) : DeviceRequest → Option (List Bytes) → Type 0 where
  whole : Reduced r r none
  selected :
      (approved requested granted : List Bytes)
      → Narrowed r.requested_scopes approved requested
      → ((t : Bytes) → has_text granted t ≡ (has_text r.granted_scopes t && has_text requested t))
      → Reduced r
          (record r { requested_scopes = requested; granted_scopes = granted })
          (some approved)

pub narrow_device_request_scopes-Reduced :
    (r n : DeviceRequest) (approved : Option (List Bytes))
    → narrow_device_request_scopes r approved ≡ ok n
    → Reduced r n approved
unfolding narrow_device_request_scopes
narrow_device_request_scopes-Reduced r n none h =
    let same : r ≡ n = cc in subst (λ x. Reduced r x none) same whole
narrow_device_request_scopes-Reduced r n (some approved) h =
    go (narrow_approved_scopes r.requested_scopes (some approved)) refl h
  where
    go :
        (a : Result (List Bytes))
        → narrow_approved_scopes r.requested_scopes (some approved) ≡ a
        → narrowed_request r a ≡ ok n
        → Reduced r n (some approved)
    go (err e) s k = cc
    go (ok narrowed) s k =
        let same : record r {
          requested_scopes = narrowed;
          granted_scopes = delete_others narrowed r.granted_scopes;
        }
            ≡ n =
          cc in
        subst (λ x. Reduced r x (some approved)) same
          (selected approved narrowed (delete_others narrowed r.granted_scopes)
            (narrow_approved_scopes-Narrowed r.requested_scopes approved narrowed s)
            (has_text-delete_others narrowed r.granted_scopes))

module _ {C P W : Type 0} (device : DeviceServices C P W) where
  -- the request that the store has under the code's signature, for a code that is valid and not expired
  pub data Known (user_code : Bytes) (w : W) : DeviceRequest → Bytes → W → Type 0 where
    known_code :
        (signature : Bytes) (r : DeviceRequest) (w₁ w₂ w₃ : W)
        → device.user_code_signature (normalize_user_code user_code) w ≡ (ok signature, w₁)
        → device.find_device_request signature w₁ ≡ (ok (some r), w₂)
        → device.validate_user_code r (normalize_user_code user_code) w₂ ≡ (ok valid, w₃)
        → Known user_code w r signature w₃

  pub device_request_from_user_code-Known :
      (user_code : Bytes) (r : DeviceRequest) (signature : Bytes) (w w' : W)
      → device_request_from_user_code device user_code w ≡ (ok (r, signature), w')
      → Known user_code w r signature w'
  unfolding device_request_from_user_code
  device_request_from_user_code-Known user_code r signature w w' h =
      elim (bind-Steps _ _ w (r, signature) w' h) [
        | steps signed w₁ signing h₁ ↦ elim (bind-Steps _ _ w₁ (r, signature) w' h₁) [
          | steps found w₂ read h₂ ↦ go signed found w₁ w₂ signing read h₂
        ]
      ]
    where
      checked :
          (signed : Bytes) (o : DeviceRequest) (check : CodeCheck) (w₁ w₂ w₃ : W)
          → device.user_code_signature (normalize_user_code user_code) w ≡ (ok signed, w₁)
          → device.find_device_request signed w₁ ≡ (ok (some o), w₂)
          → device.validate_user_code o (normalize_user_code user_code) w₂ ≡ (ok check, w₃)
          → checked_code device o signed check w₃ ≡ (ok (r, signature), w')
          → Known user_code w r signature w'
      checked signed o expired w₁ w₂ w₃ signing read check last = cc
      checked signed o valid w₁ w₂ w₃ signing read check last =
          let same : o ≡ r = cc in
          let same_signature : signed ≡ signature = cc in
          let same_state : w₃ ≡ w' = cc in
          rw (← same, ← same_signature, ← same_state)
            (known_code signed o w₁ w₂ w₃ signing read check)

      go :
          (signed : Bytes) (found : Option DeviceRequest) (w₁ w₂ : W)
          → device.user_code_signature (normalize_user_code user_code) w ≡ (ok signed, w₁)
          → device.find_device_request signed w₁ ≡ (ok found, w₂)
          → found_code device (normalize_user_code user_code) signed found w₂
            ≡ (ok (r, signature), w')
          → Known user_code w r signature w'
      go signed none w₁ w₂ signing read last = cc
      go signed (some o) w₁ w₂ signing read last = elim (bind-Steps _ _ w₂ (r, signature) w' last) [
        | steps check w₃ checking last' ↦
            checked signed o check w₁ w₂ w₃ signing read checking last'
      ]

  -- the time of the sign-in: the session's, where the client does not demand another, or that of the
  -- reauthentication token that was consumed
  pub data SignedInAgain (input : Approval) (client : Client) (w : W) : ℕ → W → Type 0 where
    not_demanded :
        client.requires_reauthentication ≡ false
        → SignedInAgain input client w input.authentication_time w
    proven :
        (at : ℕ) (w' : W)
        → input.reauthentication_token ≢ []
        → device.services.consume_reauthentication_token input.reauthentication_token input.user_id
            w
          ≡ (ok at, w')
        → SignedInAgain input client w at w'

  reauthenticated_time-SignedInAgain :
      (input : Approval) (client : Client) (at : ℕ) (w w' : W)
      → reauthenticated_time device input client w ≡ (ok at, w')
      → SignedInAgain input client w at w'
  unfolding reauthenticated_time
  reauthenticated_time-SignedInAgain input client at w w' h =
      elim (Bool-cases client.requires_reauthentication) [
        | inr off ↦
            let h' = rw off at h in
            let same : input.authentication_time ≡ at = cc in
            let same_state : w ≡ w' = cc in rw (← same, ← same_state) (not_demanded off)
        | inl on ↦
            let (full, h') =
              unless_raised (is_empty input.reauthentication_token) reauthentication_required _ w w'
                at (rw on at h) in
            proven at w' (not_empty input.reauthentication_token full) h'
      ]

  -- GrantScope of each scope in turn
  pub data Grants : List Bytes → List Bytes → List Bytes → Type 0 where
    no_more : {gs : List Bytes} → Grants gs [] gs
    one_more :
        {gs ss all : List Bytes} (s : Bytes)
        → Grants (device.grant_scope gs s) ss all
        → Grants gs (s ∷ ss) all

  pub grant_scopes-Grants : (gs ss : List Bytes) → Grants gs ss (grant_scopes device gs ss)
  grant_scopes-Grants gs [] = no_more
  grant_scopes-Grants gs (s ∷ ss) = one_more s (grant_scopes-Grants (device.grant_scope gs s) ss)

  -- the request is stored for OpenID Connect too, where `openid` is granted
  pub data OpenidStored (granted : List Bytes) (code : Bytes) (stored : DeviceRequest) (w : W)
      : W → Type 0 where
    no_openid :
        device.services.provider.arguments_has granted (bytes "openid") ≡ false
        → OpenidStored granted code stored w w
    with_openid :
        (w' : W)
        → device.services.provider.arguments_has granted (bytes "openid") ≡ true
        → device.create_openid_connect_session code stored w ≡ (ok tt, w')
        → OpenidStored granted code stored w w'

  -- The calls of the transaction, for the request as it is granted: the session of the user and of the time
  -- of the sign-in, with the ends of the codes; the consent; and the request with that session
  -- stored as accepted, and for OpenID Connect where `openid` is granted.
  pub data Stored (input : Approval) (signature : Bytes) (r : DeviceRequest) (keys : List Bytes)
      (stored : DeviceRequest) (w : W) : W → Type 0 where
    stored_as :
        (at now : ℕ) (session : DeviceSession) (known : Bool) (code : Bytes) (w₁ w₂ w₃ w₄ w₅ w₆ : W)
        → SignedInAgain input r.client w at w₁
        → device.services.now w₁ ≡ (now, w₂)
        → device.apply_id_token_claims
            (record {
              session = record {
                subject = input.user_id;
                authentication_method = input.authentication_method;
                authentication_time = if eqb at 0 then now else at;
                requested_at = if eqb r.requested_at 0 then now else r.requested_at;
              };
              device_code_expires_at = r.session.device_code_expires_at;
              user_code_expires_at = r.session.user_code_expires_at;
            })
            r.granted_scopes
            r.client
            w₂
          ≡ (ok session, w₃)
        → consent_rounds device.services.consents 2
            (raise (plain "consent"))
            input.user_id
            r.client.id
            keys
            w₃
          ≡ (ok known, w₄)
        → device.accept_device_code_session signature stored
            (device.create_device_audit_log known input.meta input.user_id r.client.name w₄)
          ≡ (ok code, w₅)
        → OpenidStored r.granted_scopes code stored w₅ w₆
        → stored ≡ record r { session = session }
        → Stored input signature r keys stored w w₆

  read_clock :
      (v : W) (t : ℕ) (v₁ : W)
      → current_time device.services v ≡ (ok t, v₁)
      → device.services.now v ≡ (t, v₁)
  read_clock v t v₁ h =
      let (x, u) = device.services.now v in
      let same : x ≡ t = ground arith in
      let same_state : u ≡ v₁ = ground arith in rw (same, same_state)

  OpenidStored-of :
      (granted : List Bytes) (code : Bytes) (stored : DeviceRequest) (v u : W)
      → (if device.services.provider.arguments_has granted (bytes "openid")
            then device.create_openid_connect_session code stored
            else pure tt)
          v
        ≡ (ok tt, u)
      → OpenidStored granted code stored v u
  OpenidStored-of granted code stored v u h =
      elim (Bool-cases (device.services.provider.arguments_has granted (bytes "openid"))) [
        | inl on ↦ with_openid u on (rw on at h)
        | inr off ↦
            let h' = rw off at h in
            let same : v ≡ u = cc in subst (OpenidStored granted code stored v) same (no_openid off)
      ]

  pub approve-Stored :
      (input : Approval) (signature : Bytes) (r : DeviceRequest) (keys : List Bytes)
      (stored : DeviceRequest) (w w' : W)
      → approve device input signature r keys w ≡ (ok stored, w')
      → Stored input signature r keys stored w w'
  unfolding approve copy_device_code_expiry record_consent
  approve-Stored input signature r keys stored w w' h = elim (bind-Steps _ _ w stored w' h) [
    | steps at v₁ again h₁ ↦ elim (bind-Steps _ _ v₁ stored w' h₁) [
      | steps now v₂ clock h₂ ↦ elim (bind-Steps _ _ v₂ stored w' h₂) [
        | steps session v₃ claims h₃ ↦ elim (bind-Steps _ _ v₃ stored w' h₃) [
          | steps known v₄ consented h₄ ↦ elim (bind-Steps _ _ v₄ stored w' h₄) [
            | steps logged v₅ log h₅ ↦ elim (bind-Steps _ _ v₅ stored w' h₅) [
              | steps code v₆ accept h₆ ↦ elim (bind-Steps _ _ v₆ stored w' h₆) [
                | steps made v₇ create last ↦
                    let same : record r { session = session } ≡ stored = cc in
                    let same_end : v₇ ≡ w' = cc in
                    let same_log : device.create_device_audit_log known input.meta input.user_id
                          r.client.name v₄
                        ≡ v₅ =
                      cc in
                    subst (λ x. Stored input signature r keys x w w') same
                      (stored_as at now session known code v₁ v₂ v₃ v₄ v₆ w'
                        (reauthenticated_time-SignedInAgain input r.client at w v₁ again)
                        (read_clock v₁ now v₂ clock) claims consented (rw same_log accept)
                        (subst (OpenidStored r.granted_scopes code _ v₆) same_end
                          (OpenidStored-of r.granted_scopes code _ v₆ v₇ create))
                        refl)
              ]
            ]
          ]
        ]
      ]
    ]
  ]
