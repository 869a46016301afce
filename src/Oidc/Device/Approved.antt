-- ===== src/Oidc/Device/Approved.antt =====
-- What an approved device code tells (`acceptDeviceCode` in backend/internal/oidc/device_service.go).
use pocket_id.Prelude.{
  false, not, if◌then◌else◌, Option, none, some, List, ◌≡◌, refl, ◌∙◌, ap, arith,
}
use pocket_id.Result.{Result, ok}
use pocket_id.Exec.{◌>>=◌}
use pocket_id.Exec.Runs.{steps, bind-Steps, unless_raised}
use pocket_id.CallbackUrl.Bytes.{Bytes}
use pocket_id.Oidc.Scopes.{access_denied}
use pocket_id.Oidc.Resource.{subject_user, is_empty, resolve_resource, consent_keys_for_grant}
use pocket_id.Oidc.Resource.Grants.{Granted, resolve_resource-Granted}
use pocket_id.Oidc.Consent.{User, is_user_group_allowed_to_authorize}
use pocket_id.Oidc.Interaction.{lift}
use pocket_id.Oidc.Steps.{resolve_grant}
use pocket_id.Oidc.Authorization.Access.{
  Allowed, is_user_group_allowed_to_authorize-Allowed, with_tx-Ran,
}
use pocket_id.Oidc.Device.{
  UserCodeState, unused, accepted, rejected, DeviceRequest, DeviceServices, Approval,
  invalid_device_code, is_unused, grant_scopes, grant_resource_indicator, found_user,
  load_device_authorization_user, accept_for, accept_device_code,
}
use pocket_id.Oidc.Device.Storing.{
  Reduced, Known, Grants, Stored, narrow_device_request_scopes-Reduced,
  device_request_from_user_code-Known, grant_scopes-Grants, approve-Stored,
}

module _ {C P W : Type 0} (device : DeviceServices C P W) where
  -- What stands behind an approval: a code that the store knows, that is valid and unused; a user who
  -- exists and is allowed, as read right after; the scopes as the user left them, granted as
  -- `resolveResource` grants them; and the transaction that stores the granted request, for this user.
  pub data Approved (input : Approval) (stored : DeviceRequest) (w w' : W) : Type 0 where
    approved :
        (r n : DeviceRequest) (signature resource audience : Bytes) (scopes all : List Bytes)
        (user : User) (w₁ w₂ w₃ w₄ w₅ : W)
        → Known device input.user_code w r signature w₁
        → r.user_code_state ≡ unused
        → device.services.find_user input.user_id (device.services.begin_transaction w₁).1
          ≡ (ok (some user), w₂)
        → Allowed user r.client
        → Reduced r n input.approved_scopes
        → n.get_resource ≡ ok resource
        → resolve_resource device.services.provider n.client.id resource n.requested_scopes
            subject_user
            (device.services.rollback w₂)
          ≡ (ok (audience, scopes), w₃)
        → Granted device.services.provider n.client.id resource n.requested_scopes subject_user
            audience scopes
        → device.services.begin_transaction w₃ ≡ (ok tt, w₄)
        → Grants device n.granted_scopes scopes all
        → Stored device input signature
            (record n {
              granted_scopes = all;
              granted_audience =
                  if is_empty audience
                  then n.granted_audience
                  else device.grant_audience n.granted_audience audience;
            })
            (consent_keys_for_grant audience resource scopes)
            stored
            w₄
            w₅
        → device.services.commit_transaction w₅ ≡ (ok tt, w')
        → Approved input stored w w'

  load_device_authorization_user-found :
      (user_id : Bytes) (user : User) (w w' : W)
      → load_device_authorization_user device user_id w ≡ (ok user, w')
      → (v : W) × (device.services.find_user user_id (device.services.begin_transaction w).1
          ≡ (ok (some user), v))
        × (device.services.rollback v ≡ w')
  unfolding load_device_authorization_user
  load_device_authorization_user-found user_id user w w' h =
      go (device.services.begin_transaction w).1
        ((device.services.find_user user_id >>= found_user device)
          (device.services.begin_transaction w).1)
        refl (cc) (cc)
    where
      go :
          (v : W) (x : Result User × W)
          → (device.services.find_user user_id >>= found_user device) v ≡ x
          → x.0 ≡ ok user
          → device.services.rollback x.1 ≡ w'
          → (u : W) × (device.services.find_user user_id v ≡ (ok (some user), u))
            × (device.services.rollback u ≡ w')
      go v (r, x) run same back = elim (bind-Steps _ _ v user x (rw same at run)) [
        | steps found u read last ↦ named found u read last
      ]
        where
          named :
              (found : Option User) (u : W)
              → device.services.find_user user_id v ≡ (ok found, u)
              → found_user device found u ≡ (ok user, x)
              → (u : W) × (device.services.find_user user_id v ≡ (ok (some user), u))
                × (device.services.rollback u ≡ w')
          named none u read last = cc
          named (some other) u read last =
              let is : other ≡ user = cc in
              let same_state : u ≡ x = cc in
              (u, read ∙ ap (λ y. (ok (some y), u)) is, rw same_state back)

  accept_for-Approved :
      (input : Approval) (r : DeviceRequest) (signature : Bytes) (user : User)
      (stored : DeviceRequest) (w w₁ w₂ v v' : W)
      → Known device input.user_code w r signature w₁
      → r.user_code_state ≡ unused
      → device.services.find_user input.user_id (device.services.begin_transaction w₁).1
        ≡ (ok (some user), w₂)
      → device.services.rollback w₂ ≡ v
      → accept_for device input r signature user v ≡ (ok stored, v')
      → Approved input stored w v'
  unfolding accept_for resolve_grant grant_resource_indicator
  accept_for-Approved input r signature user stored w w₁ w₂ v v' known fresh found back h =
      let (may, h₀) =
        unless_raised (not (is_user_group_allowed_to_authorize user r.client)) access_denied _ v v'
          stored h in
      let allowed = is_user_group_allowed_to_authorize-Allowed user r.client (ground arith) in
      elim (bind-Steps _ _ v stored v' h₀) [
        | steps n v₁ narrow h₁ ↦ elim (bind-Steps _ _ v₁ stored v' h₁) [
          | steps resource v₂ got h₂ ↦ elim (bind-Steps _ _ v₂ stored v' h₂) [
            | steps (audience, scopes, keys) v₃ resolved h₃ ↦
                elim (bind-Steps _ _ v₂ (audience, scopes, keys) v₃ resolved) [
                  | steps (a, ss) z resolving rest ↦
                      let (b, b', begun, ran, committed) =
                        with_tx-Ran device.services _ stored v₃ v' h₃ in
                      let same_start : v₂ ≡ device.services.rollback w₂ = cc in
                      let same_z : z ≡ v₃ = cc in
                      let same_a : a ≡ audience = ground arith in
                      let same_s : ss ≡ scopes = ground arith in
                      let same_k : consent_keys_for_grant a resource ss ≡ keys = ground arith in
                      let keys' : consent_keys_for_grant audience resource scopes ≡ keys =
                        rw (same_a, same_s) at same_k in
                      let resolving' = rw (same_a, same_s) at resolving in
                      approved r n signature resource audience scopes
                        (grant_scopes device n.granted_scopes scopes) user w₁ w₂ v₃ b b' known fresh
                        found allowed
                        (narrow_device_request_scopes-Reduced r n input.approved_scopes
                          (lifted _ n v v₁ narrow))
                        (lifted _ resource v₁ v₂ got) (rw (same_start, same_z) at resolving')
                        (resolve_resource-Granted device.services.provider n.client.id resource
                          n.requested_scopes subject_user v₂ z audience scopes resolving')
                        begun (grant_scopes-Grants device n.granted_scopes scopes)
                        (rw keys' (
                          approve-Stored device input signature
                            (grant_resource_indicator device n audience scopes) keys stored b b'
                            ran))
                        committed
                ]
          ]
        ]
      ]
    where
      lifted : {B : Type 0} (r : Result B) (b : B) (w w' : W) → lift r w ≡ (ok b, w') → r ≡ ok b
      lifted r b w w' k = cc

  unused_code : (s : UserCodeState) → not (is_unused s) ≡ false → s ≡ unused
  unused_code unused h = refl
  unused_code accepted h = cc
  unused_code rejected h = cc

  -- A device code that `acceptDeviceCode` approves was known, valid and unused; the user exists and is
  -- allowed; and the request is stored with the session of this user, at the sign-in that the client
  -- demands, with the scopes that the user left and that `resolveResource` grants, after the
  -- consent to them is recorded.
  pub accept_device_code-Approved :
      (input : Approval) (stored : DeviceRequest) (w w' : W)
      → accept_device_code device input w ≡ (ok stored, w')
      → Approved input stored w w'
  unfolding accept_device_code
  accept_device_code-Approved input stored w w' h = elim (bind-Steps _ _ w stored w' h) [
    | steps (r, signature) v₁ read h₁ ↦
        let (state, h₂) =
          unless_raised (not (is_unused r.user_code_state)) invalid_device_code _ v₁ w' stored h₁ in
        elim (bind-Steps _ _ v₁ stored w' h₂) [
          | steps user v₂ loaded last ↦
              let (x, found, back) =
                load_device_authorization_user-found input.user_id user v₁ v₂ loaded in
              accept_for-Approved input r signature user stored w v₁ x v₂ w'
                (device_request_from_user_code-Known device input.user_code r signature w v₁ read)
                (unused_code r.user_code_state state) found back last
        ]
  ]
