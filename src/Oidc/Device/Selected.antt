-- ===== src/Oidc/Device/Selected.antt =====
-- A device is granted no scope that the user deselected (`acceptDeviceCode` and
-- `narrowDeviceRequestScopes` in backend/internal/oidc/device_service.go).
use pocket_id.Prelude.{true, ◌||◌, some, List, ◌≡◌, inl, inr, ap, subst, arith, Bool-cases}
use pocket_id.Result.{ok}
use pocket_id.CallbackUrl.Bytes.{Bytes, eq_bytes}
use pocket_id.Oidc.Scopes.{has_text, All-has_text}
use pocket_id.Oidc.Resource.{subject_user}
use pocket_id.Oidc.Resource.Grants.{Granted, identity, api}
use pocket_id.Oidc.Consent.{required_consent_scopes}
use pocket_id.Oidc.Consent.Narrowing.{narrowed}
use pocket_id.Oidc.Device.{DeviceRequest, DeviceServices, Approval, accept_device_code}
use pocket_id.Oidc.Device.Storing.{
  Known, Reduced, selected, Grants, no_more, one_more, Stored, stored_as,
}
use pocket_id.Oidc.Device.Approved.{approved, accept_device_code-Approved}

module _ {C P W : Type 0} (device : DeviceServices C P W) where
  -- what GrantScope adds is the scope itself
  abbrev pub GrantsOnly : Type 0
  GrantsOnly =
      (gs : List Bytes) (s t : Bytes)
      → has_text (device.grant_scope gs s) t ≡ true
      → (has_text gs t || eq_bytes s t) ≡ true

  Grants-only :
      {gs ss all : List Bytes} (only : GrantsOnly) (t : Bytes)
      → Grants device gs ss all
      → has_text all t ≡ true
      → (has_text gs t || has_text ss t) ≡ true
  Grants-only only t no_more h = ground arith
  Grants-only {gs} {ss} {all} only t (one_more {ss = rest} s later) h =
      let ih = Grants-only only t later h in
      elim (Bool-cases (has_text (device.grant_scope gs s) t)) [
        | inl on ↦ let there = only gs s t on in ground arith
        | inr off ↦ ground arith
      ]

  Granted-requested :
      {client_id resource audience : Bytes} {requested scopes : List Bytes}
      → Granted device.services.provider client_id resource requested subject_user audience scopes
      → (t : Bytes) → has_text scopes t ≡ true
      → has_text requested t ≡ true
  Granted-requested {requested} {scopes} (identity a b c d within) t h =
      All-has_text (λ u. has_text requested u ≡ true) scopes t within h
  Granted-requested {requested} {scopes} (api access v v' a b c d e f g i (inl within)) t h =
      All-has_text (λ u. has_text requested u ≡ true) scopes t within h
  Granted-requested (api access v v' a b c d e f g i (inr (itself, empty, within))) t h = cc

  -- Where the user selected scopes, every scope of the request that is stored was requested by the
  -- device, in the request that the store has under the code, and is selected or `openid`; GrantScope
  -- grants only what it is given.
  pub accept_device_code-selected :
      (only : GrantsOnly) (input : Approval) (selection : List Bytes) (stored : DeviceRequest)
      (w w' : W)
      → input.approved_scopes ≡ some selection
      → accept_device_code device input w ≡ (ok stored, w')
      → (r : DeviceRequest) × (signature : Bytes) × (v : W) × Known device input.user_code w r
          signature v
        × ((t : Bytes)
            → has_text stored.granted_scopes t ≡ true
            → (has_text r.requested_scopes t ≡ true)
              × (has_text stored.requested_scopes t ≡ true)
              × ((has_text selection t || has_text required_consent_scopes t) ≡ true))
  accept_device_code-selected only input selection stored w w' chosen h =
      elim (accept_device_code-Approved device input stored w w' h) [
        | approved r n signature resource audience scopes all user v v' u x y known b c d reduced e
              resolving grants begun each transaction committed ↦
            (
              r,
              signature,
              v,
              known,
              go r n scopes all (subst (Reduced r n) chosen reduced) (Granted-requested grants) each
                  (requested_of transaction) (granted_of transaction),
            )
      ]
    where
      requested_of :
          {signature : Bytes} {n : DeviceRequest} {keys : List Bytes} {x y : W}
          → Stored device input signature n keys stored x y
          → stored.requested_scopes ≡ n.requested_scopes
      requested_of (stored_as _ _ _ _ _ _ _ _ _ _ _ _ _ _ _ _ _ is) =
          ap (λ (y : DeviceRequest). y.requested_scopes) is

      granted_of :
          {signature : Bytes} {n : DeviceRequest} {keys : List Bytes} {x y : W}
          → Stored device input signature n keys stored x y
          → stored.granted_scopes ≡ n.granted_scopes
      granted_of (stored_as _ _ _ _ _ _ _ _ _ _ _ _ _ _ _ _ _ is) =
          ap (λ (y : DeviceRequest). y.granted_scopes) is

      go :
          (r n : DeviceRequest) (scopes all : List Bytes)
          → Reduced r n (some selection)
          → ((t : Bytes) → has_text scopes t ≡ true → has_text n.requested_scopes t ≡ true)
          → Grants device n.granted_scopes scopes all
          → stored.requested_scopes ≡ n.requested_scopes
          → stored.granted_scopes ≡ all
          → (t : Bytes) → has_text stored.granted_scopes t ≡ true
          → (has_text r.requested_scopes t ≡ true)
            × (has_text stored.requested_scopes t ≡ true)
            × ((has_text selection t || has_text required_consent_scopes t) ≡ true)
      go r n scopes all (selected s requested kept (narrowed within thin has) both) from each req gr
            t granted =
          let either = Grants-only only t each (rw gr at granted) in
          let in_request : has_text requested t ≡ true = elim (Bool-cases (has_text kept t)) [
            | inl old ↦ ground (arith, both t)
            | inr new ↦ from t (ground arith)
          ] in
          (ground (arith, has t), (rw req in_request), ground (arith, has t))
