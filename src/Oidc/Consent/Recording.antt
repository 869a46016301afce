-- ===== src/Oidc/Consent/Recording.antt =====
-- What `consent` leaves in the table of consents (backend/internal/oidc/authorization_service.go).
use pocket_id.Prelude.{
  ℕ, suc, Bool, true, false, Option, none, some, List, [], ◌≡◌, ◌≢◌, refl, sym, ◌∙◌, subst,
  Bool-cases, inl, inr, if◌then◌else◌,
}
use pocket_id.Result.{Result, ok, err}
use pocket_id.Exec.{Exec, pure, ◌>>=◌, continue}
use pocket_id.Exec.Runs.{steps, bind-Steps}
use pocket_id.CallbackUrl.Bytes.{Bytes}
use pocket_id.Oidc.Consent.{
  Consents, consent_scopes_include, merge_consent_scopes, consent_again, consent_first, consent_on,
  consent_rounds, has_authorized_client,
}
use pocket_id.Oidc.Consent.Merging.{
  Includes, include_sound, include_complete, merge-Includes_old, merge-Includes_new,
}

-- What the calls of the database do to the record of a client and a user, where they succeed. A key
-- is only reported as duplicated if the record exists, and a record that exists is found.
pub record TableLaws {W : Type 0} (consents : Consents W) : Type 0 where
  pub recorded : W → Bytes → Bytes → Option (List Bytes)
  pub find_lem :
      (c u : Bytes) (w w' : W) (o : Option (List Bytes))
      → consents.find c u w ≡ (ok o, w')
      → (o ≡ recorded w c u) × (recorded w' c u ≡ recorded w c u)
  pub touch_lem :
      (c u : Bytes) (w w' : W)
      → consents.touch c u w ≡ (ok tt, w')
      → recorded w' c u ≡ recorded w c u
  pub replace_lem :
      (c u : Bytes) (ss old : List Bytes) (w w' : W)
      → recorded w c u ≡ some old
      → consents.replace c u ss w ≡ (ok tt, w')
      → recorded w' c u ≡ some ss
  pub create_lem :
      (c u : Bytes) (ss : List Bytes) (w w' : W)
      → consents.create c u ss w ≡ (ok true, w')
      → recorded w' c u ≡ some ss
  pub duplicate_lem :
      (c u : Bytes) (ss : List Bytes) (w w' : W)
      → consents.create c u ss w ≡ (ok false, w')
      → recorded w' c u ≢ none

module _ {W : Type 0} (consents : Consents W) (laws : TableLaws consents) where
  -- the record after a consent: it has every scope of the request
  pub data Recorded (client_id user_id : Bytes) (scope : List Bytes) (v : W) (had : Bool) (w : W)
      : Type 0 where
    -- the record had the scopes, and is as it was
    covered :
        (existing : List Bytes)
        → had ≡ true
        → laws.recorded v client_id user_id ≡ some existing
        → laws.recorded w client_id user_id ≡ some existing
        → Includes existing scope
        → Recorded client_id user_id scope v had w
    -- the record lacked one, and has them besides what it had
    extended :
        (existing scopes : List Bytes)
        → had ≡ false
        → laws.recorded v client_id user_id ≡ some existing
        → consent_scopes_include existing scope ≡ false
        → laws.recorded w client_id user_id ≡ some scopes
        → Includes scopes existing
        → Includes scopes scope
        → Recorded client_id user_id scope v had w
    -- there was none
    first :
        (scopes : List Bytes)
        → had ≡ false
        → laws.recorded v client_id user_id ≡ none
        → laws.recorded w client_id user_id ≡ some scopes
        → Includes scopes scope
        → Recorded client_id user_id scope v had w

  consent_again-Recorded :
      (user_id client_id : Bytes) (scope existing : List Bytes) (b v w : W) (had : Bool)
      → laws.recorded b client_id user_id ≡ some existing
      → laws.recorded v client_id user_id ≡ laws.recorded b client_id user_id
      → consent_again consents user_id client_id scope existing v ≡ (ok had, w)
      → Recorded client_id user_id scope b had w
  unfolding consent_again
  consent_again-Recorded user_id client_id scope existing b v w had was kept e =
      elim (Bool-cases (consent_scopes_include existing scope)) [
        | inl on ↦ elim (bind-Steps _ _ v had w (rw on at e)) [
          | steps a u touched last ↦
              let same : u ≡ w = cc in
              covered existing (cc) was
                (subst (λ x. laws.recorded x client_id user_id ≡ some existing) same
                  (laws.touch_lem client_id user_id v u touched ∙ kept ∙ was))
                (include_sound existing scope on)
        ]
        | inr off ↦ elim (bind-Steps _ _ v had w (rw off at e)) [
          | steps a u replaced last ↦
              let same : u ≡ w = cc in
              extended existing (merge_consent_scopes existing scope) (cc) was off
                (subst
                  (λ x.
                    laws.recorded x client_id user_id ≡ some (merge_consent_scopes existing scope))
                  same
                  (laws.replace_lem client_id user_id (merge_consent_scopes existing scope) existing
                    v u (kept ∙ was) replaced))
                (merge-Includes_old existing scope) (merge-Includes_new existing scope)
        ]
      ]

  -- a round that finds a record
  found_round-Recorded :
      (n : ℕ) (out : Exec W Bool) (user_id client_id : Bytes) (scope : List Bytes) (v w : W)
      (had : Bool)
      → laws.recorded v client_id user_id ≢ none
      → consent_rounds consents (suc n) out user_id client_id scope v ≡ (ok had, w)
      → Recorded client_id user_id scope v had w
  unfolding consent_rounds
  found_round-Recorded n out user_id client_id scope v w had some_record e =
      elim (bind-Steps _ _ v had w e) [
        | steps found u read last ↦ go found u (laws.find_lem client_id user_id v u found read) last
      ]
    where
      go :
          (found : Option (List Bytes)) (u : W)
          → (found ≡ laws.recorded v client_id user_id)
            × (laws.recorded u client_id user_id ≡ laws.recorded v client_id user_id)
          → consent_on consents
              (consent_rounds consents n out user_id client_id scope)
              user_id
              client_id
              scope
              found
              u
            ≡ (ok had, w)
          → Recorded client_id user_id scope v had w
      go none u (same, kept) last = absurd (some_record (sym same))
      go (some existing) u (same, kept) last =
          consent_again-Recorded user_id client_id scope existing v u w had (sym same) kept last

  -- how a consent came about: at once, or after another caller recorded one in between
  pub data Consented (client_id user_id : Bytes) (scope : List Bytes) (v : W) (had : Bool) (w : W)
      : Type 0 where
    at_once : Recorded client_id user_id scope v had w → Consented client_id user_id scope v had w
    overtaken :
        (u : W)
        → laws.recorded v client_id user_id ≡ none
        → laws.recorded u client_id user_id ≢ none
        → Recorded client_id user_id scope u had w
        → Consented client_id user_id scope v had w

  consent_first-Consented :
      (n : ℕ) (out : Exec W Bool) (user_id client_id : Bytes) (scope : List Bytes) (b v w : W)
      (had : Bool)
      → laws.recorded b client_id user_id ≡ none
      → consent_first consents
          (consent_rounds consents (suc n) out user_id client_id scope)
          user_id
          client_id
          scope
          v
        ≡ (ok had, w)
      → Consented client_id user_id scope b had w
  unfolding consent_first
  consent_first-Consented n out user_id client_id scope b v w had was e =
      elim (bind-Steps _ _ v had w e) [ steps created u made last ↦ go created u made last ]
    where
      go :
          (created : Bool) (u : W)
          → consents.create client_id user_id (merge_consent_scopes [] scope) v ≡ (ok created, u)
          → (if created
                then pure false
                else consent_rounds consents (suc n) out user_id client_id scope)
              u
            ≡ (ok had, w)
          → Consented client_id user_id scope b had w
      go true u made last =
          let same : u ≡ w = cc in
          at_once (
            first (merge_consent_scopes [] scope) (cc) was
              (subst (λ x. laws.recorded x client_id user_id ≡ some (merge_consent_scopes [] scope))
                same (laws.create_lem client_id user_id (merge_consent_scopes [] scope) v u made))
              (merge-Includes_new [] scope))
      go false u made last =
          let exists =
            laws.duplicate_lem client_id user_id (merge_consent_scopes [] scope) v u made in
          overtaken u was exists
            (found_round-Recorded n out user_id client_id scope u w had exists last)

  -- After `consent` succeeds the record has all scopes of the request, and those that it had before.
  -- What is returned says that they were all there before; then the record is unchanged. A record
  -- that another caller creates in between is extended in the same way.
  pub consent-Consented :
      (n : ℕ) (out : Exec W Bool) (user_id client_id : Bytes) (scope : List Bytes) (v w : W)
      (had : Bool)
      → consent_rounds consents (suc (suc n)) out user_id client_id scope v ≡ (ok had, w)
      → Consented client_id user_id scope v had w
  unfolding consent_rounds
  consent-Consented n out user_id client_id scope v w had e = elim (bind-Steps _ _ v had w e) [
    | steps found u read last ↦ go found u (laws.find_lem client_id user_id v u found read) last
  ]
    where
      go :
          (found : Option (List Bytes)) (u : W)
          → (found ≡ laws.recorded v client_id user_id)
            × (laws.recorded u client_id user_id ≡ laws.recorded v client_id user_id)
          → consent_on consents
              (consent_rounds consents (suc n) out user_id client_id scope)
              user_id
              client_id
              scope
              found
              u
            ≡ (ok had, w)
          → Consented client_id user_id scope v had w
      go none u (same, kept) last =
          consent_first-Consented n out user_id client_id scope v u w had (sym same) last
      go (some existing) u (same, kept) last =
          at_once
            (consent_again-Recorded user_id client_id scope existing v u w had (sym same) kept last)

  found_round_same :
      (m n : ℕ) (out out' : Exec W Bool) (user_id client_id : Bytes) (scope : List Bytes) (v : W)
      → laws.recorded v client_id user_id ≢ none
      → consent_rounds consents (suc m) out user_id client_id scope v
        ≡ consent_rounds consents (suc n) out' user_id client_id scope v
  unfolding consent_rounds ◌>>=◌
  found_round_same m n out out' user_id client_id scope v some_record =
      go (consents.find client_id user_id v) refl
    where
      go :
          (r : Result (Option (List Bytes)) × W)
          → consents.find client_id user_id v ≡ r
          → continue r (
              consent_on consents
                (consent_rounds consents m out user_id client_id scope)
                user_id
                client_id
                scope)
            ≡ continue r (
                consent_on consents
                  (consent_rounds consents n out' user_id client_id scope)
                  user_id
                  client_id
                  scope)
      go (err x, u) read = refl
      go (ok none, u) read =
          absurd (some_record (sym (laws.find_lem client_id user_id v u none read).0))
      go (ok (some existing), u) read = refl

  -- Two rounds of `consent` are enough: whatever stands past the bound, more rounds change nothing.
  pub consent-rounds_enough :
      (n : ℕ) (out out' : Exec W Bool) (user_id client_id : Bytes) (scope : List Bytes) (v : W)
      → consent_rounds consents (suc (suc n)) out user_id client_id scope v
        ≡ consent_rounds consents 2 out' user_id client_id scope v
  unfolding consent_rounds consent_first ◌>>=◌
  consent-rounds_enough n out out' user_id client_id scope v =
      go (consents.find client_id user_id v) refl
    where
      again :
          (u : W) (r : Result Bool × W)
          → consents.create client_id user_id (merge_consent_scopes [] scope) u ≡ r
          → continue r (λ created.
            if created
            then pure false
            else consent_rounds consents (suc n) out user_id client_id scope)
            ≡ continue r (λ created.
              if created
              then pure false
              else consent_rounds consents 1 out' user_id client_id scope)
      again u (err x, x') made = refl
      again u (ok true, x') made = refl
      again u (ok false, x') made =
          found_round_same n 0 out out' user_id client_id scope x'
            (laws.duplicate_lem client_id user_id (merge_consent_scopes [] scope) u x' made)

      go :
          (r : Result (Option (List Bytes)) × W)
          → consents.find client_id user_id v ≡ r
          → continue r (
              consent_on consents
                (consent_rounds consents (suc n) out user_id client_id scope)
                user_id
                client_id
                scope)
            ≡ continue r (
                consent_on consents
                  (consent_rounds consents 1 out' user_id client_id scope)
                  user_id
                  client_id
                  scope)
      go (err x, u) read = refl
      go (ok none, u) read =
          again u (consents.create client_id user_id (merge_consent_scopes [] scope) u) refl
      go (ok (some existing), u) read = refl

  Recorded-has :
      (client_id user_id : Bytes) (scope : List Bytes) (v : W) (had : Bool) (w : W)
      → Recorded client_id user_id scope v had w
      → (scopes : List Bytes) × (laws.recorded w client_id user_id ≡ some scopes)
        × Includes scopes scope
  Recorded-has c u scope v had w (covered existing h was is has) = (existing, is, has)
  Recorded-has c u scope v had w (extended existing scopes h was lacks is old new) =
      (scopes, is, new)
  Recorded-has c u scope v had w (first scopes h was is has) = (scopes, is, has)

  Consented-has :
      (client_id user_id : Bytes) (scope : List Bytes) (v : W) (had : Bool) (w : W)
      → Consented client_id user_id scope v had w
      → (scopes : List Bytes) × (laws.recorded w client_id user_id ≡ some scopes)
        × Includes scopes scope
  Consented-has c u scope v had w (at_once r) = Recorded-has c u scope v had w r
  Consented-has c u scope v had w (overtaken x was exists r) = Recorded-has c u scope x had w r

  -- After `consent` succeeds, `hasAuthorizedClient` answers yes for any of the scopes, if it answers.
  pub consent-has_authorized_client :
      (user_id client_id : Bytes) (scope some_of : List Bytes) (v w w' : W) (had answer : Bool)
      (out : Exec W Bool)
      → consent_rounds consents 2 out user_id client_id scope v ≡ (ok had, w)
      → Includes scope some_of
      → has_authorized_client consents client_id user_id some_of w ≡ (ok answer, w')
      → answer ≡ true
  unfolding has_authorized_client
  consent-has_authorized_client user_id client_id scope some_of v w w' had answer out e part asked =
      let (scopes, is, has) =
        Consented-has client_id user_id scope v had w
          (consent-Consented 0 out user_id client_id scope v w had e) in
      elim (bind-Steps _ _ w answer w' asked) [
        | steps found u read last ↦
            let same : found ≡ some scopes =
              (laws.find_lem client_id user_id w u found read).0 ∙ is in
            let last' = rw same at last in
            let included = include_complete scopes some_of (λ t h. has t (part t h)) in
            let last'' = rw included at last' in cc
      ]
