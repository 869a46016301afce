-- ===== src/Oidc/Consent/MaxAge.antt =====
-- How long ago a sign-in may be: the parameter max_age of a request
-- (`requiresReauthenticationForMaxAge` in backend/internal/oidc/authorization_service.go).
use pocket_id.Prelude.{
  ℕ, ◌+◌, ◌*◌, ◌%◌, ◌≤◌, ◌<◌, true, false, some, [], ◌∷◌, ◌≡◌, ◌≢◌, refl, ap, arith, eqb, leb, ltb,
  all, if◌then◌else◌,
}
use pocket_id.Result.{ok}
use pocket_id.CallbackUrl.Bytes.{Bytes, is_digit, value_from}
use pocket_id.Oidc.Consent.{
  parse_uint, parse_max_age, is_over, requires_reauthentication_for_max_age,
}

parse_uint_digits :
    (c : ℕ) (cs : Bytes)
    → all is_digit (c ∷ cs) ≡ true
    → value_from 0 (c ∷ cs) < 18446744073709551616
    → parse_uint (c ∷ cs) ≡ some (value_from 0 (c ∷ cs))
unfolding parse_uint
parse_uint_digits c cs h small =
    let s : ltb (value_from 0 (c ∷ cs)) 18446744073709551616 ≡ true = ground arith in rw (h, s) refl

parse_max_age_digits :
    (c : ℕ) (cs : Bytes)
    → all is_digit (c ∷ cs) ≡ true
    → value_from 0 (c ∷ cs) ≤ 18446744073
    → parse_max_age (c ∷ cs) ≡ some (value_from 0 (c ∷ cs))
unfolding parse_max_age
parse_max_age_digits c cs h small =
    let minus : eqb c 45 ≡ false = ground arith in
    let plus : eqb c 43 ≡ false = ground arith in
    rw (minus, plus, parse_uint_digits c cs h (omega arith)) (ground arith)

is_over_short :
    (n at now : ℕ)
    → n ≤ 18446744073
    → at ≤ now
    → is_over (n * 1000000000 % 18446744073709551616) at now
      ≡ (if leb n 9223372036 then leb (at + n * 1000000000) now else true)
unfolding is_over
is_over_short n at now small past =
    let same : n * 1000000000 % 18446744073709551616 ≡ n * 1000000000 = omega arith in
    rw same (ground arith)

-- For a number of at most 18446744073 seconds and a sign-in that is not in the future, whether the
-- user has to sign in again: up to 9223372036 seconds, exactly when the sign-in and the number of
-- seconds lie in the past; above, where the product with a second overflows int64, always.
pub requires_reauthentication_for_max_age_bounded :
    (raw : Bytes) (at now : ℕ)
    → raw ≢ []
    → all is_digit raw ≡ true
    → value_from 0 raw ≤ 18446744073
    → at ≢ 0
    → at ≤ now
    → requires_reauthentication_for_max_age raw at now
      ≡ ok (
          if leb (value_from 0 raw) 9223372036
          then leb (at + value_from 0 raw * 1000000000) now
          else true)
unfolding requires_reauthentication_for_max_age
requires_reauthentication_for_max_age_bounded [] at now full h small signed past =
    absurd (full refl)
requires_reauthentication_for_max_age_bounded (c ∷ cs) at now full h small signed past =
    let known : eqb at 0 ≡ false = ground arith in
    rw (parse_max_age_digits c cs h small, known)
      (ap ok (is_over_short (value_from 0 (c ∷ cs)) at now small past))
