-- ===== src/AppError/Tests.antt =====
-- Errors with causes, and their codes.
use pocket_id.Prelude.{true, false, ◌≡◌, ◌↔◌, refl, some}
use pocket_id.AppError.{Error, wrapped, plain, wrap, is_code, internal, not_signed_in}
use pocket_id.AppError.Chain.{Carries, is_code_iff}

abbrev failure : Error
failure = wrapped "failed to load" not_signed_in

is_code_test : is_code failure "not_signed_in" ≡ true
unfolding is_code
is_code_test = refl

internal_test : is_code (internal (some failure)) "not_signed_in" ≡ true
unfolding is_code internal wrap
internal_test = refl

other_test : is_code (internal (some (plain "not_signed_in"))) "not_signed_in" ≡ false
unfolding is_code internal wrap
other_test = refl

is_code_iff_test : (is_code failure "not_signed_in" ≡ true) ↔ Carries "not_signed_in" failure
is_code_iff_test = is_code_iff failure "not_signed_in"
