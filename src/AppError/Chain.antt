-- ===== src/AppError/Chain.antt =====
-- The causes of an error: what `errors.Unwrap` yields one after the other, as a relation.
use pocket_id.Prelude.{String, ◌≡◌, ◌↔◌, inl, inr, refl, true, arith, ◌==◌, eq_iff, Bool-cases}
use pocket_id.AppError.{AppError, Error, app, app_caused, wrapped, plain, is_code}

-- `Carries code e`: some application error in the chain of `e` has the code.
pub data Carries (code : String) : Error → Type 0 where
  here : (e : AppError) → e.code ≡ code → Carries code (app e)
  here_caused : (e : AppError) (cause : Error) → e.code ≡ code → Carries code (app_caused e cause)
  below : (e : AppError) (cause : Error) → Carries code cause → Carries code (app_caused e cause)
  under :
      (message : String) (cause : Error) → Carries code cause → Carries code (wrapped message cause)

is_code_sound : (code : String) (e : Error) → is_code e code ≡ true → Carries code e
unfolding is_code
is_code_sound code (app e) h = here e ((eq_iff e.code code).0 h)
is_code_sound code (app_caused e cause) h = elim (Bool-cases (e.code == code)) [
  | inl same ↦ here_caused e cause ((eq_iff e.code code).0 same)
  | inr other ↦ below e cause (is_code_sound code cause (ground arith))
]
is_code_sound code (wrapped message cause) h = under message cause (is_code_sound code cause h)
is_code_sound code (plain message) h = ground arith

is_code_complete : {code : String} {e : Error} → Carries code e → is_code e code ≡ true
unfolding is_code
is_code_complete {code} (here e p) = (eq_iff e.code code).1 p
is_code_complete {code} (here_caused e cause p) = rw ((eq_iff e.code code).1 p) refl
is_code_complete (below e cause c) = ground (arith, is_code_complete c)
is_code_complete (under message cause c) = is_code_complete c

-- `is_code` accepts an error exactly when an application error in its chain of causes has the code.
pub is_code_iff : (e : Error) (code : String) → (is_code e code ≡ true) ↔ Carries code e
is_code_iff e code = (is_code_sound code e, is_code_complete)
