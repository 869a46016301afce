-- ===== src/Oidc/Scopes.antt =====
-- Lists of scopes and of texts (`slices.Contains`), and the errors that fosite names.
use pocket_id.Prelude.{
  Bool, true, false, ◌||◌, List, [], ◌∷◌, ◌++◌, ◌≡◌, inl, inr, refl, arith, All, subst, Bool-cases,
}
use pocket_id.AppError.{Error, plain}
use pocket_id.CallbackUrl.Bytes.{Bytes, eq_bytes, eq_bytes_iff}

-- `slices.Contains(texts, text)`
abbrev pub has_text : List Bytes → Bytes → Bool
has_text [] text = false
has_text (t ∷ texts) text = eq_bytes t text || has_text texts text

-- every text of the first list is in the second
abbrev pub Within : List Bytes → List Bytes → Type 0
Within texts others = All (λ t. has_text others t ≡ true) texts

pub eq_bytes_refl : (t : Bytes) → eq_bytes t t ≡ true
eq_bytes_refl t = (eq_bytes_iff t t).1 refl

pub has_text-append :
    (xs ys : List Bytes) (t : Bytes) → has_text (xs ++ ys) t ≡ (has_text xs t || has_text ys t)
has_text-append [] ys t = refl
has_text-append (x ∷ xs) ys t = ground (arith, has_text-append xs ys t)

-- what holds of all members holds of a text that the list has
pub All-has_text :
    (P : Bytes → Type 0) (ts : List Bytes) (t : Bytes) → All P ts → has_text ts t ≡ true → P t
All-has_text P [] t h k = cc
All-has_text P (u ∷ us) t (h, hs) k = elim (Bool-cases (eq_bytes u t)) [
  | inl same ↦ subst P ((eq_bytes_iff u t).0 same) h
  | inr other ↦ All-has_text P us t hs (ground arith)
]

-- fosite's errors, without their hints
abbrev pub invalid_target : Error
invalid_target = plain "invalid_target"

abbrev pub access_denied : Error
access_denied = plain "access_denied"

abbrev pub invalid_scope : Error
invalid_scope = plain "invalid_scope"

abbrev pub invalid_request : Error
invalid_request = plain "invalid_request"

abbrev pub invalid_grant : Error
invalid_grant = plain "invalid_grant"

abbrev pub login_required : Error
login_required = plain "login_required"

abbrev pub consent_required_error : Error
consent_required_error = plain "consent_required"
