-- ===== src/CallbackUrl/Validation/Accepted.antt =====
-- Which patterns `ValidateCallbackURLPattern` accepts
-- (backend/internal/utils/callback_url_util.go).
use pocket_id.Prelude.{◌≡◌, ◌≢◌, []}
use pocket_id.Result.{Result, ok}
use pocket_id.CallbackUrl.Bytes.{Bytes, bytes, cut}
use pocket_id.CallbackUrl.Normalize.{normalize_to_url_pattern_standard}
use pocket_id.CallbackUrl.Matching.{Library}
use pocket_id.CallbackUrl.Validation.{callback_url_pattern_for_url_parse, to_lower}

module _ {U P : Type 0} (library : Library U P) where
  -- without its fragment the pattern can be parsed and compiled, and has a scheme that is neither
  -- `javascript` nor `data`
  pub data Accepted (pattern : Bytes) : Type 0 where
    anything : pattern ≡ bytes "*" → Accepted pattern
    parsed :
        (u : U) (p : P)
        → library.parse (callback_url_pattern_for_url_parse (cut 35 pattern).0) ≡ ok u
        → library.scheme u ≢ []
        → to_lower (library.scheme u) ≢ bytes "javascript"
        → to_lower (library.scheme u) ≢ bytes "data"
        → library.new_pattern (normalize_to_url_pattern_standard (cut 35 pattern).0) ≡ ok p
        → Accepted pattern
