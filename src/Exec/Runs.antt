-- ===== src/Exec/Runs.antt =====
-- What a run that succeeded tells of its steps.
use pocket_id.Prelude.{Bool, true, false, ◌≡◌, refl, if◌then◌else◌}
use pocket_id.AppError.{Error}
use pocket_id.Result.{Result, ok, err}
use pocket_id.Exec.{Exec, raise, continue, ◌>>=◌}

-- the first step succeeded, and the rest ran from where it ended
pub data Steps {W A B : Type 0} (m : Exec W A) (f : A → Exec W B) (w : W) (b : B) (w' : W)
    : Type 0 where
  steps : (a : A) (v : W) → m w ≡ (ok a, v) → f a v ≡ (ok b, w') → Steps m f w b w'

module _ {W A B : Type 0} where
  bind-Steps_at :
      (m : Exec W A) (f : A → Exec W B) (w : W) (b : B) (w' : W) (r : Result A × W)
      → m w ≡ r
      → continue r f ≡ (ok b, w')
      → Steps m f w b w'
  bind-Steps_at m f w b w' (ok a, v) e h = steps a v e h
  bind-Steps_at m f w b w' (err x, v) e h = cc

  pub bind-Steps :
      (m : Exec W A) (f : A → Exec W B) (w : W) (b : B) (w' : W)
      → (m >>= f) w ≡ (ok b, w')
      → Steps m f w b w'
  unfolding ◌>>=◌
  bind-Steps m f w b w' h = bind-Steps_at m f w b w' (m w) refl h

module _ {W A : Type 0} where
  -- a guard that lets a run succeed did not hold
  pub unless_raised :
      (b : Bool) (e : Error) (m : Exec W A) (u w' : W) (a : A)
      → (if b then raise e else m) u ≡ (ok a, w')
      → (b ≡ false) × (m u ≡ (ok a, w'))
  unless_raised true e m u w' a h = cc
  unless_raised false e m u w' a h = (refl, h)
