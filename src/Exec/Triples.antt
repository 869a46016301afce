-- ===== src/Exec/Triples.antt =====
-- Pre- and postconditions of handlers, with one rule for each way to build a handler.
use pocket_id.Prelude.{String, Bool, true, false, ◌≡◌, refl, if◌then◌else◌}
use pocket_id.AppError.{Error}
use pocket_id.Result.{Result, ok, err}
use pocket_id.Exec.{Exec, pure, raise, wrapping, rename, continue, ◌>>=◌}

module _ {W A : Type 0} (Q : A → W → Type 0) (E : W → Type 0) where
  -- `Q` holds of the value and the state after a success, `E` of the state after a failure
  abbrev pub Ends : Result A × W → Type 0
  Ends (ok a, w) = Q a w
  Ends (err e, w) = E w

  Ends-wrapping : (message : String) (r : Result A × W) → Ends r → Ends (rename message r)
  Ends-wrapping message (ok a, w) h = h
  Ends-wrapping message (err e, w) h = h

module _ {W A : Type 0} where
  pub record Triple (P : W → Type 0) (m : Exec W A) (Q : A → W → Type 0) (E : W → Type 0)
      : Type 0 where
    pub at : (w : W) → P w → Ends Q E (m w)

module _ {W A : Type 0} {P : W → Type 0} {Q : A → W → Type 0} {E : W → Type 0} where
  pub Triple-pure : (a : A) → ((w : W) → P w → Q a w) → Triple P (pure a) Q E
  Triple-pure a h = record { at = h }

  pub Triple-raise : (e : Error) → ((w : W) → P w → E w) → Triple P (raise e) Q E
  Triple-raise e h = record { at = h }

  pub Triple-if :
      (b : Bool) (m n : Exec W A)
      → (b ≡ true → Triple P m Q E)
      → (b ≡ false → Triple P n Q E)
      → Triple P (if b then m else n) Q E
  Triple-if true m n hm hn = hm refl
  Triple-if false m n hm hn = hn refl

  pub Triple-wrapping :
      (message : String) (m : Exec W A) → Triple P m Q E → Triple P (wrapping message m) Q E
  Triple-wrapping message m t = record { at = λ w p. Ends-wrapping Q E message (m w) (t.at w p) }

  pub Triple-weaken :
      (m : Exec W A) {P' : W → Type 0} {Q' : A → W → Type 0} {E' : W → Type 0}
      → Triple P' m Q' E'
      → ((w : W) → P w → P' w)
      → ((a : A) (w : W) → Q' a w → Q a w)
      → ((w : W) → E' w → E w)
      → Triple P m Q E
  Triple-weaken m {P'} {Q'} {E'} t p q e = record { at = λ w h. weaken (m w) (t.at w (p w h)) }
    where
      weaken : (r : Result A × W) → Ends Q' E' r → Ends Q E r
      weaken (ok a, w) h = q a w h
      weaken (err x, w) h = e w h

module _ {W A B : Type 0} (Q : B → W → Type 0) (E : W → Type 0) where
  continue-Ends :
      (R : A → W → Type 0) (f : A → Exec W B) (r : Result A × W)
      → ((a : A) → Triple (R a) (f a) Q E)
      → Ends R E r
      → Ends Q E (continue r f)
  continue-Ends R f (ok a, w) t h = (t a).at w h
  continue-Ends R f (err e, w) t h = h

module _ {W A B : Type 0} {P : W → Type 0} {Q : B → W → Type 0} {E : W → Type 0} where
  pub Triple-bind :
      (R : A → W → Type 0) (m : Exec W A) (f : A → Exec W B)
      → Triple P m R E
      → ((a : A) → Triple (R a) (f a) Q E)
      → Triple P (m >>= f) Q E
  unfolding ◌>>=◌
  Triple-bind R m f tm tf = record { at = λ w p. continue-Ends Q E R f (m w) tf (tm.at w p) }

module _ {W A : Type 0} {P : W → Type 0} {F : Type 0} {Q : A → W → Type 0} {E : W → Type 0} where
  -- a fact in the precondition that does not depend on the state
  pub Triple-assume : (m : Exec W A) → (F → Triple P m Q E) → Triple (λ w. P w × F) m Q E
  Triple-assume m t = record { at = λ w p. (t p.1).at w p.0 }
