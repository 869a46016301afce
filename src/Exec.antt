-- ===== src/Exec.antt =====
-- Handlers that read and change the state `W` of the world and may fail. What was changed before a
-- failure stays changed, so the state comes back beside the error too.
pub mod Triples
pub mod Runs
use pocket_id.Prelude.{String}
use pocket_id.AppError.{Error, wrapped}
use pocket_id.Result.{Result, ok, err}

abbrev pub Exec : Type 0 → Type 0 → Type 0
Exec W A = W → Result A × W

module _ {W A : Type 0} where
  abbrev pub pure : A → Exec W A
  pure a w = (ok a, w)

  abbrev pub raise : Error → Exec W A
  raise e w = (err e, w)

  abbrev pub rename : String → Result A × W → Result A × W
  rename message (ok a, w) = (ok a, w)
  rename message (err e, w) = (err (wrapped message e), w)

  -- `if err != nil { return fmt.Errorf("message: %w", err) }`
  abbrev pub wrapping : String → Exec W A → Exec W A
  wrapping message m w = rename message (m w)

module _ {W A B : Type 0} where
  abbrev pub continue : Result A × W → (A → Exec W B) → Result B × W
  continue (ok a, w) f = f a w
  continue (err e, w) f = (err e, w)

  infixl 10 ◌>>=◌ ◌>>◌
  unfoldable pub ◌>>=◌ : Exec W A → (A → Exec W B) → Exec W B
  ◌>>=◌ m f w = continue (m w) f

  abbrev pub ◌>>◌ : Exec W A → Exec W B → Exec W B
  m >> n = m >>= λ _. n
