-- ===== src/Oidc/Steps/Bounded.antt =====
-- A user who starts an interaction completes at most four steps
-- (`completeInteractionStep` in backend/internal/oidc/authorization_service.go).
use pocket_id.Prelude.{ℕ, suc, ◌<◌, false, Option, some, ◌≡◌}
use pocket_id.Result.{ok}
use pocket_id.CallbackUrl.Bytes.{Bytes}
use pocket_id.Oidc.Interaction.{InteractionSession, Services}
use pocket_id.Oidc.Steps.{StepInput, load_and_advance}
use pocket_id.Oidc.Steps.Order.{position}

-- What the table of sessions does: a session is read as it is stored under its ID, and an update stores
-- the session under its own ID.
pub record SessionLaws {C P W : Type 0} (services : Services C P W) : Type 0 where
  pub stored : W → Bytes → Option InteractionSession
  pub id_law : (w : W) (id : Bytes) (s : InteractionSession) → stored w id ≡ some s → s.id ≡ id
  pub find_law :
      (id : Bytes) (w w' : W) (found : Option InteractionSession)
      → services.find_session id w ≡ (ok found, w')
      → found ≡ stored w id
  pub update_law :
      (s : InteractionSession) (w w' : W)
      → services.update_session s w ≡ (ok tt, w')
      → stored w' s.id ≡ some s

module _ {C P W : Type 0} {services : Services C P W} (laws : SessionLaws services) where
  -- the session after a step is further on, belongs to the user, and is the one that is stored
  abbrev Advanced : InteractionSession → Bytes → W → InteractionSession → Type 0
  Advanced s user_id w' s' =
      (position s < position s')
      × (s'.user_id ≡ some user_id)
      × (s'.id ≡ s.id)
      × (laws.stored w' s'.id ≡ some s')

  -- Steps that one user completes on the session with an ID, one after the other. Each loads the session
  -- that is stored; between two of them the stored session stays as it is, whatever else happens.
  pub data Completed (user_id id : Bytes) : ℕ → W → W → Type 0 where
    start : {w : W} → Completed user_id id 0 w w
    next :
        {n : ℕ} {w v v' u : W} (s' : InteractionSession) (input : StepInput)
        → laws.stored v id ≡ laws.stored w id
        → input.user_id ≡ user_id
        → load_and_advance services id input v ≡ (ok (s', false), v')
        → Completed user_id id n v' u
        → Completed user_id id (suc n) w u
