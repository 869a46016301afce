-- ===== src/Actor.antt =====
-- The host of the actors (github.com/italypaleale/francis) and the clock, as the actors use them:
-- the operations of `actor.Client[S]` for one actor, over a state `W` of the world that they alone
-- interpret. A handler runs as one turn of its actor, so no other turn of that actor interleaves.
pub mod Store
pub mod Memory
use pocket_id.Prelude.{ℕ, ◌+◌, ◌*◌, ◌/◌, ◌-◌, Bool, ltb, leb}
use pocket_id.AppError.{Error}
use pocket_id.Result.{ok}
use pocket_id.Exec.{Exec}

-- Times and durations are nanoseconds; `time.Now()` moves the clock on.
pub record Client (S W : Type 0) : Type 0 where
  pub now : W → ℕ × W
  pub get_state : Exec W S
  -- the state and its TTL
  pub set_state : S → ℕ → Exec W (Unit {0})
  pub delete_state : Exec W (Unit {0})
  -- `errors.Is(err, actor.ErrStateNotFound)`
  pub is_state_not_found : Error → Bool

-- `time.Now()` in a handler
abbrev pub read_clock : {S W : Type 0} → Client S W → Exec W ℕ
read_clock client w = let (t, w') = client.now w in (ok t, w')

abbrev pub second : ℕ
second = 1000000000

abbrev pub minute : ℕ
minute = 60 * second

-- `t.Round(time.Second)`, which rounds halves up
unfoldable pub round_second : ℕ → ℕ
round_second t = (t + second / 2) / second * second

-- `a.After(b)`, `a.Before(b)`
abbrev pub after : ℕ → ℕ → Bool
after a b = ltb b a

abbrev pub before : ℕ → ℕ → Bool
before a b = ltb a b
