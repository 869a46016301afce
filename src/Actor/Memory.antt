-- ===== src/Actor/Memory.antt =====
-- A host that keeps the state of one actor in memory, where every reading of the clock moves it on
-- by one. It satisfies the laws the actors rely on.
use pocket_id.Prelude.{ℕ, ◌+◌, false, inl, refl, arith}
use pocket_id.Result.{ok}
use pocket_id.Actor.{Client}
use pocket_id.Actor.Store.{IsStore}

module _ {S : Type 0} (zero_state : S) where
  abbrev pub memory : Client S (S × ℕ)
  memory = record {
    now = λ w. (w.1 + 1, (w.0, w.1 + 1));
    get_state = λ w. (ok w.0, w);
    set_state = λ s ttl w. (ok tt, (s, w.1));
    delete_state = λ w. (ok tt, (zero_state, w.1));
    is_state_not_found = λ e. false;
  }

  abbrev pub memory-IsStore : IsStore memory zero_state
  memory-IsStore = record {
    view = λ w. w.0;
    time = λ w. w.1;
    now_law = λ w. ((inl refl, omega arith), refl);
    get_law = λ w. ((inl refl, omega arith), refl);
    set_law = λ s ttl w. (refl, omega arith);
    delete_law = λ w. (refl, omega arith);
  }
