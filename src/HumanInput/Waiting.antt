-- ===== src/HumanInput/Waiting.antt =====
-- A human tool accounts for exactly the time that its callback took.
use nova_act.Prelude.{◌≡◌, none, some, arith}
use nova_act.Prelude.Int.{◌+ℤ◌, sub_ℕ}
use nova_act.Prelude.Text.{Text}
use nova_act.Effect.{◌>>=◌}
use nova_act.WaitTracker.{WaitTracker, start_wait, end_wait}
use nova_act.HumanInput.{Callbacks, Provider, approve}

module _ {W : Type 0} (callbacks : Callbacks W) (message : Text) (p : Provider W)
    (t : WaitTracker) where
  -- However the callback ends, by approval, by cancelling or by an exception, the wait is closed
  -- and the time between its two readings of the clock is added once.
  pub approve_wait :
      p.wait_time_tracker ≡ some t
      → t.current_wait_start ≡ none
      → (approve callbacks message p).1.wait_time_tracker
        ≡ some (record {
          total_wait_time =
              t.total_wait_time
              +ℤ sub_ℕ
                  (callbacks.time (callbacks.approve_callback message p.world).1)
                  (callbacks.time p.world);
          current_wait_start = none;
        })
  unfolding approve start_wait end_wait ◌>>=◌
  approve_wait h idle = ground arith
