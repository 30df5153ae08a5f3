-- ===== src/WaitTracker.antt =====
-- src/nova_act/util/human_wait_time_tracker.py: the time that an act spends waiting for a human.
-- The clock's reading is an argument, in milliseconds; it may run backwards.
use nova_act.Prelude.{ℕ, Option, none, some}
use nova_act.Prelude.Int.{ℤ, pos, ◌+ℤ◌, sub_ℕ}
use nova_act.Prelude.Text.{text}
use nova_act.Errors.{Result, ok, err, plain}
use nova_act.Errors.Classes.{runtime_error}

pub record WaitTracker : Type 0 where
  pub total_wait_time : ℤ
  pub current_wait_start : Option ℕ

abbrev pub initial : WaitTracker
initial = record { total_wait_time = pos 0; current_wait_start = none }

begin : Option ℕ → ℕ → WaitTracker → Result Unit × WaitTracker
begin (some start) now t = (err (plain runtime_error (text "Wait already in progress")), t)
begin none now t = (ok tt, record t { current_wait_start = some now })

unfoldable pub start_wait : ℕ → WaitTracker → Result Unit × WaitTracker
unfolding begin
start_wait now t = begin t.current_wait_start now t

finish : Option ℕ → ℕ → WaitTracker → Result Unit × WaitTracker
finish none now t = (err (plain runtime_error (text "No wait in progress")), t)
finish (some start) now t = (
  ok tt,
  record { total_wait_time = t.total_wait_time +ℤ sub_ℕ now start; current_wait_start = none },
)

unfoldable pub end_wait : ℕ → WaitTracker → Result Unit × WaitTracker
unfolding finish
end_wait now t = finish t.current_wait_start now t

unfoldable pub get_total_wait_time : WaitTracker → ℤ
get_total_wait_time t = t.total_wait_time

unfoldable pub reset : WaitTracker → WaitTracker
reset t = record { total_wait_time = pos 0; current_wait_start = none }
