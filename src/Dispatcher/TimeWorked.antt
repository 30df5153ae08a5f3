-- ===== src/Dispatcher/TimeWorked.antt =====
-- The time worked of an act against its duration and the time that it waited.
use nova_act.Prelude.{ℕ, ◌+◌, ◌≤◌, ◌<◌, ◌≡◌, refl, ltb, some, arith, Bool-cases, inl, inr}
use nova_act.Prelude.Int.{ℤ, pos, negsuc, ◌-ℤ◌, leℤ, sub_ℕ}
use nova_act.Dispatcher.{max_zero, calculate_time_worked}

-- With both times known, an answer is given and is never negative. Where a wait of `wait` units
-- fits into the act, time worked and wait add up to its duration; where the clock ran backwards
-- or the wait is longer than the act, the answer is zero.
time_worked_adds_up :
    (start end_time wait worked : ℕ)
    → calculate_time_worked (some start) (some end_time) (pos wait) ≡ some (pos worked)
    → (start + wait ≤ end_time → worked + wait + start ≡ end_time)
      × (end_time < start + wait → worked ≡ 0)
unfolding calculate_time_worked max_zero ◌-ℤ◌
time_worked_adds_up start end_time wait worked h = (λ p. ground arith, λ p. ground arith)

-- With both times known an answer is given, and it is not negative, whatever the signed wait is.
time_worked_total :
    (start end_time : ℕ) (wait : ℤ)
    → (worked : ℕ) × (calculate_time_worked (some start) (some end_time) wait ≡ some (pos worked))
unfolding calculate_time_worked max_zero
time_worked_total start end_time wait = elim (Bool-cases (ltb end_time start)) [
  | inl back ↦ (0, ground arith)
  | inr forth ↦ elim (Bool-cases (leℤ wait (sub_ℕ end_time start))) [
    | inr longer ↦ (0, rw (forth, longer) refl)
    | inl fits ↦
        let (n, e) = max_zero-pos (sub_ℕ end_time start -ℤ wait) in (n, rw (forth, fits, e) refl)
  ]
]
  where
    max_zero-pos : (d : ℤ) → (n : ℕ) × (max_zero d ≡ pos n)
    max_zero-pos (pos n) = (n, ground arith)
    max_zero-pos (negsuc n) = (0, ground arith)
