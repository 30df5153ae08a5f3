-- ===== src/Dispatcher/Steps.antt =====
-- How many steps an act takes, why its loop ends, and what the loop leaves alone.
use nova_act.Prelude.{
  ℕ, zero, suc, ◌+◌, ◌-◌, ◌≤◌, ◌<◌, ◌≡◌, ◌≢◌, refl, true, false, none, some, List, [], ◌∷◌, ltb,
  leb, length, length-append, arith, inl, inr, Bool-cases, ◌∙◌,
}
use nova_act.Prelude.Text.{text}
use nova_act.Errors.{Exn, Result, ok, err, act_exn}
use nova_act.Errors.Classes.{act_timeout_error, act_exceeded_max_steps_error}
use nova_act.Effect.{M, pure, ◌>>=◌, ◌>>◌, Out-cases}
use nova_act.Program.{CallResult}
use nova_act.Act.{Act, add_step, complete}
use nova_act.Dispatcher.{Services, State, Verdict, out_of_rounds, write_act, now}
use nova_act.Dispatcher.Loop.{
  Turn, completed, paused_on, again, turn, loop, check_time, check_steps, after_turn,
}
use nova_act.Dispatcher.Frame.{IsGraded, w-turn}

-- The steps grow by `n` at most, and the limit stays.
abbrev pub AtMost : {V Ast : Type 0} → ℕ → Act V Ast → Act V Ast → Type 0
AtMost n a b = (length b.act_steps ≤ length a.act_steps + n) × (b.max_steps ≡ a.max_steps)

pub AtMost-graded : {V Ast : Type 0} → IsGraded {V = V} {Ast = Ast} AtMost
unfolding add_step complete
AtMost-graded = record {
  same = λ a. (omega arith, refl);
  then_ = λ m n a b c p q. (omega arith, q.1 ∙ p.1);
  weaken = λ m n a b le p. (omega arith, p.1);
  step_added = λ step a. ground (arith, length-append a.act_steps (step ∷ []));
  timed_out = λ a. (omega arith, refl);
  completed_at = λ t dir response a. (omega arith, refl);
}

room : (max idx a b : ℕ) → leb max idx ≡ false → a ≤ b + 1 → a ≤ b + (max - idx)
room max idx a b h le = ground arith

module _ {S V Ast : Type 0} (services : Services S V Ast) where
  turn-AtMost :
      (polls end_time step_idx : ℕ) (results : List (CallResult V)) (s : State S V Ast)
      → AtMost 1 s.act (turn services polls end_time step_idx results s).1.act
  turn-AtMost polls end_time step_idx results s =
      (w-turn services AtMost-graded polls end_time step_idx results).at s

  -- At the limit a round raises before the model is asked.
  at_limit :
      {A : Type 0} (end_time step_idx : ℕ) (rest : M (State S V Ast) A) (s : State S V Ast)
      → leb s.act.max_steps step_idx ≡ true
      → (e : Exn) × (s' : State S V Ast) × ((check_time services end_time
              >> (check_steps services step_idx >> rest))
            s
          ≡ (err e, s'))
        × AtMost 0 s.act s'.act
  unfolding check_time check_steps now write_act ◌>>=◌
  at_limit end_time step_idx rest s h =
      elim (Bool-cases (ltb end_time (services.clock s.world).0)) [
        | inl late ↦ (
          act_exn act_timeout_error none,
          record { world = (services.clock s.world).1; act = record s.act { did_timeout = true } },
          ground arith,
          (omega arith, refl),
        )
        | inr early ↦ (
          act_exn act_exceeded_max_steps_error (some (text "Exceeded max steps without return.")),
          record s { world = (services.clock s.world).1 },
          ground arith,
          (omega arith, refl),
        )
      ]

  turn_at_limit :
      (polls end_time step_idx : ℕ) (results : List (CallResult V)) (s : State S V Ast)
      → s.act.max_steps ≤ step_idx
      → (e : Exn) × (s' : State S V Ast) × (turn services polls end_time step_idx results s
          ≡ (err e, s'))
        × AtMost 0 s.act s'.act
  unfolding turn
  turn_at_limit polls end_time step_idx results s h = at_limit end_time step_idx _ s (ground arith)

  -- How a loop that may still add `n` steps to `s` ends.
  abbrev pub Ends : ℕ → State S V Ast → Result Verdict × State S V Ast → Type 0
  Ends n s o = (length o.1.act.act_steps ≤ length s.act.act_steps + n) × (o.0 ≢ ok out_of_rounds)

  follow-Ends :
      (next : List (CallResult V) → M (State S V Ast) Verdict) (n : ℕ) (s s' : State S V Ast)
      (t : Turn V)
      → length s'.act.act_steps ≤ length s.act.act_steps + 1
      → 1 ≤ n
      → ((r : List (CallResult V)) → Ends (n - 1) s' (next r s'))
      → Ends n s (after_turn services next t s')
  unfolding after_turn pure
  follow-Ends next n s s' completed le pos rest = (omega arith, λ e. cc)
  follow-Ends next n s s' paused_on le pos rest = (omega arith, λ e. cc)
  follow-Ends next n s s' (again r) le pos rest = let (bound, ends) = rest r in (omega arith, ends)

  rest_Ends :
      (polls fuel end_time step_idx : ℕ) (r : List (CallResult V)) (s s' : State S V Ast)
      → s'.act.max_steps ≡ s.act.max_steps
      → s.act.max_steps - suc step_idx < fuel
      → (s'.act.max_steps - suc step_idx < fuel
          → Ends
              (s'.act.max_steps - suc step_idx)
              s'
              (loop services polls fuel end_time (suc step_idx) r s'))
      → Ends
          (s.act.max_steps - step_idx - 1)
          s'
          (loop services polls fuel end_time (suc step_idx) r s')
  rest_Ends polls fuel end_time step_idx r s s' same h rest =
      let (bound, ends) = rest (omega arith) in (omega arith, ends)

  pub loop-Ends :
      (polls fuel end_time step_idx : ℕ) (results : List (CallResult V)) (s : State S V Ast)
      → s.act.max_steps - step_idx < fuel
      → Ends (s.act.max_steps - step_idx) s (loop services polls fuel end_time step_idx results s)
  unfolding loop ◌>>=◌
  loop-Ends polls zero end_time step_idx results s h = absurd (omega arith)
  loop-Ends polls (suc fuel) end_time step_idx results s h =
      elim (Bool-cases (leb s.act.max_steps step_idx)) [
        | inl limit ↦
            (let (e, s', raised, same) =
                turn_at_limit polls end_time step_idx results s (ground arith) in
              rw raised (omega arith, λ p. cc))
        | inr below ↦
            let grown = turn-AtMost polls end_time step_idx results s in
            elim (Out-cases (turn services polls end_time step_idx results s)) [
              | inr (e, s', raised) ↦
                  let grown' : AtMost 1 s.act s'.act = rw raised at grown in
                  rw raised (room s.act.max_steps step_idx _ _ below grown'.0, λ p. cc)
              | inl (t, s', ran) ↦
                  let grown' : AtMost 1 s.act s'.act = rw ran at grown in
                  rw ran (
                    follow-Ends _ (s.act.max_steps - step_idx) s s' t grown'.0 (ground arith) λ r.
                      rest_Ends polls fuel end_time step_idx r s s' grown'.1 (ground arith)
                        (loop-Ends polls fuel end_time (suc step_idx) r s'))
            ]
      ]
