-- ===== src/Dispatcher/Outcome.antt =====
-- What `dispatch` guarantees of the act on every exit.
use nova_act.Prelude.{
  ℕ, zero, suc, ◌+◌, ◌≤◌, ◌≡◌, ◌≢◌, refl, sym, ap, true, Option, none, some, List, length, arith,
  Bool-cases, inl, inr,
}
use mathlib.Core.Path.{subst₂}
use nova_act.Errors.{Exn, Result, ok, err, isinstance}
use nova_act.Errors.Classes.{act_error}
use nova_act.Metadata.{ActMetadata}
use nova_act.Controller
use nova_act.WaitTracker
use nova_act.Effect.{◌>>=◌, Out-cases}
use nova_act.Program.{CallResult, has_exception}
use nova_act.Step.{StepWithProgram}
use nova_act.Act.{set_time_worked}
use nova_act.Dispatcher.{
  Services, State, Verdict, finished, still_paused, out_of_rounds, at_world, write_world, write_act,
  now,
}
use nova_act.Dispatcher.Dispatch.{
  Dispatched, returned, unfinished, start_program, fail_on, raise_stored, leave, with_controller,
  run_loop, conclude, require, write_time_worked, on_controller, dispatch_body, close, close_at,
  finalize, failure_metadata, handle_act_fail, dispatch,
}
use nova_act.Dispatcher.Frame.{Within, w-pure, w-raise, w-read, w-first, w-run}
use nova_act.Dispatcher.Steps.{AtMost, AtMost-graded, Ends, loop-Ends}

unwrap :
    {S : Type 0} {e f : Exn} {s t : S}
    → ◌≡◌ {A = Result Dispatched × S} (err e, s) (err f, t)
    → e ≡ f
unwrap h = cc

module _ {S V Ast : Type 0} (services : Services S V Ast) where
  start-AtMost : Within services AtMost-graded 0 (start_program services)
  unfolding start_program
  start-AtMost =
      w-first services AtMost-graded 0 _ _
        (w-read services AtMost-graded 0 _
          (λ s. w-run services AtMost-graded _ _ (w-pure services AtMost-graded tt)))
        λ r.
          w-first services AtMost-graded 0 _ _ (failing (has_exception r))
            (λ u. w-pure services AtMost-graded r)
    where
      raising : (e : Option Exn) → Within services AtMost-graded 0 (raise_stored services e)
      raising none = unfold raise_stored in w-raise services AtMost-graded _
      raising (some e) = unfold raise_stored in w-raise services AtMost-graded e

      failing : (o : Option (CallResult V)) → Within services AtMost-graded 0 (fail_on services o)
      failing none = unfold fail_on in w-pure services AtMost-graded tt
      failing (some r) = unfold fail_on in raising r.error

  run_loop-Ends :
      (polls : ℕ) (results : List (CallResult V)) (s : State S V Ast)
      → Ends services s.act.max_steps s (run_loop services polls results s)
  unfolding run_loop now ◌>>=◌
  run_loop-Ends polls results s =
      let out = services.clock s.world in
      let (bound, ends) =
        loop-Ends services polls (suc s.act.max_steps) (out.0 + s.act.timeout) 0 results
          (record s { world = out.1 }) (omega arith) in
      (omega arith, ends)

  leave-Ends :
      (n : ℕ) (s : State S V Ast) (o : Result Verdict × State S V Ast)
      → Ends services n s o
      → Ends services n s (leave services o)
  unfolding leave
  leave-Ends n s (ok finished, s') h = h
  leave-Ends n s (ok still_paused, s') h = h
  leave-Ends n s (ok out_of_rounds, s') h = h
  leave-Ends n s (err e, s') h = (h.0, λ p. cc)

  with_controller-Ends :
      (polls : ℕ) (results : List (CallResult V)) (s : State S V Ast)
      → Ends services s.act.max_steps s
          (with_controller services (run_loop services polls results) s)
  unfolding with_controller
  with_controller-Ends polls results s = leave-Ends s.act.max_steps s _ (
      run_loop-Ends polls results (record s {
        world = on_controller services (Controller.enter (services.meanwhile s.world)) s.world;
      }))

  -- The end of the act adds no step, and it follows the loop's verdict.
  abbrev Follows : Verdict → State S V Ast → Result Dispatched × State S V Ast → Type 0
  Follows v s o =
      (o.1.act.act_steps ≡ s.act.act_steps)
      × (v ≢ out_of_rounds → o.0 ≢ ok (unfinished out_of_rounds))

  conclude-Follows : (v : Verdict) (s : State S V Ast) → Follows v s (conclude services v s)
  unfolding conclude require write_time_worked at_world write_act set_time_worked ◌>>=◌
  conclude-Follows finished s = (ground arith, λ n e. ground arith)
  conclude-Follows still_paused s = (refl, λ n e. cc)
  conclude-Follows out_of_rounds s = (refl, λ n e. n refl)

  body-Ends :
      (polls : ℕ) (s : State S V Ast)
      → (length (dispatch_body services polls s).1.act.act_steps
          ≤ length s.act.act_steps + s.act.max_steps)
        × ((dispatch_body services polls s).0 ≢ ok (unfinished out_of_rounds))
  unfolding dispatch_body write_world ◌>>=◌
  body-Ends polls s =
      let s1 : State S V Ast = record s {
        world =
            services.put_wait_tracker (WaitTracker.reset (services.wait_tracker s.world)) s.world;
      } in
      let started = start-AtMost.at s1 in
      elim (Out-cases (start_program services s1)) [
        | inr (e, s2, raised) ↦
            let grown : AtMost 0 s.act s2.act = rw raised at started in
            rw raised (omega arith, λ p. cc)
        | inl (rs, s2, ran) ↦
            let grown : AtMost 0 s.act s2.act = rw ran at started in
            let looped = with_controller-Ends polls rs s2 in
            elim (Out-cases (with_controller services (run_loop services polls rs) s2)) [
              | inr (e, s3, raised) ↦
                  let bounded : Ends services s2.act.max_steps s2 (err e, s3) =
                    rw raised at looped in
                  rw (ran, raised) (omega arith, λ p. cc)
              | inl (v, s3, left) ↦
                  let bounded : Ends services s2.act.max_steps s2 (ok v, s3) = rw left at looped in
                  let (same, follows) = conclude-Follows v s3 in
                  rw (ran, left)
                    (
                      omega (arith, ap (λ (l : List (StepWithProgram V Ast)). length l) same),
                      follows (λ p. bounded.1 (ap ok p)),
                    )
            ]
      ]

  close-keeps : (s : State S V Ast) → (close services s).act.act_steps ≡ s.act.act_steps
  unfolding close close_at
  close-keeps s = go s.act.end_time
    where
      go : (t : Option ℕ) → (close_at services t s).act.act_steps ≡ s.act.act_steps
      go none = refl
      go (some zero) = refl
      go (some (suc t)) = refl

  finalize-keeps : (s : State S V Ast) → (finalize services s).act.act_steps ≡ s.act.act_steps
  unfolding finalize
  finalize-keeps s = close-keeps s

  fail-Ends :
      (n : ℕ) (o : Result Dispatched × State S V Ast)
      → (length o.1.act.act_steps ≤ n) × (o.0 ≢ ok (unfinished out_of_rounds))
      → (length (handle_act_fail services o).1.act.act_steps ≤ n)
        × ((handle_act_fail services o).0 ≢ ok (unfinished out_of_rounds))
  unfolding handle_act_fail
  fail-Ends n (ok (returned r), s) (h, k) = (ground (arith, finalize-keeps s), λ p. cc)
  fail-Ends n (ok (unfinished v), s) (h, k) = (h, k)
  fail-Ends n (err e, s) (h, k) = (
    ground (arith, finalize-keeps s, finalize-keeps (close services s), close-keeps s),
    λ p. ground arith,
  )

  -- Whatever the model, the tools, the clock, the client and the other threads do, an act takes
  -- at most `max_steps` steps, and the loop of an act that is not left paused ends: `dispatch`
  -- never runs out of rounds.
  pub dispatch_bound :
      (polls : ℕ) (s : State S V Ast)
      → (length (dispatch services polls s).1.act.act_steps
          ≤ length s.act.act_steps + s.act.max_steps)
        × ((dispatch services polls s).0 ≢ ok (unfinished out_of_rounds))
  unfolding dispatch
  dispatch_bound polls s = fail-Ends _ (dispatch_body services polls s) (body-Ends polls s)

  close-ends : (s : State S V Ast) → (t : ℕ) × ((close services s).act.end_time ≡ some t)
  unfolding close close_at
  close-ends s = go s.act.end_time refl
    where
      go :
          (t : Option ℕ)
          → s.act.end_time ≡ t
          → (u : ℕ) × ((close_at services t s).act.end_time ≡ some u)
      go none h = (_, refl)
      go (some zero) h = (_, refl)
      go (some (suc t)) h = (suc t, h)

  finalize-ends : (s : State S V Ast) → (t : ℕ) × ((finalize services s).act.end_time ≡ some t)
  unfolding finalize
  finalize-ends s = close-ends s

  -- What closing an act leaves alone.
  abbrev Kept : State S V Ast → State S V Ast → Type 0
  Kept s s' =
      (length s'.act.act_steps ≡ length s.act.act_steps)
      × (s'.act.id ≡ s.act.id)
      × (s'.act.start_time ≡ s.act.start_time)

  close-Kept : (s : State S V Ast) → Kept s (close services s)
  unfolding close close_at
  close-Kept s = go s.act.end_time
    where
      go : (t : Option ℕ) → Kept s (close_at services t s)
      go none = (refl, refl, refl)
      go (some zero) = (refl, refl, refl)
      go (some (suc t)) = (refl, refl, refl)

  finalize-Kept : (s : State S V Ast) → Kept s (finalize services s)
  unfolding finalize
  finalize-Kept s = close-Kept s

  -- What `dispatch` leaves when it returns or raises.
  abbrev pub IsClosed : Result Dispatched × State S V Ast → Type 0
  IsClosed (ok (returned r), s) = (t : ℕ) × (s.act.end_time ≡ some t)
  IsClosed (ok (unfinished v), s) = Unit
  IsClosed (err e, s) = (t : ℕ) × (s.act.end_time ≡ some t)

  fail-IsClosed : (o : Result Dispatched × State S V Ast) → IsClosed (handle_act_fail services o)
  unfolding handle_act_fail
  fail-IsClosed (ok (returned r), s) = finalize-ends s
  fail-IsClosed (ok (unfinished v), s) = tt
  fail-IsClosed (err e, s) = elim (Bool-cases (isinstance e act_error)) [
    | inl a ↦ rw a (finalize-ends (close services s))
    | inr a ↦ rw a (finalize-ends s)
  ]

  -- Whenever `dispatch` returns a result or raises, whatever it raises, the act has an end time.
  pub dispatch-IsClosed : (polls : ℕ) (s : State S V Ast) → IsClosed (dispatch services polls s)
  unfolding dispatch
  dispatch-IsClosed polls s = fail-IsClosed (dispatch_body services polls s)

  -- The metadata that an error carries, against the act as it was left.
  abbrev pub Describes : Exn → State S V Ast → Type 0
  Describes e s =
      (m : ActMetadata) × (e.metadata ≡ some m)
      × (m.num_steps_executed ≡ length s.act.act_steps)
      × (m.act_id ≡ s.act.id)
      × (m.start_time ≡ some s.act.start_time)

  injected :
      (e : Exn) (s : State S V Ast)
      → Describes
          (record e { metadata = some (failure_metadata services (close services s)) })
          (finalize services (close services s))
  unfolding failure_metadata
  injected e s =
      let (n, i, t) = finalize-Kept (close services s) in
      (failure_metadata services (close services s), refl, sym n, sym i, ap some (sym t))

  fail-Describes :
      (o : Result Dispatched × State S V Ast) (e : Exn) (s : State S V Ast)
      → handle_act_fail services o ≡ (err e, s)
      → isinstance e act_error ≡ true
      → Describes e s
  unfolding handle_act_fail
  fail-Describes (ok (returned r), s') e s h a = absurd (cc)
  fail-Describes (ok (unfinished v), s') e s h a = absurd (cc)
  fail-Describes (err x, s') e s h a = elim (Bool-cases (isinstance x act_error)) [
    | inl y ↦ let p = rw y at h in subst₂ Describes (unwrap p) (ap (λ q. q.1) p) (injected x s')
    | inr y ↦ let p = rw y at h in let same = unwrap p in absurd (cc)
  ]

  -- Every `ActError` that leaves `dispatch` carries metadata with the act's id, its start and the
  -- number of the steps that it has taken.
  pub dispatch-Describes :
      (polls : ℕ) (s s' : State S V Ast) (e : Exn)
      → dispatch services polls s ≡ (err e, s')
      → isinstance e act_error ≡ true
      → Describes e s'
  unfolding dispatch
  dispatch-Describes polls s s' e h a = fail-Describes (dispatch_body services polls s) e s' h a
