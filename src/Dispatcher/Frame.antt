-- ===== src/Dispatcher/Frame.antt =====
-- A graded relation between the act before and after a piece of the dispatcher, carried through
-- the loop: the grade counts the steps that may have been added.
use nova_act.Prelude.{
  ℕ, zero, suc, ◌+◌, ◌≤◌, Bool, true, false, Option, none, some, List, arith, if◌then◌else◌,
}
use nova_act.Prelude.Text.{Text}
use nova_act.Errors.{Exn, Result, ok, err}
use nova_act.Effect.{
  M, pure, raise, lift, reading, modify, continue, catching, ◌>>=◌, try_except, when,
}
use nova_act.Controller.{ControlState, active, paused, cancelled}
use nova_act.Program.{Call, CallResult, has_throw, has_exception, has_observation}
use nova_act.Step.{StepWithProgram}
use nova_act.Act.{Act, add_step, complete}
use nova_act.Dispatcher.{
  Services, State, Verdict, finished, still_paused, out_of_rounds, at_world, at_act, write_act,
  write_world, now, set_session_state, control_state, compile_and_run,
}
use nova_act.Dispatcher.Loop.{
  Turn, completed, paused_on, again, turn, loop, after_turn, heed, check_time, check_steps,
  check_size, check_observation, ask_model, wait_while_paused, on_pause, after_exception,
  after_throw, ran, end_or_go_on, check_result, act_on, cancel_act, execute, judge, raise_error,
  complete_act, return_result,
}

pub record IsGraded {V Ast : Type 0} (R : ℕ → Act V Ast → Act V Ast → Type 0) : Type 0 where
  pub same : (a : Act V Ast) → R 0 a a
  pub then_ : (m n : ℕ) (a b c : Act V Ast) → R m a b → R n b c → R (m + n) a c
  pub weaken : (m n : ℕ) (a b : Act V Ast) → m ≤ n → R m a b → R n a b
  pub step_added : (step : StepWithProgram V Ast) (a : Act V Ast) → R 1 a (add_step step a).1
  pub timed_out : (a : Act V Ast) → R 0 a (record a { did_timeout = true })
  pub completed_at :
      (t : ℕ) (dir response : Option Text) (a : Act V Ast) → R 0 a (complete t dir response a)

module _ {S V Ast : Type 0} (services : Services S V Ast) {R : ℕ → Act V Ast → Act V Ast → Type 0}
    (laws : IsGraded R) where
  open laws use {same, then_, weaken, step_added, timed_out, completed_at}

  pub record Within (n : ℕ) {A : Type 0} (m : M (State S V Ast) A) : Type 0 where
    pub at : (s : State S V Ast) → R n s.act (m s).1.act

  pub w-pure : {A : Type 0} (a : A) → Within 0 (pure a)
  unfolding pure
  w-pure a = record { at = λ s. same s.act }

  pub w-raise : {A : Type 0} (e : Exn) → Within 0 (raise {A = A} e)
  unfolding raise
  w-raise e = record { at = λ s. same s.act }

  pub w-lift : {A : Type 0} (r : Result A) → Within 0 (lift r)
  unfolding lift
  w-lift r = record { at = λ s. same s.act }

  pub w-read :
      (n : ℕ) {A : Type 0} (f : State S V Ast → M (State S V Ast) A)
      → ((s : State S V Ast) → Within n (f s))
      → Within n (reading f)
  unfolding reading
  w-read n f h = record { at = λ s. (h s).at s }

  pub w-act :
      (f : Act V Ast → Act V Ast)
      → ((a : Act V Ast) → R 0 a (f a))
      → Within 0 (write_act services f)
  unfolding write_act modify
  w-act f h = record { at = λ s. h s.act }

  pub w-world : {A : Type 0} (m : M S A) → Within 0 (at_world services m)
  unfolding at_world
  w-world m = record { at = λ s. same s.act }

  pub w-write : (f : S → S) → Within 0 (write_world services f)
  unfolding write_world modify
  w-write f = record { at = λ s. same s.act }

  w-weaken : (m n : ℕ) {A : Type 0} (x : M (State S V Ast) A) → m ≤ n → Within m x → Within n x
  w-weaken m n x le h = record { at = λ s. weaken m n s.act _ le (h.at s) }

  -- Grades add up along a bind.
  w-bind :
      (a b n : ℕ) {A B : Type 0} (m : M (State S V Ast) A) (f : A → M (State S V Ast) B)
      → a + b ≤ n
      → Within a m
      → ((x : A) → Within b (f x))
      → Within n (m >>= f)
  unfolding ◌>>=◌
  w-bind a b n {A = A} {B = B} m f le h k = record { at = λ s. go s (m s) (h.at s) }
    where
      go :
          (s : State S V Ast) (o : Result A × State S V Ast)
          → R a s.act o.1.act
          → R n s.act (continue f o).1.act
      go s (ok x, s') r = weaken (a + b) n s.act _ le (then_ a b s.act s'.act _ r ((k x).at s'))
      go s (err e, s') r = weaken a n s.act s'.act (omega arith) r

  -- The first part adds no step.
  pub w-first :
      (n : ℕ) {A B : Type 0} (m : M (State S V Ast) A) (f : A → M (State S V Ast) B)
      → Within 0 m
      → ((x : A) → Within n (f x))
      → Within n (m >>= f)
  w-first n m f h k = w-bind 0 n n m f (omega arith) h k

  pub w-if :
      (n : ℕ) {A : Type 0} (b : Bool) (x y : M (State S V Ast) A)
      → Within n x
      → Within n y
      → Within n (if b then x else y)
  w-if n true x y hx hy = hx
  w-if n false x y hx hy = hy

  w-when : (b : Bool) (x : M (State S V Ast) Unit) → Within 0 x → Within 0 (when b x)
  unfolding when
  w-when true x h = record { at = λ s. h.at s }
  w-when false x h = record { at = λ s. same s.act }

  w-try :
      {A : Type 0} (m : M (State S V Ast) A) (f : Exn → M (State S V Ast) A)
      → Within 0 m
      → ((e : Exn) → Within 0 (f e))
      → Within 0 (try_except m f)
  unfolding try_except
  w-try {A = A} m f h k = record { at = λ s. go s (m s) (h.at s) }
    where
      go :
          (s : State S V Ast) (o : Result A × State S V Ast)
          → R 0 s.act o.1.act
          → R 0 s.act (catching f o).1.act
      go s (ok x, s') r = r
      go s (err e, s') r =
          weaken 0 0 s.act _ (omega arith) (then_ 0 0 s.act s'.act _ r ((k e).at s'))

  pub w-now : Within 0 (now services)
  unfolding now
  w-now = record { at = λ s. same s.act }

  w-state : Within 0 (control_state services)
  unfolding control_state
  w-state = record { at = λ s. same s.act }

  w-check_time : (end_time : ℕ) → Within 0 (check_time services end_time)
  unfolding check_time
  w-check_time end_time =
      w-first 0 _ _ w-now λ t. w-when _ _ (w-first 0 _ _ (w-act _ timed_out) (λ u. w-raise _))

  w-check_steps : (step_idx : ℕ) → Within 0 (check_steps services step_idx)
  unfolding check_steps
  w-check_steps step_idx = w-read 0 _ (λ s. w-when _ _ (w-raise _))

  w-on_pause :
      (m : M (State S V Ast) Bool)
      → Within 0 m
      → (state : ControlState) → Within 0 (on_pause services m state)
  unfolding on_pause
  w-on_pause m h paused = h
  w-on_pause m h active = w-pure true
  w-on_pause m h cancelled = w-pure true

  w-wait : (polls : ℕ) → Within 0 (wait_while_paused services polls)
  unfolding wait_while_paused
  w-wait zero = w-pure false
  w-wait (suc polls) =
      w-first 0 _ _ w-state (w-on_pause _ (w-first 0 _ _ (w-write _) (λ u. w-wait polls)))

  pub w-run :
      (between : M (State S V Ast) Unit) (calls : List (Call V))
      → Within 0 between
      → Within 0 (compile_and_run services between calls)
  unfolding compile_and_run
  w-run between calls h = w-first 0 _ _ (w-lift _) (λ c. w-first 0 _ _ h (λ u. w-world _))

  w-raise_error :
      (results : List (CallResult V)) (e : Option Exn) → Within 0 (raise_error services results e)
  unfolding raise_error
  w-raise_error results none = w-raise _
  w-raise_error results (some e) = w-if 0 _ _ _ (w-pure results) (w-raise e)

  w-judge : (results : List (CallResult V)) → Within 0 (judge services results)
  unfolding judge
  w-judge results = go (has_throw results)
    where
      no_throw : (o : Option (CallResult V)) → Within 0 (after_exception services results o)
      no_throw none = unfold after_exception in w-pure results
      no_throw (some r) = unfold after_exception in w-raise_error results r.error

      go : (o : Option (CallResult V)) → Within 0 (after_throw services results o)
      go (some r) = unfold after_throw in w-raise _
      go none = unfold after_throw in no_throw (has_exception results)

  w-execute :
      (old : List (CallResult V)) (calls : List (Call V)) → Within 0 (execute services old calls)
  unfolding execute ran set_session_state
  w-execute old calls =
      w-first 0 _ _
        (w-try _ _ (w-first 0 _ _ (w-run _ calls (w-write _)) (λ r. w-pure _))
          (λ e. w-if 0 _ _ _ (w-pure none) (w-raise e)))
        judged
    where
      judged : (o : Option (List (CallResult V))) → Within 0 (ran services old o)
      judged none = w-pure old
      judged (some r) = w-judge r

  w-act_on :
      (results : List (CallResult V)) (step : StepWithProgram V Ast)
      → Within 0 (act_on services results step)
  unfolding act_on
  w-act_on results step =
      w-first 0 _ _ (w-execute results step.program) (λ r. go r (return_result services r))
    where
      go :
          (r : List (CallResult V)) (o : Option (CallResult V))
          → Within 0 (end_or_go_on services r o)
      go r none = unfold end_or_go_on in w-pure (again r)
      go r (some x) =
          unfold end_or_go_on complete_act in
          w-first 0 _ _ (w-first 0 _ _ w-now (λ t. w-read 0 _ (λ s. w-act _ (completed_at t _ _))))
            (λ u. w-pure completed)

  w-observation : (results : List (CallResult V)) → Within 0 (check_observation services results)
  unfolding check_observation
  w-observation results = go (has_observation results)
    where
      size : (warn : Bool) (o : Option (ℕ × ℕ)) → Within 0 (check_size services warn o)
      size warn none = unfold check_size in w-pure tt
      size warn (some (width, height)) = unfold check_size in w-lift _

      go : (o : Option (CallResult V)) → Within 0 (check_result services o)
      go none = unfold check_result in w-pure tt
      go (some r) =
          unfold check_result in w-first 0 _ _ (w-lift _) (λ o. w-read 0 _ (λ s. size _ o))

  w-ask_model : (results : List (CallResult V)) → Within 1 (ask_model services results)
  unfolding ask_model set_session_state
  w-ask_model results = w-first 1 _ _ (w-write _) λ u.
      w-first 1 _ _ (w-read 0 _ (λ s. w-world _)) λ step.
        w-first 1 _ _ (w-write _)
          λ v. w-bind 1 0 1 _ _ (omega arith) (added step) (λ x. w-pure step)
    where
      added : (step : StepWithProgram V Ast) → Within 1 (at_act services (add_step step))
      added step = record { at = λ s. unfold at_act in step_added step s.act }

  -- A round adds one step at most.
  pub w-turn :
      (polls end_time step_idx : ℕ) (results : List (CallResult V))
      → Within 1 (turn services polls end_time step_idx results)
  unfolding turn
  w-turn polls end_time step_idx results = w-first 1 _ _ (w-check_time end_time) λ a.
      w-first 1 _ _ (w-check_steps step_idx) λ b. w-first 1 _ _ (w-observation results) λ c.
        w-bind 1 0 1 _ _ (omega arith) (w-ask_model results) λ step.
          w-first 0 _ _ (w-wait polls) λ settled.
            w-if 0 _ _ _ (w-first 0 _ _ w-state (λ state. heeded state _ (w-act_on results step)))
              (w-pure paused_on)
    where
      heeded :
          (state : ControlState) (m : M (State S V Ast) (Turn V))
          → Within 0 m
          → Within 0 (heed services state m)
      heeded cancelled m h = unfold heed cancel_act in w-first 0 _ _ (w-world _) (λ u. w-raise _)
      heeded active m h = unfold heed in h
      heeded paused m h = unfold heed in h

  -- The loop adds one step at most for each unit of its fuel.
  pub loop-Within :
      (polls fuel end_time step_idx : ℕ) (results : List (CallResult V))
      → Within fuel (loop services polls fuel end_time step_idx results)
  unfolding loop
  loop-Within polls zero end_time step_idx results = w-pure out_of_rounds
  loop-Within polls (suc fuel) end_time step_idx results =
      w-bind 1 fuel (suc fuel) _ _ (omega arith) (w-turn polls end_time step_idx results)
        (follow _ (loop-Within polls fuel end_time (suc step_idx)))
    where
      follow :
          (next : List (CallResult V) → M (State S V Ast) Verdict)
          → ((r : List (CallResult V)) → Within fuel (next r))
          → (t : Turn V) → Within fuel (after_turn services next t)
      follow next h completed =
          unfold after_turn in w-weaken 0 fuel _ (omega arith) (w-pure finished)
      follow next h paused_on =
          unfold after_turn in w-weaken 0 fuel _ (omega arith) (w-pure still_paused)
      follow next h (again r) = unfold after_turn in h r
