-- ===== src/Runner/Trace.antt =====
-- Which calls `run` executes, and what their results hold.
use nova_act.Prelude.{
  ◌≡◌, refl, Bool, ap, none, some, ◌∙◌, true, false, Option, List, [], ◌∷◌, ◌++◌, arith, Bool-cases,
  inl, inr,
}
use mathlib.Core.List.{append-nil, append_assoc}
use nova_act.Errors.{Exn, Result, ok, err}
use nova_act.Effect.{M, catching, ◌>>=◌, Out-cases}
use nova_act.Compatibility.{Callable}
use nova_act.Program.{Call, CompiledCall, CallResult}
use nova_act.Runner.{
  Actuator, Env, Frame, attempt, handle, with_context, state_during, run_call, terminates, run_from,
  run, collect,
}

module _ {S V : Type 0} (env : Env S V) where
  abbrev pub unlock : Option (Actuator S) → Bool → M S Unit
  unlock (some a) true w = a.unlock_context w
  unlock _ _ w = (ok tt, w)

  -- A call's tool is invoked after the state of the log is set and, where there is an actuator and
  -- the tool asks for it, the context unlocked.
  abbrev pub prepare : CompiledCall V (Callable S V) → M S Unit
  prepare c w =
      unlock env.actuator c.target.requires_unlocked
        (env.set_session_state (state_during env c.source.name) w)

  unlock-with_context :
      (actuator : Option (Actuator S)) (needed : Bool) (w : S)
      → env.actuator ≡ actuator
      → with_context env needed (λ a. a.unlock_context) w ≡ unlock actuator needed w
  unfolding with_context ◌>>=◌
  unlock-with_context none needed w h = rw h refl
  unlock-with_context (some a) true w h = rw h refl
  unlock-with_context (some a) false w h = rw h refl

  prepared :
      (c : CompiledCall V (Callable S V)) (w : S) {o : Result Unit × S}
      → prepare c w ≡ o
      → with_context env c.target.requires_unlocked
          (λ a. a.unlock_context)
          (env.set_session_state (state_during env c.source.name) w)
        ≡ o
  prepared c w p = unlock-with_context env.actuator c.target.requires_unlocked _ refl ∙ p

  abbrev pub Failed : CallResult V → Type 0
  Failed r = (r.return_value ≡ env.null) × (x : Exn) × (r.error ≡ some x)

  abbrev pub IsAnswer : CallResult V → Result V × S → Type 0
  IsAnswer r (ok v, w) = r.return_value ≡ v
  IsAnswer r (err e, w) = Failed r

  -- A result holds what the tool returned, or, where the tool or what precedes it raised, an error
  -- and no value.
  abbrev pub IsExecuted : CompiledCall V (Callable S V) → CallResult V → Result Unit × S → Type 0
  IsExecuted c r (ok u, w) = IsAnswer r (c.target.invoke c.source.kwargs w)
  IsExecuted c r (err e, w) = Failed r

  -- A call is run in one world and leaves another, with its result.
  abbrev pub IsRun : S → CompiledCall V (Callable S V) → CallResult V → S → Type 0
  IsRun w c r w' =
      (run_call env c w ≡ (ok r, w')) × (r.call ≡ c.source) × IsExecuted c r (prepare c w)

  -- The results of the first calls, each run in the world that the one before left, in order, up to
  -- the first result that ends the program.
  pub data IsTrace (w' : S)
      : S → List (CallResult V) → List (CompiledCall V (Callable S V)) → Type 0 where
    done : {w : S} → w ≡ w' → IsTrace w' w [] []
    stop :
        {w w1 : S} {r : CallResult V} {c : CompiledCall V (Callable S V)}
        {cs : List (CompiledCall V (Callable S V))}
        → IsRun w c r w1
        → w1 ≡ w'
        → terminates env r ≡ true
        → IsTrace w' w (r ∷ []) (c ∷ cs)
    next :
        {w w1 : S} {r : CallResult V} {rs : List (CallResult V)} {c : CompiledCall V (Callable S V)}
        {cs : List (CompiledCall V (Callable S V))}
        → IsRun w c r w1
        → terminates env r ≡ false
        → IsTrace w' w1 rs cs
        → IsTrace w' w (r ∷ rs) (c ∷ cs)

  attempt-unprepared :
      (c : CompiledCall V (Callable S V)) (w w1 : S) (start : V) {e : Exn}
      → prepare c w ≡ (err e, w1)
      → attempt env c (record { world = w; return_value = start })
        ≡ (err e, record { world = w1; return_value = start })
  unfolding attempt ◌>>=◌
  attempt-unprepared c w w1 start p = let q = prepared c w p in ground arith

  attempt-raised :
      (c : CompiledCall V (Callable S V)) (w w1 w2 : S) (start : V) {e : Exn}
      → prepare c w ≡ (ok tt, w1)
      → c.target.invoke c.source.kwargs w1 ≡ (err e, w2)
      → attempt env c (record { world = w; return_value = start })
        ≡ (err e, record { world = w2; return_value = start })
  unfolding attempt ◌>>=◌
  attempt-raised c w w1 w2 start p i = let q = prepared c w p in ground arith

  attempt-value :
      (c : CompiledCall V (Callable S V)) (w w1 w2 : S) (start : V) {v : V}
      → prepare c w ≡ (ok tt, w1)
      → c.target.invoke c.source.kwargs w1 ≡ (ok v, w2)
      → (attempt env c (record { world = w; return_value = start })).1.return_value ≡ v
  unfolding attempt ◌>>=◌
  attempt-value c w w1 w2 start p i = let q = prepared c w p in ground arith

  handle-return_value :
      (call : Call V) (e : Exn) (f : Frame S V)
      → (handle env call e f).1.return_value ≡ f.return_value
  unfolding handle ◌>>=◌
  handle-return_value call e f = ground arith

  records :
      (call : Call V) (e : Exn) (f : Frame S V) (o : Option Exn)
      → (handle env call e f).0 ≡ ok o
      → (x : Exn) × (o ≡ some x)
  unfolding handle ◌>>=◌
  records call e f none h = absurd (ground arith)
  records call e f (some x) h = (x, refl)

  collect-fields :
      (call : Call V) (v : V) (o : Result (Option Exn)) {r : CallResult V}
      → collect env call v o ≡ ok r
      → (r.call ≡ call) × (r.return_value ≡ v) × (o ≡ ok r.error)
  unfolding collect
  collect-fields call v (ok e) h = (cc, cc, cc)
  collect-fields call v (err e) h = absurd (ground arith)

  run_call-fields :
      (c : CompiledCall V (Callable S V)) (w w' : S) {r : CallResult V}
      → run_call env c w ≡ (ok r, w')
      → let start : Frame S V = record { world = w; return_value = env.null } in
        let out = catching (handle env c.source) (attempt env c start) in
        (r.call ≡ c.source) × (r.return_value ≡ out.1.return_value) × (out.0 ≡ ok r.error)
  unfolding run_call ◌>>=◌
  run_call-fields c w w' h = collect-fields c.source _ _ (ap (λ p. p.0) h)

  -- What a call records whose `try` block raised before it had a value.
  failed :
      (c : CompiledCall V (Callable S V)) (w w' w1 : S) (r : CallResult V) (e : Exn)
      → run_call env c w ≡ (ok r, w')
      → attempt env c (record { world = w; return_value = env.null })
        ≡ (err e, record { world = w1; return_value = env.null })
      → Failed r
  failed c w w' w1 r e h a =
      let f : Frame S V = record { world = w1; return_value = env.null } in
      let fields = rw a at (run_call-fields c w w' h) in
      let (x, recorded) = records c.source e f r.error fields.2 in
      (fields.1 ∙ handle-return_value c.source e f, x, recorded)

  caught-value :
      (call : Call V) (o : Result (Option Exn) × Frame S V)
      → (catching (handle env call) o).1.return_value ≡ o.1.return_value
  caught-value call (ok e, f) = refl
  caught-value call (err e, f) = handle-return_value call e f

  answered :
      (c : CompiledCall V (Callable S V)) (w w' w1 : S) (r : CallResult V)
      → run_call env c w ≡ (ok r, w')
      → prepare c w ≡ (ok tt, w1)
      → (o : Result V × S) → c.target.invoke c.source.kwargs w1 ≡ o
      → IsAnswer r o
  answered c w w' w1 r h p (ok v, w2) i =
      let start : Frame S V = record { world = w; return_value = env.null } in
      (run_call-fields c w w' h).1
      ∙ caught-value c.source (attempt env c start)
      ∙ attempt-value c w w1 w2 env.null p i
  answered c w w' w1 r h p (err e, w2) i =
      failed c w w' w2 r e h (attempt-raised c w w1 w2 env.null p i)

  executed :
      (c : CompiledCall V (Callable S V)) (w w' : S) (r : CallResult V)
      → run_call env c w ≡ (ok r, w')
      → (o : Result Unit × S) → prepare c w ≡ o
      → IsExecuted c r o
  executed c w w' r h (ok u, w1) p =
      answered c w w' w1 r h p (c.target.invoke c.source.kwargs w1) refl
  executed c w w' r h (err e, w1) p = failed c w w' w1 r e h (attempt-unprepared c w w1 env.null p)

  ran-IsRun :
      (c : CompiledCall V (Callable S V)) (w w' : S) (r : CallResult V)
      → run_call env c w ≡ (ok r, w')
      → IsRun w c r w'
  ran-IsRun c w w' r h = (h, (run_call-fields c w w' h).0, executed c w w' r h (prepare c w) refl)

  run_from-IsTrace :
      (cs : List (CompiledCall V (Callable S V))) (acc rs : List (CallResult V)) (w w' : S)
      → run_from env acc cs w ≡ (ok rs, w')
      → (new : List (CallResult V)) × (rs ≡ acc ++ new) × IsTrace w' w new cs
  unfolding run_from ◌>>=◌
  run_from-IsTrace [] acc rs w w' h = ([], ground (arith, append-nil acc), done (ap (λ p. p.1) h))
  run_from-IsTrace (c ∷ cs) acc rs w w' h = elim (Out-cases (run_call env c w)) [
    | inr (e, w1, raised) ↦ absurd ground arith
    | inl (r, w1, ran) ↦ elim (Bool-cases (terminates env r)) [
      | inl ends ↦ (r ∷ [], ground arith, stop (ran-IsRun c w w1 r ran) (ground arith) ends)
      | inr goes ↦
          let (new, split, trace) = run_from-IsTrace cs (acc ++ r ∷ []) rs w1 w' (ground arith) in
          (r ∷ new, split ∙ append_assoc acc (r ∷ []) new, next (ran-IsRun c w w1 r ran) goes trace)
    ]
  ]

  -- A run that returns has run the calls in order, each in the world that the one before left, and
  -- has stopped exactly at the first result that ends the program. There is one result for each
  -- call that was run: of that call, with the value that its tool returned when invoked on the
  -- call's arguments once the context was unlocked, or, where the unlocking or the tool raised, with
  -- an error and no value.
  pub run-IsTrace :
      (cs : List (CompiledCall V (Callable S V))) (rs : List (CallResult V)) (w w' : S)
      → run env cs w ≡ (ok rs, w')
      → IsTrace w' w rs cs
  unfolding run
  run-IsTrace cs rs w w' h =
      let (new, split, trace) = run_from-IsTrace cs [] rs w w' h in rw split trace
