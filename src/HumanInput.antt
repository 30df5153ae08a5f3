-- ===== src/HumanInput.antt =====
-- src/nova_act/tools/human/interface/human_input_callback.py: the tools that ask a human. `W` is what
-- the client's callbacks act on, and the clock is read from it.
pub mod Waiting
use nova_act.Prelude.{ℕ, Bool, true, Option, none, some, List, [], ◌∷◌}
use nova_act.Prelude.Text.{Text, text}
use nova_act.Errors.{Exn, Result, ok, err, act_exn}
use nova_act.Errors.Classes.{
  approve_canceled_error, ui_takeover_canceled_error, no_human_input_tool_available,
}
use nova_act.Effect.{M, pure, raise, reading, ◌>>=◌, ◌>>◌}
use nova_act.WaitTracker.{WaitTracker, start_wait, end_wait}

pub data ApprovalResponse : Type 0 where
  yes_response cancel : ApprovalResponse

pub data UiTakeoverResponse : Type 0 where
  complete cancel : UiTakeoverResponse

-- `none` is the tracker `_NullWaitTimeTracker`, whose methods do nothing.
pub record Provider (W : Type 0) : Type 0 where
  pub world : W
  pub wait_time_tracker : Option WaitTracker

pub record Callbacks (W : Type 0) : Type 0 where
  pub time : W → ℕ
  pub approve_callback : Text → M W ApprovalResponse
  pub ui_takeover_callback : Text → M W UiTakeoverResponse

module _ {W : Type 0} where
  -- `try: m finally: last`: the exception of `last` hides what `m` left.
  unfoldable pub after : {A : Type 0} → Result A → Result Unit × Provider W → Result A × Provider W
  after r (ok u, p) = (r, p)
  after r (err e, p) = (err e, p)

  unfoldable pub try_finally :
      {A : Type 0} → M (Provider W) A → M (Provider W) Unit → M (Provider W) A
  unfolding after
  try_finally m last p = let out = m p in after out.0 (last out.1)

  unfoldable pub at_callback : {A : Type 0} → M W A → M (Provider W) A
  at_callback m p = let out = m p.world in (out.0, record p { world = out.1 })

  track : (WaitTracker → Result Unit × WaitTracker) → Option WaitTracker → M (Provider W) Unit
  track f none p = (ok tt, p)
  track f (some t) p = let out = f t in (out.0, record p { wait_time_tracker = some out.1 })

  unfoldable pub tracked : (WaitTracker → Result Unit × WaitTracker) → M (Provider W) Unit
  unfolding track
  tracked f p = track f p.wait_time_tracker p

  answer_approval : ApprovalResponse → M (Provider W) Text
  answer_approval yes_response = pure (text "yes")
  answer_approval ApprovalResponse.cancel = raise (act_exn approve_canceled_error none)

  answer_takeover : UiTakeoverResponse → M (Provider W) Text
  answer_takeover complete = pure (text "complete")
  answer_takeover UiTakeoverResponse.cancel = raise (act_exn ui_takeover_canceled_error none)

module _ {W : Type 0} (callbacks : Callbacks W) where
  now : Provider W → ℕ
  now p = callbacks.time p.world

  unfoldable pub approve : Text → M (Provider W) Text
  unfolding try_finally at_callback tracked answer_approval now
  approve message = do
    reading (λ p. tracked (start_wait (now p)))
    try_finally (do r ← at_callback (callbacks.approve_callback message); answer_approval r)
        (reading (λ p. tracked (end_wait (now p))))

  unfoldable pub ui_takeover : Text → M (Provider W) Text
  unfolding try_finally at_callback tracked answer_takeover now
  ui_takeover message = do
    reading (λ p. tracked (start_wait (now p)))
    try_finally (do r ← at_callback (callbacks.ui_takeover_callback message); answer_takeover r)
        (reading (λ p. tracked (end_wait (now p))))

-- `DefaultHumanInputCallbacks`: nobody is there to answer.
module _ {W : Type 0} where
  unfoldable pub default_callbacks : (W → ℕ) → Callbacks W
  default_callbacks time = record {
    time = time;
    approve_callback = λ message. raise (act_exn no_human_input_tool_available (some message));
    ui_takeover_callback = λ message. raise (act_exn no_human_input_tool_available (some message));
  }
