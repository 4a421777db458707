-- ===== src/Workflow/Errors.antt =====
-- The errors of the package workflow, as values: errors.New, fmt.Errorf with a wrapped error, the
-- sentinels of replay.go and signal.go, and those of the context package.
use Prim.Native.String.{◌++◌}
use skene.Prelude.{◌≡◌, refl, String, Bool, true, false, ◌&&◌, if◌then◌else◌, ◌==◌}

pub data Error : Type 0 where
  new : String → Error
  wrap : String → Error → Error
  replay_waiting : Error
  workflow_cancelled : Error
  canceled : Error
  deadline_exceeded : Error
  signal_wait : (signal_name reason : String) → Error

-- fmt's `%q`, for a text that needs no escape
unfoldable pub quote : String → String
quote s = "\"" ++ (s ++ "\"")

-- `Error()`. A wrapping text ends before the colon that joins it to the error inside.
unfoldable pub error_text : Error → String
unfolding quote
error_text (new s) = s
error_text (wrap s e) = s ++ (": " ++ error_text e)
error_text replay_waiting = "replay waiting for signal"
error_text workflow_cancelled = "workflow cancelled"
error_text canceled = "context canceled"
error_text deadline_exceeded = "context deadline exceeded"
error_text (signal_wait name reason) =
    if name == "" then "signal " ++ reason else "signal " ++ (quote name ++ (" " ++ reason))

-- errors.Is(err, ErrReplayWaiting)
abbrev pub is_waiting : Error → Bool
is_waiting replay_waiting = true
is_waiting (wrap _ e) = is_waiting e
is_waiting _ = false

-- `(*SignalWaitError).Is`, for a target of that type
unfoldable pub signal_wait_is : (name reason target_name target_reason : String) → Bool
signal_wait_is name reason target_name target_reason =
    if target_name == ""
    then reason == target_reason
    else name == target_name && reason == target_reason

-- A Go pair of a value and an error.
pub data Result (A : Type 0) : Type 0 where
  ok : A → Result A
  err : Error → Result A

pub Result_cases {ℓ κ} :
    {X : Type ℓ} (Q : X → Type κ) {B : Type 0} (o : Result B) (f : B → X) (g : Error → X)
    → ((b : B) → o ≡ ok b → Q (f b))
    → ((e : Error) → o ≡ err e → Q (g e))
    → Q (elim o [ ok b ↦ f b | err e ↦ g e ])
Result_cases Q (ok b) f g h k = h b refl
Result_cases Q (err e) f g h k = k e refl
