-- ===== src/Project/Invocations.antt =====
-- project/project.go: `StepInvocations`, the attempts of the steps of a run. A key of `pending` is the
-- text `name:c`, where c is the character 48 + attempt; it stands here as the pair of the name and the
-- code of the character, which the text determines and is determined by. The order in which `range`
-- visits a map is a parameter: what the n-th event finds there, as a list of the values.
use skene.Prelude.{
  ℕ, suc, ◌+◌, ◌≡◌, ◌↔◌, String, true, ◌&&◌, ◌||◌, Option, none, some, List, [], ◌∷◌, ◌++◌, Map,
  lookup, insert, delete, update_at, length, if◌then◌else◌, ◌==◌, ltb, Key, nat_eq, eq_iff, arith,
  ℤ,
}
use Prim.Native.Nat.{◌%◌}
use skene.Event.{Event, EventType, step_started, step_completed, step_failed}
use skene.Event.Json.{unmarshal}
use skene.Event.Data.{StepStartedData, StepFailedData, step_started_codec, step_failed_codec}
use skene.Workflow.History.{on_read}
use skene.Project.{milliseconds}

pub data InvocationStatus : Type 0 where
  started completed failed retrying : InvocationStatus

pub record StepInvocation : Type 0 where
  pub step_name : String
  pub attempt : ℕ
  pub status : InvocationStatus
  pub started_at : ℕ
  pub completed_at : Option ℕ
  pub duration_ms : Option ℤ
  pub error : Option String

pub record PendingInvocation : Type 0 where
  pub step_name : String
  pub attempt : ℕ
  pub started_at : ℕ
  pub index : ℕ

abbrev pub AttemptKey : Type 0
AttemptKey = String × ℕ

-- The character that `string(rune(n))` has: `rune` keeps 32 bits, and what is no code point, which is a
-- surrogate or above the last, or negative, is U+FFFD.
abbrev pub rune_text : ℕ → ℕ
rune_text n =
    let r = n % 4294967296 in if ltb r 55296 || (ltb 57343 r && ltb r 1114112) then r else 65533

-- `stepAttemptKey`
abbrev pub step_attempt_key : String → ℕ → AttemptKey
step_attempt_key step_name attempt = (step_name, rune_text (48 + attempt))

pub same_attempt_iff : (a b : AttemptKey) → ((a.0 == b.0) && nat_eq a.1 b.1 ≡ true) ↔ (a ≡ b)
same_attempt_iff (n, i) (m, j) = ground (arith, eq_iff n m)

instance abbrev pub attempt_key : Key AttemptKey
attempt_key = record { same = λ a b. (a.0 == b.0) && nat_eq a.1 b.1; same_iff = same_attempt_iff }

-- The result, and `pending`.
pub record Invocations : Type 0 where
  pub result : List StepInvocation
  pub pending : Map AttemptKey PendingInvocation

-- `findPendingAttempt`, on the values in the order they are visited
unfoldable pub find_pending_attempt : List PendingInvocation → String → ℕ
find_pending_attempt [] step_name = 0
find_pending_attempt (p ∷ ps) step_name =
    if p.step_name == step_name then p.attempt else find_pending_attempt ps step_name

-- The attempt that a start says, which is 1 when it says none or does not decode.
abbrev pub attempt_of : Option StepStartedData → ℕ
attempt_of none = 1
attempt_of (some d) = if nat_eq d.attempt 0 then 1 else d.attempt

abbrev pub start : Event → ℕ → Invocations → Invocations
start e attempt s = record {
  result =
      s.result
      ++ record {
        step_name = e.step_name;
        attempt = attempt;
        status = started;
        started_at = e.timestamp;
        completed_at = none;
        duration_ms = none;
        error = none;
      }
        ∷ [];
  pending =
      insert (step_attempt_key e.step_name attempt)
        (record {
          step_name = e.step_name;
          attempt = attempt;
          started_at = e.timestamp;
          index = length s.result;
        })
        s.pending;
}

-- The lines that the two ends of an attempt share.
abbrev pub end_attempt : InvocationStatus → ℕ → ℕ → StepInvocation → StepInvocation
end_attempt status begun ts inv = record inv {
  status = status;
  completed_at = some ts;
  duration_ms = some (milliseconds begun ts);
}

abbrev pub fail : StepFailedData → ℕ → ℕ → StepInvocation → StepInvocation
fail d begun ts inv =
    record (end_attempt (if d.will_retry then retrying else failed) begun ts inv) {
      error = some d.error;
    }

-- `if p, ok := pending[key]; ok { … }`, where `f` is told when the attempt was started.
unfoldable pub end_pending :
    AttemptKey
    → (ℕ → StepInvocation → StepInvocation)
    → Option PendingInvocation
    → Invocations
    → Invocations
end_pending key f none s = s
end_pending key f (some p) s = record {
  result = update_at p.index (f p.started_at) s.result;
  pending = delete key s.pending;
}

-- `pending[key]` after `findPendingAttempt`
abbrev pub complete : Event → ℕ → Invocations → Invocations
complete e attempt s =
    if nat_eq attempt 0
    then s
    else let key = step_attempt_key e.step_name attempt in
      end_pending key (λ begun. end_attempt completed begun e.timestamp) (lookup key s.pending) s

abbrev pub end_failed : Event → StepFailedData → Invocations → Invocations
end_failed e d s =
    let key = step_attempt_key e.step_name d.attempt in
    end_pending key (λ begun. fail d begun e.timestamp) (lookup key s.pending) s

module _ (visit : ℕ → Map AttemptKey PendingInvocation → List PendingInvocation) where
  -- The cases of the switch, at the n-th event
  unfoldable pub invocation_type : EventType → ℕ → Event → Invocations → Invocations
  unfolding find_pending_attempt end_pending
  invocation_type step_started n e s = start e (attempt_of (unmarshal e.payload)) s
  invocation_type step_completed n e s =
      complete e (find_pending_attempt (visit n s.pending) e.step_name) s
  invocation_type step_failed n e s =
      on_read (unmarshal e.payload) (λ (d : StepFailedData). end_failed e d s) s
  invocation_type _ n e s = s

  unfoldable pub invocation_events : ℕ → List Event → Invocations → Invocations
  unfolding invocation_type
  invocation_events n [] s = s
  invocation_events n (e ∷ es) s = invocation_events (suc n) es (invocation_type e.type n e s)

  -- `StepInvocations`
  unfoldable pub step_invocations : List Event → List StepInvocation
  unfolding invocation_events
  step_invocations events =
      (invocation_events 0 events (record { result = []; pending = [] })).result
