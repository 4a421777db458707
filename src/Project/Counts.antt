-- ===== src/Project/Counts.antt =====
-- project/project.go: `StepCounts`, how many attempts of each step ended in which way. A key of `running`
-- is the text `name:c` of Project/Invocations; `findRunningAttempt` reads it byte by byte, as the UTF-8 of
-- its characters. The order in which `range` visits the map is a parameter: what the n-th event finds
-- there, as a list of the keys.
use Prim.Native.Nat.{◌/◌, ◌%◌}
use Prim.Native.String.{◌++◌ as join, [] as no_text, ◌∷◌ as char}
use Prim.Native.Char.{code}
use skene.Prelude.{
  ℕ, zero, suc, ◌+◌, String, Bool, true, false, Option, none, some, List, [], ◌∷◌, Map, lookup,
  insert, delete, if◌then◌else◌, ltb, nat_eq, string_key, ℤ, pos, negsuc,
}
use skene.Event.{Event, EventType, step_started, step_completed, step_failed}
use skene.Event.Json.{unmarshal}
use skene.Event.Data.{StepFailedData, step_started_codec, step_failed_codec}
use skene.Workflow.History.{on_read}
use skene.Project.Invocations.{AttemptKey, attempt_key, step_attempt_key, attempt_of}

-- `StepCountResult`
pub record StepCountResult : Type 0 where
  pub step_name : String
  pub total : ℕ
  pub completed : ℕ
  pub failed : ℕ
  pub running : ℤ

-- What `result[name]` gives of a name that is not there
abbrev pub no_counts : StepCountResult
no_counts = record { step_name = ""; total = 0; completed = 0; failed = 0; running = pos 0 }

abbrev pub or_no_counts : Option StepCountResult → StepCountResult
or_no_counts none = no_counts
or_no_counts (some c) = c

-- `result[name]`
abbrev pub counts_of : String → Map String StepCountResult → StepCountResult
counts_of step_name m = or_no_counts (lookup step_name m)

-- `counts.Running++` and `counts.Running--`
abbrev pub one_more : ℤ → ℤ
one_more (pos n) = pos (suc n)
one_more (negsuc zero) = pos 0
one_more (negsuc (suc n)) = negsuc n

abbrev pub one_less : ℤ → ℤ
one_less (pos (suc n)) = pos n
one_less (pos zero) = negsuc 0
one_less (negsuc n) = negsuc (suc n)

-- The first byte of a character in UTF-8
abbrev pub first_byte : ℕ → ℕ
first_byte c =
    if ltb c 128
    then c
    else if ltb c 2048
    then 192 + c / 64
    else if ltb c 65536
    then 224 + c / 4096
    else 240 + c / 262144

-- `key[i] - '0'`, of a byte
abbrev pub digit_of : ℕ → ℕ
digit_of c = (first_byte c + 208) % 256

-- What follows `step_name` in a text that starts with it.
unfoldable pub strip : String → String → Option String
strip no_text t = some t
strip (char c s) no_text = none
strip (char c s) (char d t) =
    let rest = strip s t in if nat_eq (code c) (code d) then rest else none

-- The character after the colon, if what follows the name starts with one: `last` is that of the key's end.
abbrev pub after_colon : String → ℕ → Option ℕ
after_colon no_text last = none
after_colon (char x no_text) last = if nat_eq (code x) 58 then some last else none
after_colon (char x (char y t)) last = if nat_eq (code x) 58 then some (code y) else none

abbrev pub after_name : Option String → ℕ → Option ℕ
after_name none last = none
after_name (some rest) last = after_colon rest last

-- The test of a key in `findRunningAttempt`, and the character whose first byte it reads.
unfoldable pub match_key : String → AttemptKey → Option ℕ
unfolding strip
match_key step_name key = after_name (strip step_name (join key.0 ":")) key.1

-- `findRunningAttempt`, on the keys in the order they are visited
unfoldable pub find_running_attempt : List AttemptKey → String → ℕ
unfolding match_key
find_running_attempt [] step_name = 0
find_running_attempt (key ∷ keys) step_name = elim (match_key step_name key) [
  | some c ↦ digit_of c
  | none ↦ find_running_attempt keys step_name
]

-- The result, and `running`.
pub record Counts : Type 0 where
  pub result : Map String StepCountResult
  pub running : Map AttemptKey Bool

abbrev pub count_start : String → StepCountResult → StepCountResult
count_start step_name c = record c {
  step_name = step_name;
  total = c.total + 1;
  running = one_more c.running;
}

abbrev pub count_completed : StepCountResult → StepCountResult
count_completed c = record c { running = one_less c.running; completed = c.completed + 1 }

abbrev pub count_failed : StepCountResult → StepCountResult
count_failed c = record c { running = one_less c.running; failed = c.failed + 1 }

abbrev pub begin : Event → ℕ → Counts → Counts
begin e attempt s = record {
  result = insert e.step_name (count_start e.step_name (counts_of e.step_name s.result)) s.result;
  running = insert (step_attempt_key e.step_name attempt) true s.running;
}

abbrev pub is_running : Option Bool → Bool
is_running none = false
is_running (some b) = b

-- `if running[key] { … }`
unfoldable pub end_running :
    (StepCountResult → StepCountResult) → String → AttemptKey → Counts → Counts
end_running f step_name key s =
    if is_running (lookup key s.running)
    then record {
      result = insert step_name (f (counts_of step_name s.result)) s.result;
      running = delete key s.running;
    }
    else s

-- The case of `step.completed`, of what `findRunningAttempt` found
abbrev pub end_completed : Event → ℕ → Counts → Counts
end_completed e attempt s =
    let ended = end_running count_completed e.step_name (step_attempt_key e.step_name attempt) s in
    if nat_eq attempt 0 then s else ended

module _ (visit : ℕ → Map AttemptKey Bool → List AttemptKey) where
  -- The cases of the switch, at the n-th event
  unfoldable pub count_type : EventType → ℕ → Event → Counts → Counts
  unfolding find_running_attempt end_running
  count_type step_started n e s = begin e (attempt_of (unmarshal e.payload)) s
  count_type step_completed n e s =
      end_completed e (find_running_attempt (visit n s.running) e.step_name) s
  count_type step_failed n e s =
      on_read (unmarshal e.payload)
        (λ (d : StepFailedData).
          end_running count_failed e.step_name (step_attempt_key e.step_name d.attempt) s)
        s
  count_type _ n e s = s

  unfoldable pub count_events : ℕ → List Event → Counts → Counts
  unfolding count_type
  count_events n [] s = s
  count_events n (e ∷ es) s = count_events (suc n) es (count_type e.type n e s)

  -- `StepCounts`
  unfoldable pub step_counts : List Event → Map String StepCountResult
  unfolding count_events
  step_counts events = (count_events 0 events (record { result = []; running = [] })).result
