-- ===== src/Tests/Stores.antt =====
-- event/memory/store.go, retry/policy.go: runs of the store and of a policy, and their theorems at
-- concrete inputs.
use skene.Prelude.{
  ℕ, zero, suc, ◌+◌, ◌-◌, ◌*◌, ltb, pos_part, ◌≡◌, ◌≢◌, refl, none, some, [], ◌∷◌, ◌++◌, pos,
  lookup, insert, string_key,
}
use skene.Event.Store.{sequence_conflict, duplicate_event}
use skene.Event.Memory.{
  Store, new, validate, run_sequences, add_event, run_events, append, append_batch, add_events,
  load, load_since,
}
use skene.Event.Memory.Numbering.{IsSound, IsSound-new, append-IsSound}
use skene.Event.Memory.Batch.{
  append_each, or_rollback, append_batch-eq-append_each, append_batch-IsSound,
}
use skene.Event.Memory.Reads.{
  of_run, load-append_batch, since, load_since-eq-since, append-append_ne_none,
}
use skene.Retry.{Floats, next_delay}
use skene.Tests.Demo.{first_event, second_event, third_event, fourth_event, policy}

abbrev two_events : Store
two_events = (append_batch (first_event ∷ second_event ∷ []) new).1

append_batch_stores : (append_batch (first_event ∷ second_event ∷ []) new).0 ≡ none
unfolding append_batch validate run_sequences add_events add_event run_events lookup insert
append_batch_stores = refl

append_batch_gap :
    append_batch (first_event ∷ third_event ∷ []) new ≡ (some (sequence_conflict "run" 2 3), new)
unfolding append_batch validate run_sequences add_events add_event run_events lookup insert
append_batch_gap = refl

append_batch_twice : append_batch (first_event ∷ first_event ∷ []) new ≡ (some duplicate_event, new)
unfolding append_batch validate run_sequences add_events add_event run_events lookup insert
append_batch_twice = refl

load_since_one : load_since two_events "run" (pos 1) ≡ second_event ∷ []
unfolding append_batch validate run_sequences add_events add_event run_events lookup insert
    load_since
load_since_one = refl

two_events-IsSound : IsSound two_events
two_events-IsSound = append_batch-IsSound (first_event ∷ second_event ∷ []) new IsSound-new

append_batch-eq-append_each_example :
    append_batch (third_event ∷ first_event ∷ []) two_events
    ≡ or_rollback two_events (append_each (third_event ∷ first_event ∷ []) two_events)
append_batch-eq-append_each_example =
    append_batch-eq-append_each (third_event ∷ first_event ∷ []) two_events

append_batch-IsSound_example : IsSound (append_batch (third_event ∷ fourth_event ∷ []) two_events).1
append_batch-IsSound_example =
    append_batch-IsSound (third_event ∷ fourth_event ∷ []) two_events two_events-IsSound

append-IsSound_example : IsSound (append third_event two_events).1
append-IsSound_example = append-IsSound third_event two_events two_events-IsSound

load-append_batch_example :
    load (append_batch (third_event ∷ fourth_event ∷ []) two_events).1 "run"
    ≡ elim (append_batch (third_event ∷ fourth_event ∷ []) two_events).0 [
      | none ↦ load two_events "run" ++ of_run "run" (third_event ∷ fourth_event ∷ [])
      | some error ↦ load two_events "run"
    ]
load-append_batch_example = load-append_batch (third_event ∷ fourth_event ∷ []) two_events "run"

load_since-eq-since_example : load_since two_events "run" (pos 1) ≡ since 1 (load two_events "run")
load_since-eq-since_example = load_since-eq-since two_events "run" (pos 1) two_events-IsSound

append-append_ne_none_example :
    (append (record third_event { id = "other" }) (append third_event two_events).1).0 ≢ none
unfolding append_batch validate run_sequences add_events add_event run_events lookup insert append
append-append_ne_none_example =
    append-append_ne_none third_event (record third_event { id = "other" }) two_events refl refl
      refl

-- Powers and products of whole numbers.
abbrev power : ℕ → ℕ → ℕ
power b zero = 1
power b (suc n) = b * power b n

abbrev whole : Floats
whole = record {
  of_int = λ i. pos_part i;
  truncate = λ f. pos f;
  pow = power;
  add = λ a b. a + b;
  sub = λ a b. a - b;
  mul = λ a b. a * b;
  is_positive = λ f. ltb 0 f;
}

next_delay_third : next_delay whole policy (pos 3) 0 ≡ pos 400
unfolding next_delay
next_delay_third = refl

next_delay_ninth : next_delay whole policy (pos 9) 0 ≡ pos 1000
unfolding next_delay
next_delay_ninth = refl
