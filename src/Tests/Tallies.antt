-- ===== src/Tests/Tallies.antt =====
-- project/project.go: the counts of the steps of a run.
use skene.Prelude.{
  ℕ, ◌≡◌, refl, Bool, some, List, [], ◌∷◌, Map, map, lookup, insert, delete, string_key, pos,
}
use skene.Event.Json.{marshal, marshal_or_nil, unmarshal}
use skene.Project.Invocations.{AttemptKey}
use skene.Project.Counts.{
  find_running_attempt, match_key, strip, count_type, count_events, end_running, step_counts,
}
use skene.Tests.Projections.{attempts}

-- A map that is visited in the order of its entries
abbrev keys_in_order : ℕ → Map AttemptKey Bool → List AttemptKey
keys_in_order n m = map (λ entry. entry.0) m

-- The first attempt has failed, and the second is completed.
two_attempts :
    lookup "charge" (step_counts keys_in_order attempts)
    ≡ some (record { step_name = "charge"; total = 2; completed = 1; failed = 1; running = pos 0 })
unfolding step_counts count_events count_type end_running find_running_attempt match_key strip
    lookup insert delete marshal_or_nil marshal unmarshal
two_attempts = refl

-- The key of the first attempt of a step `a:b` is read as one of a step `a`, with what is no digit.
another_step : find_running_attempt (("a:b", 49) ∷ []) "a" ≡ 50
unfolding find_running_attempt match_key strip
another_step = refl

-- The tenth attempt has the colon for its digit.
tenth : find_running_attempt (("charge", 58) ∷ []) "charge" ≡ 10
unfolding find_running_attempt match_key strip
tenth = refl

-- The character of the eightieth attempt is read as that of another attempt.
eightieth : find_running_attempt (("charge", 128) ∷ []) "charge" ≡ 146
unfolding find_running_attempt match_key strip
eightieth = refl
