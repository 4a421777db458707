-- ===== src/Tests/Progress.antt =====
-- workflow/replay.go: the waves of a concrete workflow, which stop when no step is left.
use skene.Prelude.{◌≡◌, ◌↔◌, refl, true, none, String, Bool, [], ◌∷◌, Map, All, string_key, lookup}
use skene.Workflow.History.{History, new_history, index}
use skene.Workflow.Step.{ConfiguredStep, name, after}
use skene.Workflow.Replay.{
  is_done, first_fatal, find_ready_steps, filter_ready, sort_by_name, insert_by_name,
}
use skene.Workflow.Replay.NoStall.{find_ready_steps_progress}
use skene.Tests.Demo.{fetch, paint}
use skene.Tests.Definitions.{same_order, same_order-IsRange, backwards, sorted, backwards_is_sorted}

abbrev fresh : History
fresh = new_history "run" []

-- `fetch` is done, and `paint` comes before `audit`.
abbrev fetched : Map String Bool
fetched = ("fetch", true) ∷ []

no_fatal_error : first_fatal fresh sorted.steps ≡ none
unfolding first_fatal new_history index lookup
no_fatal_error = refl

paint_is_next : find_ready_steps fresh fetched sorted.steps ≡ after paint (fetch ∷ []) ∷ []
unfolding find_ready_steps filter_ready sort_by_name insert_by_name new_history index lookup
paint_is_next = refl

find_ready_steps_progress_example :
    (find_ready_steps fresh fetched sorted.steps ≡ [])
    ↔ All (λ (c : ConfiguredStep). is_done fetched (name c) ≡ true) sorted.steps
find_ready_steps_progress_example =
    find_ready_steps_progress same_order "demo" backwards sorted fresh fetched same_order-IsRange
      backwards_is_sorted no_fatal_error
