-- ===== src/Project/Fates/Told.antt =====
-- project/project.go, `ChildWorkflows`: each child with what the events after its start say of it.
use skene.Prelude.{
  ◌≡◌, refl, sym, ap, ◌∙◌, ℕ, ◌+◌, String, Option, none, some, List, [], ◌∷◌, ◌++◌, append-nil,
  append_assoc, lookup, insert, lookup-insert, keys, Distinct, insert-Distinct, length, ◌==◌,
  eq_iff, string_key, if◌then◌else◌, arith,
}
use skene.Event.{Event, EventType, child_spawned, child_completed, child_failed}
use skene.Event.Json.{unmarshal}
use skene.Event.Data.{
  ChildSpawnedData, ChildCompletedData, ChildFailedData, child_spawned_codec, child_completed_codec,
  child_failed_codec,
}
use skene.Workflow.History.{on_read}
use skene.Project.Children.{
  completed, ChildWorkflowResult, Children, spawn, finish, fail, finish_pending, child_type,
  child_events, child_workflows,
}
use skene.Project.Fates.{
  Fate, nothing, again, well, badly, fate, follow, told_child, begun, with_begun, told_by, told,
}
use skene.Project.Fates.Deletions.{delete-Distinct}
use skene.Project.Fates.Settle.{
  settle, settle-nil, settle_same, settle-append, settle-insert, settle-delete,
}
use skene.Project.Fates.Places.{Owned, Owned-insert, Owned-delete}

-- What the projection keeps of its state.
record Good (c : Children) : Type 0 where
  once : Distinct (keys c.pending)
  owned : Owned c.pending c.result

-- What one event does to the children that are told of, with those that it spawns.
record After (e : Event) (es : List Event) (begins : List ChildWorkflowResult) (c c' : Children)
    : Type 0 where
  good : Good c'
  told_on : settle c.pending 0 (e ∷ es) c.result ++ begins ≡ settle c'.pending 0 es c'.result

unchanged :
    (e : Event) (es : List Event) (c : Children)
    → Good c
    → ((x : ChildWorkflowResult) (j : ℕ)
        → lookup x.child_run_id c.pending ≡ some j
        → fate x.child_run_id e.type e ≡ nothing)
    → After e es [] c c
unchanged e es c g h = record {
  good = g;
  told_on = append-nil _ ∙ settle_same c.pending 0 e es c.result h;
}

spawned :
    (e : Event) (es : List Event) (d : ChildSpawnedData) (c : Children)
    → Good c
    → ((x : ChildWorkflowResult)
        → fate x.child_run_id e.type e
          ≡ (if d.child_run_id == x.child_run_id then again else nothing))
    → After e es (told_child (begun e.timestamp d) es ∷ []) c (spawn e d c)
spawned e es d c g said = record {
  good = record {
    once = insert-Distinct d.child_run_id (length c.result) c.pending g.once;
    owned = Owned-insert (begun e.timestamp d) c.pending c.result g.owned;
  };
  told_on =
      ap (λ l. l ++ told_child (begun e.timestamp d) es ∷ [])
        (settle-insert d.child_run_id (length c.result) c.pending 0 e es c.result (omega arith)
          said)
      ∙ sym (settle-append _ 0 es c.result (begun e.timestamp d) there);
}
  where
    there :
        lookup d.child_run_id (insert d.child_run_id (length c.result) c.pending)
        ≡ some (0 + length c.result)
    there = ground (
      arith,
      lookup-insert d.child_run_id d.child_run_id (length c.result) c.pending,
      eq_iff d.child_run_id d.child_run_id,
    )

ended :
    (e : Event) (es : List Event) (id : String) (f : ChildWorkflowResult → ChildWorkflowResult)
    (ending : Fate) (c : Children)
    → Good c
    → ((x : ChildWorkflowResult)
        → fate x.child_run_id e.type e ≡ (if id == x.child_run_id then ending else nothing))
    → ((x later : ChildWorkflowResult) → follow ending x later ≡ f x)
    → ((x : ChildWorkflowResult) → (f x).child_run_id ≡ x.child_run_id)
    → After e es [] c (finish_pending id f (lookup id c.pending) c)
unfolding finish_pending
ended e es id f ending c g said ends stays = go (lookup id c.pending) refl
  where
    go : (o : Option ℕ) → lookup id c.pending ≡ o → After e es [] c (finish_pending id f o c)
    go none p = unchanged e es c g (λ x j there. ground (arith, said x, eq_iff id x.child_run_id))
    go (some j) p = record {
      good = record {
        once = delete-Distinct id c.pending g.once;
        owned = Owned-delete id j f c.pending c.result g.once stays g.owned;
      };
      told_on =
          append-nil _
          ∙ settle-delete id j c.pending p g.once e es f ending said ends stays 0 j c.result
              (omega arith) (g.owned id j p).1;
    }

-- The children that an event begins.
abbrev begins : EventType → Event → List Event → List ChildWorkflowResult
begins t e es = told_by t e es []

child_type-After :
    (t : EventType) (e : Event) (es : List Event) (c : Children)
    → e.type ≡ t
    → Good c
    → After e es (begins t e es) c (child_type t e c)
unfolding child_type
child_type-After child_spawned e es c q g = go (unmarshal e.payload) refl
  where
    go :
        (o : Option ChildSpawnedData)
        → unmarshal e.payload ≡ o
        → After e es (with_begun e.timestamp o es []) c (on_read o (λ d. spawn e d c) c)
    go none p = unchanged e es c g (λ x j there. rw (q, p) refl)
    go (some d) p = spawned e es d c g (λ x. rw (q, p) refl)
child_type-After child_completed e es c q g = go (unmarshal e.payload) refl
  where
    go :
        (o : Option ChildCompletedData)
        → unmarshal e.payload ≡ o
        → After e es [] c (
            on_read o
              (λ d.
                finish_pending d.child_run_id
                  (finish completed e.timestamp)
                  (lookup d.child_run_id c.pending)
                  c)
              c)
    go none p = unchanged e es c g (λ x j there. rw (q, p) refl)
    go (some d) p =
        ended e es d.child_run_id (finish completed e.timestamp) (well e.timestamp) c g
          (λ x. rw (q, p) refl) (λ x later. refl) (λ x. refl)
child_type-After child_failed e es c q g = go (unmarshal e.payload) refl
  where
    go :
        (o : Option ChildFailedData)
        → unmarshal e.payload ≡ o
        → After e es [] c (
            on_read o
              (λ d.
                finish_pending d.child_run_id
                  (fail d.error e.timestamp)
                  (lookup d.child_run_id c.pending)
                  c)
              c)
    go none p = unchanged e es c g (λ x j there. rw (q, p) refl)
    go (some d) p =
        ended e es d.child_run_id (fail d.error e.timestamp) (badly d.error e.timestamp) c g
          (λ x. rw (q, p) refl) (λ x later. refl) (λ x. refl)
child_type-After _ e es c q g = unchanged e es c g (λ x j there. rw q refl)

told_by-begins :
    (t : EventType) (e : Event) (es : List Event) (rest : List ChildWorkflowResult)
    → told_by t e es rest ≡ begins t e es ++ rest
told_by-begins child_spawned e es rest = go (unmarshal e.payload)
  where
    go :
        (o : Option ChildSpawnedData)
        → with_begun e.timestamp o es rest ≡ with_begun e.timestamp o es [] ++ rest
    go none = refl
    go (some d) = refl
told_by-begins _ e es rest = refl

child_events-told :
    (es : List Event) (c : Children)
    → Good c
    → (child_events es c).result ≡ settle c.pending 0 es c.result ++ told es
unfolding child_events
child_events-told [] c g = sym (append-nil _ ∙ settle-nil c.pending 0 c.result)
child_events-told (e ∷ es) c g =
    let after = child_type-After e.type e es c refl g in
    child_events-told es (child_type e.type e c) after.good
    ∙ ap (λ l. l ++ told es) (sym after.told_on)
    ∙ append_assoc (settle c.pending 0 (e ∷ es) c.result) (begins e.type e es) (told es)
    ∙ ap (λ l. settle c.pending 0 (e ∷ es) c.result ++ l)
        (sym (told_by-begins e.type e es (told es)))

-- `ChildWorkflows` tells of each child that an event says was spawned, in the order of these events and of
-- no other: with its id, its workflow and the time of the event; and with the status, the time, the
-- duration and the error of the first later event that says that the child of its id has completed or
-- failed, if no event between them spawns a child under that id again; else as one that runs.
pub child_workflows-told : (es : List Event) → child_workflows es ≡ told es
unfolding child_workflows lookup
child_workflows-told es =
    child_events-told es (record { result = []; pending = [] })
      (record { once = tt; owned = λ id j h. cc })
