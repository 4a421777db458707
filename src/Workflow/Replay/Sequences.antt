-- ===== src/Workflow/Replay/Sequences.antt =====
-- workflow/replay.go: the sequence numbers of the events that a replay returns, and the store that
-- they are appended to.
use skene.Prelude.{
  ℕ, ◌+◌, String, ◌≡◌, subst, none, List, [], ◌∷◌, length, All, arith, if_cases, lookup, string_key,
  ◌⊎◌, inl, inr,
}
use skene.Event.{Event}
use skene.Event.Memory.{Store, load, get_last_sequence, append_batch, add_events}
use skene.Event.Memory.Numbering.{Numbered, IsSound}
use skene.Event.Memory.Batch.{Fresh, append_batch_accepts}
use skene.Workflow.History.{History, new_history}
use skene.Workflow.History.Flags.{last_sequence-load}
use skene.Workflow.Replayer.{
  Env, Replayer, new_replayer, note_branch_choice, add_waiting_signal, look, waits_for,
}
use skene.Workflow.Replayer.Numbering.{Emitted, emit_event-Emitted, Numbered-Distinct}
use skene.Workflow.Execute.Invariant.{Closed}
use skene.Workflow.Replay.{Replayed, ReplayOutput, returned, broken, replay}
use skene.Workflow.Replay.Waves.{replay_ends}
use skene.Workflow.Replay.Totality.{replay-Returns}
use skene.Workflow.Errors.{Error}

Emitted-closed : (env : Env) (n : ℕ) → Closed env (Emitted env n)
unfolding note_branch_choice add_waiting_signal look
Emitted-closed env n = record {
  emit = λ e r h. emit_event-Emitted env n e r h;
  note = λ name choice r h. record { numbered = h.numbered; next = h.next; named = h.named };
  await = λ name at r h. Emitted-await name at r h;
  looked = λ r h. record { numbered = h.numbered; next = h.next; named = h.named };
  cached = λ key output r h. record { numbered = h.numbered; next = h.next; named = h.named };
  child = λ r h. record { numbered = h.numbered; next = h.next; named = h.named };
  mapped = λ r h. record { numbered = h.numbered; next = h.next; named = h.named };
  grouped = λ g r h. record { numbered = h.numbered; next = h.next; named = h.named };
}
  where
    Emitted-await :
        (name : String) (at : ℕ) (r : Replayer)
        → Emitted env n r
        → Emitted env n (add_waiting_signal env name at r)
    Emitted-await name at r h =
        if_cases (Emitted env n) (waits_for env name r.waiting_signals) _ _ h
          (record { numbered = h.numbered; next = h.next; named = h.named })

-- What an output says of the events, in terms of the output alone.
abbrev Continues : Env → ℕ → Replayed → Type 0
Continues env n (returned o) =
    Numbered env.run_id n o.new_events
    × (o.next_sequence ≡ n + length o.new_events)
    × All (λ e. e.id ≡ env.new_id e.sequence) o.new_events
Continues env n _ = Unit

replay-Continues :
    (env : Env) (n : ℕ) (r : Replayer) → Emitted env n r → Continues env n (replay env r).0
replay-Continues env n r h =
    replay_ends env (Emitted env n) (Emitted-closed env n) (λ o. Continues env n o.0)
      (record {
        outputs = λ result output e signals r' p. (p.numbered, p.next, p.named);
        breaks = λ e r' p. tt;
        runs_out = λ r' p. tt;
      })
      r h

-- A replay comes to an output or to an error. The events of the output belong to the run and are
-- numbered with no gap from the sequence after the history's last, and `NextSequence` follows the last
-- of them: whatever steps that return do, calls of `Run` and `Map` included, however their goroutines are interleaved, and whichever way the
-- replay ends.
pub replay-Numbered :
    (env : Env) (history : History)
    → ((o : ReplayOutput) × ((replay env (new_replayer history)).0 ≡ returned o)
        × Numbered env.run_id (history.last_sequence + 1) o.new_events
        × (o.next_sequence ≡ history.last_sequence + 1 + length o.new_events))
      ⊎ ((e : Error) × ((replay env (new_replayer history)).0 ≡ broken e))
replay-Numbered env history = elim (replay-Returns env (new_replayer history)) [
  | inl (o, e) ↦
      let (numbered, next, named) =
        subst (Continues env (history.last_sequence + 1)) e (replay-continues history) in
      inl (o, e, numbered, next)
  | inr broke ↦ inr broke
]
  where
    replay-continues :
        (h : History) → Continues env (h.last_sequence + 1) (replay env (new_replayer h)).0
    replay-continues h =
        replay-Continues env (h.last_sequence + 1) (new_replayer h)
          (record { numbered = tt; next = omega arith; named = tt })

module _ (env : Env) (s : Store) (sound : IsSound s) where
  held : History
  held = new_history env.run_id (load s env.run_id)

  output_of_held :
      (o : ReplayOutput)
      → (replay env (new_replayer held)).0 ≡ returned o
      → Continues env (held.last_sequence + 1) (returned o)
  output_of_held o e = subst (Continues env (held.last_sequence + 1)) e (
      replay-Continues env (held.last_sequence + 1) (new_replayer held)
        (record { numbered = tt; next = omega arith; named = tt }))

  named-Fresh :
      ((i : ℕ) → lookup (env.new_id i) s.ids ≡ none)
      → (es : List Event) → All (λ d. d.id ≡ env.new_id d.sequence) es
      → Fresh s es
  named-Fresh unused [] h = tt
  named-Fresh unused (d ∷ es) h = (rw h.0 (unused d.sequence), named-Fresh unused es h.1)

  accepted :
      (o : ReplayOutput)
      → ((i j : ℕ) → env.new_id i ≡ env.new_id j → i ≡ j)
      → ((i : ℕ) → lookup (env.new_id i) s.ids ≡ none)
      → (replay env (new_replayer held)).0 ≡ returned o
      → append_batch o.new_events s ≡ (none, add_events o.new_events s)
  unfolding held
  accepted o injective unused e =
      let (numbered, next, named) = output_of_held o e in
      let continues : Numbered env.run_id (get_last_sequence s env.run_id + 1) o.new_events =
        subst (λ k. Numbered env.run_id (k + 1) o.new_events)
          (last_sequence-load s env.run_id sound) numbered in
      append_batch_accepts env.run_id o.new_events s continues
        (named-Fresh unused o.new_events named)
        (Numbered-Distinct env injective env.run_id _ o.new_events continues named)

-- A replay of what a sound store holds of a run comes to an error, or to an output whose events the
-- store accepts in one batch, if uuid.New gives no id twice and none that the store has.
pub replay-append_batch :
    (env : Env) (s : Store)
    → IsSound s
    → ((i j : ℕ) → env.new_id i ≡ env.new_id j → i ≡ j)
    → ((i : ℕ) → lookup (env.new_id i) s.ids ≡ none)
    → ((o : ReplayOutput) × ((replay env
            (new_replayer (new_history env.run_id (load s env.run_id)))).0
          ≡ returned o)
        × (append_batch o.new_events s ≡ (none, add_events o.new_events s)))
      ⊎ ((e : Error) × ((replay env (new_replayer (new_history env.run_id (load s env.run_id)))).0
            ≡ broken e))
unfolding held
replay-append_batch env s sound injective unused =
    elim (replay-Returns env (new_replayer (held env s sound))) [
      | inl (o, e) ↦ inl (o, e, accepted env s sound o injective unused e)
      | inr broke ↦ inr broke
    ]
