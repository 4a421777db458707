-- ===== src/Workflow/Replayer/Numbering.antt =====
-- workflow/replay.go, `emitEvent`: the numbers and the ids of the events of a replay.
use skene.Prelude.{
  ℕ, suc, ◌+◌, ◌<◌, String, ◌≡◌, ◌≢◌, refl, List, [], ◌∷◌, length, length-append, All, All-append,
  arith,
}
use skene.Event.{Event}
use skene.Event.Memory.Numbering.{Numbered, Numbered-snoc}
use skene.Event.Memory.Batch.{Distinct}
use skene.Workflow.Replayer.{Env, Replayer, emit_event, populated}

-- The events emitted so far go on from `n` with no gap, for the run, and `next_sequence` is the next
-- number; each has the id that the world gave for its number.
pub record Emitted (env : Env) (n : ℕ) (r : Replayer) : Type 0 where
  pub numbered : Numbered env.run_id n r.new_events
  pub next : r.next_sequence ≡ n + length r.new_events
  pub named : All (λ e. e.id ≡ env.new_id e.sequence) r.new_events

pub emit_event-Emitted :
    (env : Env) (n : ℕ) (e : Event) (r : Replayer)
    → Emitted env n r
    → Emitted env n (emit_event env e r)
unfolding emit_event
emit_event-Emitted env n e r h = record {
  numbered = Numbered-snoc env.run_id n r.new_events (populated env e r) h.numbered refl h.next;
  next = omega (arith, h.next, length-append {0} r.new_events (populated env e r ∷ []));
  named = All-append _ r.new_events (populated env e r ∷ []) h.named (refl, tt);
}

-- Numbered events whose ids are given by their numbers have distinct ids, if the world never gives
-- one id twice.
module _ (env : Env) (injective : (i j : ℕ) → env.new_id i ≡ env.new_id j → i ≡ j) where
  above :
      (r : String) (n : ℕ) (e : Event) (es : List Event)
      → Numbered r n es
      → e.sequence < n
      → e.id ≡ env.new_id e.sequence
      → All (λ d. d.id ≡ env.new_id d.sequence) es
      → All (λ d. e.id ≢ d.id) es
  above r n e [] h lt p q = tt
  above r n e (d ∷ es) h lt p q = (
    λ same. ground (arith, injective e.sequence d.sequence),
    above r (suc n) e es h.2 (omega arith) p q.1,
  )

  pub Numbered-Distinct :
      (r : String) (n : ℕ) (es : List Event)
      → Numbered r n es
      → All (λ d. d.id ≡ env.new_id d.sequence) es
      → Distinct es
  Numbered-Distinct r n [] h q = tt
  Numbered-Distinct r n (e ∷ es) h q =
      (above r (suc n) e es h.2 (omega arith) q.0 q.1, Numbered-Distinct r (suc n) es h.2 q.1)
