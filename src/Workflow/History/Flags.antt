-- ===== src/Workflow/History/Flags.antt =====
-- workflow/history.go: the last sequence of a history, and whether the run has ended.
use Prim.Native.Nat.{max}
use skene.Prelude.{
  ℕ, suc, ◌+◌, String, ◌≡◌, Bool, true, false, ◌||◌, List, [], ◌∷◌, length, arith, ltb,
  if◌then◌else◌,
}
use skene.Event.{Event, EventType, workflow_started, workflow_completed, workflow_cancelled}
use skene.Event.Memory.{Store, load, get_last_sequence}
use skene.Event.Memory.Numbering.{Numbered, IsSound}
use skene.Workflow.History.{History, index_type, index_event, index, new_history, empty_history}

last_sequence-index_type :
    (t : EventType) (e : Event) (h : History) → (index_type t e h).last_sequence ≡ h.last_sequence
unfolding index_type
last_sequence-index_type workflow_started e h = ground arith
last_sequence-index_type _ e h = ground arith

completed-index_type :
    (t : EventType) (e : Event) (h : History)
    → (index_type t e h).completed ≡ (elim t [ workflow_completed ↦ true | _ ↦ h.completed ])
unfolding index_type
completed-index_type workflow_started e h = ground arith
completed-index_type _ e h = ground arith

cancelled-index_type :
    (t : EventType) (e : Event) (h : History)
    → (index_type t e h).cancelled ≡ (elim t [ workflow_cancelled ↦ true | _ ↦ h.cancelled ])
unfolding index_type
cancelled-index_type workflow_started e h = ground arith
cancelled-index_type _ e h = ground arith

abbrev advance : Event → History → History
advance e h = if ltb h.last_sequence e.sequence then record h { last_sequence = e.sequence } else h

abbrev pub max_sequence : List Event → ℕ
max_sequence [] = 0
max_sequence (e ∷ es) = max e.sequence (max_sequence es)

last_sequence-index :
    (es : List Event) (h : History)
    → (index es h).last_sequence ≡ max h.last_sequence (max_sequence es)
unfolding index
last_sequence-index [] h = omega arith
last_sequence-index (e ∷ es) h = ground (
  arith,
  last_sequence-index es (index_event e h),
  last_sequence-index_type e.type e (advance e h),
)

-- `LastSequence` is the greatest sequence of the history's events, and 0 if there are none.
pub last_sequence-eq-max_sequence :
    (run_id : String) (es : List Event) → (new_history run_id es).last_sequence ≡ max_sequence es
unfolding new_history
last_sequence-eq-max_sequence run_id es =
    omega (arith, last_sequence-index es (empty_history run_id es))

max_sequence-Numbered :
    (r : String) (n : ℕ) (es : List Event)
    → Numbered r (suc n) es
    → (max n (max_sequence es) ≡ n + length es)
max_sequence-Numbered r n [] h = omega arith
max_sequence-Numbered r n (e ∷ es) h = omega (arith, max_sequence-Numbered r (suc n) es h.2)

-- The history of what a sound store holds of a run has the store's last sequence of the run, so
-- that the next event of the replay goes on where the store ends.
pub last_sequence-load :
    (s : Store) (r : String)
    → IsSound s
    → (new_history r (load s r)).last_sequence ≡ get_last_sequence s r
unfolding load get_last_sequence
last_sequence-load s r sound = omega (
  arith,
  last_sequence-eq-max_sequence r (load s r),
  max_sequence-Numbered r 0 (load s r) (sound.numbered r),
)

abbrev pub is_completion : EventType → Bool
is_completion workflow_completed = true
is_completion _ = false

abbrev pub is_cancellation : EventType → Bool
is_cancellation workflow_cancelled = true
is_cancellation _ = false

abbrev pub any : (Event → Bool) → List Event → Bool
any p [] = false
any p (e ∷ es) = p e || any p es

completed-index_event :
    (e : Event) (h : History) → (index_event e h).completed ≡ h.completed || is_completion e.type
unfolding index_event
completed-index_event e h = ground (arith, completed-index_type e.type e (advance e h))

cancelled-index_event :
    (e : Event) (h : History) → (index_event e h).cancelled ≡ h.cancelled || is_cancellation e.type
unfolding index_event
cancelled-index_event e h = ground (arith, cancelled-index_type e.type e (advance e h))

flags-index :
    (es : List Event) (h : History)
    → ((index es h).completed ≡ h.completed || any (λ e. is_completion e.type) es)
      × ((index es h).cancelled ≡ h.cancelled || any (λ e. is_cancellation e.type) es)
unfolding index
flags-index [] h = ground arith
flags-index (e ∷ es) h =
    ground (
      arith,
      flags-index es (index_event e h),
      completed-index_event e h,
      cancelled-index_event e h,
    )

-- A history is completed exactly when it holds a workflow.completed event, and cancelled exactly
-- when it holds a workflow.cancelled event.
pub flags-new_history :
    (run_id : String) (es : List Event)
    → ((new_history run_id es).completed ≡ any (λ e. is_completion e.type) es)
      × ((new_history run_id es).cancelled ≡ any (λ e. is_cancellation e.type) es)
unfolding new_history
flags-new_history run_id es = ground (arith, flags-index es (empty_history run_id es))
