-- ===== src/Workflow/History/Signals.antt =====
-- workflow/history.go: the state of a signal, from the signal events of the history.
use skene.Prelude.{
  String, ◌≡◌, refl, true, Option, none, some, List, [], ◌∷◌, lookup, lookup-insert, arith, ltb,
  if◌then◌else◌, ◌==◌, string_key, eq_iff, Bool-cases, inl, inr,
}
use skene.Event.{Event, EventType, signal_waiting, signal_received, signal_timeout}
use skene.Event.Json.{unmarshal}
use skene.Event.Data.{
  SignalWaitingData, SignalReceivedData, SignalTimeoutData, signal_waiting_codec,
  signal_received_codec, signal_timeout_codec,
}
use skene.Workflow.History.{
  History, SignalState, index_type, index_event, index, new_history, empty_history, on_read,
  or_new_state, get_signal_state, update_signal,
}

abbrev advance : Event → History → History
advance e h = if ltb h.last_sequence e.sequence then record h { last_sequence = e.sequence } else h

-- What an event of the history does to the state of a signal; an event that is about another signal
-- does nothing.
abbrev pub signal_step : String → EventType → Event → Option SignalState → Option SignalState
signal_step name signal_waiting e o =
    on_read (unmarshal e.payload)
      (λ (d : SignalWaitingData).
        if d.signal_name == name
        then some (record (or_new_state o) { waiting = true; timeout_at = d.timeout_at })
        else o)
      o
signal_step name signal_received e o =
    on_read (unmarshal e.payload)
      (λ (d : SignalReceivedData).
        if d.signal_name == name
        then some (record (or_new_state o) { received = true; payload = d.payload })
        else o)
      o
signal_step name signal_timeout e o =
    on_read (unmarshal e.payload)
      (λ (d : SignalTimeoutData).
        if d.signal_name == name then some (record (or_new_state o) { timeout = true }) else o)
      o
signal_step name _ e o = o

lookup-update_signal :
    (j name : String) (f : SignalState → SignalState) (h : History)
    → lookup name (update_signal j f h).signals ≡ (
        if j == name
        then some (f (or_new_state (lookup name h.signals)))
        else lookup name h.signals)
lookup-update_signal j name f h = rw lookup-insert (elim (Bool-cases (j == name)) [
  | inl same ↦ rw (same, (eq_iff j name).0 same) refl
  | inr other ↦ rw other refl
])

-- Whatever is read, the update of the index is the step of the signal.
on_read-update_signal :
    {D : Type 0} (o : Option D) (name_of : D → String) (f : D → SignalState → SignalState)
    (name : String) (h : History)
    → lookup name (on_read o (λ d. update_signal (name_of d) (f d) h) h).signals
      ≡ on_read o
          (λ d.
            if name_of d == name
            then some (f d (or_new_state (lookup name h.signals)))
            else lookup name h.signals)
          (lookup name h.signals)
on_read-update_signal none name_of f name h = refl
on_read-update_signal (some d) name_of f name h = lookup-update_signal (name_of d) name (f d) h

signals-index_type :
    (name : String) (t : EventType) (e : Event) (h : History)
    → lookup name (index_type t e h).signals ≡ signal_step name t e (lookup name h.signals)
unfolding index_type
signals-index_type name signal_waiting e h =
    on_read-update_signal {D = SignalWaitingData} (unmarshal e.payload) (λ d. d.signal_name)
      (λ d state. record state { waiting = true; timeout_at = d.timeout_at }) name h
signals-index_type name signal_received e h =
    on_read-update_signal {D = SignalReceivedData} (unmarshal e.payload) (λ d. d.signal_name)
      (λ d state. record state { received = true; payload = d.payload }) name h
signals-index_type name signal_timeout e h =
    on_read-update_signal {D = SignalTimeoutData} (unmarshal e.payload) (λ d. d.signal_name)
      (λ d state. record state { timeout = true }) name h
signals-index_type name _ e h = ground arith

abbrev pub signal_steps : String → List Event → Option SignalState → Option SignalState
signal_steps name [] o = o
signal_steps name (e ∷ es) o = signal_steps name es (signal_step name e.type e o)

signals-index :
    (name : String) (es : List Event) (h : History)
    → lookup name (index es h).signals ≡ signal_steps name es (lookup name h.signals)
unfolding index index_event
signals-index name [] h = refl
signals-index name (e ∷ es) h =
    ground (
      arith,
      signals-index name es (index_event e h),
      signals-index_type name e.type e (advance e h),
    )

-- The state that a history has for a signal is the run of the signal's own events, in order, from
-- no state: a waiting event sets `waiting` and the time-out, a received event `received` and the
-- payload, a timeout event `timeout`, each leaving the rest, and other signals' events nothing.
pub get_signal_state-eq-signal_steps :
    (run_id : String) (es : List Event) (name : String)
    → get_signal_state (new_history run_id es) name ≡ signal_steps name es none
unfolding new_history lookup
get_signal_state-eq-signal_steps run_id es name = signals-index name es (empty_history run_id es)
