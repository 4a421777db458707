-- ===== src/River/World/Rules.antt =====
-- The actions on a world that write nothing: a rule for each way to build one.
use skene.Prelude.{◌≡◌, refl, ◌∙◌, String, Option, none, some, Option_cases}
use skene.River.Errors.{RunnerError, Outcome, ok, err}
use skene.River.World.{
  EventStore, World, Host, Action, ◌>>=◌, followed, wrap_error, pure, raise, or_raise, within, call,
  fresh_id, clock, load_events,
}

-- `w'` has the store and the jobs of `w`.
pub record Same {S : Type 0} (w w' : World S) : Type 0 where
  pub store : w'.store ≡ w.store
  pub jobs : w'.jobs ≡ w.jobs

Same-trans : {S : Type 0} {u v w : World S} → Same u v → Same v w → Same u w
Same-trans a b = record { store = b.store ∙ a.store; jobs = b.jobs ∙ a.jobs }

-- The action writes nothing to the store and to the jobs.
pub record Reads {S A : Type 0} (m : Action S A) : Type 0 where
  pub same : (w : World S) → Same w (m w).1

module _ {S A : Type 0} where
  pub Reads-pure : (a : A) → Reads {S = S} (pure a)
  unfolding pure
  Reads-pure a = record { same = λ w. record { store = refl; jobs = refl } }

  pub Reads-raise : (e : RunnerError) → Reads {S = S} {A = A} (raise e)
  unfolding raise
  Reads-raise e = record { same = λ w. record { store = refl; jobs = refl } }

  pub Reads-or_raise : (e : RunnerError) (o : Option A) → Reads {S = S} (or_raise e o)
  unfolding or_raise
  Reads-or_raise e none = Reads-raise e
  Reads-or_raise e (some a) = Reads-pure a

  pub Reads-within : (text : String) (m : Action S A) → Reads m → Reads (within text m)
  unfolding within
  Reads-within text m h = record { same = λ w. go (m w) (h.same w) }
    where
      go : {w : World S} (r : Outcome A × World S) → Same w r.1 → Same w (wrap_error text r).1
      go (ok a, w') q = q
      go (err e, w') q = q

module _ {S A B : Type 0} where
  pub Reads-bind :
      (m : Action S A) (k : A → Action S B) → Reads m → ((a : A) → Reads (k a)) → Reads (m >>= k)
  unfolding ◌>>=◌
  Reads-bind m k h g = record { same = λ w. go (m w) (h.same w) }
    where
      go : {w : World S} (r : Outcome A × World S) → Same w r.1 → Same w (followed k r).1
      go (ok a, w') q = Same-trans q ((g a).same w')
      go (err e, w') q = q

module _ (host : Host) {S : Type 0} where
  pub Reads-call : Reads (call host {S = S})
  unfolding call
  Reads-call = record {
    same = λ w.
        Option_cases (λ (o : Outcome (Unit {0}) × World S). Same w o.1) (host.fails w.calls) _ _
          (λ _. record { store = refl; jobs = refl }) (λ e _. record { store = refl; jobs = refl });
  }

  pub Reads-fresh_id : Reads (fresh_id host {S = S})
  unfolding fresh_id
  Reads-fresh_id = record { same = λ w. record { store = refl; jobs = refl } }

  pub Reads-clock : Reads (clock host {S = S})
  unfolding clock
  Reads-clock = record { same = λ w. record { store = refl; jobs = refl } }

module _ (host : Host) (E : EventStore) where
  pub Reads-load_events : (run_id : String) → Reads (load_events host E run_id)
  unfolding load_events
  Reads-load_events run_id =
      Reads-bind (within "load events" (call host)) _
        (Reads-within "load events" (call host) (Reads-call host))
        (λ _. record { same = λ w. record { store = refl; jobs = refl } })
