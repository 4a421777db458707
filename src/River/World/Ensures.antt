-- ===== src/River/World/Ensures.antt =====
-- What an action on a world has brought about when it succeeds: a rule for each way to build one.
use skene.Prelude.{
  ◌≡◌, refl, sym, String, Bool, true, false, Option, none, some, List, [], ◌∷◌, ◌++◌, Option_cases,
  if_cases, subst,
}
use skene.Event.{Event}
use skene.Event.Store.{StoreError}
use skene.River.Errors.{RunnerError, Outcome, ok, err}
use skene.River.World.{
  EventStore, Job, World, Host, Action, ◌>>=◌, followed, wrap_error, pure, raise, or_raise, within,
  call, load_events, append_event, insert_job, conclude, transaction, stored,
}
use skene.River.World.Rules.{Reads, Reads-within, Reads-call}

-- What a result says: nothing if it is an error.
abbrev pub Says : {S A : Type 0} → (A → S → List Job → Type 0) → Outcome A × World S → Type 0
Says Q (ok a, w) = Q a w.store w.jobs
Says Q (err e, w) = Unit

-- If `P` holds of the store and the queue and the action succeeds, then `Q` holds of what it returns and
-- of the store and the queue that it leaves.
pub record Ensures {S A : Type 0} (P : S → List Job → Type 0) (m : Action S A)
    (Q : A → S → List Job → Type 0) : Type 0 where
  pub ensured : (w : World S) → P w.store w.jobs → Says Q (m w)

pub Says-ok :
    {S A : Type 0} (Q : A → S → List Job → Type 0) (r : Outcome A × World S) (a : A)
    → Says Q r
    → r.0 ≡ ok a
    → Q a r.1.store r.1.jobs
Says-ok Q (ok b, w) a q h = subst (λ (o : Outcome _). Says Q (o, w)) h q
Says-ok Q (err e, w) a q h = cc

module _ {S A : Type 0} (P : S → List Job → Type 0) (Q : A → S → List Job → Type 0) where
  pub Ensures-pure :
      (a : A) → ((s : S) (jobs : List Job) → P s jobs → Q a s jobs) → Ensures P (pure a) Q
  unfolding pure
  Ensures-pure a f = record { ensured = λ w p. f w.store w.jobs p }

  pub Ensures-raise : (e : RunnerError) → Ensures P (raise e) Q
  unfolding raise
  Ensures-raise e = record { ensured = λ w p. tt }

  pub Ensures-within :
      (text : String) (m : Action S A) → Ensures P m Q → Ensures P (within text m) Q
  unfolding within
  Ensures-within text m f = record { ensured = λ w p. go (m w) (f.ensured w p) }
    where
      go : (r : Outcome A × World S) → Says Q r → Says Q (wrap_error text r)
      go (ok a, w) q = q
      go (err e, w) q = tt

  pub Ensures-fail : (e : RunnerError) → Ensures P (λ w. (err e, w)) Q
  Ensures-fail e = record { ensured = λ w p. tt }

module _ {S A B : Type 0} (P : S → List Job → Type 0) (R : A → S → List Job → Type 0)
    (Q : B → S → List Job → Type 0) where
  pub Ensures-bind :
      (m : Action S A) (k : A → Action S B)
      → Ensures P m R
      → ((a : A) → Ensures (R a) (k a) Q)
      → Ensures P (m >>= k) Q
  unfolding ◌>>=◌
  Ensures-bind m k f g = record { ensured = λ w p. go (m w) (f.ensured w p) }
    where
      go : (r : Outcome A × World S) → Says R r → Says Q (followed k r)
      go (ok a, w) q = (g a).ensured w q
      go (err e, w) q = tt

module _ {S A B : Type 0} (P : S → List Job → Type 0) (Q : B → S → List Job → Type 0) where
  -- What reads keeps the precondition for what follows.
  pub Ensures-after_read :
      (m : Action S A) (k : A → Action S B)
      → Reads m
      → ((a : A) → Ensures P (k a) Q)
      → Ensures P (m >>= k) Q
  unfolding ◌>>=◌
  Ensures-after_read m k f g = record {
    ensured = λ w p.
        let same = f.same w in
        go (m w)
          (subst (λ s. P s (m w).1.jobs) (sym same.store) (subst (P w.store) (sym same.jobs) p));
  }
    where
      go : (r : Outcome A × World S) → P r.1.store r.1.jobs → Says Q (followed k r)
      go (ok a, w) q = (g a).ensured w q
      go (err e, w) q = tt

  -- A value that the code has in hand is what it was made of.
  pub Ensures-or_raise :
      (e : RunnerError) (o : Option A) (k : A → Action S B)
      → ((a : A) → o ≡ some a → Ensures P (k a) Q)
      → Ensures P (or_raise e o >>= k) Q
  unfolding or_raise ◌>>=◌ pure raise
  Ensures-or_raise e none k f = record { ensured = λ w p. tt }
  Ensures-or_raise e (some a) k f = record { ensured = λ w p. (f a refl).ensured w p }

module _ (host : Host) (E : EventStore) where
  -- The events are those of the store, of which the precondition tells what they are.
  pub Ensures-load_known :
      {B : Type 0} (P : E.S → List Job → Type 0) (Q : B → E.S → List Job → Type 0) (run_id : String)
      (known : List Event) (k : List Event → Action E.S B)
      → ((s : E.S) (jobs : List Job) → P s jobs → E.load s run_id ≡ known)
      → ((es : List Event) → es ≡ known → Ensures P (k es) Q)
      → Ensures P (load_events host E run_id >>= k) Q
  unfolding load_events
  Ensures-load_known P Q run_id known k l f =
      Ensures-bind P (λ es s jobs. P s jobs × (es ≡ known)) Q _ k
        (Ensures-after_read P _ (within "load events" (call host)) _
          (Reads-within "load events" (call host) (Reads-call host))
          (λ _. record { ensured = λ w p. (p, l w.store w.jobs p) }))
        (λ es. record { ensured = λ w q. (f es q.1).ensured w q.0 })

  pub Ensures-insert_job :
      (P : E.S → List Job → Type 0) (Q : Unit {0} → E.S → List Job → Type 0) (job : Job)
      → ((s : E.S) (jobs : List Job) → P s jobs → Q tt s (jobs ++ job ∷ []))
      → Ensures P (insert_job host E job) Q
  unfolding insert_job
  Ensures-insert_job P Q job f =
      Ensures-after_read P Q (call host) _ (Reads-call host)
        (λ _. record { ensured = λ w p. f w.store w.jobs p })

  pub Ensures-append_event :
      (P : E.S → List Job → Type 0) (Q : Unit {0} → E.S → List Job → Type 0) (e : Event)
      → ((s : E.S) (jobs : List Job)
          → P s jobs
          → (E.append e s).0 ≡ none
          → Q tt (E.append e s).1 jobs)
      → ((s : E.S) (jobs : List Job)
          → P s jobs
          → (E.append_batch (e ∷ []) s).0 ≡ none
          → Q tt (E.append_batch (e ∷ []) s).1 jobs)
      → Ensures P (append_event host E e) Q
  unfolding append_event
  Ensures-append_event P Q e one many = Ensures-after_read P Q (call host) _ (Reads-call host) (λ _.
      record {
        ensured = λ w p.
            if_cases (λ (o : Option StoreError × E.S). Says Q (stored host E o w)) E.transactional _
              _ (go w (E.append_batch (e ∷ []) w.store) (many w.store w.jobs p))
              (go w (E.append e w.store) (one w.store w.jobs p));
      })
    where
      go :
          (w : World E.S) (o : Option StoreError × E.S)
          → (o.0 ≡ none → Q tt o.1 w.jobs)
          → Says Q (stored host E o w)
      go w (none, s) q = q refl
      go w (some x, s) q = tt

  -- A transaction whose body always commits.
  pub Ensures-transaction :
      {A : Type 0} (P : E.S → List Job → Type 0) (Q : A → E.S → List Job → Type 0)
      (wrap : RunnerError → RunnerError) (body : Action E.S (Bool × A))
      → Ensures P body (λ b s jobs. (b.0 ≡ true) × Q b.1 s jobs)
      → Ensures P (transaction host E wrap body) Q
  unfolding transaction
  Ensures-transaction {A = A} P Q wrap body f =
      Ensures-after_read P Q (within "begin transaction" (call host)) _
        (Reads-within "begin transaction" (call host) (Reads-call host))
        (λ _. record { ensured = λ w p. go w (body w) (f.ensured w p) })
    where
      go :
          (w : World E.S) (r : Outcome (Bool × A) × World E.S)
          → Says (λ (b : Bool × A) s jobs. (b.0 ≡ true) × Q b.1 s jobs) r
          → Says Q (conclude host E wrap w r)
      go w (err e, w') q = tt
      go w (ok (false, a), w') q = cc
      go w (ok (true, a), w') q =
          Option_cases (Says Q) (host.fails w'.calls) _ _ (λ _. q.1) (λ e _. tt)
