-- ===== src/River/Config.antt =====
-- river/config.go: `Config`, its test and its defaults. The pool, the store and the logger are of any
-- types; a pointer or an interface that may be nil is an option.
use skene.Prelude.{
  ◌≡◌, refl, ℕ, String, Bool, true, false, Option, none, some, ℤ, pos, negsuc, if◌then◌else◌, arith,
  ltb,
}
use skene.River.Registry.{Registry}

-- A duration is a number of nanoseconds.
abbrev default_job_timeout : ℤ
default_job_timeout = pos 30000000000

abbrev default_shutdown_timeout : ℤ
default_shutdown_timeout = pos 30000000000

abbrev is_negative : ℤ → Bool
is_negative (pos n) = false
is_negative (negsuc n) = true

abbrev is_unset : ℤ → Bool
is_unset (pos n) = if ltb 0 n then false else true
is_unset (negsuc n) = true

module _ (Pool Store Logger : Type 0) where
  -- `Config`, without the callback OnStepEmit
  pub record Config : Type 0 where
    pub pool : Option Pool
    pub event_store : Option Store
    pub registry : Option Registry
    pub logger : Option Logger
    pub workers : ℤ
    pub job_timeout : ℤ
    pub shutdown_timeout : ℤ

unset-default : (d e : ℤ) → is_unset e ≡ false → is_unset (if is_unset d then e else d) ≡ false
unset-default d e h = ground arith

negative-default : (d : ℤ) (n : ℕ) → is_negative (if is_negative d then pos n else d) ≡ false
negative-default (pos k) n = refl
negative-default (negsuc k) n = refl

some_default :
    {Logger : Type 0} (o : Option Logger) (noop : Logger)
    → (l : Logger) × (elim o [ none ↦ some noop | some k ↦ some k ] ≡ some l)
some_default none noop = (noop, refl)
some_default (some l) noop = (l, refl)

module _ {Pool Store Logger : Type 0} where
  -- `Validate`: the message of its error, if it returns one
  unfoldable pub validate : Config Pool Store Logger → Option String
  validate c = elim c.pool [
    | none ↦ some "river: Pool is required"
    | some _ ↦ elim c.event_store [
      | none ↦ some "river: EventStore is required"
      | some _ ↦ elim c.registry [ none ↦ some "river: Registry is required" | some _ ↦ none ]
    ]
  ]

  -- `withDefaults`, with the number of processors and the logger that logs nothing
  unfoldable pub with_defaults : ℕ → Logger → Config Pool Store Logger → Config Pool Store Logger
  with_defaults num_cpu noop c = record c {
    workers = if is_negative c.workers then pos num_cpu else c.workers;
    job_timeout = if is_unset c.job_timeout then default_job_timeout else c.job_timeout;
    shutdown_timeout =
        if is_unset c.shutdown_timeout then default_shutdown_timeout else c.shutdown_timeout;
    logger = elim c.logger [ none ↦ some noop | some l ↦ some l ];
  }

  -- What the runner reads of a configuration that its defaults have filled.
  pub record Filled (before after : Config Pool Store Logger) : Type 0 where
    pub valid : validate after ≡ validate before
    pub workers : is_negative after.workers ≡ false
    pub job_timeout : is_unset after.job_timeout ≡ false
    pub shutdown_timeout : is_unset after.shutdown_timeout ≡ false
    pub logger : (l : Logger) × (after.logger ≡ some l)

  -- The defaults change nothing that `Validate` tests, and leave no negative number of workers, no timeout
  -- that is not positive, and a logger.
  with_defaults-Filled :
      (num_cpu : ℕ) (noop : Logger) (c : Config Pool Store Logger)
      → Filled c (with_defaults num_cpu noop c)
  unfolding with_defaults validate
  with_defaults-Filled num_cpu noop c = record {
    valid = refl;
    workers = negative-default c.workers num_cpu;
    job_timeout = unset-default c.job_timeout default_job_timeout refl;
    shutdown_timeout = unset-default c.shutdown_timeout default_shutdown_timeout refl;
    logger = some_default c.logger noop;
  }
