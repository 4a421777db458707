-- ===== src/Retry.antt =====
-- retry/policy.go: retry policies. The float64 arithmetic of Go and the random source are a
-- parameter, since they are no code of the repository.
use skene.Prelude.{ℕ, Bool, ◌&&◌, not, if◌then◌else◌, ℤ, pos, negsuc, ltz}

-- What the package takes of float64, math.Pow and time.Duration's conversions. `truncate` is the
-- conversion to an int64, `of_int` that from one.
-- A float64 is its bit pattern.
abbrev pub Float : Type 0
Float = ℕ

pub record Floats : Type 0 where
  pub of_int : ℤ → Float
  pub truncate : Float → ℤ
  pub pow : Float → Float → Float
  pub add : Float → Float → Float
  pub sub : Float → Float → Float
  pub mul : Float → Float → Float
  pub is_positive : Float → Bool

pub record Policy : Type 0 where
  pub max_attempts : ℤ
  pub initial_delay : ℤ
  pub max_delay : ℤ
  pub multiplier : Float
  pub jitter : Float

-- `Default`: the floats are the bits of 2.0 and 0.1.
abbrev pub default_policy : Policy
default_policy = record {
  max_attempts = pos 3;
  initial_delay = pos 1000000000;
  max_delay = pos 30000000000;
  multiplier = 4611686018427387904;
  jitter = 4591870180066957722;
}

-- `NoRetry`: the floats are the bits of 1.0 and 0.
abbrev pub no_retry : Policy
no_retry = record {
  max_attempts = pos 1;
  initial_delay = pos 0;
  max_delay = pos 0;
  multiplier = 4607182418800017408;
  jitter = 0;
}

-- x - 1, on the integers
abbrev pub pred_int : ℤ → ℤ
pred_int (pos ℕ.zero) = negsuc 0
pred_int (pos (ℕ.suc n)) = pos n
pred_int (negsuc n) = negsuc (ℕ.suc n)

-- `ShouldRetry`: the error is not looked at.
abbrev pub should_retry : Policy → ℤ → Bool
should_retry p attempt = ltz attempt p.max_attempts

module _ (fl : Floats) where
  -- The delay before the cap: InitialDelay * Multiplier ^ (attempt - 1)
  unfoldable pub base_delay : Policy → ℤ → ℤ
  base_delay p attempt =
      fl.truncate
        (fl.mul (fl.of_int p.initial_delay) (fl.pow p.multiplier (fl.of_int (pred_int attempt))))

  unfoldable pub capped_delay : Policy → ℤ → ℤ
  unfolding base_delay
  capped_delay p attempt =
      let delay = base_delay p attempt in
      if ltz (pos 0) p.max_delay && ltz p.max_delay delay then p.max_delay else delay

  -- `NextDelay`, with the number that rand.Float64 returns
  unfoldable pub next_delay : Policy → ℤ → Float → ℤ
  unfolding capped_delay
  next_delay p attempt random =
      let delay = capped_delay p attempt in
      let factor =
        fl.add (fl.sub (fl.of_int (pos 1)) p.jitter)
          (fl.mul (fl.mul (fl.of_int (pos 2)) p.jitter) random) in
      if not (ltz (pos 0) attempt)
      then pos 0
      else if fl.is_positive p.jitter
      then fl.truncate (fl.mul (fl.of_int delay) factor)
      else delay
