-- ===== src/River/Runner/Reads.antt =====
-- river/runner.go: the checks of the runner write nothing.
use skene.Prelude.{refl, Bool, true, false}
use skene.River.Errors.{RunnerError}
use skene.River.World.Rules.{Reads}
use skene.River.Runner.{require, check_started}

module _ {S : Type 0} where
  pub Reads-require : (e : RunnerError) (b : Bool) → Reads {S = S} (require e b)
  unfolding require
  Reads-require e true = record { same = λ w. record { store = refl; jobs = refl } }
  Reads-require e false = record { same = λ w. record { store = refl; jobs = refl } }

  pub Reads-check_started : Reads {S = S} check_started
  unfolding check_started
  Reads-check_started = record { same = λ w. (Reads-require _ w.started).same w }
