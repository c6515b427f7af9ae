-- ===== src/RateLimit/Tests.antt =====
-- Runs of the limiter of internal/ratelimit/ratelimit.go, and the ceilings at concrete inputs.
use buddynet.Support.{
  ◌+◌, ◌*◌, ◌≤◌, ◌≡◌, refl, List, [], ◌∷◌, arith, Text, text_dec, lookup, insert, retain,
  ℕ_discrete,
}
use buddynet.Support.Int.{◌+ℤ◌, ◌-ℤ◌}
use buddynet.RateLimit.{unit, take, full, new, allow_global, prune, charge, admit_new, allow}
use buddynet.RateLimit.Global.{Call, admitted, global_ceiling}
use buddynet.RateLimit.Source.{admitted_of, source_ceiling}

program : Unit {0}
unfolding take full new allow_global prune charge admit_new allow admitted admitted_of lookup insert
    retain text_dec ℕ_discrete ◌+ℤ◌ ◌-ℤ◌
program = tt

abbrev alice : Text
alice = 97 ∷ []

abbrev bob : Text
bob = 98 ∷ []

-- Three calls of one source at once, and one of another.
abbrev burst_of_calls : List Call
burst_of_calls = (alice, 5) ∷ (alice, 5) ∷ (alice, 5) ∷ (bob, 5) ∷ []

-- One token a second, a burst of two: the third call of a source is dropped.
third_is_dropped : admitted_of alice (new 10 1 8 5) burst_of_calls ≡ 2
unfolding program
third_is_dropped = refl

-- With room for one source the second is dropped while the first is active.
second_source_is_dropped : admitted (new 10 1 1 5) burst_of_calls ≡ 2
unfolding program
second_source_is_dropped = refl

global_ceiling_example :
    unit * admitted (new 10 1 8 5) burst_of_calls + 5 * 10 ≤ 2 * 10 * unit + 5 * 10
global_ceiling_example = global_ceiling 10 1 8 5 5 burst_of_calls (omega arith)

source_ceiling_example :
    unit * admitted_of alice (new 10 1 8 5) burst_of_calls + 5 * 1 ≤ 2 * 1 * unit + 5 * 1
source_ceiling_example = source_ceiling alice 10 1 8 5 5 burst_of_calls (omega arith)
