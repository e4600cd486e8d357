-- ===== src/Ubuntu/Cgroup.antt =====
-- learning/ubuntu-linux-internals/examples/cgroup_budget.py: one period of a shared CPU quota.
-- Times are natural numbers; a `used_ms` over its `demand_ms` stands outside the model, since its
-- remaining demand would be negative.
pub mod Budget
use netai_devsecops_runbook.Prelude.{
  ℕ, zero, suc, ◌+◌, ◌-◌, ◌/◌, ◌<◌, min, String, List, [], ◌∷◌, ◌++◌, Bool, true, false, not, ◌&&◌,
  ◌||◌, Option, none, some, nat_beq, ltb, any, if◌then◌else◌,
}

pub record ThreadDemand : Type 0 where
  pub name : String
  pub demand_ms : ℕ
  pub used_ms : ℕ

abbrev pub remaining_ms : ThreadDemand → ℕ
remaining_ms item = item.demand_ms - item.used_ms

-- `(item.name, before_ms, use_ms, budget_ms)`
pub record Slice : Type 0 where
  pub name : String
  pub before_ms : ℕ
  pub use_ms : ℕ
  pub after_ms : ℕ

-- the variables after one run of the `for` loop; `trace` is what the run appends
pub record Round : Type 0 where
  pub demands : List ThreadDemand
  pub budget_ms : ℕ
  pub progressed : Bool
  pub trace : List Slice

-- the body of the `for` after its `break`, before the rest of the loop
consume : ThreadDemand → ℕ → ℕ → Round → Round
consume item budget_ms use_ms rest =
    if nat_beq use_ms 0 then record rest { demands = item ∷ rest.demands } else record {
      demands = record item { used_ms = item.used_ms + use_ms } ∷ rest.demands;
      budget_ms = rest.budget_ms;
      progressed = true;
      trace =
          record {
            name = item.name;
            before_ms = budget_ms;
            use_ms = use_ms;
            after_ms = budget_ms - use_ms;
          }
          ∷ rest.trace;
    }

abbrev pub use_of : ℕ → ℕ → ThreadDemand → ℕ
use_of quantum_ms budget_ms item = min quantum_ms (min (remaining_ms item) budget_ms)

round : ℕ → ℕ → List ThreadDemand → Round
unfolding consume
round quantum_ms budget_ms [] = record {
  demands = [];
  budget_ms = budget_ms;
  progressed = false;
  trace = [];
}
round quantum_ms budget_ms (item ∷ items) =
    let use_ms = use_of quantum_ms budget_ms item in
    let rest = round quantum_ms (budget_ms - use_ms) items in
    if nat_beq budget_ms 0
    then record { demands = item ∷ items; budget_ms = budget_ms; progressed = false; trace = [] }
    else consume item budget_ms use_ms rest

pub record Period : Type 0 where
  pub demands : List ThreadDemand
  pub budget_left_ms : ℕ
  pub trace : List Slice

-- the `while` loop on fuel; `none` means that the fuel ran out
periods : ℕ → ℕ → ℕ → List ThreadDemand → List Slice → Option Period
unfolding round
periods zero quantum_ms budget_ms demands trace = none
periods (suc fuel) quantum_ms budget_ms demands trace =
    let r = round quantum_ms budget_ms demands in
    let again = periods fuel quantum_ms r.budget_ms r.demands (trace ++ r.trace) in
    if ltb 0 budget_ms && any (λ item. ltb 0 (remaining_ms item)) demands
    then if r.progressed
      then again
      else some
          (record { demands = r.demands; budget_left_ms = r.budget_ms; trace = trace ++ r.trace })
    else some (record { demands = demands; budget_left_ms = budget_ms; trace = trace })

abbrev pub total_remaining : List ThreadDemand → ℕ
total_remaining [] = 0
total_remaining (item ∷ items) = remaining_ms item + total_remaining items

-- The caller's list is updated in place, and stands in the result. The share quota_us / period_us
-- is a float that nothing reads, and is left out.
unfoldable pub run_period : ℕ → List ThreadDemand → ℕ → Option Period
unfolding periods
run_period quota_us demands quantum_ms =
    let budget_ms = quota_us / 1000 in periods (suc budget_ms) quantum_ms budget_ms demands []

-- `remaining_demand_ms` of the result
abbrev pub remaining_demand_ms : Period → ℕ
remaining_demand_ms p = total_remaining p.demands
