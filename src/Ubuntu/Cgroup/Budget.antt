-- ===== src/Ubuntu/Cgroup/Budget.antt =====
-- cgroup_budget.py: one period of the CPU quota.
use netai_devsecops_runbook.Prelude.{
  nat_beq, nat_beq_iff, Bool-cases, All, ◌≤◌, ◌≡◌, refl, ◌⊎◌, inl, inr, true, false, [], arith, ltb,
  any, zero, suc, ◌/◌, ◌&&◌, some,
}
use netai_devsecops_runbook.Ubuntu.Cgroup.{
  ThreadDemand, remaining_ms, Slice, Round, consume, use_of, round, Period, periods,
  total_remaining, run_period, List, ℕ, ◌∷◌, ◌++◌, ◌+◌, ◌<◌, ◌-◌,
}

abbrev pub IsWithin : ThreadDemand → Type 0
IsWithin item = item.used_ms ≤ item.demand_ms

-- `sum(step[2] for step in trace)`
abbrev pub spent : List Slice → ℕ
spent [] = 0
spent (s ∷ trace) = s.use_ms + spent trace

spent-append : (s t : List Slice) → spent (s ++ t) ≡ spent s + spent t
spent-append [] t = omega arith
spent-append (x ∷ s) t = omega (arith, spent-append s t)

-- what one run of the `for` loop does to a budget and to demands
record IsRound (quantum_ms budget_ms : ℕ) (demands : List ThreadDemand) (r : Round) : Type 0 where
  paid : spent r.trace + r.budget_ms ≡ budget_ms
  served : spent r.trace + total_remaining r.demands ≡ total_remaining demands
  within : All IsWithin r.demands
  progress : r.progressed ≡ true → r.budget_ms < budget_ms
  idle :
      r.progressed ≡ false
      → (r.budget_ms ≡ budget_ms)
        × ((quantum_ms ≡ 0) ⊎ (budget_ms ≡ 0) ⊎ (total_remaining demands ≡ 0))

consume-IsRound :
    (q b : ℕ) (item : ThreadDemand) (items : List ThreadDemand) (rest : Round)
    → IsWithin item
    → 0 < b
    → IsRound q (b - use_of q b item) items rest
    → IsRound q b (item ∷ items) (consume item b (use_of q b item) rest)
unfolding consume
consume-IsRound q b item items rest w funded h = record {
  paid = ground (arith, h.paid);
  served = ground (arith, h.served);
  within = ground (arith, h.within);
  progress = ground (arith, h.progress);
  idle = ground (arith, h.idle);
}

round-IsRound :
    (q b : ℕ) (demands : List ThreadDemand)
    → All IsWithin demands
    → IsRound q b demands (round q b demands)
unfolding round
round-IsRound q b [] w = record {
  paid = omega arith;
  served = omega arith;
  within = tt;
  progress = λ e. cc;
  idle = λ e. (refl, inr (inr refl));
}
round-IsRound q b (item ∷ items) w = elim (Bool-cases (nat_beq b 0)) [
  | inl empty ↦ rw empty (record {
    paid = omega arith;
    served = omega arith;
    within = w;
    progress = λ e. cc;
    idle = λ e. (refl, inr (inl ((nat_beq_iff b 0).0 empty)));
  })
  | inr more ↦ rw more (
      consume-IsRound q b item items (round q (b - use_of q b item) items) w.0 (ground arith)
        (round-IsRound q (b - use_of q b item) items w.1))
]

-- what holds of a finished period that began with these demands, budget and trace
pub record IsPeriod (quantum_ms budget_ms : ℕ) (demands : List ThreadDemand) (trace : List Slice)
    (p : Period) : Type 0 where
  pub paid : spent p.trace + p.budget_left_ms ≡ spent trace + budget_ms
  pub served : spent p.trace + total_remaining p.demands ≡ spent trace + total_remaining demands
  pub within : All IsWithin p.demands
  pub ended : (quantum_ms ≡ 0) ⊎ (p.budget_left_ms ≡ 0) ⊎ (total_remaining p.demands ≡ 0)

any_remaining :
    (demands : List ThreadDemand)
    → any (λ item. ltb 0 (remaining_ms item)) demands ≡ false
    → total_remaining demands ≡ 0
any_remaining [] h = refl
any_remaining (item ∷ demands) h = ground (arith, any_remaining demands)

IsPeriod-round :
    (q b : ℕ) (demands : List ThreadDemand) (trace : List Slice) (r : Round) (p : Period)
    → IsRound q b demands r
    → IsPeriod q r.budget_ms r.demands (trace ++ r.trace) p
    → IsPeriod q b demands trace p
IsPeriod-round q b demands trace r p h k = record {
  paid = omega (arith, h.paid, k.paid, spent-append trace r.trace);
  served = omega (arith, h.served, k.served, spent-append trace r.trace);
  within = k.within;
  ended = k.ended;
}

IsPeriod-idle :
    (q b : ℕ) (demands : List ThreadDemand) (trace : List Slice) (r : Round)
    → IsRound q b demands r
    → r.progressed ≡ false
    → IsPeriod q b demands trace
        (record { demands = r.demands; budget_left_ms = r.budget_ms; trace = trace ++ r.trace })
IsPeriod-idle q b demands trace r h idle = record {
  paid = omega (arith, h.paid, spent-append trace r.trace);
  served = omega (arith, h.served, spent-append trace r.trace);
  within = h.within;
  ended = ground (arith, h.idle idle, h.served);
}

IsPeriod-closed :
    (q b : ℕ) (demands : List ThreadDemand) (trace : List Slice)
    → All IsWithin demands
    → (ltb 0 b && any (λ item. ltb 0 (remaining_ms item)) demands) ≡ false
    → IsPeriod q b demands trace (record { demands = demands; budget_left_ms = b; trace = trace })
IsPeriod-closed q b demands trace w closed = record {
  paid = refl;
  served = refl;
  within = w;
  ended = ground (arith, any_remaining demands);
}

periods-IsPeriod :
    (fuel q b : ℕ) (demands : List ThreadDemand) (trace : List Slice)
    → b < fuel
    → All IsWithin demands
    → (p : Period) × (periods fuel q b demands trace ≡ some p) × IsPeriod q b demands trace p
unfolding periods
periods-IsPeriod zero q b demands trace h w = absurd (omega arith)
periods-IsPeriod (suc fuel) q b demands trace h w =
    let r = round q b demands in
    let is_round = round-IsRound q b demands w in
    elim (Bool-cases (ltb 0 b && any (λ item. ltb 0 (remaining_ms item)) demands)) [
      | inl open_loop ↦ elim (Bool-cases r.progressed) [
        | inl progressed ↦
            let (p, e, k) =
              periods-IsPeriod fuel q r.budget_ms r.demands (trace ++ r.trace)
                (omega (arith, is_round.progress progressed)) is_round.within in
            (p, rw (open_loop, progressed) e, IsPeriod-round q b demands trace r p is_round k)
        | inr idle ↦ (
          record { demands = r.demands; budget_left_ms = r.budget_ms; trace = trace ++ r.trace },
          rw (open_loop, idle),
          IsPeriod-idle q b demands trace r is_round idle,
        )
      ]
      | inr closed ↦ (
        record { demands = demands; budget_left_ms = b; trace = trace },
        rw closed,
        IsPeriod-closed q b demands trace w closed,
      )
    ]

-- With demands that are not overrun, a period ends within its fuel. The slices of its trace and the
-- budget left add up to the quota; the slices and the demand that remains add up to the demand
-- before; no thread is given more than it demands; and budget is left only where no demand
-- remains or the quantum is 0.
pub run_period-IsPeriod :
    (quota_us quantum_ms : ℕ) (demands : List ThreadDemand)
    → All IsWithin demands
    → (p : Period) × (run_period quota_us demands quantum_ms ≡ some p)
      × IsPeriod quantum_ms (quota_us / 1000) demands [] p
unfolding run_period
run_period-IsPeriod quota_us q demands w =
    periods-IsPeriod (suc (quota_us / 1000)) q (quota_us / 1000) demands [] (omega arith) w
