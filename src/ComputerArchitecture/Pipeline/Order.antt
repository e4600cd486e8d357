-- ===== src/ComputerArchitecture/Pipeline/Order.antt =====
-- pipeline_model.py: the order in which instructions leave the last stage.
use netai_devsecops_runbook.Prelude.{
  Bool-cases, filter, ℕ, String, ◌≡◌, refl, ap, ◌∙◌, inl, inr, Bool, true, false, Option, none,
  some, List, [], ◌∷◌, ◌++◌, map, append_assoc, if◌then◌else◌, arith,
}
use netai_devsecops_runbook.ComputerArchitecture.Pipeline.{
  Instruction, Stage, if_stage, id_stage, ex_stage, mem_stage, wb_stage, Latches, Visit, Machine,
  is_held, is_busy, visit_of, visits, load_use, first_of, rest_of, cycle_step,
}

-- the names in the last stage, cycle by cycle
abbrev is_wb : Stage → Bool
is_wb wb_stage = true
is_wb stage = false

abbrev pub retired : List Visit → List String
retired timeline = map (λ v. v.name) (filter (λ v. is_wb v.stage) timeline)

abbrev held_name : Option Instruction → List String
held_name none = []
held_name (some i) = i.name ∷ []

abbrev pub names : List Instruction → List String
names program = map (λ i. i.name) program

-- what has not left, the next to leave first
abbrev pub in_flight : Latches → List Instruction → List String
in_flight l rest =
    held_name l.at_wb
    ++ (held_name l.at_mem
        ++ (held_name l.at_ex ++ (held_name l.at_id ++ (held_name l.at_if ++ names rest))))

not_held : (held : Option Instruction) → is_held held ≡ false → held_name held ≡ []
not_held none h = refl
not_held (some i) h = cc

-- nothing is in flight in an idle pipeline
pub in_flight_idle : (l : Latches) → is_busy l ≡ false → in_flight l [] ≡ []
unfolding is_busy
in_flight_idle l h =
    simp
      (
        not_held l.at_wb (ground arith),
        not_held l.at_mem (ground arith),
        not_held l.at_ex (ground arith),
        not_held l.at_id (ground arith),
        not_held l.at_if (ground arith),
      )
      refl

retired-append : (xs ys : List Visit) → retired (xs ++ ys) ≡ retired xs ++ retired ys
retired-append [] ys = refl
retired-append (x ∷ xs) ys = elim (Bool-cases (is_wb x.stage)) [
  | inl h ↦ rw h (ap (◌∷◌ x.name) (retired-append xs ys))
  | inr h ↦ rw h (retired-append xs ys)
]

retired-visit_of :
    (stage : Stage) (cycle : ℕ) (held : Option Instruction)
    → retired (visit_of stage cycle held) ≡ (if is_wb stage then held_name held else [])
retired-visit_of stage cycle none = elim (Bool-cases (is_wb stage)) [
  | inl h ↦ rw h refl
  | inr h ↦ rw h refl
]
retired-visit_of stage cycle (some i) = elim (Bool-cases (is_wb stage)) [
  | inl h ↦ rw h refl
  | inr h ↦ rw h refl
]

retired-visits : (cycle : ℕ) (l : Latches) → retired (visits cycle l) ≡ held_name l.at_wb
unfolding visits
retired-visits cycle l =
    let first = visit_of if_stage cycle l.at_if in
    let second = first ++ visit_of id_stage cycle l.at_id in
    let third = second ++ visit_of ex_stage cycle l.at_ex in
    simp
      (
        retired-append (third ++ visit_of mem_stage cycle l.at_mem)
            (visit_of wb_stage cycle l.at_wb),
        retired-append third (visit_of mem_stage cycle l.at_mem),
        retired-append second (visit_of ex_stage cycle l.at_ex),
        retired-append first (visit_of id_stage cycle l.at_id),
        retired-visit_of if_stage cycle l.at_if,
        retired-visit_of id_stage cycle l.at_id,
        retired-visit_of ex_stage cycle l.at_ex,
        retired-visit_of mem_stage cycle l.at_mem,
        retired-visit_of wb_stage cycle l.at_wb,
      )
      refl

names-fetch :
    (rest : List Instruction) → held_name (first_of rest) ++ names (rest_of rest) ≡ names rest
names-fetch [] = refl
names-fetch (i ∷ rest) = refl

pub cycle_step-in_flight :
    (m : Machine)
    → retired (cycle_step m).timeline ++ in_flight (cycle_step m).latches (cycle_step m).rest
      ≡ retired m.timeline ++ in_flight m.latches m.rest
unfolding cycle_step
cycle_step-in_flight m =
    let left : retired (m.timeline ++ visits m.cycle m.latches)
        ≡ retired m.timeline ++ held_name m.latches.at_wb =
      retired-append m.timeline (visits m.cycle m.latches)
      ∙ ap (λ ns. retired m.timeline ++ ns) (retired-visits m.cycle m.latches) in
    elim (Bool-cases (load_use m.latches.at_ex m.latches.at_id)) [
      | inl stalled ↦
          rw (stalled, cycle_step, left)
            (append_assoc (retired m.timeline) (held_name m.latches.at_wb) _)
      | inr going ↦
          rw (going, cycle_step, left, names-fetch m.rest)
            (append_assoc (retired m.timeline) (held_name m.latches.at_wb) _)
    ]
