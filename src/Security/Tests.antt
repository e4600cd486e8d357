-- ===== src/Security/Tests.antt =====
-- The registry model on the input of its script.
use netai_devsecops_runbook.Prelude.{
  if◌then◌else◌, ℕ, String, ◌≡◌, refl, true, false, some, List, [], ◌∷◌, pos, ◌+◌,
}
use netai_devsecops_runbook.Security.Authorization.{Action, authorize}
use netai_devsecops_runbook.Security.Nonce.{empty_registry, Attempt, reserve_all}
use netai_devsecops_runbook.Security.Nonce.Uniqueness.{
  is_used, requested, grants, reserve_all-grants,
}

abbrev attempt : String → ℕ → Attempt
attempt key_id nonce = record { key_id = key_id; nonce = pos nonce }

abbrev events : List Attempt
events = attempt "key-A" 0 ∷ attempt "key-A" 1 ∷ attempt "key-B" 0 ∷ attempt "key-A" 0 ∷ []

events_results :
    (reserve_all empty_registry events).0 ≡ some true ∷ some true ∷ some true ∷ some false ∷ []
unfolding reserve_all empty_registry
events_results = refl

reserve_all-grants_example :
    grants "key-A" 0 events (reserve_all empty_registry events).0
    ≡ (if is_used empty_registry "key-A" 0 then 0 else if requested "key-A" 0 events then 1 else 0)
reserve_all-grants_example = reserve_all-grants empty_registry events "key-A" 0

-- a stand-in for the code, over numbers
abbrev sum_tag : ℕ → ℕ → ℕ
sum_tag key message = key + message

abbrev action : String → String → String → String → Action
action subject verb resource namespace = record {
  subject = subject;
  verb = verb;
  resource = resource;
  namespace = namespace;
}

abbrev rules : List Action
rules =
    action "alice" "get" "pods" "research"
    ∷ action "alice" "list" "pods" "research"
    ∷ action "build-bot" "create" "deployments" "staging"
    ∷ []

refused : authorize rules (action "alice" "get" "pods" "production") ≡ false
unfolding authorize
refused = refl

permitted : authorize rules (action "alice" "list" "pods" "research") ≡ true
unfolding authorize
permitted = refl
