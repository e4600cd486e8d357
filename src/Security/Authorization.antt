-- ===== src/Security/Authorization.antt =====
-- learning/security-cryptography/examples/authorization_model.py: requests against fixed rules.
-- `RULES` is an argument.
use netai_devsecops_runbook.Prelude.{
  Bool-cases, any, ◌==◌, ==_eq, String, ◌≡◌, refl, sym, ap, inl, inr, Bool, true, false, ◌&&◌, List,
  [], ◌∷◌, ◌++◌, arith, string_key,
}

pub record Action : Type 0 where
  pub subject : String
  pub verb : String
  pub resource : String
  pub namespace : String

-- a rule has the attributes of the requests that it permits
abbrev pub same_key : Action → Action → Bool
same_key a b =
    a.subject == b.subject
    && (a.verb == b.verb && (a.resource == b.resource && a.namespace == b.namespace))

-- `key in RULES`
unfoldable pub authorize : List Action → Action → Bool
authorize rules request = any (λ rule. same_key rule request) rules

-- the four attributes of a request, in a rule
pub record IsRuled (rule request : Action) : Type 0 where
  pub subjects : rule.subject ≡ request.subject
  pub verbs : rule.verb ≡ request.verb
  pub resources : rule.resource ≡ request.resource
  pub namespaces : rule.namespace ≡ request.namespace

and_parts : (p q : Bool) → (p && q) ≡ true → (p ≡ true) × (q ≡ true)
and_parts true q h = (refl, h)
and_parts false q h = absurd (ground arith)

same_key-IsRuled : (rule request : Action) → same_key rule request ≡ true → IsRuled rule request
same_key-IsRuled rule request h =
    let (a, h1) = and_parts (rule.subject == request.subject) _ h in
    let (b, h2) = and_parts (rule.verb == request.verb) _ h1 in
    let (c, d) = and_parts (rule.resource == request.resource) _ h2 in
    record {
      subjects = ==_eq rule.subject request.subject a;
      verbs = ==_eq rule.verb request.verb b;
      resources = ==_eq rule.resource request.resource c;
      namespaces = ==_eq rule.namespace request.namespace d;
    }

-- A request is permitted only where the rules hold a rule with its four attributes.
pub authorize-IsRuled :
    (rules : List Action) (request : Action)
    → authorize rules request ≡ true
    → (before after : List Action) × (rule : Action) × (rules ≡ before ++ rule ∷ after)
      × IsRuled rule request
unfolding authorize
authorize-IsRuled [] request h = absurd (ground arith)
authorize-IsRuled (rule ∷ rules) request h = elim (Bool-cases (same_key rule request)) [
  | inl here ↦ ([], rules, rule, refl, same_key-IsRuled rule request here)
  | inr later ↦
      let (before, after, found, split, ruled) =
        authorize-IsRuled rules request (rw (sym h, later) refl) in
      (rule ∷ before, after, found, ap (◌∷◌ rule) split, ruled)
]
