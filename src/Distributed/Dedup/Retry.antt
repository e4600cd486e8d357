-- ===== src/Distributed/Dedup/Retry.antt =====
-- Retries and the account's invariant in the deduplication model.
use netai_devsecops_runbook.Prelude.{
  suc, ℤ, ◌≤ℤ◌, ◌-ℤ◌, -ℤ_parts, String, ◌≡◌, refl, List, [], ◌∷◌, none, some, arith, Dict, lookup,
  insert, lookup-insert, string_key, length,
}
use netai_devsecops_runbook.Distributed.Dedup.{AccountService, Debit, debit, serve}

-- the result of a request, once there is one, is what every later call finds
debit_keeps :
    (s : AccountService) (id j : String) (a b : ℤ)
    → lookup j s.results ≡ some b
    → lookup j (debit s id a).1.results ≡ some b
unfolding debit
debit_keeps s id j a b h =
    ground (arith, string_key.same_iff id j, lookup-insert id j (s.balance -ℤ a) s.results)

serve_keeps :
    (s : AccountService) (ds : List Debit) (j : String) (b : ℤ)
    → lookup j s.results ≡ some b
    → lookup j (serve s ds).results ≡ some b
unfolding serve
serve_keeps s [] j b h = h
serve_keeps s (d ∷ ds) j b h =
    serve_keeps (debit s d.request_id d.amount).1 ds j b (debit_keeps s d.request_id j d.amount b h)

debit_stored :
    (s : AccountService) (id : String) (a b : ℤ)
    → (debit s id a).0 ≡ some b
    → lookup id (debit s id a).1.results ≡ some b
unfolding debit
debit_stored s id a b h =
    ground (arith, string_key.same_iff id id, lookup-insert id id (s.balance -ℤ a) s.results)

debit_again :
    (s : AccountService) (id : String) (a b : ℤ)
    → lookup id s.results ≡ some b
    → debit s id a ≡ (some b, s)
unfolding debit
debit_again s id a b h = rw (h, debit)

-- After a debit that succeeded, whatever calls come between, a call under the same ID returns the
-- first result and changes nothing, for any amount.
pub debit_retry :
    (s : AccountService) (id : String) (amount b other : ℤ) (between : List Debit)
    → (debit s id amount).0 ≡ some b
    → debit (serve (debit s id amount).1 between) id other
      ≡ (some b, serve (debit s id amount).1 between)
debit_retry s id amount b other between h =
    debit_again (serve (debit s id amount).1 between) id other b
      (serve_keeps (debit s id amount).1 between id b (debit_stored s id amount b h))

pub record IsSound (s : AccountService) : Type 0 where
  pub counted : s.executions ≡ length s.results
  pub covered : ℤ.pos 0 ≤ℤ s.balance

length-insert_new :
    (k : String) (v : ℤ) (d : Dict String ℤ)
    → lookup k d ≡ none
    → length (insert k v d) ≡ suc (length d)
length-insert_new k v [] h = refl
length-insert_new k v ((j, w) ∷ d) h = ground (arith, length-insert_new k v d)

debit-IsSound : (s : AccountService) (id : String) (a : ℤ) → IsSound s → IsSound (debit s id a).1
unfolding debit
debit-IsSound s id a h =
    ground (arith, length-insert_new id (s.balance -ℤ a) s.results, -ℤ_parts s.balance a)

-- Over any calls, executions count the stored results and the balance does not fall below 0.
pub serve-IsSound : (s : AccountService) (ds : List Debit) → IsSound s → IsSound (serve s ds)
unfolding serve
serve-IsSound s [] h = h
serve-IsSound s (d ∷ ds) h =
    serve-IsSound (debit s d.request_id d.amount).1 ds (debit-IsSound s d.request_id d.amount h)
