-- ===== src/Observability/Replay/Hot.antt =====
-- The hot store of the replay demonstration: what it has indexed, and its one rejection.
use netai_devsecops_runbook.Prelude.{
  ltb, nat_beq, if◌then◌else◌, length, take, drop, length-drop, take-append-drop, take_all,
  string_key, Dict, add, insert, ◌+◌, ◌≤◌, ◌<◌, String, ◌≡◌, refl, sym, ap, ◌∙◌, ◌≢◌, true, false,
  List, [], ◌∷◌, ◌++◌, arith, length-append, take-append_le, suc, ◌-◌, dec_lt,
}
use netai_devsecops_runbook.Observability.Validate.{Event}
use netai_devsecops_runbook.Observability.Replay.{
  HotStore, index_event, drain_hot, finish_hot, collect_ids, doc_ids,
}

doc_ids-insert :
    (k : String) (v : Event) (d : Dict String Event) → doc_ids (insert k v d) ≡ add k (doc_ids d)
doc_ids-insert k v [] = refl
doc_ids-insert k v ((j, w) ∷ d) = ground (arith, string_key.same_iff j k, doc_ids-insert k v d)

pub collect_ids-append :
    (ids : List String) (xs ys : List Event)
    → collect_ids ids (xs ++ ys) ≡ collect_ids (collect_ids ids xs) ys
collect_ids-append ids [] ys = refl
collect_ids-append ids (x ∷ xs) ys = collect_ids-append (add x.event_id ids) xs ys

-- what indexing a run of events leaves
record Indexed (before : HotStore) (es : List Event) (after : HotStore) : Type 0 where
  pub ids : doc_ids after.docs ≡ collect_ids (doc_ids before.docs) es
  pub cursor : after.cursor ≡ before.cursor + length es
  pub retried : after.retried ≡ before.retried

finish_hot-Indexed : (h : HotStore) (es : List Event) → Indexed h es (finish_hot h es)
unfolding finish_hot
finish_hot-Indexed h [] = record { ids = refl; cursor = omega arith; retried = refl }
finish_hot-Indexed h (e ∷ es) =
    let rest = finish_hot-Indexed (index_event h e) es in
    record {
      ids =
          rest.ids
          ∙ ap (λ l. collect_ids l es) (unfold index_event in doc_ids-insert e.event_id e h.docs);
      cursor = unfold index_event in omega (arith, rest.cursor);
      retried = rest.retried;
    }

drain_hot_retried :
    (h : HotStore) (es : List Event) → h.retried ≡ true → drain_hot h es ≡ finish_hot h es
unfolding drain_hot finish_hot index_event
drain_hot_retried h [] r = refl
drain_hot_retried h (e ∷ es) r = ground (arith, drain_hot_retried (index_event h e) es)

drain_hot_early :
    (h : HotStore) (es : List Event) → h.cursor + length es ≤ 3 → drain_hot h es ≡ finish_hot h es
unfolding drain_hot finish_hot index_event
drain_hot_early h [] b = refl
drain_hot_early h (e ∷ es) b = ground (arith, drain_hot_early (index_event h e) es)

drain_hot_rejects :
    (h : HotStore) (es : List Event)
    → h.cursor ≡ 3
    → h.retried ≡ false
    → 0 < length es
    → drain_hot h es ≡ record h { retried = true }
unfolding drain_hot
drain_hot_rejects h [] c r pos_length = absurd (omega arith)
drain_hot_rejects h (e ∷ es) c r pos_length = ground arith

-- the hot store after a round of the loop over the source so far
pub record IsHot (source : List Event) (h : HotStore) : Type 0 where
  pub ids : doc_ids h.docs ≡ collect_ids [] (take h.cursor source)
  pub cursor : h.cursor ≡ (if nat_beq (length source) 4 then 3 else length source)
  pub retried : h.retried ≡ ltb 3 (length source)

-- indexing all that is pending catches up
pub caught_up-ids :
    (source : List Event) (h : HotStore)
    → doc_ids h.docs ≡ collect_ids [] (take h.cursor source)
    → doc_ids (finish_hot h (drop h.cursor source)).docs ≡ collect_ids [] source
caught_up-ids source h ids =
    (finish_hot-Indexed h (drop h.cursor source)).ids
    ∙ ap (λ l. collect_ids l (drop h.cursor source)) ids
    ∙ sym (collect_ids-append [] (take h.cursor source) (drop h.cursor source))
    ∙ ap (collect_ids []) (take-append-drop h.cursor source)

IsHot-finish :
    (source : List Event) (h : HotStore)
    → doc_ids h.docs ≡ collect_ids [] (take h.cursor source)
    → h.cursor ≤ length source
    → length source ≢ 4
    → h.retried ≡ ltb 3 (length source)
    → IsHot source (finish_hot h (drop h.cursor source))
IsHot-finish source h ids bound other retried =
    let all_of = finish_hot-Indexed h (drop h.cursor source) in
    let at_end : (finish_hot h (drop h.cursor source)).cursor ≡ length source =
      omega (arith, all_of.cursor, length-drop h.cursor source) in
    record {
      ids = caught_up-ids source h ids ∙ rw (at_end, take_all (length source) source (omega arith));
      cursor = ground (arith, at_end);
      retried = all_of.retried ∙ retried;
    }

module _ (source : List Event) (row : Event) (h : HotStore) (is_hot : IsHot source h) where
  cursor-le : h.cursor ≤ length source
  cursor-le = ground (arith, is_hot.cursor)

  grown : length (source ++ row ∷ []) ≡ suc (length source)
  grown = omega (arith, length-append source (row ∷ []))

  ids_grown : doc_ids h.docs ≡ collect_ids [] (take h.cursor (source ++ row ∷ []))
  ids_grown = is_hot.ids ∙ rw (take-append_le h.cursor source (row ∷ []) cursor-le)

  pending : length (drop h.cursor (source ++ row ∷ [])) ≡ suc (length source) - h.cursor
  pending = omega (arith, length-drop h.cursor (source ++ row ∷ []), grown)

  finish_case :
      length source ≢ 3
      → h.retried ≡ ltb 3 (suc (length source))
      → IsHot (source ++ row ∷ []) (finish_hot h (drop h.cursor (source ++ row ∷ [])))
  finish_case other retried =
      IsHot-finish (source ++ row ∷ []) h ids_grown (omega (arith, cursor-le, grown))
        (omega (arith, grown)) (retried ∙ ap (ltb 3) (sym grown))

  early_case :
      length source < 3
      → IsHot (source ++ row ∷ []) (drain_hot h (drop h.cursor (source ++ row ∷ [])))
  early_case few =
      rw
        (drain_hot_early h (drop h.cursor (source ++ row ∷ [])) (omega (arith, pending, cursor-le)))
        (finish_case (omega arith) (ground (arith, is_hot.retried)))

  retried_case :
      3 < length source
      → IsHot (source ++ row ∷ []) (drain_hot h (drop h.cursor (source ++ row ∷ [])))
  retried_case many =
      rw (drain_hot_retried h (drop h.cursor (source ++ row ∷ [])) (ground (arith, is_hot.retried)))
        (finish_case (omega arith) (ground (arith, is_hot.retried)))

  reject_case :
      length source ≡ 3
      → IsHot (source ++ row ∷ []) (drain_hot h (drop h.cursor (source ++ row ∷ [])))
  reject_case three =
      let at_three : h.cursor ≡ 3 = ground (arith, is_hot.cursor) in
      rw
        (drain_hot_rejects h (drop h.cursor (source ++ row ∷ [])) at_three
          (ground (arith, is_hot.retried)) (omega (arith, pending)))
        (record {
          ids = ids_grown;
          cursor = ground (arith, at_three, grown);
          retried = ground (arith, grown);
        })

  pub drain_hot-IsHot :
      IsHot (source ++ row ∷ []) (drain_hot h (drop h.cursor (source ++ row ∷ [])))
  drain_hot-IsHot = elim (dec_lt (length source) 3) [
    | yes few ↦ early_case few
    | no more ↦ elim (dec_lt 3 (length source)) [
      | yes many ↦ retried_case many
      | no less ↦ reject_case (omega arith)
    ]
  ]

-- after the last `while` the hot store knows all of the source, and has rejected once or never
pub finish_hot-after :
    (source : List Event) (h : HotStore)
    → IsHot source h
    → (doc_ids (finish_hot h (drop h.cursor source)).docs ≡ collect_ids [] source)
      × ((finish_hot h (drop h.cursor source)).retried ≡ ltb 3 (length source))
finish_hot-after source h is_hot = (
  caught_up-ids source h is_hot.ids,
  (finish_hot-Indexed h (drop h.cursor source)).retried ∙ is_hot.retried,
)
