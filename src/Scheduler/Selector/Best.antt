-- ===== src/Scheduler/Selector/Best.antt =====
-- The store that a `ReplicaSelector` takes (scheduler/server/schedule/selector/selector.go).
use tiny_kv_practice.Prelude.{
  ◌≤◌, ◌≡◌, ◌⊎◌, inl, inr, refl, sym, ap, ◌∙◌, subst, Bool, true, false, Option, none, some, List,
  [], ◌∷◌, ltb, if◌then◌else◌, arith, Bool-cases, Option-cases,
}
use tiny_kv_practice.Scheduler.Tree.Shape.{In}
use tiny_kv_practice.Scheduler.Stores.{StoreInfo}
use tiny_kv_practice.Scheduler.Filters.{Filter, Options, target_by}
use tiny_kv_practice.Scheduler.Selector.{is_better, is_first_or, best_of, unless, select_target}

-- A store among those seen that is not skipped, with the smallest regions of all that are not; or none if
-- all are skipped.
abbrev pub IsBest : (StoreInfo → Bool) → (StoreInfo → Type 0) → Option StoreInfo → Type 0
IsBest skips Seen none = (s : StoreInfo) → Seen s → skips s ≡ true
IsBest skips Seen (some best) =
    Seen best
    × (skips best ≡ false)
    × ((s : StoreInfo) → Seen s → skips s ≡ false → best.region_size ≤ s.region_size)

module _ (skips : StoreInfo → Bool) where
  IsBest-map :
      (P Q : StoreInfo → Type 0) (o : Option StoreInfo)
      → ((s : StoreInfo) → P s → Q s)
      → ((s : StoreInfo) → Q s → P s)
      → IsBest skips P o
      → IsBest skips Q o
  IsBest-map P Q none f g h = λ s q. h s (g s q)
  IsBest-map P Q (some best) f g (seen, kept, least) =
      (f best seen, kept, λ s q k. least s (g s q) k)

  abbrev Also : (StoreInfo → Type 0) → StoreInfo → StoreInfo → Type 0
  Also Seen store s = Seen s ⊎ (s ≡ store)

  skipped-IsBest :
      (Seen : StoreInfo → Type 0) (o : Option StoreInfo) (store : StoreInfo)
      → skips store ≡ true
      → IsBest skips Seen o
      → IsBest skips (Also Seen store) o
  skipped-IsBest Seen none store h b =
      λ s i. elim i [ inl seen ↦ b s seen | inr e ↦ ap skips e ∙ h ]
  skipped-IsBest Seen (some best) store h (seen, kept, least) = (
    inl seen,
    kept,
    λ s i k. elim i [ inl j ↦ least s j k | inr e ↦ let both = sym k ∙ ap skips e ∙ h in cc ],
  )

  looked-IsBest :
      (Seen : StoreInfo → Type 0) (o : Option StoreInfo) (store : StoreInfo)
      → skips store ≡ false
      → IsBest skips Seen o
      → IsBest skips (Also Seen store) (if is_first_or is_better store o then some store else o)
  looked-IsBest Seen none store h b = (
    inr refl,
    h,
    λ s i k. elim i [ inl seen ↦ let both = sym k ∙ b s seen in cc | inr e ↦ rw e (omega arith) ],
  )
  looked-IsBest Seen (some best) store h (seen, kept, least) =
      elim (Bool-cases (ltb store.region_size best.region_size)) [
        | inl smaller ↦ rw smaller (
          inr refl,
          h,
          λ s i k. elim i [
            | inl j ↦ let at = least s j k in ground (arith, smaller, at)
            | inr e ↦ rw e (omega arith)
          ],
        )
        | inr larger ↦ rw larger (
          inl seen,
          kept,
          λ s i k. elim i [ inl j ↦ least s j k | inr e ↦ rw e (ground (arith, larger)) ],
        )
      ]

  best_of-IsBest :
      (stores : List StoreInfo) (Seen : StoreInfo → Type 0) (o : Option StoreInfo)
      → IsBest skips Seen o
      → IsBest skips (λ s. Seen s ⊎ In s stores) (best_of is_better skips stores o)
  unfolding best_of
  best_of-IsBest [] Seen o b =
      IsBest-map Seen _ o (λ s i. inl i) (λ s i. elim i [ inl seen ↦ seen | inr j ↦ absurd j ]) b
  best_of-IsBest (store ∷ stores) Seen o b =
      IsBest-map (λ s. Also Seen store s ⊎ In s stores) (λ s. Seen s ⊎ In s (store ∷ stores))
        (best_of is_better skips stores
          (if skips store then o else if is_first_or is_better store o then some store else o))
        (λ s i. elim i [
          | inl j ↦ elim j [ inl seen ↦ inl seen | inr e ↦ inr (inl e) ]
          | inr j ↦ inr (inr j)
        ])
        (λ s i. elim i [
          | inl seen ↦ inl (inl seen)
          | inr j ↦ elim j [ inl e ↦ inl (inr e) | inr k ↦ inr k ]
        ])
        (best_of-IsBest stores (Also Seen store) _ (elim (Bool-cases (skips store)) [
          | inl out ↦ rw out (skipped-IsBest Seen o store out b)
          | inr in_ ↦ rw in_ (looked-IsBest Seen o store in_ b)
        ]))

-- SelectTarget looks for the store with the smallest regions among those that pass the filters given. It
-- returns that store if it passes the selector's own filters too, and nothing otherwise, even
-- where another store would pass them; and nothing if no store passes the filters given.
pub select_target_lem :
    (own : List Filter) (opt : Options) (stores : List StoreInfo) (filters : List Filter)
    → ((IsBest (λ s. target_by opt s filters) (λ s. In s stores) none)
        × (select_target own opt stores filters ≡ none))
      ⊎ ((best : StoreInfo) × IsBest (λ s. target_by opt s filters) (λ s. In s stores) (some best)
          × (select_target own opt stores filters
              ≡ (if target_by opt best own then none else some best)))
unfolding select_target
select_target_lem own opt stores filters =
    let skips : StoreInfo → Bool = λ s. target_by opt s filters in
    let found = best_of is_better skips stores none in
    let b : IsBest skips (λ s. In s stores) found =
      IsBest-map skips _ (λ s. In s stores) found
        (λ s i. elim i [ inl none_seen ↦ absurd none_seen | inr j ↦ j ]) (λ s i. inr i)
        (best_of-IsBest skips stores (λ s. ⊥) none (λ s i. absurd i)) in
    elim (Option-cases found) [
      | inl missing ↦ inl (
        subst (IsBest skips (λ s. In s stores)) missing b,
        ap (unless (λ s. target_by opt s own)) missing,
      )
      | inr (best, there) ↦ inr (
        best,
        subst (IsBest skips (λ s. In s stores)) there b,
        ap (unless (λ s. target_by opt s own)) there,
      )
    ]
