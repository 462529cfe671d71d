-- ===== src/Janitors/Orphans/Rows.antt =====
-- src/registry.rs: what the map of `sweep_orphans` from VMs to tiers says of the rows.
use pg_fc.Base.{
  Bool-cases, All, Any, Any-map, Str, eq_of_str_eq, str_eq_iff, str_eq, Map, get-insert, get,
  insert, ◌≡◌, sym, ◌∙◌, ◌≢◌, ◌⊎◌, inl, inr, none, some, [], ◌∷◌, arith,
}
use pg_fc.Store.Format.{StoreRecord, Tier, live}
use pg_fc.Janitors.Orphans.{tier_by_id}

-- No row names the VM, or a row that is not live does.
abbrev pub IsLeft : Map StoreRecord → Str → Type 0
IsLeft rows id =
    All (λ e. e.1.sandbox_id ≢ id) rows ⊎ Any (λ e. (e.1.sandbox_id ≡ id) × (e.1.tier ≢ live)) rows

tier_by_id-some :
    (rows : Map StoreRecord) (m : Map (Str × Tier)) (id : Str) (x : Str × Tier)
    → get id (tier_by_id rows m) ≡ some x
    → Any (λ e. (e.1.sandbox_id ≡ id) × (e.1.tier ≡ x.1)) rows ⊎ (get id m ≡ some x)
unfolding tier_by_id
tier_by_id-some [] m id x e = inr e
tier_by_id-some ((schema, r) ∷ rows) m id x e =
    elim (tier_by_id-some rows (insert r.sandbox_id (schema, r.tier) m) id x e) [
      | inl a ↦ inl (inr a)
      | inr g ↦ elim (Bool-cases (str_eq r.sandbox_id id)) [
        | inl same ↦ inl (
            inl (
              eq_of_str_eq r.sandbox_id id same,
              ground (arith, g, same, get-insert r.sandbox_id id (schema, r.tier) m),
            ))
        | inr other ↦ inr (ground (arith, g, other, get-insert r.sandbox_id id (schema, r.tier) m))
      ]
    ]

pub tier_by_id-none :
    (rows : Map StoreRecord) (m : Map (Str × Tier)) (id : Str)
    → get id (tier_by_id rows m) ≡ none
    → All (λ e. e.1.sandbox_id ≢ id) rows × (get id m ≡ none)
unfolding tier_by_id
tier_by_id-none [] m id e = (tt, e)
tier_by_id-none ((schema, r) ∷ rows) m id e =
    let (rest, g) = tier_by_id-none rows (insert r.sandbox_id (schema, r.tier) m) id e in
    let kept = get-insert r.sandbox_id id (schema, r.tier) m in
    elim (Bool-cases (str_eq r.sandbox_id id)) [
      | inl same ↦ absurd (ground (arith, g, kept, same))
      | inr other ↦ (
        (λ same. ground (arith, other, (str_eq_iff r.sandbox_id id).1 same), rest),
        ground (arith, g, kept, other),
      )
    ]

pub not_live-IsLeft :
    (rows : Map StoreRecord) (id schema : Str) (t : Tier)
    → get id (tier_by_id rows []) ≡ some (schema, t)
    → t ≢ live
    → IsLeft rows id
unfolding get
not_live-IsLeft rows id schema t e n = elim (tier_by_id-some rows [] id (schema, t) e) [
  | inl a ↦ inr (Any-map _ _ rows (λ r (same, tier). (same, λ l. n (sym tier ∙ l))) a)
  | inr g ↦ absurd (ground (arith, g))
]
