-- ===== src/Store/Cases.antt =====
-- src/store.rs: the branches of the operations, for proofs that treat each once.
use pg_fc.Base.{
  Bool-cases, Option-cases, Str, eq_of_str_eq, str_eq, get, ℕ, ◌≡◌, inl, inr, ◌&&◌, Option, none,
  some, arith,
}
use pg_fc.Store.Format.{StoreRecord, Tier}
use pg_fc.Store.{
  Store, Snapshot, stamp, bumped, put, put_new, put_known, touch, mark_tier, marked, is_live,
}

pub put_cases {ℓ} :
    (P : Option Snapshot × Store → Type ℓ) (schema id : Str) (now : ℕ) (s : Store)
    → P (put_new schema id now s)
    → ((r : StoreRecord)
        → get schema s.rows ≡ some r
        → r.sandbox_id ≡ id
        → P (none, bumped schema r now s))
    → P (put schema id now s)
unfolding put put_known
put_cases P schema id now s fresh known = elim (Option-cases (get schema s.rows)) [
  | inl e ↦ rw (e, put) fresh
  | inr (r, e) ↦
      rw (e, put)
        (elim (Bool-cases (str_eq r.sandbox_id id && is_live r.tier)) [
          | inl same ↦
              rw (same, put_known) (known r e (eq_of_str_eq r.sandbox_id id (ground arith)))
          | inr other ↦ rw (other, put_known) fresh
        ])
]

pub touch_cases {ℓ} :
    (P : Store → Type ℓ) (schema : Str) (now : ℕ) (s : Store)
    → P s
    → ((r : StoreRecord) → get schema s.rows ≡ some r → P (bumped schema r now s))
    → P (touch schema now s)
unfolding touch
touch_cases P schema now s missing known = elim (Option-cases (get schema s.rows)) [
  | inl e ↦ rw (e, touch) missing
  | inr (r, e) ↦ rw (e, touch) (known r e)
]

pub mark_tier_inv :
    (schema : Str) (t : Tier) (s : Store) (m : Snapshot × Store)
    → mark_tier schema t s ≡ some m
    → (r : StoreRecord) × (get schema s.rows ≡ some r) × (m ≡ stamp (marked schema r t s))
unfolding mark_tier
mark_tier_inv schema t s m e = elim (Option-cases (get schema s.rows)) [
  | inl g ↦ absurd (cc (rw (g, mark_tier) at e))
  | inr (r, g) ↦ (r, g, ground arith)
]
