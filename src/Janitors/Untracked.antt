-- ===== src/Janitors/Untracked.antt =====
-- src/registry.rs: which running VMs are nobody's.
use pg_fc.Base.{
  Bool-cases, Option-cases, Str, str, eq_of_str_eq, str_eq_iff, str_eq, starts_with, contains, get,
  ◌≡◌, refl, sym, ap, ◌∙◌, ◌≢◌, ◌↔◌, inl, inr, Bool, true, false, Option, none, some, [], ◌∷◌, ◌++◌,
  arith,
}
use pg_fc.Store.Format.{StoreRecord}
use pg_fc.Janitors.{
  VmInfo, Fleet, strip_prefix, live_by_id, superseded, duplicate_of, owner, is_pending,
  spare_prefix, untracked, is_suspect,
}

-- Why a VM is nobody's: its live schema has no entry, or it is a duplicate of its schema's VM.
pub data Stray (f : Fleet) (i : VmInfo) (schema : Str) : Type 0 where
  unserved :
      get i.id (live_by_id f.rows []) ≡ some schema
      → contains f.tracked schema ≡ false
      → Stray f i schema
  duplicates :
      (r : StoreRecord)
      → get i.id (live_by_id f.rows []) ≡ none
      → i.name ≡ str "pg-" ++ schema
      → get schema f.rows ≡ some r
      → r.sandbox_id ≢ i.id
      → Stray f i schema

-- A running VM that is no spare, and nobody's, of a schema that is not being offloaded and whose
-- unresolved bring-up is not of this VM.
pub record IsUntracked (f : Fleet) (i : VmInfo) : Type 0 where
  pub schema : Str
  pub runs : i.running ≡ true
  pub no_spare : starts_with i.name spare_prefix ≡ false
  pub unclaimed : contains f.claimed i.id ≡ false
  pub stray : Stray f i schema
  pub settled : contains f.archiving schema ≡ false
  pub resolved : get schema f.pending ≢ some i.id

strip_prefix-append : (s p r : Str) → strip_prefix s p ≡ some r → s ≡ p ++ r
unfolding strip_prefix
strip_prefix-append s [] r e = ground (arith, e)
strip_prefix-append [] (c ∷ p) r e = cc
strip_prefix-append (d ∷ s) (c ∷ p) r e = ground (arith, e, strip_prefix-append s p r)

append-strip_prefix : (p r : Str) → strip_prefix (p ++ r) p ≡ some r
unfolding strip_prefix
append-strip_prefix [] r = refl
append-strip_prefix (c ∷ p) r = ground (arith, append-strip_prefix p r)

is_pending-some : (o : Option Str) (id : Str) → (is_pending o id ≡ false) ↔ (o ≢ some id)
is_pending-some none id = (λ e x. cc, λ n. refl)
is_pending-some (some p) id = (
  λ e x. ground (arith, str_eq_iff p id, x, e),
  λ n. elim (Bool-cases (str_eq p id)) [
    | inl e ↦ absurd (n (ap some (eq_of_str_eq p id e)))
    | inr e ↦ e
  ],
)

-- The owner that `owner` finds.
abbrev pub Owns : Fleet → VmInfo → Str → Bool → Type 0
Owns f i schema false = get i.id (live_by_id f.rows []) ≡ some schema
Owns f i schema true =
    (get i.id (live_by_id f.rows []) ≡ none)
    × (i.name ≡ str "pg-" ++ schema)
    × ((r : StoreRecord) × (get schema f.rows ≡ some r) × (str_eq r.sandbox_id i.id ≡ false))

superseded-Owns :
    (f : Fleet) (i : VmInfo) (row : Option StoreRecord) (found schema : Str) (dup : Bool)
    → get i.id (live_by_id f.rows []) ≡ none
    → i.name ≡ str "pg-" ++ found
    → get found f.rows ≡ row
    → superseded f i row found ≡ some (schema, dup)
    → Owns f i schema dup
unfolding superseded
superseded-Owns f i none found schema dup g n r e = cc
superseded-Owns f i (some x) found schema dup g n r e =
    elim (Bool-cases (str_eq x.sandbox_id i.id)) [
      | inl s ↦ ground (arith, s, e)
      | inr s ↦
          let is_schema : found ≡ schema = ground (arith, s, e) in
          let is_dup : true ≡ dup = ground (arith, s, e) in
          rw (sym is_schema, sym is_dup) (g, n, (x, r, s))
    ]

owner-Owns :
    (f : Fleet) (i : VmInfo) (schema : Str) (dup : Bool)
    → owner f i ≡ some (schema, dup)
    → Owns f i schema dup
unfolding owner duplicate_of
owner-Owns f i schema dup e = elim (Option-cases (get i.id (live_by_id f.rows []))) [
  | inr (s, g) ↦
      let is_schema : s ≡ schema = ground (arith, g, e) in
      let is_dup : false ≡ dup = ground (arith, g, e) in rw (sym is_schema, sym is_dup) g
  | inl g ↦ elim (Option-cases (strip_prefix i.name (str "pg-"))) [
    | inl p ↦ ground (arith, g, p, e)
    | inr (found, p) ↦
        superseded-Owns f i (get found f.rows) found schema dup g
          (strip_prefix-append i.name (str "pg-") found p) refl (ground (arith, g, p, e))
  ]
]

Owns-owner :
    (f : Fleet) (i : VmInfo) (schema : Str) (dup : Bool)
    → Owns f i schema dup
    → owner f i ≡ some (schema, dup)
unfolding owner duplicate_of superseded
Owns-owner f i schema false g = rw (g, owner) refl
Owns-owner f i schema true (g, n, (r, row, other)) =
    let p : strip_prefix i.name (str "pg-") ≡ some schema =
      ap (λ x. strip_prefix x (str "pg-")) n ∙ append-strip_prefix (str "pg-") schema in
    rw (g, owner, p, duplicate_of, row, superseded, other) refl

IsUntracked-of :
    (f : Fleet) (i : VmInfo) (schema : Str) (dup : Bool)
    → Owns f i schema dup
    → untracked f i (schema, dup) ≡ true
    → Stray f i schema
unfolding untracked
IsUntracked-of f i schema false g u = unserved g (ground (arith, u))
IsUntracked-of f i schema true (g, n, (r, row, other)) u =
    duplicates r g n row (λ e. ground (arith, str_eq_iff r.sandbox_id i.id, e, other))

suspect_of :
    (f : Fleet) (i : VmInfo) (schema : Str)
    → i.running ≡ true
    → starts_with i.name spare_prefix ≡ false
    → contains f.claimed i.id ≡ false
    → contains f.archiving schema ≡ false
    → is_pending (get schema f.pending) i.id ≡ false
    → Stray f i schema
    → is_suspect f i ≡ true
unfolding is_suspect untracked
suspect_of f i schema r n c a p (unserved g t) =
    rw (Owns-owner f i schema false g, r, n, c, is_suspect) (ground (arith, a, p, t))
suspect_of f i schema r n c a p (duplicates x g m row other) =
    let apart : str_eq x.sandbox_id i.id ≡ false =
      ground (arith, str_eq_iff x.sandbox_id i.id, other) in
    rw (Owns-owner f i schema true (g, m, (x, row, apart)), r, n, c, is_suspect)
      (ground (arith, a, p))

pub is_suspect_iff : (f : Fleet) (i : VmInfo) → (is_suspect f i ≡ true) ↔ IsUntracked f i
unfolding is_suspect untracked
is_suspect_iff f i = (to, from)
  where
    to : is_suspect f i ≡ true → IsUntracked f i
    to e = elim (Option-cases (owner f i)) [
      | inl o ↦ absurd (ground (arith, o, e))
      | inr ((schema, dup), o) ↦
          let u : untracked f i (schema, dup) ≡ true = ground (arith, o, e) in
          record {
            schema = schema;
            runs = ground (arith, e);
            no_spare = ground (arith, e);
            unclaimed = ground (arith, e);
            stray = IsUntracked-of f i schema dup (owner-Owns f i schema dup o) u;
            settled = ground (arith, u);
            resolved = (is_pending-some (get schema f.pending) i.id).0 (ground (arith, u));
          }
    ]

    from : IsUntracked f i → is_suspect f i ≡ true
    from h =
        suspect_of f i h.schema h.runs h.no_spare h.unclaimed h.settled
          ((is_pending-some (get h.schema f.pending) i.id).1 h.resolved) h.stray
