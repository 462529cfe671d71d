-- ===== src/Offload/Claims.antt =====
-- src/registry.rs: `ArchivingGuard`, the claim on a schema that is being offloaded.
use pg_fc.Base.{
  if◌then◌else◌, Str, str_eq_iff, str_eq, contains, ◌≡◌, refl, sym, ap, ◌∙◌, ◌↔◌, true, false, ◌||◌,
  Option, none, some, List, [], ◌∷◌, ◌++◌, arith,
}
use pg_fc.Spares.{without}
use pg_fc.Spares.Sets.{IsNodup, contains-without, contains-append, IsNodup-middle}

-- `claim`: the set with the schema, unless it was there.
unfoldable pub claim_schema : Str → List Str → Option (List Str)
claim_schema schema archiving =
    if contains archiving schema then none else some (schema ∷ archiving)

-- `drop`.
unfoldable pub drop_guard : Str → List Str → List Str
drop_guard schema archiving = without schema archiving

-- The set, and the guards that are alive.
pub record Guards : Type 0 where
  pub archiving : List Str
  pub guards : List Str

pub data GuardStep (g : Guards) : Guards → Type 0 where
  claims :
      (schema : Str) (after : List Str)
      → claim_schema schema g.archiving ≡ some after
      → GuardStep g (record { archiving = after; guards = schema ∷ g.guards })
  drops :
      (before after : List Str) (schema : Str)
      → g.guards ≡ before ++ schema ∷ after
      → GuardStep g (record { archiving = drop_guard schema g.archiving; guards = before ++ after })

pub data GuardRun : Guards → Type 0 where
  none_alive : GuardRun (record { archiving = []; guards = [] })
  more : {g h : Guards} → GuardStep g h → GuardRun g → GuardRun h

-- One guard for a schema, and the set holds the schemas of the guards.
abbrev pub IsGuarded : Guards → Type 0
IsGuarded g = IsNodup g.guards × ((j : Str) → contains g.archiving j ≡ contains g.guards j)

claims-IsGuarded :
    (g : Guards) (schema : Str) (after : List Str)
    → claim_schema schema g.archiving ≡ some after
    → IsGuarded g
    → IsGuarded (record { archiving = after; guards = schema ∷ g.guards })
unfolding claim_schema contains
claims-IsGuarded g schema after e v =
    let new : contains g.archiving schema ≡ false = ground arith in
    let same : schema ∷ g.archiving ≡ after = ground arith in
    rw (sym same) ((sym (v.1 schema) ∙ new, v.0), λ j. ground (arith, v.1 j))

contains-middle :
    (before after : List Str) (schema j : Str)
    → contains (before ++ schema ∷ after) j ≡ (str_eq schema j || contains (before ++ after) j)
unfolding contains
contains-middle before after schema j =
    ground (arith, contains-append before (schema ∷ after) j, contains-append before after j)

drops-IsGuarded :
    (g : Guards) (before after : List Str) (schema : Str)
    → g.guards ≡ before ++ schema ∷ after
    → IsGuarded g
    → IsGuarded (record { archiving = drop_guard schema g.archiving; guards = before ++ after })
unfolding drop_guard
drops-IsGuarded g before after schema e v =
    let (gone, once) = IsNodup-middle before schema after (rw e at v.0) in
    (
      once,
      λ j. ground (
        arith,
        contains-without schema g.archiving j,
        v.1 j,
        ap (λ l. contains l j) e,
        contains-middle before after schema j,
        str_eq_iff schema j,
      ),
    )

run_IsGuarded : (g : Guards) → GuardRun g → IsGuarded g
run_IsGuarded g none_alive = (tt, λ j. refl)
run_IsGuarded h (more {g} (claims schema after e) r) =
    claims-IsGuarded g schema after e (run_IsGuarded g r)
run_IsGuarded h (more {g} (drops before after schema e) r) =
    drops-IsGuarded g before after schema e (run_IsGuarded g r)

-- However claims and drops of guards interleave, a schema has at most one guard alive, and a claim is
-- refused exactly while one is.
pub GuardRun-IsGuarded :
    (g : Guards) (schema : Str)
    → GuardRun g
    → IsGuarded g × ((claim_schema schema g.archiving ≡ none) ↔ (contains g.guards schema ≡ true))
unfolding claim_schema
GuardRun-IsGuarded g schema r =
    let v = run_IsGuarded g r in
    (v, (λ h. ground (arith, v.1 schema), λ h. ground (arith, v.1 schema)))
