-- ===== src/Janitors/Passes.antt =====
-- src/registry.rs: a VM is stopped after two passes in a row, and only then.
use pg_fc.Base.{
  Bool-cases, Any, Str, eq_of_str_eq, str_eq_iff, str_eq, contains, ◌≡◌, sym, ap, ◌≢◌, ◌↔◌, inl,
  inr, true, ◌||◌, List, [], ◌∷◌, arith,
}
use pg_fc.Janitors.{VmInfo, Fleet, is_suspect, reap_untracked}
use pg_fc.Janitors.Untracked.{IsUntracked, is_suspect_iff}

-- A VM of a listing that is untracked.
abbrev pub Sighted : Fleet → List VmInfo → Str → Type 0
Sighted f is id = Any (λ i. (i.id ≡ id) × IsUntracked f i) is

contains-cons : (x id : Str) (s : List Str) → contains (x ∷ s) id ≡ (str_eq x id || contains s id)
unfolding contains
contains-cons x id s = ground arith

contains-nil : (id : Str) → contains [] id ≢ true
unfolding contains
contains-nil id e = cc

seen-Sighted :
    (f : Fleet) (s : List Str) (is : List VmInfo) (id : Str)
    → (contains (reap_untracked f s is).1 id ≡ true) ↔ Sighted f is id
unfolding reap_untracked
seen-Sighted f s [] id = (λ e. absurd (contains-nil id e), λ a. absurd a)
seen-Sighted f s (i ∷ is) id = elim (Bool-cases (is_suspect f i)) [
  | inl k ↦
      rw (k, reap_untracked, contains-cons i.id id (reap_untracked f s is).1)
        (
          λ e. elim (Bool-cases (str_eq i.id id)) [
            | inl same ↦ inl (eq_of_str_eq i.id id same, (is_suspect_iff f i).0 k)
            | inr other ↦ inr ((seen-Sighted f s is id).0 (ground (arith, e, other)))
          ],
          λ a. elim a [
            | inl (same, _) ↦ ground (arith, str_eq_iff i.id id, same)
            | inr later ↦ ground (arith, (seen-Sighted f s is id).1 later)
          ],
        )
  | inr k ↦
      rw (k, reap_untracked)
        (
          λ e. inr ((seen-Sighted f s is id).0 e),
          λ a. elim a [
            | inl (_, u) ↦ ground (arith, (is_suspect_iff f i).1 u, k)
            | inr later ↦ (seen-Sighted f s is id).1 later
          ],
        )
]

stops-Sighted :
    (f : Fleet) (s : List Str) (is : List VmInfo) (id : Str)
    → (contains (reap_untracked f s is).0 id ≡ true) ↔ ((contains s id ≡ true) × Sighted f is id)
unfolding reap_untracked
stops-Sighted f s [] id = (λ e. absurd (contains-nil id e), λ a. absurd a.1)
stops-Sighted f s (i ∷ is) id = elim (Bool-cases (is_suspect f i)) [
  | inl k ↦ elim (Bool-cases (contains s i.id)) [
    | inl c ↦
        rw (k, c, reap_untracked, contains-cons i.id id (reap_untracked f s is).0)
          (
            λ e. elim (Bool-cases (str_eq i.id id)) [
              | inl same ↦
                  let eq = eq_of_str_eq i.id id same in
                  (rw (sym eq) c, inl (eq, (is_suspect_iff f i).0 k))
              | inr other ↦
                  let (d, a) = (stops-Sighted f s is id).0 (ground (arith, e, other)) in (d, inr a)
            ],
            λ (d, a). elim a [
              | inl (same, _) ↦ ground (arith, str_eq_iff i.id id, same)
              | inr later ↦ ground (arith, (stops-Sighted f s is id).1 (d, later))
            ],
          )
    | inr c ↦
        rw (k, c, reap_untracked)
          (
            λ e. let (d, a) = (stops-Sighted f s is id).0 e in (d, inr a),
            λ (d, a). elim a [
              | inl (same, _) ↦ absurd (ground (arith, ap (λ x. contains s x) same, c, d))
              | inr later ↦ (stops-Sighted f s is id).1 (d, later)
            ],
          )
  ]
  | inr k ↦
      rw (k, reap_untracked)
        (
          λ e. let (d, a) = (stops-Sighted f s is id).0 e in (d, inr a),
          λ (d, a). elim a [
            | inl (_, u) ↦ ground (arith, (is_suspect_iff f i).1 u, k)
            | inr later ↦ (stops-Sighted f s is id).1 (d, later)
          ],
        )
]

-- A pass stops exactly the running VMs that are untracked in its own listing and were untracked in the
-- listing of the pass before: a bring-up that lands between two passes is not stopped, and a VM that
-- stays untracked is stopped on the second pass.
pub reap_untracked_lem :
    (before now : Fleet) (suspects : List Str) (listed listed_now : List VmInfo) (id : Str)
    → (contains (reap_untracked now (reap_untracked before suspects listed).1 listed_now).0 id
        ≡ true)
      ↔ (Sighted before listed id × Sighted now listed_now id)
reap_untracked_lem before now suspects listed listed_now id =
    let seen = seen-Sighted before suspects listed id in
    let stops = stops-Sighted now (reap_untracked before suspects listed).1 listed_now id in
    (λ e. let (c, a) = stops.0 e in (seen.0 c, a), λ (b, a). stops.1 (seen.1 b, a))
