-- ===== src/Loader/Cycles.antt =====
-- Loader.check_circular_deps decides whether the elements below the target depend on themselves.
use mathlib.Core.Path.{subst}
use bst_staging.Prelude.{
  ℕ, zero, suc, ◌≤◌, ◌<◌, ◌≡◌, sym, true, false, not, String, none, some, List, [], ◌∷◌, arith, All,
  length, contains, keep, lookup, string_eq, Bool-cases, Option-cases, inl, inr,
}
use bst_staging.Loader.LoadElement.{Dependency, LoadElement, Elements}
use bst_staging.Loader.Circular.{
  Outcome, checked, circular_dependency, key_error, out_of_fuel, check_each, validate,
  check_circular_deps,
}
use bst_staging.Loader.Acyclic.{
  DependsOn, direct, further, dep_names, IsTopological, Passes, OnChecked, names_of,
  dep_names-found, check-missing, check-found, check-Passes,
}

All-contains :
    (P : String → Type 0) (l : List String) (x : String) → All P l → contains l x ≡ true → P x
All-contains P [] x h c = cc
All-contains P (y ∷ l) x h c = elim (Bool-cases (string_eq.beq y x)) [
  | inl same ↦ subst P ((string_eq.beq_iff y x).0 same) h.0
  | inr other ↦ All-contains P l x h.1 (ground arith)
]

module _ (elements : Elements) where
  deps-topological :
      (v : List String) (m k : String)
      → IsTopological elements v
      → contains v m ≡ true
      → contains (dep_names elements m) k ≡ true
      → contains v k ≡ true
  deps-topological [] m k h c d = cc
  deps-topological (n ∷ v) m k h c d = elim (Bool-cases (string_eq.beq n m)) [
    | inl same ↦
        let at : n ≡ m = (string_eq.beq_iff n m).0 same in
        let below : contains v k ≡ true =
          All-contains _ (dep_names elements n) k h.1
            (subst (λ x. contains (dep_names elements x) k ≡ true) (sym at) d) in
        ground arith
    | inr other ↦
        let below : contains v k ≡ true = deps-topological v m k h.2 (ground arith) d in
        ground arith
  ]

  -- Everything that the newest validated name depends on was validated before.
  newest-topological :
      (n : String) (v : List String) (k : String)
      → IsTopological elements (n ∷ v)
      → DependsOn elements n k
      → contains v k ≡ true
  newest-topological n v k h (direct m c) = All-contains _ (dep_names elements n) m h.1 c
  newest-topological n v k h (further m j d c) =
      deps-topological v m j h.2 (newest-topological n v m h d) c

  no_cycle :
      (v : List String) (n : String)
      → IsTopological elements v
      → contains v n ≡ true
      → ¬ DependsOn elements n n
  no_cycle [] n h c d = cc
  no_cycle (x ∷ v) n h c d = elim (Bool-cases (string_eq.beq x n)) [
    | inl same ↦
        let at : x ≡ n = (string_eq.beq_iff x n).0 same in
        let again = newest-topological n v n (subst (λ y. IsTopological elements (y ∷ v)) at h) d in
        cc (subst (λ y. contains v y ≡ false) at h.0, again)
    | inr other ↦ no_cycle v n h.2 (ground arith) d
  ]

  closed-topological :
      (v : List String) (n k : String)
      → IsTopological elements v
      → contains v n ≡ true
      → DependsOn elements n k
      → contains v k ≡ true
  closed-topological v n k h c (direct m d) = deps-topological v n m h c d
  closed-topological v n k h c (further m j d e) =
      deps-topological v m j h (closed-topological v n m h c d) e

  -- What the outcomes other than a passed check say
  abbrev IsJustified : Outcome → Type 0
  IsJustified (checked v) = Unit
  IsJustified (circular_dependency n) = DependsOn elements n n
  IsJustified (key_error n) = lookup n elements ≡ none
  IsJustified out_of_fuel = ⊥

  each-step :
      (check : String → List String → Outcome) (ds : List Dependency) (o : Outcome)
      → IsJustified o
      → ((v : List String) → IsJustified (check_each check ds v))
      → IsJustified (elim o [ checked v ↦ check_each check ds v | other ↦ other ])
  each-step check ds (checked v) h rest = rest v
  each-step check ds _ h rest = h

  each-IsJustified :
      (check : String → List String → Outcome) (ds : List Dependency)
      → ((n : String) (v : List String) → contains (names_of ds) n ≡ true → IsJustified (check n v))
      → (v : List String) → IsJustified (check_each check ds v)
  unfolding check_each
  each-IsJustified check [] step v = tt
  each-IsJustified check (d ∷ ds) step v =
      each-step check ds (check d.name v)
        (step d.name v (ground (arith, string_eq.beq_iff d.name d.name)))
        (λ v'. each-IsJustified check ds (λ n u c. step n u (ground arith)) v')

  validate-IsJustified : (n : String) (o : Outcome) → IsJustified o → IsJustified (validate n o)
  validate-IsJustified n (checked v) h = tt
  validate-IsJustified n _ h = h

-- The elements whose calls are not open
abbrev idle : List String → Elements → ℕ
idle check_elements elements = length (keep (λ i. not (contains check_elements i.0)) elements)

idle-cons-le :
    (n : String) (check_elements : List String) (elements : Elements)
    → idle (n ∷ check_elements) elements ≤ idle check_elements elements
idle-cons-le n check_elements [] = omega arith
idle-cons-le n check_elements ((k, e) ∷ rest) = ground (arith, idle-cons-le n check_elements rest)

idle-cons-lt :
    (n : String) (check_elements : List String) (elements : Elements) {e : LoadElement}
    → lookup n elements ≡ some e
    → contains check_elements n ≡ false
    → idle (n ∷ check_elements) elements < idle check_elements elements
idle-cons-lt n check_elements [] found closed = cc
idle-cons-lt n check_elements ((k, x) ∷ rest) {e = e} found closed = ground (
  arith,
  string_eq.beq_iff k n,
  string_eq.beq_iff n k,
  idle-cons-le n check_elements rest,
  idle-cons-lt n check_elements rest {e = e},
)

module _ (elements : Elements) where
  -- Every open call depends on the element at hand.
  abbrev IsChain : List String → String → Type 0
  IsChain check_elements n =
      (x : String) → contains check_elements x ≡ true → DependsOn elements x n

  IsChain-enter :
      (check_elements : List String) (n m : String)
      → IsChain check_elements n
      → contains (dep_names elements n) m ≡ true
      → IsChain (n ∷ check_elements) m
  IsChain-enter check_elements n m chain d x inside = elim (Bool-cases (string_eq.beq n x)) [
    | inl same ↦ subst (λ y. DependsOn elements y m) ((string_eq.beq_iff n x).0 same) (direct m d)
    | inr other ↦ further n m (chain x (ground arith)) d
  ]

  check-IsJustified :
      (fuel : ℕ) (check_elements : List String) (n : String) (v : List String)
      → idle check_elements elements < fuel
      → IsChain check_elements n
      → IsJustified elements (check_circular_deps elements fuel check_elements n v)
  check-IsJustified zero check_elements n v h chain = absurd (omega arith)
  check-IsJustified (suc fuel) check_elements n v h chain =
      elim (Option-cases (lookup n elements)) [
        | inl missing ↦ rw (check-missing elements fuel check_elements n v missing) missing
        | inr (e, found) ↦
            rw (check-found elements fuel check_elements n v e found)
              (elim (Bool-cases (contains v n)) [
                | inl done ↦ rw done tt
                | inr new ↦ rw new (elim (Bool-cases (contains check_elements n)) [
                  | inl open_call ↦ rw open_call (chain n open_call)
                  | inr closed ↦ rw closed (
                      validate-IsJustified elements n _ (
                        each-IsJustified elements
                          (λ m. check_circular_deps elements fuel (n ∷ check_elements) m) e.deps
                          (λ m u d.
                            check-IsJustified fuel (n ∷ check_elements) m u
                              (omega (arith, idle-cons-lt n check_elements elements found closed))
                              (IsChain-enter check_elements n m chain
                                (rw (dep_names-found elements n e found) d)))
                          v))
                ])
              ])
      ]

-- What the outcome of a check says of the elements that the target needs
abbrev pub Decides : Elements → String → Outcome → Type 0
Decides elements target (checked v) =
    (¬ DependsOn elements target target)
    × ((n : String) → DependsOn elements target n → ¬ DependsOn elements n n)
Decides elements target (circular_dependency n) = DependsOn elements n n
Decides elements target (key_error n) = lookup n elements ≡ none
Decides elements target out_of_fuel = ⊥

Decides-of :
    (elements : Elements) (target : String) (o : Outcome)
    → OnChecked (Passes elements [] (target ∷ []) []) o
    → IsJustified elements o
    → Decides elements target o
Decides-of elements target (checked v) p j = (
  no_cycle elements v target p.topological p.there.0,
  λ n d.
      no_cycle elements v n p.topological
        (closed-topological elements v target n p.topological p.there.0 d),
)
Decides-of elements target _ p j = j

-- With more fuel than there are elements the check of a target ends, and rightly: if it passes, no
-- element that the target is or depends on depends on itself; if it reports a circular dependency,
-- the reported element does depend on itself; and a key error names an element that is not loaded.
pub check_circular_deps-Decides :
    (elements : Elements) (fuel : ℕ) (target : String)
    → length elements < fuel
    → Decides elements target (check_circular_deps elements fuel [] target [])
check_circular_deps-Decides elements fuel target h =
    Decides-of elements target (check_circular_deps elements fuel [] target [])
      (check-Passes elements fuel [] target [] tt)
      (check-IsJustified elements fuel [] target [] (omega (arith, all_idle elements))
        (λ x inside. cc))
  where
    all_idle : (es : Elements) → idle [] es ≤ length es
    all_idle [] = omega arith
    all_idle (e ∷ es) = omega (arith, all_idle es)
