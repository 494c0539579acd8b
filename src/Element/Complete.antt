-- ===== src/Element/Complete.antt =====
-- Element.dependencies on an acyclic graph leaves nothing out, and Element._buildable asks for all
-- that a build needs.
use bst_staging.Prelude.{
  ℕ, ◌<◌, ◌≡◌, refl, sym, subst, String, true, List, [], ◌∷◌, ◌++◌, contains, arith, All, string_eq,
  nat_eq, Bool-cases, inl, inr, ◌==◌, ==_iff,
}
use bst_staging.Element.Graph.{Element, Graph, IsRanked}
use bst_staging.Element.Dependencies.{Scope, all, build, run, yields_self, dependencies}
use bst_staging.Element.Staging.{
  IsNamed, direct, behind, names, IsStaged, contains-append, append_assoc,
}
use bst_staging.Element.Walks.{dependencies-Leaves, dependencies-Leaves_build}

-- What is in a scope of an element: itself, but for the build scope, its direct dependencies, and
-- what is reached from these.
pub data IsInScope (g : Graph) (scope : Scope) (e : Element) : Element → Type 0 where
  itself : yields_self scope ≡ true → IsInScope g scope e e
  dependency : (d : Element) → contains (direct g scope e) d ≡ true → IsInScope g scope e d
  further :
      (x d : Element)
      → IsInScope g scope e x
      → contains (direct g (behind scope) x) d ≡ true
      → IsInScope g scope e d

pub All-contains :
    (P : Element → Type 0) (xs : List Element) (x : Element) → All P xs → contains xs x ≡ true → P x
All-contains P [] x h k = cc
All-contains P (y ∷ xs) x (now, later) k = elim (Bool-cases (y == x)) [
  | inl same ↦ subst P ((==_iff y x).0 same) now
  | inr other ↦ let k' : contains xs x ≡ true = ground arith in All-contains P xs x later k'
]

names-contains :
    (g : Graph)
    → IsNamed g
    → (xs : List Element) (x : Element) → contains (names g xs) (g.name x) ≡ true
    → contains xs x ≡ true
names-contains g named [] x h = cc
names-contains g named (y ∷ xs) x h = elim (Bool-cases (string_eq.beq (g.name y) (g.name x))) [
  | inl same ↦
      let own = named y x ((string_eq.beq_iff (g.name y) (g.name x)).0 same) in
      ground (arith, own, ==_iff y x)
  | inr other ↦
      let h' : contains (names g xs) (g.name x) ≡ true = ground arith in
      ground (arith, names-contains g named xs x h')
]

-- A list in the staging order has the direct dependencies of its elements.
staged-closed :
    (g : Graph) (scope : Scope) (before : List String) (es : List Element) (x d : Element)
    → IsStaged g scope before es
    → contains es x ≡ true
    → contains (direct g scope x) d ≡ true
    → contains (before ++ names g es) (g.name d) ≡ true
staged-closed g scope before [] x d h k m = cc
staged-closed g scope before (e ∷ es) x d (now, later) k m = elim (Bool-cases (e == x)) [
  | inl same ↦
      let now' =
        subst (λ y. All (λ z. contains before (g.name z) ≡ true) (direct g scope y))
          ((==_iff e x).0 same) now in
      let there =
        All-contains (λ z. contains before (g.name z) ≡ true) (direct g scope x) d now' m in
      ground (arith, there, contains-append before (names g (e ∷ es)) (g.name d))
  | inr other ↦
      let k' : contains es x ≡ true = ground arith in
      subst (λ l. contains l (g.name d) ≡ true) (append_assoc before (g.name e ∷ []) (names g es))
        (staged-closed g scope (before ++ (g.name e ∷ [])) es x d later k' m)
]

module _ (g : Graph) (rank : Element → ℕ) (ranked : IsRanked g rank) (named : IsNamed g) where
  holds-scope :
      (scope : Scope) (e : Element) (es : List Element)
      → IsStaged g (behind scope) [] es
      → (yields_self scope ≡ true → contains es e ≡ true)
      → ((d : Element) → contains (direct g scope e) d ≡ true → contains es d ≡ true)
      → (x : Element) → IsInScope g scope e x
      → contains es x ≡ true
  holds-scope scope e es staged own first x (itself h) = own h
  holds-scope scope e es staged own first x (dependency d h) = first x h
  holds-scope scope e es staged own first x (further y d m h) = names-contains g named es x (
      staged-closed g (behind scope) [] es y x staged (holds-scope scope e es staged own first y m)
        h)

  own_scope :
      (fuel : ℕ) (scope : Scope) (e x : Element)
      → rank e < fuel
      → IsInScope g scope e x
      → yields_self scope ≡ true
      → behind scope ≡ scope
      → (contains (dependencies g fuel scope true e) x ≡ true)
        × IsStaged g (behind scope) [] (dependencies g fuel scope true e)
  own_scope fuel scope e x low needed own same =
      let (staged, there) = dependencies-Leaves g rank ranked named scope own fuel e low in
      let es = dependencies g fuel scope true e in
      let self = names-contains g named es e there in
      (
        holds-scope scope e es (subst (λ t. IsStaged g t [] es) (sym same) staged) (λ h. self)
            (λ d h. names-contains g named es d (staged-closed g scope [] es e d staged self h)) x
            needed,
        subst (λ t. IsStaged g t [] es) (sym same) staged,
      )

-- On an acyclic graph of elements with names of their own, with more fuel than the element's rank:
-- `dependencies` yields everything in the scope, and each element behind all its dependencies.
pub dependencies_complete :
    (g : Graph) (rank : Element → ℕ) (ranked : IsRanked g rank) (fuel : ℕ) (scope : Scope)
    (e x : Element)
    → IsNamed g
    → rank e < fuel
    → IsInScope g scope e x
    → (contains (dependencies g fuel scope true e) x ≡ true)
      × IsStaged g (behind scope) [] (dependencies g fuel scope true e)
dependencies_complete g rank ranked fuel build e x named low needed =
    let (staged, first) = dependencies-Leaves_build g rank ranked named fuel e low in
    let es = dependencies g fuel build true e in
    (
      holds-scope g rank ranked named build e es staged (λ h. cc)
          (λ d h. names-contains g named es d (
            All-contains (λ z. contains (names g es) (g.name z) ≡ true) (g.build_dependencies e) d
              first h))
          x needed,
      staged,
    )
dependencies_complete g rank ranked fuel all e x named low needed =
    own_scope g rank ranked named fuel all e x low needed refl refl
dependencies_complete g rank ranked fuel run e x named low needed =
    own_scope g rank ranked named fuel run e x low needed refl refl
