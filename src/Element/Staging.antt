-- ===== src/Element/Staging.antt =====
-- The staging order: what it means that each element stands behind its direct dependencies.
use bst_staging.Prelude.{
  ℕ, ◌<◌, ◌≡◌, refl, sym, ap, ◌∙◌, subst, String, true, not, ◌||◌, List, [], ◌∷◌, ◌++◌, map,
  contains, keep, arith, All, All-append, string_eq, nat_eq,
}
use bst_staging.Element.Graph.{Element, Graph, IsRanked}
use bst_staging.Element.Dependencies.{Scope, all, build, run, Yield, each, descend}
use bst_staging.Element.Ranks.{keep-All}

-- Elements have names of their own.
abbrev pub IsNamed : Graph → Type 0
IsNamed g = (x y : Element) → g.name x ≡ g.name y → x ≡ y

-- The direct dependencies that a scope walks through, and the scope of the walk behind them
abbrev pub direct : Graph → Scope → Element → List Element
direct g all e =
    g.build_dependencies e
    ++ keep (λ d. not (contains (g.build_dependencies e) d)) (g.runtime_dependencies e)
direct g build e = g.build_dependencies e
direct g run e = g.runtime_dependencies e

abbrev pub behind : Scope → Scope
behind all = all
behind build = run
behind run = run

abbrev pub names : Graph → List Element → List String
names g es = map g.name es

-- Each element of a list stands behind its direct dependencies; `before` has the names in front.
abbrev pub IsStaged : Graph → Scope → (before : List String) → List Element → Type 0
IsStaged g scope before [] = Unit
IsStaged g scope before (e ∷ es) =
    All (λ d. contains before (g.name d) ≡ true) (direct g scope e)
    × IsStaged g scope (before ++ (g.name e ∷ [])) es

pub contains-append :
    (xs ys : List String) (n : String) → contains (xs ++ ys) n ≡ (contains xs n || contains ys n)
contains-append [] ys n = refl
contains-append (x ∷ xs) ys n = ground (arith, contains-append xs ys n)

pub append_assoc : (xs ys zs : List String) → (xs ++ ys) ++ zs ≡ xs ++ (ys ++ zs)
append_assoc [] ys zs = refl
append_assoc (x ∷ xs) ys zs = ap (λ l. x ∷ l) (append_assoc xs ys zs)

pub names-append :
    (g : Graph) (xs ys : List Element) → names g (xs ++ ys) ≡ names g xs ++ names g ys
names-append g [] ys = refl
names-append g (x ∷ xs) ys = ap (λ l. g.name x ∷ l) (names-append g xs ys)

pub IsStaged-append :
    (g : Graph) (scope : Scope) (before : List String) (xs ys : List Element)
    → IsStaged g scope before xs
    → IsStaged g scope (before ++ names g xs) ys
    → IsStaged g scope before (xs ++ ys)
IsStaged-append g scope before [] ys h k = subst (λ l. IsStaged g scope l ys) (append-nil before) k
  where
    append-nil : (l : List String) → l ++ [] ≡ l
    append-nil [] = refl
    append-nil (x ∷ l) = ap (λ m. x ∷ m) (append-nil l)
IsStaged-append g scope before (x ∷ xs) ys (now, later) k = (
  now,
  IsStaged-append g scope (before ++ (g.name x ∷ [])) xs ys later (
      subst (λ l. IsStaged g scope l ys) (sym (append_assoc before (g.name x ∷ []) (names g xs)))
        k),
)

each-append :
    (f : List String → Element → Yield) (visited : List String) (xs ys : List Element)
    → (let a = each f visited xs in let b = each f a.1 ys in (a.0 ++ b.0, b.1))
      ≡ each f visited (xs ++ ys)
unfolding each
each-append f visited [] ys = refl
each-append f visited (x ∷ xs) ys =
    let y = f visited x in
    let rest = each-append f y.1 xs ys in
    let assoc = element_assoc y.0 (each f y.1 xs).0 (each f (each f y.1 xs).1 ys).0 in
    λ i. ((assoc ∙ ap (λ r. y.0 ++ r.0) rest) i, (rest i).1)
  where
    element_assoc : (a b c : List Element) → (a ++ b) ++ c ≡ a ++ (b ++ c)
    element_assoc [] b c = refl
    element_assoc (x ∷ a) b c = ap (λ l. x ∷ l) (element_assoc a b c)

-- A walk goes through the direct dependencies in their order.
pub descend-each :
    (g : Graph) (f : Scope → List String → Element → Yield) (scope : Scope) (visited : List String)
    (e : Element)
    → descend g f scope visited e ≡ each (f (behind scope)) visited (direct g scope e)
unfolding descend
descend-each g f build visited e = refl
descend-each g f run visited e = refl
descend-each g f all visited e =
    each-append (f all) visited (g.build_dependencies e)
      (keep (λ d. not (contains (g.build_dependencies e) d)) (g.runtime_dependencies e))

pub direct-ranked :
    (g : Graph) (rank : Element → ℕ)
    → IsRanked g rank
    → (scope : Scope) (e : Element) → All (λ d. rank d < rank e) (direct g scope e)
direct-ranked g rank ranked build e = ranked.build e
direct-ranked g rank ranked run e = ranked.runtime e
direct-ranked g rank ranked all e =
    All-append (λ d. rank d < rank e) (g.build_dependencies e) _ (ranked.build e)
      (keep-All (λ d. rank d < rank e) (λ d. not (contains (g.build_dependencies e) d))
        (g.runtime_dependencies e) (ranked.runtime e))
