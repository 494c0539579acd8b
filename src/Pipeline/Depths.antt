-- ===== src/Pipeline/Depths.antt =====
-- The depths that the planner assigns: each element at least as deep as its uses ask for.
use mathlib.Core.Path.{subst, subst₂}
use bst_staging.Prelude.{
  ==_iff, ℕ, ◌+◌, ◌≤◌, ◌<◌, ◌≡◌, refl, sym, ◌∙◌, true, false, List, [], ◌∷◌, ◌++◌, some, arith, All,
  All-map, All-append, Bool-cases, inl, inr, ◌==◌, contains, without, without_self, lookup, insert,
  lookup-insert, Option-cases, nat_eq, string_eq, String,
}
use bst_staging.Element.Graph.{Element, Graph}
use bst_staging.Element.Dependencies.{run, each, descend, visit, dependencies}
use bst_staging.Pipeline.Planner.{
  Elements, DepthMap, Planner, needs_build, run_dependencies, build_dependencies, plan_each,
  is_planned,
}

-- Element `x` is planned at depth `d` or deeper.
abbrev pub IsDeep : DepthMap → Element → ℕ → Type 0
IsDeep m x d = (n : ℕ) × (lookup x m ≡ some n) × (d ≤ n)

-- What a planned element needs is planned: at run time as deep as itself, to build it deeper.
pub record IsClosedAt (w : Elements) (m : DepthMap) (e : Element) (d : ℕ) : Type 0 where
  pub ran : All (λ r. IsDeep m r d) (run_dependencies w e)
  pub built : needs_build w e ≡ true → All (λ b. IsDeep m b (d + 1)) (build_dependencies w e)

abbrev pub IsClosed : Elements → DepthMap → Type 0
IsClosed w m = (e : Element) (d : ℕ) → lookup e m ≡ some d → IsClosedAt w m e d

-- No depth is lowered.
abbrev pub Grows : DepthMap → DepthMap → Type 0
Grows m m' = (x : Element) (d : ℕ) → IsDeep m x d → IsDeep m' x d

-- The direct dependencies that the generator yields are among those that it is given.
direct-All :
    (P : Element → Type 0) (g : Graph) (visited : List String) (ds : List Element)
    → All P ds
    → All P (each (visit g 1 false true run) visited ds).0
unfolding each visit
direct-All P g visited [] h = tt
direct-All P g visited (d ∷ ds) h = elim (Bool-cases (contains visited (g.name d))) [
  | inl seen ↦ rw seen (direct-All P g visited ds h.1)
  | inr new ↦ rw new (h.0, direct-All P g (visited ++ (g.name d ∷ [])) ds h.1)
]

pub run_dependencies-All :
    (P : Element → Type 0) (w : Elements) (e : Element)
    → All P (w.graph.runtime_dependencies e)
    → All P (run_dependencies w e)
unfolding dependencies descend
run_dependencies-All P w e h =
    All-append P _ []
      (direct-All P w.graph (w.graph.name e ∷ []) (w.graph.runtime_dependencies e) h) tt

pub build_dependencies-All :
    (P : Element → Type 0) (w : Elements) (e : Element)
    → All P (w.graph.build_dependencies e)
    → All P (build_dependencies w e)
unfolding dependencies descend
build_dependencies-All P w e h =
    All-append P _ [] (direct-All P w.graph (w.graph.name e ∷ []) (w.graph.build_dependencies e) h)
      tt

module _ (w : Elements) (rank : Element → ℕ) where
  -- What a call for `e` at a depth leaves behind; `k` bounds the ranks that it touches.
  pub record IsPlanned (k depth : ℕ) (es : List Element) (p p' : Planner) : Type 0 where
    pub closed : IsClosed w p'.depth_map
    pub grows : Grows p.depth_map p'.depth_map
    pub restored : p'.visiting_elements ≡ p.visiting_elements
    pub deep : All (λ e. IsDeep p'.depth_map e depth) es
    pub above : (x : Element) → k ≤ rank x → lookup x p'.depth_map ≡ lookup x p.depth_map

  abbrev pub Plans :
      (k depth : ℕ) (visiting : List Element) → (Element → Planner → Planner) → Element → Type 0
  Plans k depth visiting plan e =
      (p : Planner)
      → IsClosed w p.depth_map
      → p.visiting_elements ≡ visiting
      → IsPlanned k depth (e ∷ []) p (plan e p)

  pub each-IsPlanned :
      (k depth : ℕ) (visiting : List Element) (plan : Element → Planner → Planner)
      (ds : List Element) (p : Planner)
      → All (Plans k depth visiting plan) ds
      → IsClosed w p.depth_map
      → p.visiting_elements ≡ visiting
      → IsPlanned k depth ds p (plan_each plan ds p)
  unfolding plan_each
  each-IsPlanned k depth visiting plan [] p h c v = record {
    closed = c;
    grows = λ x d deep. deep;
    restored = refl;
    deep = tt;
    above = λ x le. refl;
  }
  each-IsPlanned k depth visiting plan (d ∷ ds) p h c v =
      let first = h.0 p c v in
      let rest =
        each-IsPlanned k depth visiting plan ds (plan d p) h.1 first.closed (first.restored ∙ v) in
      record {
        closed = rest.closed;
        grows = λ x n deep. rest.grows x n (first.grows x n deep);
        restored = rest.restored ∙ first.restored;
        deep = (rest.grows d depth first.deep.0, rest.deep);
        above = λ x le. rest.above x le ∙ first.above x le;
      }

  pub IsClosedAt-Grows :
      {m m' : DepthMap} (e : Element) (d : ℕ)
      → Grows m m'
      → IsClosedAt w m e d
      → IsClosedAt w m' e d
  IsClosedAt-Grows e d g h = record {
    ran = All-map _ _ (run_dependencies w e) (λ r deep. g r d deep) h.ran;
    built = λ needed.
        All-map _ _ (build_dependencies w e) (λ b deep. g b (d + 1) deep) (h.built needed);
  }

  pub is_planned-IsDeep :
      (e : Element) (depth : ℕ) (p : Planner)
      → is_planned e depth p ≡ true
      → IsDeep p.depth_map e depth
  is_planned-IsDeep e depth p h = elim (Option-cases (lookup e p.depth_map)) [
    | inl absent ↦ ground arith
    | inr (n, found) ↦ (n, found, ground arith)
  ]

  -- The end of a call that went through: the depth of `e` is written.
  pub leave-IsPlanned :
      (k depth : ℕ) (e : Element) (p q : Planner)
      → rank e < k
      → contains p.visiting_elements e ≡ false
      → is_planned e depth p ≡ false
      → q.visiting_elements ≡ e ∷ p.visiting_elements
      → IsClosed w q.depth_map
      → Grows p.depth_map q.depth_map
      → ((x : Element) → rank e ≤ rank x → lookup x q.depth_map ≡ lookup x p.depth_map)
      → IsClosedAt w q.depth_map e depth
      → IsPlanned k depth (e ∷ []) p (record q {
        depth_map = insert e depth q.depth_map;
        visiting_elements = without e q.visiting_elements;
      })
  leave-IsPlanned k depth e p q low free unplanned entered c g above deps = record {
    closed = λ x d h. elim (Bool-cases (e == x)) [
      | inl same ↦ written x d same h
      | inr other ↦
          IsClosedAt-Grows x d raised (c x d (rw (lookup-insert e x depth q.depth_map, other) at h))
    ];
    grows = λ x d deep. raised x d (g x d deep);
    restored = rw entered (ground (arith, without_self e p.visiting_elements free));
    deep = ((depth, rw (lookup-insert e e depth q.depth_map) (ground arith), omega arith), tt);
    above =
        λ x le. rw (lookup-insert e x depth q.depth_map) (ground (arith, above x (omega arith)));
  }
    where
      raised : Grows q.depth_map (insert e depth q.depth_map)
      raised x d (n, found, le) = elim (Bool-cases (e == x)) [
        | inl same ↦
            let here : e ≡ x = (==_iff e x).0 same in
            let old : lookup e p.depth_map ≡ some n =
              sym (above e (omega arith))
              ∙ subst (λ y. lookup y q.depth_map ≡ some n) (sym here) found in
            let shallow : n < depth = ground (arith, old) in
            (depth, rw (lookup-insert e x depth q.depth_map, same) refl, omega arith)
        | inr other ↦ (n, rw (lookup-insert e x depth q.depth_map, other) found, le)
      ]

      written :
          (x : Element) (d : ℕ)
          → (e == x) ≡ true
          → lookup x (insert e depth q.depth_map) ≡ some d
          → IsClosedAt w (insert e depth q.depth_map) x d
      written x d same h =
          let at_depth : depth ≡ d = ground (arith, lookup-insert e x depth q.depth_map) in
          subst₂ (IsClosedAt w (insert e depth q.depth_map)) ((==_iff e x).0 same) at_depth
            (IsClosedAt-Grows e depth raised deps)
