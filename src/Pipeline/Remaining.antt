-- ===== src/Pipeline/Remaining.antt =====
-- What Pipeline.remove_elements leaves.
use bst_staging.Prelude.{
  true-false, ℕ, suc, ◌+◌, ◌≤◌, ◌≡◌, refl, sym, ◌∙◌, subst, String, true, false, not, ◌&&◌, some,
  List, [], ◌∷◌, ◌++◌, contains, length, nat_eq, string_eq, ==_iff, arith, Bool-cases, Option-cases,
  inl, inr,
}
use bst_staging.Element.Graph.{Element, Graph}
use bst_staging.Element.Dependencies.{all, dependencies, visit, descend}
use bst_staging.Pipeline.Removal.{
  kept, candidates, unknown, candidates_of, search_tree, difference, union, direct, narrow, settle,
  remove_elements,
}
use bst_staging.Pipeline.Severing.{
  contains-keep, contains-union, subset-contains, rescue-frees, contains-narrow, IsSettled,
  settle-IsSettled,
}
use bst_staging.Pipeline.Severed.{settle-total, settle-within}

-- The elements that are left of a tree: none of the named ones, with each element all that it
-- directly depends on in the tree, but for the named ones, and all of the tree that is neither named
-- nor a candidate.
pub record IsRemainder (g : Graph) (tree : List Element) (removed : List String)
    (s es : List Element) : Type 0 where
  pub from_tree : (x : Element) → contains es x ≡ true → contains tree x ≡ true
  pub unnamed : (x : Element) → contains es x ≡ true → contains removed (g.name x) ≡ false
  pub whole :
      (x d : Element)
      → contains es x ≡ true
      → contains (direct g x) d ≡ true
      → contains tree d ≡ true
      → contains removed (g.name d) ≡ false
      → contains es d ≡ true
  pub untouched :
      (x : Element)
      → contains tree x ≡ true
      → contains removed (g.name x) ≡ false
      → contains s x ≡ false
      → contains es x ≡ true

-- A walk over all dependencies yields the element itself.
dependencies_own :
    (g : Graph) (fuel : ℕ) (e : Element) → contains (dependencies g (suc fuel) all true e) e ≡ true
unfolding dependencies visit
dependencies_own g fuel e = last (descend g (visit g fuel true true) all (g.name e ∷ []) e).0
  where
    last : (es : List Element) → contains (es ++ (e ∷ [])) e ≡ true
    last [] = ground (arith, ==_iff e e)
    last (x ∷ es) = ground (arith, last es)

candidates-extend :
    (g : Graph) (scope_fuel : ℕ) (tree : List Element) (removed : List String) (s t : List Element)
    (x : Element)
    → candidates_of g scope_fuel tree removed s ≡ candidates t
    → contains s x ≡ true
    → contains t x ≡ true
unfolding candidates_of
candidates-extend g scope_fuel tree [] s t x h inside =
    subst (λ y. contains y x ≡ true) (same h) inside
  where
    same : {a b : List Element} → candidates a ≡ candidates b → a ≡ b
    same e = cc
candidates-extend g scope_fuel tree (n ∷ removed) s t x h inside =
    elim (Option-cases (search_tree g tree n)) [
      | inl missing ↦
          let no : unknown n ≡ candidates t = ground (arith, missing, h) in
          let clash : ⊥ = cc in absurd clash
      | inr (e, found) ↦
          let ds = dependencies g scope_fuel all true e in
          let go : candidates_of g scope_fuel tree removed (union s ds) ≡ candidates t =
            ground (arith, found, h) in
          candidates-extend g scope_fuel tree removed (union s ds) t x go
            (ground (arith, inside, contains-union s ds x))
    ]

-- If a name is to be removed, there is a candidate.
candidates_inhabited :
    (g : Graph) (fuel : ℕ) (tree : List Element) (n : String) (removed : List String)
    (t : List Element)
    → candidates_of g (suc fuel) tree (n ∷ removed) [] ≡ candidates t
    → (x : Element) × (contains t x ≡ true)
unfolding candidates_of
candidates_inhabited g fuel tree n removed t h = elim (Option-cases (search_tree g tree n)) [
  | inl missing ↦
      let no : unknown n ≡ candidates t = ground (arith, missing, h) in
      let clash : ⊥ = cc in absurd clash
  | inr (e, found) ↦
      let ds = dependencies g (suc fuel) all true e in
      let go : candidates_of g (suc fuel) tree removed (union [] ds) ≡ candidates t =
        ground (arith, found, h) in
      (
        e,
        candidates-extend g (suc fuel) tree removed (union [] ds) t e go
            (contains-union [] ds e ∙ dependencies_own g fuel e),
      )
]

module _ (g : Graph) (removed : List String) (tree : List Element) where
  -- The named elements go.
  settled_named :
      (fuel : ℕ) (s t : List Element)
      → candidates_of g (suc fuel) tree removed [] ≡ candidates s
      → IsSettled g removed tree s t
      → (x : Element) → contains tree x ≡ true
      → contains t x ≡ false
      → contains removed (g.name x) ≡ false
  settled_named fuel s t from (inl (prev, e, same)) x there out =
      let left : contains (narrow g removed tree prev) x ≡ false =
        subst (λ y. contains y x ≡ false) (sym e) out in
      ground (arith, contains-narrow g removed tree prev x, left, there)
  settled_named fuel s t from (inr (e, empty)) x there out =
      elim removed
          as (λ names.
            candidates_of g (suc fuel) tree names [] ≡ candidates s
            → contains names (g.name x) ≡ false) [
              | [] ↦ λ h. refl
              | n ∷ names ↦ λ h.
                  let (y, inside) = candidates_inhabited g fuel tree n names s h in
                  let at : contains t y ≡ true = subst (λ z. contains z y ≡ true) e inside in
                  let none_there = subset-contains t [] y (ground (arith, empty)) at in
                  absurd (true-false none_there refl)
            ]
        from

  settled_whole :
      (s t : List Element)
      → IsSettled g removed tree s t
      → (x d : Element) → contains tree x ≡ true
      → contains t x ≡ false
      → contains removed (g.name x) ≡ false
      → contains (direct g x) d ≡ true
      → contains removed (g.name d) ≡ false
      → contains t d ≡ false
  settled_whole s t (inl (prev, e, same)) x d there out own needed free =
      let before : contains prev x ≡ false = elim (Bool-cases (contains prev x)) [
        | inl inside ↦
            absurd (true-false (subset-contains prev t x (ground (arith, same)) inside) out)
        | inr away ↦ away
      ] in
      let freed = rescue-frees g removed tree prev x d there own before needed in
      subst (λ y. contains y d ≡ false) e
        (ground (arith, contains-narrow g removed tree prev d, freed, free))
  settled_whole s t (inr (e, empty)) x d there out own needed free =
      elim (Bool-cases (contains t d)) [
        | inl inside ↦
            absurd (true-false (subset-contains t [] d (ground (arith, empty)) inside) refl)
        | inr away ↦ away
      ]

  remainder :
      (fuel rounds : ℕ) (s t : List Element)
      → candidates_of g (suc fuel) tree removed [] ≡ candidates s
      → settle g removed tree rounds [] s ≡ some t
      → IsRemainder g tree removed s (difference tree t)
  remainder fuel rounds s t from h = record {
    from_tree = λ x inside. ground (arith, inside, in_tree x);
    unnamed = λ x inside.
        settled_named fuel s t from settled x (ground (arith, inside, in_tree x))
          (ground (arith, inside, in_tree x));
    whole = λ x d inside needed there free.
        let at : contains tree x ≡ true = ground (arith, inside, in_tree x) in
        let out : contains t x ≡ false = ground (arith, inside, in_tree x) in
        let left =
          settled_whole s t settled x d at out (settled_named fuel s t from settled x at out) needed
            free in
        ground (arith, in_tree d, there, left);
    untouched = λ x there free away. elim (Bool-cases (contains t x)) [
      | inl inside ↦
          absurd (true-false (settle-within g removed tree rounds [] s t x h inside away) free)
      | inr out ↦ ground (arith, in_tree x, there, out)
    ];
  }
    where
      settled : IsSettled g removed tree s t
      settled = settle-IsSettled g removed tree s rounds [] s t (inr (refl, refl)) h

      in_tree :
          (x : Element) → contains (difference tree t) x ≡ (contains tree x && not (contains t x))
      in_tree x = contains-keep (λ y. not (contains t y)) tree x

-- If every name that is to be removed is the name of an element of the tree: with more rounds than
-- two more than the candidates and the tree have elements, remove_elements ends, and leaves none of
-- the named elements, with each element all that it directly depends on in the tree but for the
-- named ones, and everything that is neither named nor a candidate.
pub remove_elements-IsRemainder :
    (g : Graph) (scope_fuel fuel : ℕ) (tree : List Element) (removed : List String)
    (s : List Element)
    → candidates_of g (suc scope_fuel) tree removed [] ≡ candidates s
    → length s + length tree + 3 ≤ fuel
    → (es : List Element) × (remove_elements g (suc scope_fuel) fuel tree removed ≡ kept es)
      × IsRemainder g tree removed s es
unfolding remove_elements
remove_elements-IsRemainder g scope_fuel fuel tree removed s from low =
    let (t, h) = settle-total g removed tree s fuel low in
    (
      difference tree t,
      ground (arith, from, h),
      remainder g removed tree scope_fuel fuel s t from h,
    )
