-- ===== src/Pipeline/Severed.antt =====
-- Pipeline.remove_elements ends, and leaves whole what is still in use.
use bst_staging.Prelude.{
  true-false, ℕ, zero, suc, ◌+◌, ◌<◌, ◌≤◌, ◌≡◌, sym, subst, String, Bool, true, false, not, ◌&&◌,
  some, List, [], ◌∷◌, contains, keep, length, length-append, nat_eq, string_eq, ◌==◌, ==_iff,
  arith, Bool-cases, inl, inr, some_inj, one_if,
}
use bst_staging.Element.Graph.{Element, Graph}
use bst_staging.Pipeline.Removal.{union, same_set, rescue, narrow, settle}
use bst_staging.Pipeline.Severing.{
  contains-union, subset-missing, subset-of, rescue-shrinks, contains-narrow,
}

-- How many items of a list are in a set.
abbrev held : List Element → List Element → ℕ
held [] s = 0
held (u ∷ us) s = one_if (contains s u) + held us s

abbrev IsPart : List Element → List Element → Type 0
IsPart s t = (x : Element) → contains s x ≡ true → contains t x ≡ true

held-length : (us s : List Element) → held us s ≤ length us
held-length [] s = omega arith
held-length (u ∷ us) s = ground (arith, held-length us s)

held-IsPart : (us s t : List Element) → IsPart s t → held us s ≤ held us t
held-IsPart [] s t h = omega arith
held-IsPart (u ∷ us) s t h = elim (Bool-cases (contains s u)) [
  | inl inside ↦ ground (arith, inside, h u inside, held-IsPart us s t h)
  | inr out ↦ ground (arith, out, held-IsPart us s t h)
]

held-less :
    (us s t : List Element) (x : Element)
    → IsPart s t
    → contains us x ≡ true
    → contains s x ≡ false
    → contains t x ≡ true
    → held us s < held us t
held-less [] s t x part there out inside = cc
held-less (u ∷ us) s t x part there out inside = elim (Bool-cases (u == x)) [
  | inl same ↦
      let at = sym ((==_iff u x).0 same) in
      let out' : contains s u ≡ false = subst (λ y. contains s y ≡ false) at out in
      let inside' : contains t u ≡ true = subst (λ y. contains t y ≡ true) at inside in
      ground (arith, out', inside', held-IsPart us s t part)
  | inr other ↦
      let rest = held-less us s t x part (ground arith) out inside in
      elim (Bool-cases (contains s u)) [
        | inl in_s ↦ ground (arith, in_s, part u in_s, rest)
        | inr out_s ↦ ground (arith, out_s, rest)
      ]
]

module _ (g : Graph) (removed : List String) (tree : List Element) where
  -- The named elements are in a set.
  abbrev HasNamed : List Element → Type 0
  HasNamed s =
      (x : Element)
      → contains tree x ≡ true
      → contains removed (g.name x) ≡ true
      → contains s x ≡ true

  narrow-IsPart : (s : List Element) → HasNamed s → IsPart (narrow g removed tree s) s
  narrow-IsPart s has x h = elim (Bool-cases (contains (rescue g removed tree s) x)) [
    | inl inside ↦ rescue-shrinks g removed tree s x inside
    | inr out ↦
        let both : (contains tree x && contains removed (g.name x)) ≡ true =
          ground (arith, contains-narrow g removed tree s x, out) in
        has x (ground arith) (ground arith)
  ]

  narrow-HasNamed : (s : List Element) → HasNamed (narrow g removed tree s)
  narrow-HasNamed s x there own = ground (arith, contains-narrow g removed tree s x)

  settle-ends :
      (us : List Element) (fuel : ℕ) (old s : List Element)
      → IsPart s us
      → HasNamed s
      → held us s + 2 ≤ fuel
      → (t : List Element) × (settle g removed tree fuel old s ≡ some t)
  unfolding settle
  settle-ends us zero old s part has low = absurd (omega arith)
  settle-ends us (suc zero) old s part has low = absurd (omega arith)
  settle-ends us (suc (suc fuel)) old s part has low = elim (Bool-cases (same_set old s)) [
    | inl same ↦ (s, ground (arith, same))
    | inr other ↦
        let next = narrow g removed tree s in
        let smaller = narrow-IsPart s has in
        let (t, e) = again (λ low'.
          settle-ends us (suc fuel) s next (λ y h. part y (smaller y h)) (narrow-HasNamed s)
            low') in
        (t, ground (arith, other, e))
  ]
    where
      again :
          (held us (narrow g removed tree s) + 2 ≤ suc fuel
            → (t : List Element) × (settle g removed tree (suc fuel) s (narrow g removed tree s)
                ≡ some t))
          → (t : List Element) × (settle g removed tree (suc fuel) s (narrow g removed tree s)
              ≡ some t)
      again ih = elim (Bool-cases (same_set s (narrow g removed tree s))) [
        | inl same ↦ (narrow g removed tree s, ground (arith, same))
        | inr other ↦
            let next = narrow g removed tree s in
            let smaller = narrow-IsPart s has in
            let (x, inside, out) =
              subset-missing s next (ground (arith, other, subset-of next s smaller)) in
            ih (omega (arith, held-less us next s x smaller (part x inside) out inside))
      ]

  -- The first round can only add named elements of the tree.
  pub settle-total :
      (s : List Element) (fuel : ℕ)
      → length s + length tree + 3 ≤ fuel
      → (t : List Element) × (settle g removed tree fuel [] s ≡ some t)
  unfolding settle
  settle-total s zero low = absurd (omega arith)
  settle-total s (suc fuel) low = elim (Bool-cases (same_set [] s)) [
    | inl same ↦ (s, ground (arith, same))
    | inr other ↦
        let next = narrow g removed tree s in
        let us = union s tree in
        let (t, e) =
          settle-ends us fuel s next within (narrow-HasNamed s)
            (omega (arith, held-length us next, few)) in
        (t, ground (arith, other, e))
  ]
    where
      within : IsPart (narrow g removed tree s) (union s tree)
      within x h = elim (Bool-cases (contains (rescue g removed tree s) x)) [
        | inl inside ↦
            ground (arith, rescue-shrinks g removed tree s x inside, contains-union s tree x)
        | inr out ↦
            ground (arith, contains-narrow g removed tree s x, contains-union s tree x, h, out)
      ]

      kept_few : (p : Element → Bool) (xs : List Element) → length (keep p xs) ≤ length xs
      kept_few p [] = omega arith
      kept_few p (x ∷ xs) = ground (arith, kept_few p xs)

      few : length (union s tree) ≤ length s + length tree
      few = omega (
        arith,
        length-append s (keep (λ x. not (contains s x)) tree),
        kept_few (λ x. not (contains s x)) tree,
      )

  -- Only candidates and named elements go.
  pub settle-within :
      (fuel : ℕ) (old s t : List Element) (x : Element)
      → settle g removed tree fuel old s ≡ some t
      → contains t x ≡ true
      → contains s x ≡ false
      → contains removed (g.name x) ≡ true
  unfolding settle
  settle-within zero old s t x h inside out = cc
  settle-within (suc fuel) old s t x h inside out = elim (Bool-cases (same_set old s)) [
    | inl same ↦
        let now : some s ≡ some t = ground (arith, same, h) in
        let at : contains s x ≡ true =
          subst (λ y. contains y x ≡ true) (sym (some_inj now)) inside in
        absurd (true-false at out)
    | inr other ↦
        let go : settle g removed tree fuel s (narrow g removed tree s) ≡ some t =
          ground (arith, other, h) in
        elim (Bool-cases (contains removed (g.name x))) [
          | inl own ↦ own
          | inr free ↦
              settle-within fuel s (narrow g removed tree s) t x go inside (narrow_out free)
        ]
  ]
    where
      narrow_out :
          contains removed (g.name x) ≡ false → contains (narrow g removed tree s) x ≡ false
      narrow_out free = elim (Bool-cases (contains (rescue g removed tree s) x)) [
        | inl back ↦ absurd (true-false (rescue-shrinks g removed tree s x back) out)
        | inr gone ↦ ground (arith, contains-narrow g removed tree s x, free, gone)
      ]
