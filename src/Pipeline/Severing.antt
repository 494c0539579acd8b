-- ===== src/Pipeline/Severing.antt =====
-- Sets in the loop of remove_elements: a round only narrows, and ends when nothing changes.
use bst_staging.Prelude.{
  true-false, ℕ, zero, suc, ◌≡◌, refl, sym, ap, ◌∙◌, subst, String, Bool, true, false, not, ◌&&◌,
  ◌||◌, some, List, [], ◌∷◌, ◌++◌, contains, keep, nat_eq, string_eq, ◌==◌, ==_iff, arith,
  Bool-cases, inl, inr, ◌⊎◌, some_inj,
}
use bst_staging.Element.Graph.{Element, Graph}
use bst_staging.Pipeline.Removal.{
  difference, union, subset, same_set, direct, rescue, named, narrow, settle,
}

pub contains-keep :
    (p : Element → Bool) (s : List Element) (x : Element)
    → contains (keep p s) x ≡ (contains s x && p x)
contains-keep p [] x = refl
contains-keep p (y ∷ s) x = elim (Bool-cases (y == x)) [
  | inl same ↦
      let e = (==_iff y x).0 same in
      let here : p y ≡ p x = ap p e in ground (arith, same, here, contains-keep p s x)
  | inr other ↦ ground (arith, other, contains-keep p s x)
]

pub contains-union :
    (s xs : List Element) (x : Element) → contains (union s xs) x ≡ (contains s x || contains xs x)
contains-union s xs x =
    joined s (keep (λ y. not (contains s y)) xs)
    ∙ ground (arith, contains-keep (λ y. not (contains s y)) xs x)
  where
    joined : (a b : List Element) → contains (a ++ b) x ≡ (contains a x || contains b x)
    joined [] b = refl
    joined (y ∷ a) b = ground (arith, joined a b)

pub subset-contains :
    (s t : List Element) (x : Element)
    → subset s t ≡ true
    → contains s x ≡ true
    → contains t x ≡ true
subset-contains [] t x h k = cc
subset-contains (y ∷ s) t x h k = elim (Bool-cases (y == x)) [
  | inl same ↦ subst (λ z. contains t z ≡ true) ((==_iff y x).0 same) (ground arith)
  | inr other ↦ subset-contains s t x (ground arith) (ground arith)
]

-- What a set has that another has not
pub subset-missing :
    (s t : List Element)
    → subset s t ≡ false
    → (x : Element) × (contains s x ≡ true) × (contains t x ≡ false)
subset-missing [] t h = cc
subset-missing (y ∷ s) t h = elim (Bool-cases (contains t y)) [
  | inl there ↦ let (x, inside, out) = subset-missing s t (ground arith) in (x, ground arith, out)
  | inr out ↦ (y, ground (arith, ==_iff y y), out)
]

pub subset-of :
    (s t : List Element)
    → ((x : Element) → contains s x ≡ true → contains t x ≡ true)
    → subset s t ≡ true
subset-of [] t h = refl
subset-of (y ∷ s) t h =
    let first = h y (ground (arith, ==_iff y y)) in
    let rest = subset-of s t (λ x k. h x (ground arith)) in ground arith

module _ (g : Graph) (removed : List String) where
  pub rescue-shrinks :
      (tree s : List Element) (x : Element)
      → contains (rescue g removed tree s) x ≡ true
      → contains s x ≡ true
  unfolding rescue
  rescue-shrinks [] s x h = h
  rescue-shrinks (e ∷ tree) s x h =
      elim (Bool-cases (contains removed (g.name e) || contains s e)) [
        | inl stays ↦ rescue-shrinks tree s x (ground (arith, stays, h))
        | inr free ↦
            let inside =
              rescue-shrinks tree (difference s (direct g e)) x (ground (arith, free, h)) in
            ground (arith, inside, contains-keep (λ y. not (contains (direct g e) y)) s x)
      ]

  -- What an element in use depends on is not removed.
  pub rescue-frees :
      (tree s : List Element) (x d : Element)
      → contains tree x ≡ true
      → contains removed (g.name x) ≡ false
      → contains s x ≡ false
      → contains (direct g x) d ≡ true
      → contains (rescue g removed tree s) d ≡ false
  unfolding rescue
  rescue-frees [] s x d there own out needed = cc
  rescue-frees (e ∷ tree) s x d there own out needed = elim (Bool-cases (e == x)) [
    | inl same ↦
        let at = (==_iff e x).0 same in
        let free : (contains removed (g.name e) || contains s e) ≡ false =
          subst (λ y. (contains removed (g.name y) || contains s y) ≡ false) (sym at)
            (ground arith) in
        let needed' : contains (direct g e) d ≡ true =
          subst (λ y. contains (direct g y) d ≡ true) (sym at) needed in
        let gone : contains (difference s (direct g e)) d ≡ false =
          ground (arith, contains-keep (λ y. not (contains (direct g e) y)) s d, needed') in
        elim (Bool-cases (contains (rescue g removed tree (difference s (direct g e))) d)) [
          | inl kept ↦
              let back = rescue-shrinks tree (difference s (direct g e)) d kept in
              absurd (true-false back gone)
          | inr lost ↦ ground (arith, free, lost)
        ]
    | inr other ↦
        let later : contains tree x ≡ true = ground arith in
        elim (Bool-cases (contains removed (g.name e) || contains s e)) [
          | inl stays ↦ ground (arith, stays, rescue-frees tree s x d later own out needed)
          | inr free ↦
              let out' : contains (difference s (direct g e)) x ≡ false =
                ground (arith, contains-keep (λ y. not (contains (direct g e) y)) s x, out) in
              ground (
                arith,
                free,
                rescue-frees tree (difference s (direct g e)) x d later own out' needed,
              )
        ]
  ]

  pub contains-narrow :
      (tree s : List Element) (x : Element)
      → contains (narrow g removed tree s) x
        ≡ (contains (rescue g removed tree s) x || (contains tree x && contains removed (g.name x)))
  unfolding narrow
  contains-narrow tree s x =
      contains-union (rescue g removed tree s) (named g removed tree) x
      ∙ ap (λ b. contains (rescue g removed tree s) x || b)
          (contains-keep (λ e. contains removed (g.name e)) tree x)

  -- The set that the loop ends with: the result of a round that changed nothing, or a first set that
  -- is empty.
  abbrev pub IsSettled : (tree first t : List Element) → Type 0
  IsSettled tree first t =
      ((prev : List Element) × (narrow g removed tree prev ≡ t) × (same_set prev t ≡ true))
      ⊎ ((first ≡ t) × (same_set [] t ≡ true))

  pub settle-IsSettled :
      (tree first : List Element) (fuel : ℕ) (old s t : List Element)
      → ((narrow g removed tree old ≡ s) ⊎ ((first ≡ s) × (old ≡ [])))
      → settle g removed tree fuel old s ≡ some t
      → IsSettled tree first t
  unfolding settle
  settle-IsSettled tree first zero old s t step h = cc
  settle-IsSettled tree first (suc fuel) old s t step h = elim (Bool-cases (same_set old s)) [
    | inl same ↦
        let now : some s ≡ some t = ground (arith, same, h) in
        subst (IsSettled tree first) (some_inj now) (ended step same)
    | inr other ↦
        let go : settle g removed tree fuel s (narrow g removed tree s) ≡ some t =
          ground (arith, other, h) in
        settle-IsSettled tree first fuel s (narrow g removed tree s) t (inl refl) go
  ]
    where
      ended :
          ((narrow g removed tree old ≡ s) ⊎ ((first ≡ s) × (old ≡ [])))
          → same_set old s ≡ true
          → IsSettled tree first s
      ended (inl e) same = inl (old, e, same)
      ended (inr (e, empty)) same = inr (e, subst (λ o. same_set o s ≡ true) empty same)
