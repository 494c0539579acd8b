-- ===== src/Element/KeyAnswers.antt =====
-- Element._get_cache_key computes the keys that the recursive equations of keys give, and what is
-- remembered never changes them.
use bst_staging.Prelude.{
  ℕ, zero, suc, ◌<◌, ◌≡◌, refl, sym, ap, ◌∙◌, subst, String, Bool, true, false, Option, none, some,
  List, [], ◌∷◌, map, ◌≤◌, insert, nat_eq, if◌then◌else◌, All, arith, Bool-cases, Option-cases, inl,
  inr, if-both, ==_iff, ◌==◌,
}
use bst_staging.Element.Graph.{Element, IsRanked}
use bst_staging.Element.Ranks.{dependencies-IsBelow}
use bst_staging.Element.Keys.{
  KeyStrength, strong, weak, Keys, KeyStore, keys_of, pick, KeySources, calculate_cache_key,
  get_each, build_scope, direct_names, compute_keys, get_cache_key,
}
use bst_staging.Element.KeyEquations.{
  key_equation, IsKeying, IsRightBut, IsRight, Answers, and_open, keys_of-insert, insert-IsRightBut,
  insert-opened, get_each-right,
}

module _ (w : KeySources) (scope_fuel : ℕ) (rank : Element → ℕ) (ranked : IsRanked w.graph rank)
    (key : KeyStrength → Element → Option String) (keying : IsKeying w scope_fuel key) where
  -- The open elements are above an element.
  abbrev AreAbove : (Element → Bool) → Element → Type 0
  AreAbove open_elements e = (x : Element) → open_elements x ≡ true → rank e < rank x

  deps-Answer :
      (open_elements : Element → Bool) (e : Element) (strength : KeyStrength)
      (get : KeyStrength → Element → KeyStore → Option String × KeyStore) (fuel : ℕ)
      → ((strength : KeyStrength) (d : Element) (o : Element → Bool) (s : KeyStore)
          → rank d < fuel
          → AreAbove o d
          → IsRightBut o key s
          → Answers o key strength d s (get strength d s))
      → rank e < suc fuel
      → ((x : Element) → open_elements x ≡ true → rank e ≤ rank x)
      → (ds : List Element) → All (λ d. rank d < rank e) ds
      → All
          (λ d.
            (s : KeyStore)
            → IsRightBut open_elements key s
            → Answers open_elements key strength d s (get strength d s))
          ds
  deps-Answer o e strength get fuel ih low above [] below = tt
  deps-Answer o e strength get fuel ih low above (d ∷ ds) (b, below) = (
    λ s right. ih strength d o s (omega (arith, b)) (λ x h. omega (arith, b, above x h)) right,
    deps-Answer o e strength get fuel ih low above ds below,
  )

  -- What the calculation of both keys leaves
  abbrev IsComputed : (Element → Bool) → Element → KeyStore → Keys × KeyStore → Type 0
  IsComputed o e s r =
      (r.0.cache_key ≡ key strong e)
      × (r.0.weak_cache_key ≡ key weak e)
      × IsRightBut o key r.1
      × ((x : Element) → o x ≡ true → keys_of x r.1 ≡ keys_of x s)

  -- Both keys are set last.
  finish-IsComputed :
      (o : Element → Bool) (e : Element) (s s₄ : KeyStore) (ds : List (Option String))
      → (keys_of e s₄).cache_key ≡ key strong e
      → calculate_cache_key w e ds ≡ key weak e
      → IsRightBut (and_open e o) key s₄
      → ((x : Element) → o x ≡ true → keys_of x s₄ ≡ keys_of x s)
      → ((x : Element) → o x ≡ true → (e == x) ≡ false)
      → (let k : Keys = record {
        cache_key = (keys_of e s₄).cache_key;
        weak_cache_key = calculate_cache_key w e ds;
      } in
          IsComputed o e s (k, insert e k s₄))
  finish-IsComputed o e s s₄ ds strong_key weak_key right kept closed =
      let k : Keys = record {
        cache_key = (keys_of e s₄).cache_key;
        weak_cache_key = calculate_cache_key w e ds;
      } in
      (
        strong_key,
        weak_key,
        insert-IsRightBut o key e k s₄ (λ n at. (sym strong_key ∙ at, sym weak_key)) right,
        λ x h. let other = closed x h in ground (arith, other, keys_of-insert e x k s₄) ∙ kept x h,
      )

  compute_keys-IsComputed :
      (o : Element → Bool) (e : Element)
      (get : KeyStrength → Element → KeyStore → Option String × KeyStore) (fuel : ℕ) (s : KeyStore)
      → ((strength : KeyStrength) (d : Element) (o : Element → Bool) (s : KeyStore)
          → rank d < fuel
          → AreAbove o d
          → IsRightBut o key s
          → Answers o key strength d s (get strength d s))
      → rank e < suc fuel
      → AreAbove o e
      → IsRightBut o key s
      → w.is_inconsistent e ≡ false
      → IsComputed o e s (compute_keys w scope_fuel get e s)
  unfolding compute_keys
  compute_keys-IsComputed o e get fuel s ih low above right consistent =
      let deps = build_scope w scope_fuel e in
      let below = dependencies-IsBelow w.graph rank ranked scope_fuel e in
      let r₁ = get_each (get strong) deps s in
      let (answers₁, right₁, kept₁) =
        get_each-right o key strong (get strong) deps
          (deps-Answer o e strong get fuel ih low (λ x h. omega (arith, above x h)) deps below) s
          right in
      let strong_key : calculate_cache_key w e r₁.0 ≡ key strong e =
        ap (calculate_cache_key w e) answers₁ ∙ sym (keying strong e ∙ equation_strong) in
      let with_strong : Keys = record {
        cache_key = calculate_cache_key w e r₁.0;
        weak_cache_key = (keys_of e r₁.1).weak_cache_key;
      } in
      let s₂ = insert e with_strong r₁.1 in
      let r₃ = get_each (get weak) deps s₂ in
      let right₂ = insert-opened o key e with_strong r₁.1 right₁ in
      let (answers₃, right₃, kept₃) =
        get_each-right (and_open e o) key weak (get weak) deps
          (deps-Answer (and_open e o) e weak get fuel ih low above' deps below) s₂ right₂ in
      let own₂ : keys_of e s₂ ≡ with_strong = ground (arith, keys_of-insert e e with_strong r₁.1) in
      let strict = w.strict_rebuild e in
      finish-IsComputed o e s (if strict then r₃.1 else s₂)
        (if strict then r₃.0 else direct_names w e)
        (if-both (λ t. (keys_of e t).cache_key ≡ key strong e) strict r₃.1 s₂
          (ap (λ k. k.cache_key) (kept₃ e own_open ∙ own₂) ∙ strong_key)
          (ap (λ k. k.cache_key) own₂ ∙ strong_key))
        (ap (λ l. calculate_cache_key w e (if strict then l else direct_names w e)) answers₃
          ∙ sym (keying weak e ∙ equation_weak))
        (if-both (IsRightBut (and_open e o) key) strict r₃.1 s₂ right₃ right₂)
        (λ x h.
          if-both (λ t. keys_of x t ≡ keys_of x s) strict r₃.1 s₂
            (kept₃ x (open_too x h) ∙ kept₂ x h with_strong r₁.1 ∙ kept₁ x h)
            (kept₂ x h with_strong r₁.1 ∙ kept₁ x h))
        (λ x h. closed x h)
    where
      equation_strong :
          key_equation w scope_fuel key strong e
          ≡ calculate_cache_key w e (map (key strong) (build_scope w scope_fuel e))
      equation_strong =
          ap
            (λ b.
              if b
              then none
              else calculate_cache_key w e (map (key strong) (build_scope w scope_fuel e)))
            consistent

      equation_weak :
          key_equation w scope_fuel key weak e
          ≡ calculate_cache_key w e (
              if w.strict_rebuild e
              then map (key weak) (build_scope w scope_fuel e)
              else direct_names w e)
      equation_weak =
          ap
            (λ b.
              if b
              then none
              else calculate_cache_key w e (
                  if w.strict_rebuild e
                  then map (key weak) (build_scope w scope_fuel e)
                  else direct_names w e))
            consistent

      own_open : and_open e o e ≡ true
      own_open = ground arith

      open_too : (x : Element) → o x ≡ true → and_open e o x ≡ true
      open_too x h = ground arith

      closed : (x : Element) → o x ≡ true → (e == x) ≡ false
      closed x h = elim (Bool-cases (e == x)) [
        | inl same ↦
            let more : rank e < rank e =
              subst (λ y. rank e < rank y) (sym ((==_iff e x).0 same)) (above x h) in
            absurd (omega (arith, more))
        | inr other ↦ other
      ]

      kept₂ :
          (x : Element)
          → o x ≡ true
          → (k : Keys) (t : KeyStore) → keys_of x (insert e k t) ≡ keys_of x t
      kept₂ x h k t = ground (arith, closed x h, keys_of-insert e x k t)

      above' : (x : Element) → and_open e o x ≡ true → rank e ≤ rank x
      above' x h = elim (Bool-cases (e == x)) [
        | inl same ↦ subst (λ y. rank e ≤ rank y) ((==_iff e x).0 same) (omega arith)
        | inr other ↦ let open_x : o x ≡ true = ground arith in omega (arith, above x open_x)
      ]

  pub get_cache_key-Answers :
      (fuel : ℕ) (strength : KeyStrength) (e : Element) (o : Element → Bool) (s : KeyStore)
      → rank e < fuel
      → AreAbove o e
      → IsRightBut o key s
      → Answers o key strength e s (get_cache_key w scope_fuel fuel strength e s)
  unfolding get_cache_key
  get_cache_key-Answers zero strength e o s low above right = absurd (omega arith)
  get_cache_key-Answers (suc fuel) strength e o s low above right =
      elim (Option-cases (keys_of e s).cache_key) [
        | inr (k, at) ↦
            let both = right e k (shut above) at in
            let same : (pick strength (keys_of e s), s)
                ≡ get_cache_key w scope_fuel (suc fuel) strength e s =
              ground (arith, at) in
            subst (Answers o key strength e s) same
              (remembered strength k at both, right, λ x h. refl)
        | inl unset ↦ elim (Bool-cases (w.is_inconsistent e)) [
          | inl inconsistent ↦
              let same : (none, s) ≡ get_cache_key w scope_fuel (suc fuel) strength e s =
                ground (arith, unset, inconsistent) in
              subst (Answers o key strength e s) same
                (sym (no_key strength inconsistent), right, λ x h. refl)
          | inr consistent ↦
              let r = compute_keys w scope_fuel (get_cache_key w scope_fuel fuel) e s in
              let same : (pick strength r.0, r.1)
                  ≡ get_cache_key w scope_fuel (suc fuel) strength e s =
                ground (arith, unset, consistent) in
              let (strong_key, weak_key, right', kept) =
                compute_keys-IsComputed o e (get_cache_key w scope_fuel fuel) fuel s
                  (λ st d o' t l a r. get_cache_key-Answers fuel st d o' t l a r) low above right
                  consistent in
              subst (Answers o key strength e s) same
                (picked strength r.0 strong_key weak_key, right', kept)
        ]
      ]
    where
      shut : AreAbove o e → o e ≡ false
      shut h = elim (Bool-cases (o e)) [ inl h₁ ↦ absurd (omega (arith, h e h₁)) | inr h₁ ↦ h₁ ]

      remembered :
          (strength : KeyStrength) (k : String)
          → (keys_of e s).cache_key ≡ some k
          → (key strong e ≡ some k) × (key weak e ≡ (keys_of e s).weak_cache_key)
          → pick strength (keys_of e s) ≡ key strength e
      remembered strong k at both = at ∙ sym both.0
      remembered weak k at both = sym both.1

      no_key : (strength : KeyStrength) → w.is_inconsistent e ≡ true → key strength e ≡ none
      no_key strong h =
          keying strong e
          ∙ ap
              (λ b.
                if b
                then none
                else calculate_cache_key w e (map (key strong) (build_scope w scope_fuel e)))
              h
      no_key weak h =
          keying weak e
          ∙ ap
              (λ b.
                if b
                then none
                else calculate_cache_key w e (
                    if w.strict_rebuild e
                    then map (key weak) (build_scope w scope_fuel e)
                    else direct_names w e))
              h

      picked :
          (strength : KeyStrength) (k : Keys)
          → k.cache_key ≡ key strong e
          → k.weak_cache_key ≡ key weak e
          → pick strength k ≡ key strength e
      picked strong k h h' = h
      picked weak k h h' = h'

-- On an acyclic graph, with more fuel than the element's rank: _get_cache_key answers with the key,
-- strong or weak, that the equations of keys give, and none where they give none, whatever keys
-- were remembered before, if those were right; and what it remembers is right again.
pub get_cache_key_lem :
    (w : KeySources) (scope_fuel : ℕ) (rank : Element → ℕ) (ranked : IsRanked w.graph rank)
    (key : KeyStrength → Element → Option String) (fuel : ℕ) (strength : KeyStrength) (e : Element)
    (s : KeyStore)
    → IsKeying w scope_fuel key
    → IsRight key s
    → rank e < fuel
    → ((get_cache_key w scope_fuel fuel strength e s).0 ≡ key strength e)
      × IsRight key (get_cache_key w scope_fuel fuel strength e s).1
get_cache_key_lem w scope_fuel rank ranked key fuel strength e s keying right low =
    let (answer, right', kept) =
      get_cache_key-Answers w scope_fuel rank ranked key keying fuel strength e (λ x. false) s low
        (λ x h. cc) right in
    (answer, right')
