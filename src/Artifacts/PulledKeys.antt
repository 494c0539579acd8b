-- ===== src/Artifacts/PulledKeys.antt =====
-- The strong key under which a pulled artifact is stored.
use bst_staging.Prelude.{
  ◌≡◌, sym, ap, ◌∙◌, subst, String, none, some, ◌⊎◌, inl, inr, arith, string_eq, Bool-cases,
  Option-cases, some_inj, none-some,
}
use bst_staging.Artifacts.Cache.{
  Ostree, IsOstree, CachedElement, ArtifactCache, buildref, cache_contains, extract,
  get_cache_key_from_artifact, default_strength,
}

module _ {Repo Content : Type 0} (o : Ostree Repo Content) (laws : IsOstree o)
    (strong_key_of : String → String) where
  -- A strong key that a pulled element is stored under: the one that the element remembers, or the
  -- one in the metadata of the pulled artifact, or, where the cache had an artifact under the
  -- element's own strong key before, the one in the metadata of that.
  abbrev pub IsItsKey : ArtifactCache Repo → CachedElement → (rev k : String) → Type 0
  IsItsKey c e rev k =
      (e.key_from_artifact ≡ some k)
      ⊎ ((k ≡ strong_key_of rev)
          ⊎ ((old : String) × (o.resolve_rev c.repo (buildref e e.keys.cache_key) ≡ some old)
              × (k ≡ strong_key_of old)))

  extract-found :
      (c : ArtifactCache Repo) (e : CachedElement) (rev : String)
      → extract o c e ≡ some rev
      → (o.resolve_rev c.repo (buildref e e.keys.cache_key) ≡ some rev)
        ⊎ (o.resolve_rev c.repo (buildref e e.keys.weak_cache_key) ≡ some rev)
  unfolding extract
  extract-found c e rev h =
      elim (Option-cases (o.resolve_rev c.repo (buildref e e.keys.cache_key))) [
        | inl missing ↦ elim (Bool-cases c.strict_build_plan) [
          | inl strict ↦
              let no : extract o c e ≡ none = ground (arith, missing, strict) in
              absurd (none-some no h)
          | inr lax ↦ inr (ground (arith, missing, lax, h))
        ]
        | inr (found, at) ↦ inl (ground (arith, at, h))
      ]

  key-found :
      (c : ArtifactCache Repo) (e e' : CachedElement) (k : String)
      → get_cache_key_from_artifact o strong_key_of c e ≡ some (k, e')
      → (e.key_from_artifact ≡ some k)
        ⊎ ((rev : String) × (extract o c e ≡ some rev) × (k ≡ strong_key_of rev))
  unfolding get_cache_key_from_artifact
  key-found c e e' k h = elim (Option-cases e.key_from_artifact) [
    | inr (known, at) ↦
        let left : String × CachedElement = (known, e) in
        let made : some left ≡ some (k, e') = ground (arith, at, h) in
        inl (at ∙ ap (λ x. some x.0) (some_inj made))
    | inl unknown ↦ elim (Option-cases e.keys.cache_key) [
      | inl keyless ↦
          let no : get_cache_key_from_artifact o strong_key_of c e ≡ none =
            ground (arith, unknown, keyless) in
          absurd (none-some no h)
      | inr (own, keyed) ↦ elim (Option-cases (extract o c e)) [
        | inl missing ↦
            let no : get_cache_key_from_artifact o strong_key_of c e ≡ none =
              ground (arith, unknown, keyed, missing) in
            absurd (none-some no h)
        | inr (rev, found) ↦ inr (rev, found, key_of rev found own keyed unknown)
      ]
    ]
  ]
    where
      key_of :
          (rev : String)
          → extract o c e ≡ some rev
          → (own : String) → e.keys.cache_key ≡ some own
          → e.key_from_artifact ≡ none
          → k ≡ strong_key_of rev
      key_of rev found own keyed unknown =
          elim (Bool-cases (cache_contains o c e (default_strength o c))) [
            | inr out ↦
                let no : get_cache_key_from_artifact o strong_key_of c e ≡ none =
                  ground (arith, unknown, keyed, found, out) in
                absurd (none-some no h)
            | inl inside ↦
                let left : String × CachedElement =
                  (strong_key_of rev, record e { key_from_artifact = some (strong_key_of rev) }) in
                let made : some left ≡ some (k, e') =
                  ground (arith, unknown, keyed, found, inside, h) in
                ap (λ x. x.0) (sym (some_inj made))
          ]

  -- The key that a pulled element gets
  pub pulled-IsItsKey :
      (c : ArtifactCache Repo) (r remote : Repo) (e e' : CachedElement) (rev k : String)
      → o.pull c.repo remote (buildref e e.keys.weak_cache_key) ≡ some r
      → o.resolve_rev r (buildref e e.keys.weak_cache_key) ≡ some rev
      → get_cache_key_from_artifact o strong_key_of (record c { repo = r }) e ≡ some (k, e')
      → IsItsKey c e rev k
  pulled-IsItsKey c r remote e e' rev k pulled at found =
      elim (key-found (record c { repo = r }) e e' k found) [
        | inl known ↦ inl known
        | inr (got, extracted, same) ↦
            elim (extract-found (record c { repo = r }) e got extracted) [
              | inr under_weak ↦
                  inr (inl (same ∙ ap strong_key_of (some_inj (sym under_weak ∙ at))))
              | inl under_strong ↦
                  elim (Bool-cases (
                    string_eq.beq (buildref e e.keys.weak_cache_key)
                      (buildref e e.keys.cache_key))) [
                        | inl one ↦
                            let ref =
                              (string_eq.beq_iff (buildref e e.keys.weak_cache_key)
                                  (buildref e e.keys.cache_key)).0
                                one in
                            let at' : o.resolve_rev r (buildref e e.keys.cache_key) ≡ some rev =
                              subst (λ x. o.resolve_rev r x ≡ some rev) ref at in
                            inr (inl (same ∙ ap strong_key_of (some_inj (sym under_strong ∙ at'))))
                        | inr two ↦
                            let before =
                              laws.pull_other c.repo remote r (buildref e e.keys.weak_cache_key)
                                (buildref e e.keys.cache_key) pulled two in
                            inr (inr (got, sym before ∙ under_strong, same))
                      ]
            ]
      ]
