-- ===== src/Artifacts/Pulls.antt =====
-- What the artifact cache has after an artifact was pulled or committed.
use bst_staging.Prelude.{
  ◌≡◌, refl, sym, ap, ◌∙◌, subst, String, true, Option, none, some, Bool, false, ◌⊎◌, inl, inr,
  arith, string_eq, Bool-cases, Option-cases, some_inj, none-some,
}
use bst_staging.Element.Keys.{strong, weak}
use bst_staging.Artifacts.Cache.{
  exists, Ostree, IsOstree, CachedElement, ArtifactCache, buildref, cache_contains, extract, commit,
  point_at, get_cache_key_from_artifact, pull_strong, pull_weak, pull, given_key, remote_contains,
}
use bst_staging.Artifacts.PulledKeys.{IsItsKey, pulled-IsItsKey}

module _ {Repo Content : Type 0} (o : Ostree Repo Content) (laws : IsOstree o) where
  -- A ref is set to a revision whose commit is there.
  abbrev pub IsStored : Repo → String → String → Type 0
  IsStored r ref rev = (o.resolve_rev r ref ≡ some rev) × (o.has_commit r rev ≡ true)

  -- Pointing a ref where another one is leaves the other one there.
  set_ref-IsStored :
      (r : Repo) (ref from rev : String)
      → IsStored r from rev
      → IsStored (o.set_ref r ref rev) ref rev × IsStored (o.set_ref r ref rev) from rev
  set_ref-IsStored r ref from rev (at, has) =
      let kept = laws.set_keeps r ref rev rev ∙ has in
      (
        (laws.set_own r ref rev, kept),
        (
          elim (Bool-cases (string_eq.beq ref from)) [
            | inl same ↦
                subst (λ x. o.resolve_rev (o.set_ref r ref rev) x ≡ some rev)
                  ((string_eq.beq_iff ref from).0 same) (laws.set_own r ref rev)
            | inr other ↦ laws.set_other r ref rev from other ∙ at
          ],
          kept,
        ),
      )

  point_at-IsStored :
      (strong_key_of : String → String) (r r' : Repo) (ref from rev : String)
      → IsStored r from rev
      → point_at o strong_key_of r ref from ≡ some r'
      → IsStored r' ref rev × IsStored r' from rev
  point_at-IsStored strong_key_of r r' ref from rev stored h =
      let at = stored.0 in
      let same : some (o.set_ref r ref rev) ≡ some r' =
        sym (ap (λ x. elim x [ none ↦ none | some v ↦ some (o.set_ref r ref v) ]) at) ∙ h in
      subst (λ t. IsStored t ref rev × IsStored t from rev) (some_inj same)
        (set_ref-IsStored r ref from rev stored)

  module _ (strong_key_of : String → String) where
    -- The remote repository has the revision under the element's strong key, or under its weak key.
    abbrev pub IsFrom :
        ArtifactCache Repo
        → CachedElement
        → (remote : Repo) → (rev : String) → (key : Option String) → Type 0
    IsFrom c e remote rev key =
        ((o.resolve_rev remote (buildref e e.keys.cache_key) ≡ some rev) × (key ≡ e.keys.cache_key))
        ⊎ ((o.resolve_rev remote (buildref e e.keys.weak_cache_key) ≡ some rev)
            × ((k : String) × (key ≡ some k) × IsItsKey o laws strong_key_of c e rev k))

    -- What a pull leaves: one artifact of the remote repository, under the weak key and its strong one.
    pub record IsPulled (e : CachedElement) (remote : Repo) (c c' : ArtifactCache Repo)
        : Type 0 where
      pub rev : String
      pub key : Option String
      pub from : IsFrom c e remote rev key
      pub under_weak : IsStored c'.repo (buildref e e.keys.weak_cache_key) rev
      pub under_strong : IsStored c'.repo (buildref e key) rev

    pull_strong-IsPulled :
        (c c' : ArtifactCache Repo) (e e' : CachedElement) (remote : Repo)
        → pull_strong o strong_key_of c e remote ≡ some (c', e')
        → IsPulled e remote c c'
    unfolding pull_strong
    pull_strong-IsPulled c c' e e' remote h =
        let ref = buildref e e.keys.cache_key in
        let weak_ref = buildref e e.keys.weak_cache_key in
        elim (Option-cases (o.pull c.repo remote ref)) [
          | inl failed ↦
              let no : pull_strong o strong_key_of c e remote ≡ none = ground (arith, failed) in
              absurd (none-some no h)
          | inr (r, pulled) ↦ elim (Option-cases (point_at o strong_key_of r weak_ref ref)) [
            | inl failed ↦
                let no : pull_strong o strong_key_of c e remote ≡ none =
                  ground (arith, pulled, failed) in
                absurd (none-some no h)
            | inr (r', pointed) ↦
                let (rev, there, at, has) = laws.pull_ref c.repo remote r ref pulled in
                let both =
                  point_at-IsStored strong_key_of r r' weak_ref ref rev (at, has) pointed in
                let left : ArtifactCache Repo × CachedElement = (record c { repo = r' }, e) in
                let made : some left ≡ some (c', e') = ground (arith, pulled, pointed, h) in
                subst (IsPulled e remote c) (ap (λ x. x.0) (some_inj made)) (record {
                  rev = rev;
                  key = e.keys.cache_key;
                  from = inl (there, refl);
                  under_weak = both.0;
                  under_strong = both.1;
                })
          ]
        ]

    pull_weak-IsPulled :
        (c c' : ArtifactCache Repo) (e e' : CachedElement) (remote : Repo)
        → pull_weak o strong_key_of c e remote ≡ some (c', e')
        → IsPulled e remote c c'
    unfolding pull_weak
    pull_weak-IsPulled c c' e e' remote h =
        let weak_ref = buildref e e.keys.weak_cache_key in
        elim (Option-cases (o.pull c.repo remote weak_ref)) [
          | inl failed ↦
              let no : pull_weak o strong_key_of c e remote ≡ none = ground (arith, failed) in
              absurd (none-some no h)
          | inr (r, pulled) ↦
              elim (Option-cases
                (get_cache_key_from_artifact o strong_key_of (record c { repo = r }) e)) [
                  | inl failed ↦
                      let no : pull_weak o strong_key_of c e remote ≡ none =
                        ground (arith, pulled, failed) in
                      absurd (none-some no h)
                  | inr ((k, known), found) ↦
                      elim (Option-cases
                        (point_at o strong_key_of r (buildref e (some k)) weak_ref)) [
                          | inl failed ↦
                              let no : pull_weak o strong_key_of c e remote ≡ none =
                                ground (arith, pulled, found, failed) in
                              absurd (none-some no h)
                          | inr (r', pointed) ↦
                              let (rev, there, at, has) =
                                laws.pull_ref c.repo remote r weak_ref pulled in
                              let both =
                                point_at-IsStored strong_key_of r r' (buildref e (some k)) weak_ref
                                  rev (at, has) pointed in
                              let left : ArtifactCache Repo × CachedElement =
                                (record c { repo = r' }, known) in
                              let made : some left ≡ some (c', e') =
                                ground (arith, pulled, found, pointed, h) in
                              subst (IsPulled e remote c) (ap (λ x. x.0) (some_inj made)) (record {
                                rev = rev;
                                key = some k;
                                from = inr (
                                  there,
                                  (
                                    k,
                                    refl,
                                    pulled-IsItsKey o laws strong_key_of c r remote e known rev k
                                        pulled at found,
                                  ),
                                );
                                under_weak = both.1;
                                under_strong = both.0;
                              })
                        ]
                ]
        ]

-- A key that is neither missing nor empty
abbrev pub is_given : Option String → Bool
is_given key = elim (given_key key) [ none ↦ false | some _ ↦ true ]

-- What is stored under the weak ref is found by the weak key, if that is given.
contains-IsStored :
    {Repo Content : Type 0} (o : Ostree Repo Content) (laws : IsOstree o) (c : ArtifactCache Repo)
    (e : CachedElement) (rev : String)
    → IsStored o laws c.repo (buildref e e.keys.weak_cache_key) rev
    → cache_contains o c e weak ≡ is_given e.keys.weak_cache_key
unfolding cache_contains exists
contains-IsStored o laws c e rev (at, has) = elim (Option-cases e.keys.weak_cache_key) [
  | inl missing ↦ ground (arith, missing)
  | inr (k, same) ↦
      let here : o.resolve_rev c.repo (buildref e (some k)) ≡ some rev =
        subst (λ x. o.resolve_rev c.repo (buildref e x) ≡ some rev) same at in
      elim (Bool-cases (string_eq.beq k "")) [
        | inl empty ↦ ground (arith, same, empty)
        | inr given ↦ ground (arith, same, given, here, has)
      ]
]

-- A pull that succeeds leaves one artifact of the remote repository in the cache, under the weak key
-- of the element and under its strong key: the element's own if the artifact was pulled by that, and
-- else the strong key that the element remembers, or the one in the metadata of the pulled artifact,
-- or of an older one that the cache had under the element's own strong key. So the cache has the
-- element by its weak key just if it has one, and that is not empty.
pub pull_caches :
    {Repo Content : Type 0} (o : Ostree Repo Content) (laws : IsOstree o)
    (strong_key_of : String → String) (c c' : ArtifactCache Repo) (e e' : CachedElement)
    (remote : Repo)
    → pull o strong_key_of c e remote ≡ some (c', e')
    → IsPulled o laws strong_key_of e remote c c'
      × (cache_contains o c' e weak ≡ is_given e.keys.weak_cache_key)
unfolding pull
pull_caches o laws strong_key_of c c' e e' remote h =
    let pulled = which in (pulled, contains-IsStored o laws c' e pulled.rev pulled.under_weak)
  where
    which : IsPulled o laws strong_key_of e remote c c'
    which = elim (Bool-cases (remote_contains o c e strong)) [
      | inl has ↦
          pull_strong-IsPulled o laws strong_key_of c c' e e' remote (ground (arith, h, has))
      | inr not_strong ↦
          pull_weak-IsPulled o laws strong_key_of c c' e e' remote (ground (arith, h, not_strong))
    ]

-- A commit stores the content under the key of this build and under the weak key, and what
-- `extract` finds afterwards is what was committed, if the element's key is that of the build.
pub commit_extracts :
    {Repo Content : Type 0} (o : Ostree Repo Content) (laws : IsOstree o) (c : ArtifactCache Repo)
    (e : CachedElement) (content : Content)
    → (rev : String) × (extract o (commit o c e e.keys.cache_key content) e ≡ some rev)
      × IsStored o laws
          (commit o c e e.keys.cache_key content).repo
          (buildref e e.keys.weak_cache_key)
          rev
      × (rev ≡ (o.write_commit c.repo content).1)
unfolding commit extract
commit_extracts o laws c e content =
    let w = o.write_commit c.repo content in
    let ref = buildref e e.keys.cache_key in
    let weak_ref = buildref e e.keys.weak_cache_key in
    let tagged = o.set_ref w.0 ref w.1 in
    let stored : IsStored o laws tagged ref w.1 =
      (laws.set_own w.0 ref w.1, laws.set_keeps w.0 ref w.1 w.1 ∙ laws.write_has c.repo content) in
    let both = set_ref-IsStored o laws tagged weak_ref ref w.1 stored in
    (w.1, ground (arith, both.1.0), both.0, refl)
