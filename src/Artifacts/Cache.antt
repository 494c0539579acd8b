-- ===== src/Artifacts/Cache.antt =====
-- class ArtifactCache (buildstream/_artifactcache/artifactcache.py), with exists, checksum, commit
-- and set_ref of buildstream/_ostree.py. OSTree's own operations on a repository are a parameter.
use Prim.Native.String.{◌++◌}
use bst_staging.Prelude.{
  String, Bool, true, false, not, ◌&&◌, ◌||◌, Option, none, some, List, contains, if◌then◌else◌,
  string_eq, ◌≡◌,
}
use bst_staging.Element.Keys.{KeyStrength, strong, weak, Keys, pick}

-- OSTree.Repo: resolve_rev, has_object of a commit, transaction_set_ref, write_commit of a
-- directory's content, and pull of one ref from another repository, which can fail.
pub record Ostree (Repo : Type 0) (Content : Type 0) : Type 0 where
  pub resolve_rev : Repo → String → Option String
  pub has_commit : Repo → String → Bool
  pub set_ref : Repo → String → String → Repo
  pub write_commit : Repo → Content → Repo × String
  pub pull : Repo → (remote : Repo) → String → Option Repo

-- What OSTree documents of them.
pub record IsOstree {Repo Content : Type 0} (o : Ostree Repo Content) : Type 0 where
  pub set_own : (r : Repo) (ref rev : String) → o.resolve_rev (o.set_ref r ref rev) ref ≡ some rev
  pub set_other :
      (r : Repo) (ref rev other : String)
      → string_eq.beq ref other ≡ false
      → o.resolve_rev (o.set_ref r ref rev) other ≡ o.resolve_rev r other
  pub set_keeps :
      (r : Repo) (ref rev c : String) → o.has_commit (o.set_ref r ref rev) c ≡ o.has_commit r c
  pub write_has :
      (r : Repo) (x : Content) → o.has_commit (o.write_commit r x).0 (o.write_commit r x).1 ≡ true
  pub write_refs :
      (r : Repo) (x : Content) (ref : String)
      → o.resolve_rev (o.write_commit r x).0 ref ≡ o.resolve_rev r ref
  -- a pulled ref is where it is in the remote repository, with its commit; others stay
  pub pull_ref :
      (r remote r' : Repo) (ref : String)
      → o.pull r remote ref ≡ some r'
      → (rev : String) × (o.resolve_rev remote ref ≡ some rev)
        × (o.resolve_rev r' ref ≡ some rev)
        × (o.has_commit r' rev ≡ true)
  pub pull_other :
      (r remote r' : Repo) (ref other : String)
      → o.pull r remote ref ≡ some r'
      → string_eq.beq ref other ≡ false
      → o.resolve_rev r' other ≡ o.resolve_rev r other

-- What the cache asks of an element: its project and its normalized name, with the characters that
-- OSTree does not allow replaced, the keys that _get_cache_key answers with, and the strong key of
-- its artifact, if it remembers that one.
pub record CachedElement : Type 0 where
  pub project : String
  pub element_name : String
  pub keys : Keys
  pub key_from_artifact : Option String

pub record ArtifactCache (Repo : Type 0) : Type 0 where
  pub repo : Repo
  pub strict_build_plan : Bool
  pub offline : Bool
  pub pull_local : Bool
  pub push_local : Bool
  -- whether there is a remote to pull from, and one to push to
  pub has_pull : Bool
  pub has_push : Bool
  pub remote_refs : Option (List String)

-- Python formats a missing key as "None".
abbrev pub key_text : Option String → String
key_text none = "None"
key_text (some k) = k

unfoldable pub buildref : CachedElement → Option String → String
buildref e key = e.project ++ ("/" ++ (e.element_name ++ ("/" ++ key_text key)))

-- The truth of a key: a missing or empty one is false.
abbrev pub given_key : Option String → Option String
given_key none = none
given_key (some k) = if string_eq.beq k "" then none else some k

module _ {Repo Content : Type 0} (o : Ostree Repo Content) where
  unfoldable pub exists : Repo → String → Bool
  exists r ref = elim (o.resolve_rev r ref) [ none ↦ false | some rev ↦ o.has_commit r rev ]

  abbrev pub default_strength : ArtifactCache Repo → KeyStrength
  default_strength c = if c.strict_build_plan then strong else weak

  unfoldable pub cache_contains : ArtifactCache Repo → CachedElement → KeyStrength → Bool
  unfolding exists
  cache_contains c e strength = elim (given_key (pick strength e.keys)) [
    | none ↦ false
    | some k ↦ exists c.repo (buildref e (some k))
  ]

  unfoldable pub remote_contains_key : ArtifactCache Repo → CachedElement → Option String → Bool
  remote_contains_key c e key = elim c.remote_refs [
    | none ↦ false
    | some refs ↦ contains refs (buildref e key)
  ]

  unfoldable pub remote_contains : ArtifactCache Repo → CachedElement → KeyStrength → Bool
  unfolding remote_contains_key
  remote_contains c e strength = elim (given_key (pick strength e.keys)) [
    | none ↦ false
    | some k ↦ remote_contains_key c e (some k)
  ]

  unfoldable pub can_fetch : ArtifactCache Repo → Bool
  can_fetch c = (not c.offline || c.pull_local) && c.has_pull

  unfoldable pub can_push : ArtifactCache Repo → Bool
  can_push c = (not c.offline || c.push_local) && c.has_push

  abbrev pub set_offline : ArtifactCache Repo → ArtifactCache Repo
  set_offline c = record c { offline = true }

  -- The revision that `extract` checks out; `none` is an _ArtifactError.
  unfoldable pub extract : ArtifactCache Repo → CachedElement → Option String
  extract c e = elim (o.resolve_rev c.repo (buildref e e.keys.cache_key)) [
    | some rev ↦ some rev
    | none ↦
        if c.strict_build_plan
        then none
        else o.resolve_rev c.repo (buildref e e.keys.weak_cache_key)
  ]

  -- `key_for_build` is element._get_cache_key_for_build().
  unfoldable pub commit :
      ArtifactCache Repo
      → CachedElement
      → (key_for_build : Option String) → Content
      → ArtifactCache Repo
  commit c e key_for_build content =
      let (r, rev) = o.write_commit c.repo content in
      let tagged = o.set_ref r (buildref e key_for_build) rev in
      record c { repo = o.set_ref tagged (buildref e e.keys.weak_cache_key) rev }

  -- `strong_key_of` is the strong key in the metadata of an artifact, of the revision that it has.
  module _ (strong_key_of : String → String) where
    -- element._cached(recalculate=True), then element._get_cache_key_from_artifact(): the key, and
    -- the element that remembers it. An element without a strong key counts as not cached.
    unfoldable pub get_cache_key_from_artifact :
        ArtifactCache Repo → CachedElement → Option (String × CachedElement)
    unfolding extract cache_contains
    get_cache_key_from_artifact c e = elim e.key_from_artifact [
      | some k ↦ some (k, e)
      | none ↦ elim e.keys.cache_key [
        | none ↦ none
        | some _ ↦ elim (extract c e) [
          | none ↦ none
          | some rev ↦
              if cache_contains c e (default_strength c)
              then some
                  (strong_key_of rev, record e { key_from_artifact = some (strong_key_of rev) })
              else none
        ]
      ]
    ]

    -- The revision of a ref, and another ref pointed at it
    abbrev pub point_at : Repo → (ref from : String) → Option Repo
    point_at r ref from = elim (o.resolve_rev r from) [
      | none ↦ none
      | some rev ↦ some (o.set_ref r ref rev)
    ]

    unfoldable pub pull_strong :
        ArtifactCache Repo
        → CachedElement
        → (remote : Repo) → Option (ArtifactCache Repo × CachedElement)
    pull_strong c e remote = elim (o.pull c.repo remote (buildref e e.keys.cache_key)) [
      | none ↦ none
      | some r ↦
          elim (point_at r (buildref e e.keys.weak_cache_key) (buildref e e.keys.cache_key)) [
            | none ↦ none
            | some r' ↦ some (record c { repo = r' }, e)
          ]
    ]

    unfoldable pub pull_weak :
        ArtifactCache Repo
        → CachedElement
        → (remote : Repo) → Option (ArtifactCache Repo × CachedElement)
    unfolding get_cache_key_from_artifact
    pull_weak c e remote = elim (o.pull c.repo remote (buildref e e.keys.weak_cache_key)) [
      | none ↦ none
      | some r ↦ elim (get_cache_key_from_artifact (record c { repo = r }) e) [
        | none ↦ none
        | some (k, e') ↦
            elim (point_at r (buildref e (some k)) (buildref e e.keys.weak_cache_key)) [
              | none ↦ none
              | some r' ↦ some (record c { repo = r' }, e')
            ]
      ]
    ]

    -- `none` is an exception; else the cache, and the element with what it remembers.
    unfoldable pub pull :
        ArtifactCache Repo
        → CachedElement
        → (remote : Repo) → Option (ArtifactCache Repo × CachedElement)
    unfolding pull_strong pull_weak remote_contains
    pull c e remote =
        if c.offline && not c.pull_local
        then none
        else if not c.has_pull
        then none
        else if remote_contains c e strong
        then pull_strong c e remote
        else if remote_contains c e (default_strength c)
        then pull_weak c e remote
        else none
