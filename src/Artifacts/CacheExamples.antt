-- ===== src/Artifacts/CacheExamples.antt =====
-- The artifact cache over small repositories: tests, and the theorems applied.
use bst_staging.Prelude.{
  ◌≡◌, refl, String, true, false, Option, none, some, List, [], ◌∷◌, lookup, insert, lookup-insert,
  contains, arith, string_eq, Option-cases, inl, inr, none-some,
}
use bst_staging.Element.Keys.{weak}
use bst_staging.Artifacts.Cache.{
  Ostree, IsOstree, CachedElement, ArtifactCache, buildref, cache_contains, extract, commit, pull,
}
use bst_staging.Artifacts.Pulls.{IsStored, IsPulled, pull_caches, commit_extracts}

pub record Toy : Type 0 where
  refs : List (String × String)
  commits : List String

-- A pull takes the revision of the ref over; a commit is its content.
abbrev toy_pull : Toy → Toy → String → Option Toy
toy_pull r remote ref = elim (lookup ref remote.refs) [
  | none ↦ none
  | some rev ↦ some (record { refs = insert ref rev r.refs; commits = rev ∷ r.commits })
]

abbrev toy : Ostree Toy String
toy = record {
  resolve_rev = λ r ref. lookup ref r.refs;
  has_commit = λ r rev. contains r.commits rev;
  set_ref = λ r ref rev. record r { refs = insert ref rev r.refs };
  write_commit = λ r content. (record r { commits = content ∷ r.commits }, content);
  pull = toy_pull;
}

beq_refl : (k : String) → string_eq.beq k k ≡ true
beq_refl k = (string_eq.beq_iff k k).1 refl

toy-IsOstree : IsOstree toy
toy-IsOstree = record {
  set_own = λ r ref rev. ground (arith, lookup-insert ref ref rev r.refs, beq_refl ref);
  set_other = λ r ref rev other h. ground (arith, h, lookup-insert ref other rev r.refs);
  set_keeps = λ r ref rev c. refl;
  write_has = λ r x. ground (arith, beq_refl x);
  write_refs = λ r x ref. refl;
  pull_ref = pulled;
  pull_other = others;
}
  where
    pulled :
        (r remote r' : Toy) (ref : String)
        → toy_pull r remote ref ≡ some r'
        → (rev : String) × (lookup ref remote.refs ≡ some rev)
          × (lookup ref r'.refs ≡ some rev)
          × (contains r'.commits rev ≡ true)
    pulled r remote r' ref h = elim (Option-cases (lookup ref remote.refs)) [
      | inl e ↦ let no : toy_pull r remote ref ≡ none = ground (arith, e) in absurd (none-some no h)
      | inr (rev, e) ↦
          let same : some (record { refs = insert ref rev r.refs; commits = rev ∷ r.commits })
              ≡ some r' =
            ground (arith, e, h) in
          (
            rev,
            e,
            ground (arith, same, lookup-insert ref ref rev r.refs, beq_refl ref),
            ground (arith, same, beq_refl rev),
          )
    ]

    others :
        (r remote r' : Toy) (ref other : String)
        → toy_pull r remote ref ≡ some r'
        → string_eq.beq ref other ≡ false
        → lookup other r'.refs ≡ lookup other r.refs
    others r remote r' ref other h differ = elim (Option-cases (lookup ref remote.refs)) [
      | inl e ↦ let no : toy_pull r remote ref ≡ none = ground (arith, e) in absurd (none-some no h)
      | inr (rev, e) ↦
          let same : some (record { refs = insert ref rev r.refs; commits = rev ∷ r.commits })
              ≡ some r' =
            ground (arith, e, h) in
          ground (arith, same, differ, lookup-insert ref other rev r.refs)
    ]

abbrev app : CachedElement
app = record {
  project = "demo";
  element_name = "app";
  keys = record { cache_key = some "5a"; weak_cache_key = some "77" };
  key_from_artifact = none;
}

abbrev empty : Toy
empty = record { refs = []; commits = [] }

abbrev cache : ArtifactCache Toy
cache = record {
  repo = empty;
  strict_build_plan = false;
  offline = false;
  pull_local = false;
  push_local = false;
  has_pull = true;
  has_push = false;
  remote_refs = some ("demo/app/77" ∷ []);
}

ref_test : buildref app (some "77") ≡ "demo/app/77"
unfolding buildref
ref_test = refl

-- The remote repository has the artifact under the weak key only; its own strong key is "4f".
abbrev remote : Toy
remote = record { refs = ("demo/app/77", "rev") ∷ []; commits = "rev" ∷ [] }

abbrev pulled_cache : ArtifactCache Toy
pulled_cache = record cache {
  repo = record {
    refs = ("demo/app/77", "rev") ∷ ("demo/app/4f", "rev") ∷ [];
    commits = "rev" ∷ [];
  };
}

abbrev pulled_app : CachedElement
pulled_app = record app { key_from_artifact = some "4f" }

pulled : pull toy (λ rev. "4f") cache app remote ≡ some (pulled_cache, pulled_app)
unfolding pull buildref
pulled = refl

pull_caches_example :
    IsPulled toy toy-IsOstree (λ rev. "4f") app remote cache pulled_cache
    × (cache_contains toy pulled_cache app weak ≡ true)
pull_caches_example =
    pull_caches toy toy-IsOstree (λ rev. "4f") cache pulled_cache app pulled_app remote pulled

commit_extracts_example :
    (rev : String) × (extract toy (commit toy cache app (some "5a") "content") app ≡ some rev)
    × IsStored toy toy-IsOstree
        (commit toy cache app (some "5a") "content").repo
        (buildref app (some "77"))
        rev
    × (rev ≡ "content")
commit_extracts_example = commit_extracts toy toy-IsOstree cache app "content"
