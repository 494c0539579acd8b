-- ===== src/Loader/Overrides.antt =====
-- LoadElement.deps_for_variant: how a variant overrides the base dependencies.
use mathlib.Core.List.{append-nil, append_assoc}
use bst_staging.Prelude.{
  ◌≡◌, ◌≢◌, refl, String, Option, none, some, List, [], ◌∷◌, ◌++◌, arith, map, string_eq,
  if◌then◌else◌, ◌∙◌, sym, Bool-cases, inl, inr,
}
use bst_staging.Loader.LoadElement.{
  Dependency, Variant, LoadElement, lookup_variant, override_dep, override_deps, deps_for_variant,
}

-- The last dependency on a file in a list
abbrev pub last_on : String → List Dependency → Option Dependency
last_on f [] = none
last_on f (d ∷ ds) = elim (last_on f ds) [
  | some e ↦ some e
  | none ↦ if string_eq.beq d.filename f then some d else none
]

-- The first dependency on a file in a list
abbrev pub first_on : String → List Dependency → Option Dependency
first_on f [] = none
first_on f (d ∷ ds) =
    let rest = first_on f ds in if string_eq.beq d.filename f then some d else rest

abbrev pub filenames : List Dependency → List String
filenames ds = map (λ d. d.filename) ds

-- No two dependencies are on the same file.
abbrev pub IsUnambiguous : List Dependency → Type 0
IsUnambiguous [] = Unit
IsUnambiguous (d ∷ ds) = (first_on d.filename ds ≡ none) × IsUnambiguous ds

abbrev pub or_else : Option Dependency → Option Dependency → Option Dependency
or_else none other = other
or_else (some d) other = some d

first_on-override_dep :
    (f : String) (d : Dependency) (ds : List Dependency)
    → first_on f (override_dep d ds)
      ≡ (if string_eq.beq d.filename f then some d else first_on f ds)
unfolding override_dep
first_on-override_dep f d [] = refl
first_on-override_dep f d (x ∷ xs) = ground (
  arith,
  string_eq.beq_iff d.filename f,
  string_eq.beq_iff x.filename f,
  string_eq.beq_iff x.filename d.filename,
  first_on-override_dep f d xs,
)

first_on-override_deps :
    (f : String) (new old : List Dependency)
    → first_on f (override_deps new old) ≡ or_else (last_on f new) (first_on f old)
unfolding override_deps
first_on-override_deps f [] old = refl
first_on-override_deps f (d ∷ ds) old =
    ground (arith, first_on-override_deps f ds (override_dep d old), first_on-override_dep f d old)

override_dep-IsUnambiguous :
    (d : Dependency) (ds : List Dependency) → IsUnambiguous ds → IsUnambiguous (override_dep d ds)
unfolding override_dep
override_dep-IsUnambiguous d [] h = (refl, tt)
override_dep-IsUnambiguous d (x ∷ xs) h = elim (Bool-cases (string_eq.beq x.filename d.filename)) [
  | inl same ↦ rw same (ground (arith, h.0, string_eq.beq_iff x.filename d.filename), h.1)
  | inr other ↦ rw other (
    ground (
      arith,
      h.0,
      first_on-override_dep x.filename d xs,
      string_eq.beq_iff d.filename x.filename,
      string_eq.beq_iff x.filename d.filename,
    ),
    override_dep-IsUnambiguous d xs h.1,
  )
]

override_deps-IsUnambiguous :
    (new old : List Dependency) → IsUnambiguous old → IsUnambiguous (override_deps new old)
unfolding override_deps
override_deps-IsUnambiguous [] old h = h
override_deps-IsUnambiguous (d ∷ ds) old h =
    override_deps-IsUnambiguous ds (override_dep d old) (override_dep-IsUnambiguous d old h)

-- An override keeps the files that were there, in their order, and may add its own at the end.
files-override_dep :
    (d : Dependency) (ds : List Dependency)
    → (more : List String) × (filenames (override_dep d ds) ≡ filenames ds ++ more)
unfolding override_dep
files-override_dep d [] = (d.filename ∷ [], refl)
files-override_dep d (x ∷ xs) = elim (Bool-cases (string_eq.beq x.filename d.filename)) [
  | inl same ↦ (
    [],
    rw same (ground (arith, append-nil (filenames xs), string_eq.beq_iff x.filename d.filename)),
  )
  | inr other ↦ let (more, e) = files-override_dep d xs in (more, rw other (cc e))
]

files-override_deps :
    (new old : List Dependency)
    → (more : List String) × (filenames (override_deps new old) ≡ filenames old ++ more)
unfolding override_deps
files-override_deps [] old = ([], sym (append-nil (filenames old)))
files-override_deps (d ∷ ds) old =
    let (added, e) = files-override_dep d old in
    let (more, e') = files-override_deps ds (override_dep d old) in
    (added ++ more, e' ∙ rw e (append_assoc (filenames old) added more))

deps_for_variant-override :
    (n : String) (e : LoadElement) (v : Variant)
    → n ≢ ""
    → lookup_variant n e.variants ≡ some v
    → deps_for_variant (some n) e ≡ override_deps v.dependencies e.base_deps
unfolding deps_for_variant
deps_for_variant-override n e v named found = ground (arith, string_eq.beq_iff n "")

-- With a variant that the element has, under a name that is not empty, and base dependencies on
-- each file once: the dependency on a file is the last one that the variant declares on it, and the
-- base dependency if it declares none; the base files keep their places, others follow, and no file
-- is depended on twice.
pub deps_for_variant_lem :
    (n : String) (e : LoadElement) (v : Variant)
    → n ≢ ""
    → lookup_variant n e.variants ≡ some v
    → IsUnambiguous e.base_deps
    → ((f : String)
        → first_on f (deps_for_variant (some n) e)
          ≡ or_else (last_on f v.dependencies) (first_on f e.base_deps))
      × ((more : List String) × (filenames (deps_for_variant (some n) e)
            ≡ filenames e.base_deps ++ more))
      × IsUnambiguous (deps_for_variant (some n) e)
deps_for_variant_lem n e v named found h = rw (deps_for_variant-override n e v named found) (
  (λ f. first_on-override_deps f v.dependencies e.base_deps),
  files-override_deps v.dependencies e.base_deps,
  override_deps-IsUnambiguous v.dependencies e.base_deps h,
)
