-- ===== src/Loader/Agreeing.antt =====
-- What resolve_project_variant says of the elements, once check_circular_deps has passed.
use bst_staging.Prelude.{
  ℕ, zero, suc, ◌≡◌, refl, sym, ap, ◌∙◌, subst, String, Option, none, some, List, [], ◌∷◌, contains,
  lookup, if◌then◌else◌, string_eq, arith, Bool-cases, Option-cases, inl, inr, some_inj, none-some,
}
use bst_staging.Yaml.Get.{Strings, Loaded, loaded, failed}
use bst_staging.Loader.LoadElement.{Dependency, LoadElement, Elements}
use bst_staging.Loader.Circular.{
  Outcome, checked, circular_dependency, key_error as missing, out_of_fuel as cut_off, check_each,
  validate, check_circular_deps,
}
use bst_staging.Loader.Acyclic.{check-missing, check-found}
use bst_staging.Loader.ProjectVariant.{
  ProjectVariant, Agreement, load_error, project_variant_of, and_then, request, resolve_each,
  mark_resolved, resolve_project_variant,
}
use bst_staging.Loader.Agreement.{
  Wants, Agrees, Settles, Settles-then, request-Settles, mark-Settles, malformed,
}

abbrev checked_names : Outcome → Option (List String)
checked_names (checked v) = some v
checked_names _ = none

validate-checked :
    (n : String) (o : Outcome) (v : List String)
    → validate n o ≡ checked v
    → (u : List String) × (o ≡ checked u) × (n ∷ u ≡ v)
validate-checked n (checked u) v h = (u, refl, some_inj (ap checked_names h))
validate-checked n (circular_dependency m) v h = absurd (none-some refl (ap checked_names h))
validate-checked n (missing m) v h = absurd (none-some refl (ap checked_names h))
validate-checked n cut_off v h = absurd (none-some refl (ap checked_names h))

module _ (p : Strings) (elements : Elements) where
  -- What a call promises, where the check has passed.
  abbrev Follows :
      (String → List String → Outcome)
      → (String → ProjectVariant → List String → Agreement)
      → Type 0
  Follows check resolve =
      (n : String) (names later : List String) (current : ProjectVariant)
      → check n names ≡ checked later
      → Agrees p elements current names
      → Settles p elements current later (resolve n current names)

  each-Settles :
      (check : String → List String → Outcome)
      (resolve : String → ProjectVariant → List String → Agreement)
      → Follows check resolve
      → (ds : List Dependency) (names later : List String) (current : ProjectVariant)
      → check_each check ds names ≡ checked later
      → Agrees p elements current names
      → Settles p elements current later (resolve_each resolve ds current names)
  unfolding check_each resolve_each
  each-Settles check resolve follows [] names later current h agrees =
      (some_inj (ap checked_names h), agrees, λ x k. k)
  each-Settles check resolve follows (d ∷ ds) names later current h agrees =
      go (check d.name names) refl h (each-Settles check resolve follows ds)
    where
      go :
          (o : Outcome)
          → check d.name names ≡ o
          → elim o [ checked v ↦ check_each check ds v | other ↦ other ] ≡ checked later
          → ((xs ys : List String) (v : ProjectVariant)
              → check_each check ds xs ≡ checked ys
              → Agrees p elements v xs
              → Settles p elements v ys (resolve_each resolve ds v xs))
          → Settles p elements current later
              (and_then (resolve d.name current names) (resolve_each resolve ds))
      go (checked xs) e k rest =
          Settles-then p elements current xs later (resolve d.name current names)
            (resolve_each resolve ds) (follows d.name names xs current e agrees)
            (λ v kept ok. rest xs later v k ok)
      go (circular_dependency m) e k rest = absurd (none-some refl (ap checked_names k))
      go (missing m) e k rest = absurd (none-some refl (ap checked_names k))
      go cut_off e k rest = absurd (none-some refl (ap checked_names k))

  resolve-Settles :
      (fuel : ℕ) (check_elements : List String)
      → Follows
          (check_circular_deps elements fuel check_elements)
          (resolve_project_variant p elements fuel)
  unfolding check_circular_deps resolve_project_variant
  resolve-Settles zero check_elements n names later current h agrees =
      absurd (none-some refl (ap checked_names h))
  resolve-Settles (suc fuel) check_elements n names later current h agrees =
      elim (Option-cases (lookup n elements)) [
        | inl gone ↦ absurd (
            none-some refl (
              ap checked_names (sym (check-missing elements fuel check_elements n names gone) ∙ h)))
        | inr (e, found) ↦
            visited e found (sym (check-found elements fuel check_elements n names e found) ∙ h)
              (resolve-Settles fuel (n ∷ check_elements))
      ]
    where
      asked :
          (e : LoadElement)
          → lookup n elements ≡ some e
          → (wanted : Option String) → project_variant_of p e ≡ loaded wanted
          → (u : String) → Wants p elements n u
          → wanted ≡ some u
      asked e found wanted own u wants =
          let same : wants.element ≡ e = some_inj (sym wants.found ∙ found) in
          inside (sym own ∙ ap (project_variant_of p) (sym same) ∙ wants.wanted)
        where
          inside : {x y : Option String} → loaded x ≡ loaded y → x ≡ y
          inside k = cc

      fresh :
          (e : LoadElement)
          → lookup n elements ≡ some e
          → (r : Loaded (Option String)) → project_variant_of p e ≡ r
          → validate n
              (check_each (check_circular_deps elements fuel (n ∷ check_elements)) e.deps names)
            ≡ checked later
          → Follows
              (check_circular_deps elements fuel (n ∷ check_elements))
              (resolve_project_variant p elements fuel)
          → Settles p elements current later (elim r [
            | failed x ↦ load_error x
            | loaded wanted ↦ and_then (request n wanted current names) λ v xs.
                mark_resolved n (resolve_each (resolve_project_variant p elements fuel) e.deps v xs)
          ])
      fresh e found (failed x) own k follows = malformed p elements n e x found own
      fresh e found (loaded wanted) own k follows =
          let check = check_circular_deps elements fuel (n ∷ check_elements) in
          let resolve = resolve_project_variant p elements fuel in
          let (inner, passed, same) = validate-checked n (check_each check e.deps names) later k in
          request-Settles p elements n wanted current names
            (λ v w. record { element = e; found = found; wanted = own ∙ ap loaded w }) agrees later
            (λ v xs. mark_resolved n (resolve_each resolve e.deps v xs))
            (λ v ok has.
              let run = resolve_each resolve e.deps v names in
              subst (λ xs. Settles p elements v xs (mark_resolved n run)) same
                (mark-Settles p elements n wanted current v inner run (asked e found wanted own) has
                  (each-Settles check resolve follows e.deps names inner v passed ok)))

      visited :
          (e : LoadElement)
          → lookup n elements ≡ some e
          → (if contains names n
              then checked names
              else if contains check_elements n
              then circular_dependency n
              else validate n (
                  check_each (check_circular_deps elements fuel (n ∷ check_elements)) e.deps names))
            ≡ checked later
          → Follows
              (check_circular_deps elements fuel (n ∷ check_elements))
              (resolve_project_variant p elements fuel)
          → Settles p elements current later
              (resolve_project_variant p elements (suc fuel) n current names)
      visited e found k follows = elim (Bool-cases (contains names n)) [
        | inl done ↦
            let now : checked names ≡ checked later = ground (arith, done, k) in
            rw done (some_inj (ap checked_names now), agrees, λ x y. y)
        | inr new ↦ elim (Bool-cases (contains check_elements n)) [
          | inl open_call ↦
              let no : circular_dependency n ≡ checked later = ground (arith, new, open_call, k) in
              absurd (none-some refl (ap checked_names no))
          | inr closed ↦ rw new (
              rw found (
                fresh e found (project_variant_of p e) refl (ground (arith, new, closed, k))
                  follows))
        ]
      ]

-- Once the check for circular dependencies has passed, the resolution of the project variant ends
-- with the same fuel, and without a missing element: either exactly the checked elements agree, so
-- that every one that requests a project variant requests the resolved one, which its requester
-- does request; or two elements request different project variants, and are reported; or an
-- element's file has null, a list or a dictionary for its project variant.
pub resolve_project_variant_lem :
    (p : Strings) (elements : Elements) (fuel : ℕ) (target : String) (names : List String)
    → check_circular_deps elements fuel [] target [] ≡ checked names
    → Settles p elements none names (resolve_project_variant p elements fuel target none [])
resolve_project_variant_lem p elements fuel target names passed =
    resolve-Settles p elements fuel [] target [] names none passed (record {
      agree = λ n v inside wants. cc;
      asked = λ v requester h. absurd (none-some refl h);
    })
