-- ===== src/Element/Examples.antt =====
-- Element.dependencies at a small graph: tests, and the theorem applied.
use bst_staging.Prelude.{
  Bool, ltb, ◌<◌, arith, All, Bool-cases, inl, inr, subst, sym, ==_iff, Option, none, some, ℕ,
  String, List, contains, nat_eq, string_eq, zero, suc, ap, ◌∙◌, ◌≡◌, ◌≤◌, refl, true, false, [],
  ◌∷◌, if◌then◌else◌, ◌==◌,
}
use bst_staging.Element.Graph.{Element, Graph, IsRanked}
use bst_staging.Element.Dependencies.{all, build, dependencies}
use bst_staging.Element.Keys.{
  KeyStrength, strong, weak, KeySources, get_cache_key, calculate_cache_key,
}
use bst_staging.Element.KeyEquations.{IsKeying, IsRight, key_equation}
use bst_staging.Element.KeyAnswers.{get_cache_key_lem}
use bst_staging.Element.Staging.{IsStaged, behind}
use bst_staging.Element.Complete.{further, dependency, dependencies_complete}
use Prim.Native.String.{◌++◌}
use text.Mathlib.TextLemmas.{append_cancel_left, append-eq-nil_iff}
use bst_staging.Element.Once.{named, dependencies_once}

-- Element 3 is built from 2 and runs with 1, and 2 runs with 1 too.
abbrev pub diamond : Graph
diamond = record {
  name = λ e. if e == 1 then "base.bst" else if e == 2 then "tool.bst" else "app.bst";
  build_dependencies = λ e. if e == 3 then 2 ∷ [] else [];
  runtime_dependencies = λ e. if ltb 1 e then 1 ∷ [] else [];
}

staging_order : dependencies diamond 4 all true 3 ≡ 1 ∷ 2 ∷ 3 ∷ []
unfolding dependencies
staging_order = refl

direct_only : dependencies diamond 4 build false 3 ≡ 2 ∷ []
unfolding dependencies
direct_only = refl

dependencies_once_example : named diamond "base.bst" (dependencies diamond 4 all true 3) ≤ 1
dependencies_once_example = dependencies_once diamond "base.bst" 4 all true 3

-- An element's key is the first name that it is hashed with, or its own name.
abbrev own_or_first : String → List String → String
own_or_first own [] = own
own_or_first own (x ∷ xs) = x

abbrev sources : (Element → Bool) → KeySources
sources is_inconsistent = record {
  graph = diamond;
  is_inconsistent = is_inconsistent;
  strict_rebuild = λ e. false;
  generate_key = λ e names. own_or_first (diamond.name e) names;
}

-- An element that is built from an inconsistent one has no strong key, but has a weak one.
app_keys :
    ((get_cache_key (sources (λ e. e == 2)) 4 5 strong 3 []).0 ≡ none)
    × ((get_cache_key (sources (λ e. e == 2)) 4 5 weak 3 []).0 ≡ some "tool.bst")
unfolding get_cache_key dependencies
app_keys = (refl, refl)

diamond-IsRanked : IsRanked diamond (λ e. e)
diamond-IsRanked = record { build = built; runtime = ran }
  where
    built : (e : Element) → All (λ d. d < e) (diamond.build_dependencies e)
    built e = elim (Bool-cases (e == 3)) [ inl h ↦ rw h (ground arith, tt) | inr h ↦ rw h tt ]

    ran : (e : Element) → All (λ d. d < e) (diamond.runtime_dependencies e)
    ran e = elim (Bool-cases (ltb 1 e)) [ inl h ↦ rw h (ground arith, tt) | inr h ↦ rw h tt ]

abbrev all_consistent : KeySources
all_consistent = sources (λ e. false)

abbrev key : KeyStrength → Element → Option String
key strong e = some (if e == 3 then "base.bst" else diamond.name e)
key weak e = some (if e == 3 then "tool.bst" else diamond.name e)

key-IsKeying : IsKeying all_consistent 4 key
unfolding dependencies calculate_cache_key
key-IsKeying strong e = elim (Bool-cases (e == 3)) [
  | inl h ↦
      subst (λ x. key strong x ≡ key_equation all_consistent 4 key strong x)
        (sym ((==_iff e 3).0 h)) refl
  | inr h ↦ ground (arith, h)
]
key-IsKeying weak e = elim (Bool-cases (e == 3)) [
  | inl h ↦
      subst (λ x. key weak x ≡ key_equation all_consistent 4 key weak x) (sym ((==_iff e 3).0 h))
        refl
  | inr h ↦ ground (arith, h)
]

nothing-IsRight : IsRight key []
nothing-IsRight e k shut at = cc

get_cache_key_lem_example :
    ((get_cache_key all_consistent 4 4 weak 3 []).0 ≡ some "tool.bst")
    × IsRight key (get_cache_key all_consistent 4 4 weak 3 []).1
get_cache_key_lem_example =
    get_cache_key_lem all_consistent 4 (λ e. e) diamond-IsRanked key 4 weak 3 [] key-IsKeying
      nothing-IsRight (omega arith)

-- The diamond, with a name for every number
abbrev tally : ℕ → String
tally zero = ""
tally (suc n) = "|" ++ tally n

bar_ne_end : (bar end : String) → bar ≡ "|" → end ≡ "" → bar ≡ end → ⊥
bar_ne_end bar end b e h =
    let same : string_eq.beq "|" "" ≡ true = (string_eq.beq_iff "|" "").1 (sym b ∙ h ∙ e) in cc

tally_nonempty : (n : ℕ) → "|" ++ tally n ≡ "" → ⊥
tally_nonempty n h = bar_ne_end "|" "" refl refl (append-eq-nil_iff.0 h).0

pub tally-inj : (m n : ℕ) → tally m ≡ tally n → m ≡ n
tally-inj zero zero h = refl
tally-inj zero (suc n) h = absurd (tally_nonempty n (sym h))
tally-inj (suc m) zero h = absurd (tally_nonempty m h)
tally-inj (suc m) (suc n) h = ap suc (tally-inj m n (append_cancel_left "|" (tally m) (tally n) h))

abbrev pub tallied : Graph
tallied = record {
  name = tally;
  build_dependencies = diamond.build_dependencies;
  runtime_dependencies = diamond.runtime_dependencies;
}

pub tallied-IsRanked : IsRanked tallied (λ e. e)
tallied-IsRanked = record { build = diamond-IsRanked.build; runtime = diamond-IsRanked.runtime }

-- To build 3 takes 2, and 1 with it.
dependencies_complete_example :
    (contains (dependencies tallied 4 build true 3) 1 ≡ true)
    × IsStaged tallied (behind build) [] (dependencies tallied 4 build true 3)
dependencies_complete_example =
    dependencies_complete tallied (λ e. e) tallied-IsRanked 4 build 3 1 tally-inj (omega arith)
      (further 2 1 (dependency 2 refl) refl)
