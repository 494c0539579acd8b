-- ===== src/Element/KeyEquations.antt =====
-- The equations that the cache keys of elements have to meet, and stores of keys that are right.
use bst_staging.Prelude.{
  ℕ, ◌≡◌, refl, sym, ap, ◌∙◌, subst, String, Bool, true, false, Option, none, some, List, [], ◌∷◌,
  map, ◌||◌, insert, lookup-insert, nat_eq, if◌then◌else◌, All, arith, Bool-cases, inl, inr, ==_iff,
  ◌==◌,
}
use bst_staging.Element.Graph.{Element}
use bst_staging.Element.Keys.{
  KeyStrength, strong, weak, Keys, KeyStore, keys_of, KeySources, calculate_cache_key, get_each,
  build_scope, direct_names,
}

-- What the keys have to be: none for an inconsistent element; otherwise the strong key hashes the
-- strong keys of everything in the build scope, and the weak key the weak ones or just names.
abbrev pub key_equation :
    KeySources
    → (scope_fuel : ℕ) → (KeyStrength → Element → Option String)
    → KeyStrength
    → Element
    → Option String
key_equation w scope_fuel key strong e =
    if w.is_inconsistent e
    then none
    else calculate_cache_key w e (map (key strong) (build_scope w scope_fuel e))
key_equation w scope_fuel key weak e =
    if w.is_inconsistent e
    then none
    else calculate_cache_key w e (
        if w.strict_rebuild e
        then map (key weak) (build_scope w scope_fuel e)
        else direct_names w e)

abbrev pub IsKeying :
    KeySources → (scope_fuel : ℕ) → (KeyStrength → Element → Option String) → Type 0
IsKeying w scope_fuel key =
    (strength : KeyStrength) (e : Element)
    → key strength e ≡ key_equation w scope_fuel key strength e

-- Whatever an element remembers is right, but for the open elements, whose keys are being computed.
abbrev pub IsRightBut :
    (open_elements : Element → Bool) → (KeyStrength → Element → Option String) → KeyStore → Type 0
IsRightBut open_elements key s =
    (e : Element) (k : String)
    → open_elements e ≡ false
    → (keys_of e s).cache_key ≡ some k
    → (key strong e ≡ some k) × (key weak e ≡ (keys_of e s).weak_cache_key)

abbrev pub IsRight : (KeyStrength → Element → Option String) → KeyStore → Type 0
IsRight key s = IsRightBut (λ x. false) key s

pub keys_of-insert :
    (e x : Element) (k : Keys) (s : KeyStore)
    → keys_of x (insert e k s) ≡ (if e == x then k else keys_of x s)
keys_of-insert e x k s = ground (arith, lookup-insert e x k s)

abbrev pub and_open : Element → (Element → Bool) → Element → Bool
and_open e open_elements x = (e == x) || open_elements x

pub insert-IsRightBut :
    (open_elements : Element → Bool) (key : KeyStrength → Element → Option String) (e : Element)
    (k : Keys) (s : KeyStore)
    → ((n : String)
        → k.cache_key ≡ some n
        → (key strong e ≡ some n) × (key weak e ≡ k.weak_cache_key))
    → IsRightBut (and_open e open_elements) key s
    → IsRightBut open_elements key (insert e k s)
insert-IsRightBut open_elements key e k s own h x n shut at = elim (Bool-cases (e == x)) [
  | inl same ↦
      let name : e ≡ x = (==_iff e x).0 same in
      let now : keys_of x (insert e k s) ≡ k = ground (arith, keys_of-insert e x k s) in
      let both = own n (ap (λ y. y.cache_key) (sym now) ∙ at) in
      (
        subst (λ y. key strong y ≡ some n) name both.0,
        subst (λ y. key weak y ≡ k.weak_cache_key) name both.1
            ∙ ap (λ y. y.weak_cache_key) (sym now),
      )
  | inr other ↦
      let now : keys_of x (insert e k s) ≡ keys_of x s = ground (arith, keys_of-insert e x k s) in
      let shut' : and_open e open_elements x ≡ false = ground arith in
      let both = h x n shut' (ap (λ y. y.cache_key) (sym now) ∙ at) in
      (both.0, both.1 ∙ ap (λ y. y.weak_cache_key) (sym now))
]

-- Opening an element, one may set its keys.
pub insert-opened :
    (open_elements : Element → Bool) (key : KeyStrength → Element → Option String) (e : Element)
    (k : Keys) (s : KeyStore)
    → IsRightBut open_elements key s
    → IsRightBut (and_open e open_elements) key (insert e k s)
insert-opened open_elements key e k s h x n shut at =
    let other : (e == x) ≡ false = ground arith in
    let shut' : open_elements x ≡ false = ground arith in
    let now : keys_of x (insert e k s) ≡ keys_of x s = ground (arith, keys_of-insert e x k s) in
    let both = h x n shut' (ap (λ y. y.cache_key) (sym now) ∙ at) in
    (both.0, both.1 ∙ ap (λ y. y.weak_cache_key) (sym now))

-- A call answers with the right key, remembers right ones, and leaves the open elements alone.
abbrev pub Answers :
    (open_elements : Element → Bool)
    → (KeyStrength → Element → Option String)
    → KeyStrength
    → Element
    → KeyStore
    → Option String × KeyStore
    → Type 0
Answers open_elements key strength e s r =
    (r.0 ≡ key strength e)
    × IsRightBut open_elements key r.1
    × ((x : Element) → open_elements x ≡ true → keys_of x r.1 ≡ keys_of x s)

pub get_each-right :
    (open_elements : Element → Bool) (key : KeyStrength → Element → Option String)
    (strength : KeyStrength) (get : Element → KeyStore → Option String × KeyStore)
    (ds : List Element)
    → All
        (λ d.
          (s : KeyStore)
          → IsRightBut open_elements key s
          → Answers open_elements key strength d s (get d s))
        ds
    → (s : KeyStore) → IsRightBut open_elements key s
    → ((get_each get ds s).0 ≡ map (key strength) ds)
      × IsRightBut open_elements key (get_each get ds s).1
      × ((x : Element) → open_elements x ≡ true → keys_of x (get_each get ds s).1 ≡ keys_of x s)
unfolding get_each
get_each-right open_elements key strength get [] h s right = (refl, right, λ x o. refl)
get_each-right open_elements key strength get (d ∷ ds) (now, later) s right =
    let (answer, right', kept) = now s right in
    let (answers, right'', kept') =
      get_each-right open_elements key strength get ds later (get d s).1 right' in
    (λ i. answer i ∷ answers i, right'', λ x o. kept' x o ∙ kept x o)
