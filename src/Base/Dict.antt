-- ===== src/Base/Dict.antt =====
-- A map from texts, as an association list: Go's `map[string]T` and the concurrent map of the
-- caches. Ranging over it visits the entries in some order.
use synctv.Base.{
  Option-cases, Bool-cases, inl, inr, ◌⊎◌, true, String, Option, none, some, List, [], ◌∷◌, str_eq,
  eq_iff, if◌then◌else◌, ◌≡◌, refl, arith,
}

pub str_eq_refl : (k : String) → str_eq k k ≡ true
str_eq_refl k = (eq_iff k k).1 refl

module _ {ℓ} {V : Type ℓ} where
  unfoldable pub lookup : String → List (String × V) → Option V
  lookup k [] = none
  lookup k ((j, v) ∷ m) = if str_eq j k then some v else lookup k m

  unfoldable pub store : String → V → List (String × V) → List (String × V)
  store k v [] = (k, v) ∷ []
  store k v ((j, w) ∷ m) = if str_eq j k then (k, v) ∷ m else (j, w) ∷ store k v m

  unfoldable pub delete : String → List (String × V) → List (String × V)
  delete k [] = []
  delete k ((j, w) ∷ m) = let rest = delete k m in if str_eq j k then rest else (j, w) ∷ rest

  pub lookup-store :
      (k j : String) (v : V) (m : List (String × V))
      → lookup j (store k v m) ≡ (if str_eq k j then some v else lookup j m)
  unfolding lookup store
  lookup-store k j v [] = refl
  lookup-store k j v ((i, w) ∷ m) =
      ground (arith, eq_iff k j, eq_iff i k, eq_iff i j, lookup-store k j v m)

  pub lookup-delete :
      (k j : String) (m : List (String × V))
      → lookup j (delete k m) ≡ (if str_eq k j then none else lookup j m)
  unfolding lookup delete
  lookup-delete k j [] = ground arith
  lookup-delete k j ((i, w) ∷ m) =
      ground (arith, eq_iff k j, eq_iff i k, eq_iff i j, lookup-delete k j m)

module _ {ℓ} {V : Type ℓ} where
  -- A change of every entry, if none of them fails.
  unfoldable pub each : (V → Option V) → List (String × V) → Option (List (String × V))
  each f [] = some []
  each f ((k, v) ∷ m) = elim (f v) [
    | none ↦ none
    | some w ↦ elim (each f m) [ none ↦ none | some rest ↦ some ((k, w) ∷ rest) ]
  ]

  -- Some entry has the property.
  abbrev pub SomeOf : (V → Type 0) → List (String × V) → Type 0
  SomeOf P [] = ⊥
  SomeOf P ((k, v) ∷ m) = P v ⊎ SomeOf P m

  pub each-none :
      (f : V → Option V) (P : V → Type 0) (m : List (String × V))
      → ((v : V) → f v ≡ none → P v)
      → each f m ≡ none
      → SomeOf P m
  unfolding each
  each-none f P [] fails e = ground arith
  each-none f P ((k, v) ∷ m) fails e = elim (Option-cases (f v)) [
    | inl here ↦ inl (fails v here)
    | inr (w, here) ↦ inr (each-none f P m fails (ground arith))
  ]

  pub each-some :
      (f : V → Option V) (k : String) (m after : List (String × V)) (v : V)
      → each f m ≡ some after
      → lookup k m ≡ some v
      → (w : V) × (f v ≡ some w) × (lookup k after ≡ some w)
  unfolding each lookup
  each-some f k [] after v e found = ground arith
  each-some f k ((j, u) ∷ m) after v e found = elim (Option-cases (f u)) [
    | inl refused ↦ ground arith
    | inr (w, here) ↦ elim (Option-cases (each f m)) [
      | inl refused ↦ ground arith
      | inr (rest, there) ↦
          let both : after ≡ (j, w) ∷ rest = ground arith in
          rw both (elim (Bool-cases (str_eq j k)) [
            | inl hit ↦ let same : u ≡ v = ground arith in rw (← same, hit) (w, here, refl)
            | inr miss ↦
                let (x, changed, held) = each-some f k m rest v there (ground arith) in
                rw miss (x, changed, held)
          ])
    ]
  ]
