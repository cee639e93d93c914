-- ===== src/Base/Map.antt =====
-- A map from keys to values (`HashMap`, `DashMap`, `BTreeMap` where its order plays no part) as an
-- association list. Where the program iterates over a map, the order of the entries is the list's;
-- the theorems hold for every list, and so for every order.
use mathlib.Core.Path.{◌≡◌, refl, ap, sym, ◌∙◌, subst}
use mathlib.Core.Logic.{inl, inr}
use mathlib.Core.Bool.{Bool, true, false}
use mathlib.Core.List.{List, [], ◌∷◌}
use mathlib.Core.Option
use mathlib.Core.Option.{Option, none, some, some-injective, none-ne-some}
use native.Mathlib.Omega.{arith}
use reinhardt_cloud.Base.Tests.{Eq, ◌==◌, Bool-cases, if◌then◌else◌}

abbrev pub Map {ℓ κ} : Type ℓ → Type κ → Type (ℓ ⊔ κ)
Map K V = List (K × V)

-- a value that is found, if it passes a test
abbrev pub kept {κ} : {V : Type κ} → (V → Bool) → Option V → Option V
kept p none = none
kept p (some v) = if p v then some v else none

module _ {ℓ κ} {K : Type ℓ} {V : Type κ} ⦃e : Eq K⦄ where
  -- `map.get(&k)`
  unfoldable pub get : K → Map K V → Option V
  get k [] = none
  get k ((j, v) ∷ m) = if j == k then some v else get k m

  -- `map.insert(k, v)`
  unfoldable pub insert : K → V → Map K V → Map K V
  insert k v [] = (k, v) ∷ []
  insert k v ((j, w) ∷ m) = if j == k then (j, v) ∷ m else (j, w) ∷ insert k v m

  -- `map.remove(&k)`
  unfoldable pub remove : K → Map K V → Map K V
  remove k [] = []
  remove k ((j, v) ∷ m) = let rest = remove k m in if j == k then rest else (j, v) ∷ rest

  pub get-insert :
      (k j : K) (v : V) (m : Map K V) → get j (insert k v m) ≡ (if k == j then some v else get j m)
  unfolding get insert
  get-insert k j v [] = refl
  get-insert k j v ((i, w) ∷ m) =
      ground (arith, e.beq_iff k j, e.beq_iff i k, e.beq_iff i j, get-insert k j v m)

  pub get-remove : (k j : K) (m : Map K V) → get j (remove k m) ≡ (if k == j then none else get j m)
  unfolding get remove
  get-remove k j [] = ground arith
  get-remove k j ((i, w) ∷ m) =
      ground (arith, e.beq_iff k j, e.beq_iff i k, e.beq_iff i j, get-remove k j m)

  -- no key stands twice
  abbrev pub IsUnique : Map K V → Type (ℓ ⊔ κ)
  IsUnique [] = Unit
  IsUnique ((k, v) ∷ m) = (get k m ≡ none) × IsUnique m

  get-insert_ne :
      (j k : K) (v : V) (m : Map K V)
      → (j == k) ≡ false
      → get j m ≡ none
      → get j (insert k v m) ≡ none
  get-insert_ne j k v m ne h = ground (arith, get-insert k j v m, e.beq_iff k j, e.beq_iff j k)

  get-remove-none : (j k : K) (m : Map K V) → get j m ≡ none → get j (remove k m) ≡ none
  get-remove-none j k m h = ground (arith, get-remove k j m)

  pub insert-IsUnique : (k : K) (v : V) (m : Map K V) → IsUnique m → IsUnique (insert k v m)
  unfolding insert get
  insert-IsUnique k v [] h = (refl, tt)
  insert-IsUnique k v ((j, w) ∷ m) h = elim (Bool-cases (j == k)) [
    | inl same ↦ rw same h
    | inr other ↦ rw other (get-insert_ne j k v m other h.0, insert-IsUnique k v m h.1)
  ]

  pub remove-IsUnique : (k : K) (m : Map K V) → IsUnique m → IsUnique (remove k m)
  unfolding remove
  remove-IsUnique k [] h = tt
  remove-IsUnique k ((j, w) ∷ m) h = elim (Bool-cases (j == k)) [
    | inl same ↦ rw same (remove-IsUnique k m h.1)
    | inr other ↦ rw other (get-remove-none j k m h.0, remove-IsUnique k m h.1)
  ]

  -- the first entry that passes a test, as `iter().find` meets it
  unfoldable pub find_entry : (K → V → Bool) → Map K V → Option (K × V)
  find_entry p [] = none
  find_entry p ((k, v) ∷ m) = if p k v then some (k, v) else find_entry p m

  -- what is found is at its key, and passes the test
  pub find_entry-eq_some :
      (p : K → V → Bool) (m : Map K V) (k : K) (v : V)
      → IsUnique m
      → find_entry p m ≡ some (k, v)
      → (get k m ≡ some v) × (p k v ≡ true)
  unfolding find_entry get
  find_entry-eq_some p [] k v u h = cc
  find_entry-eq_some p ((j, w) ∷ m) k v u h =
      ground (arith, e.beq_iff j k, find_entry-eq_some p m k v u.1)

  -- if nothing is found, no entry passes the test
  pub find_entry-eq_none :
      (p : K → V → Bool) (m : Map K V) (k : K) (v : V)
      → find_entry p m ≡ none
      → get k m ≡ some v
      → p k v ≡ false
  unfolding find_entry get
  find_entry-eq_none p [] k v h g = cc
  find_entry-eq_none p ((j, w) ∷ m) k v h g =
      ground (arith, e.beq_iff j k, find_entry-eq_none p m k v)

  -- a write through `map.get_mut(&k)`, if the key is there
  unfoldable pub modify : K → (V → V) → Map K V → Map K V
  modify k f [] = []
  modify k f ((j, v) ∷ m) = if j == k then (j, f v) ∷ m else (j, v) ∷ modify k f m

  pub get-modify :
      (k j : K) (f : V → V) (m : Map K V)
      → get j (modify k f m) ≡ (if k == j then Option.map f (get j m) else get j m)
  unfolding get modify
  get-modify k j f [] = ground arith
  get-modify k j f ((i, w) ∷ m) =
      ground (arith, e.beq_iff k j, e.beq_iff i k, e.beq_iff i j, get-modify k j f m)

  -- `map.retain(..)`: a key that fails the test is gone
  unfoldable pub retain : (K → V → Bool) → Map K V → Map K V
  retain p [] = []
  retain p ((k, v) ∷ m) = let rest = retain p m in if p k v then (k, v) ∷ rest else remove k rest

  pub get-retain :
      (p : K → V → Bool) (j : K) (m : Map K V) → get j (retain p m) ≡ kept (p j) (get j m)
  unfolding get retain
  get-retain p j [] = refl
  get-retain p j ((k, v) ∷ m) = elim (Bool-cases (k == j)) [
    | inl same ↦
        let agree : p k v ≡ p j v = ap (λ i. p i v) ((e.beq_iff k j).0 same) in
        elim (Bool-cases (p k v)) [
          | inl stays ↦ ground (arith, same, stays, agree)
          | inr goes ↦ ground (arith, same, goes, agree, get-remove k j (retain p m))
        ]
    | inr other ↦ elim (Bool-cases (p k v)) [
      | inl stays ↦ ground (arith, other, stays, get-retain p j m)
      | inr goes ↦ ground (arith, other, goes, get-remove k j (retain p m), get-retain p j m)
    ]
  ]

  retain-none :
      (p : K → V → Bool) (j : K) (m : Map K V) → get j m ≡ none → get j (retain p m) ≡ none
  retain-none p j m h = get-retain p j m ∙ ap (kept (p j)) h

  pub retain-IsUnique : (p : K → V → Bool) (m : Map K V) → IsUnique m → IsUnique (retain p m)
  unfolding retain
  retain-IsUnique p [] h = tt
  retain-IsUnique p ((k, v) ∷ m) h = elim (Bool-cases (p k v)) [
    | inl stays ↦ rw stays (retain-none p k m h.0, retain-IsUnique p m h.1)
    | inr goes ↦ rw goes (remove-IsUnique k (retain p m) (retain-IsUnique p m h.1))
  ]

  -- every value that can be looked up has a property
  abbrev pub Each {ℓ'} : (V → Type ℓ') → Map K V → Type (ℓ ⊔ κ ⊔ ℓ')
  Each P m = (k : K) (v : V) → get k m ≡ some v → P v

  pub insert-Each {ℓ'} :
      (P : V → Type ℓ') (k : K) (w : V) (m : Map K V) → P w → Each P m → Each P (insert k w m)
  insert-Each P k w m pw each j v h = elim (Bool-cases (k == j)) [
    | inl same ↦
        let e : some w ≡ some v = rw same at (sym (get-insert k j w m) ∙ h) in
        subst P (some-injective w v e) pw
    | inr other ↦ each j v (rw other at (sym (get-insert k j w m) ∙ h))
  ]

  pub remove-Each {ℓ'} : (P : V → Type ℓ') (k : K) (m : Map K V) → Each P m → Each P (remove k m)
  remove-Each P k m each j v h = elim (Bool-cases (k == j)) [
    | inl same ↦ absurd (none-ne-some v (rw same at (sym (get-remove k j m) ∙ h)))
    | inr other ↦ each j v (rw other at (sym (get-remove k j m) ∙ h))
  ]

  pub modify-Each {ℓ'} :
      (P : V → Type ℓ') (k : K) (f : V → V) (m : Map K V)
      → ((v : V) → P v → P (f v))
      → Each P m
      → Each P (modify k f m)
  modify-Each P k f m keep each j v h = elim (Bool-cases (k == j)) [
    | inl same ↦
        let e : Option.map f (get j m) ≡ some v = rw same at (sym (get-modify k j f m) ∙ h) in
        let (u, here, fu) = (Option.map-eq-some_iff f (get j m)).0 e in
        subst P fu (keep u (each j u here))
    | inr other ↦ each j v (rw other at (sym (get-modify k j f m) ∙ h))
  ]
