-- ===== src/Go/Map.antt =====
-- Go's `map[string]V`. The entries stand in a list whose order means nothing: where the program ranges
-- over a map, the order is an argument of the model. Clients have `map_laws`.
use redi_go.Prelude.{
  Bytes, ℕ, ◌+◌, List, [], ◌∷◌, ◌≡◌, refl, Option, none, some, arith, beq, beq_iff, beq_refl,
  if◌then◌else◌, length, map, Bool-cases, inl, inr,
}

pub record Map {ℓ} (V : Type ℓ) : Type ℓ where
  pub entries : List (Bytes × V)

module _ {ℓ} {V : Type ℓ} where
  unfoldable pub find : Bytes → List (Bytes × V) → Option V
  find k [] = none
  find k ((j, v) ∷ l) = if beq j k then some v else find k l

  unfoldable pub without : Bytes → List (Bytes × V) → List (Bytes × V)
  without k [] = []
  without k ((j, v) ∷ l) = let rest = without k l in if beq j k then rest else (j, v) ∷ rest

  pub find-without :
      (k j : Bytes) (l : List (Bytes × V))
      → find j (without k l) ≡ (if beq k j then none else find j l)
  unfolding find without
  find-without k j [] = ground arith
  find-without k j ((i, v) ∷ l) =
      ground (arith, find-without k j l, beq_iff i k, beq_iff i j, beq_iff k j)

  -- The entry that `l` has for `k`, counted.
  abbrev pub held : Option V → ℕ
  held none = 0
  held (some v) = 1

  -- No key twice.
  abbrev pub Distinct : List (Bytes × V) → Type ℓ
  Distinct [] = Unit
  Distinct ((k, v) ∷ l) = (find k l ≡ none) × Distinct l

  pub without_absent : (k : Bytes) (l : List (Bytes × V)) → find k l ≡ none → without k l ≡ l
  unfolding find without
  without_absent k [] h = refl
  without_absent k ((j, v) ∷ l) h = ground (arith, without_absent k l)

  pub length-without :
      (k : Bytes) (l : List (Bytes × V))
      → Distinct l
      → length (without k l) + held (find k l) ≡ length l
  unfolding find without
  length-without k [] d = omega arith
  length-without k ((j, v) ∷ l) d = elim (Bool-cases (beq j k)) [
    | inl e ↦
        let p : j ≡ k = (beq_iff j k).0 e in rw (e, without_absent k l (rw (← p) d.0)) (omega arith)
    | inr e ↦ rw e (omega (arith, length-without k l d.1))
  ]

  pub without-Distinct : (k : Bytes) (l : List (Bytes × V)) → Distinct l → Distinct (without k l)
  unfolding without
  without-Distinct k [] d = d
  without-Distinct k ((j, v) ∷ l) d = elim (Bool-cases (beq j k)) [
    | inl e ↦ rw e (without-Distinct k l d.1)
    | inr e ↦ rw e (ground (arith, find-without k j l), without-Distinct k l d.1)
  ]

module _ {ℓ} {V : Type ℓ} where
  -- make(map[string]V)
  unfoldable pub empty : Map V
  empty = record { entries = [] }

  -- v, ok := m[k]
  unfoldable pub get : Map V → Bytes → Option V
  get m k = find k m.entries

  -- m[k] = v
  unfoldable pub put : Map V → Bytes → V → Map V
  put m k v = record { entries = (k, v) ∷ without k m.entries }

  -- delete(m, k)
  unfoldable pub delete : Map V → Bytes → Map V
  delete m k = record { entries = without k m.entries }

  -- len(m)
  unfoldable pub size : Map V → ℕ
  size m = length m.entries

  unfoldable pub keys : Map V → List Bytes
  keys m = map (λ e. e.0) m.entries

  -- The values, in no particular order.
  unfoldable pub values : Map V → List V
  values m = map (λ e. e.1) m.entries

  -- What every map that the operations build satisfies.
  unfoldable pub IsMap : Map V → Type ℓ
  IsMap m = Distinct m.entries

  pub get-put :
      (m : Map V) (k j : Bytes) (v : V) → get (put m k v) j ≡ (if beq k j then some v else get m j)
  unfolding get put find
  get-put m k j v = ground (arith, find-without k j m.entries)

  pub get-delete :
      (m : Map V) (k j : Bytes) → get (delete m k) j ≡ (if beq k j then none else get m j)
  unfolding get delete
  get-delete m k j = find-without k j m.entries

  pub delete-IsMap : (m : Map V) (k : Bytes) → IsMap m → IsMap (delete m k)
  unfolding IsMap delete
  delete-IsMap m k d = without-Distinct k m.entries d

  pub put-IsMap : (m : Map V) (k : Bytes) (v : V) → IsMap m → IsMap (put m k v)
  unfolding IsMap put
  put-IsMap m k v d = (rw (find-without k k m.entries, beq_refl k), without-Distinct k m.entries d)

  pub size-delete : (m : Map V) (k : Bytes) → IsMap m → size (delete m k) + held (get m k) ≡ size m
  unfolding size delete get IsMap
  size-delete m k d = length-without k m.entries d

  pub size-put :
      (m : Map V) (k : Bytes) (v : V) → IsMap m → size (put m k v) + held (get m k) ≡ size m + 1
  unfolding size put get IsMap
  size-put m k v d = omega (arith, length-without k m.entries d)

pub get-empty {ℓ} : {V : Type ℓ} (k : Bytes) → get (empty {V = V}) k ≡ none
unfolding get empty find
get-empty k = refl

pub size-empty {ℓ} : (V : Type ℓ) → size (empty {V = V}) ≡ 0
unfolding size empty
size-empty V = refl

pub empty-IsMap {ℓ} : (V : Type ℓ) → IsMap (empty {V = V})
unfolding IsMap empty
empty-IsMap V = tt

pub ruleset map_laws = (get-empty, get-delete, get-put)
