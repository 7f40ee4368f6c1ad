-- ===== src/Jobs/Estimation/Sorted.antt =====
-- The list of physical qubits that the estimator is sent.
use oqtopus_engine.Prelude.{
  ℕ, zero, suc, ◌+◌, ◌<◌, Bool, true, false, ◌&&◌, ◌||◌, is_some, List, [], ◌∷◌, map, ◌≡◌, refl, ap,
  All, contains, leb, ltb, ◌==◌, if◌then◌else◌, arith, ◌∙◌,
}
use oqtopus_engine.Prelude.Dict.{lookup, nat_eq}
use oqtopus_engine.Core.Mapping.{VirtualPhysicalMappingMap}
use oqtopus_engine.ResultDivider.Swap.{IsMapping}
use oqtopus_engine.Jobs.Estimation.Operators.{
  insert_key, sort_keys, keys_of, value_at, mapping_list,
}

abbrev Above : ℕ → ℕ → Type 0
Above a x = a < x

abbrev Ascending : List ℕ → Type 0
Ascending [] = Unit
Ascending (x ∷ xs) = All (Above x) xs × Ascending xs

-- The numbers from `a` on.
abbrev pub range : ℕ → ℕ → List ℕ
range a zero = []
range a (suc n) = a ∷ range (suc a) n

Above-trans : (a b : ℕ) (xs : List ℕ) → a < b → All (Above b) xs → All (Above a) xs
Above-trans a b [] h k = tt
Above-trans a b (x ∷ xs) h (k, ks) = (omega arith, Above-trans a b xs h ks)

insert_key-Above :
    (a k : ℕ) (xs : List ℕ) → a < k → All (Above a) xs → All (Above a) (insert_key k xs)
unfolding insert_key
insert_key-Above a k [] h l = (h, tt)
insert_key-Above a k (x ∷ xs) h (l, ls) = by (ltb x k) (insert_key-Above a k xs h ls)
  where
    by :
        (b : Bool)
        → All (Above a) (insert_key k xs)
        → All (Above a) (if b then x ∷ insert_key k xs else k ∷ x ∷ xs)
    by true r = (l, r)
    by false r = (h, (l, ls))

insert_key-Ascending :
    (k : ℕ) (xs : List ℕ) → Ascending xs → contains xs k ≡ false → Ascending (insert_key k xs)
unfolding insert_key
insert_key-Ascending k [] a h = (tt, tt)
insert_key-Ascending k (x ∷ xs) (l, ls) h =
    by (ltb x k) refl (insert_key-Ascending k xs ls (ground arith))
  where
    by :
        (b : Bool)
        → ltb x k ≡ b
        → Ascending (insert_key k xs)
        → Ascending (if b then x ∷ insert_key k xs else k ∷ x ∷ xs)
    by true e r = (insert_key-Above x k xs (ground arith) l, r)
    by false e r =
        let below : k < x = ground arith in ((below, Above-trans k x xs below l), (l, ls))

contains-insert_key :
    (k y : ℕ) (xs : List ℕ) → contains (insert_key k xs) y ≡ ((k == y) || contains xs y)
unfolding insert_key
contains-insert_key k y [] = refl
contains-insert_key k y (x ∷ xs) = ground (arith, contains-insert_key k y xs)

contains-sort_keys : (y : ℕ) (ks : List ℕ) → contains (sort_keys ks) y ≡ contains ks y
unfolding sort_keys
contains-sort_keys y [] = refl
contains-sort_keys y (k ∷ ks) =
    ground (arith, contains-insert_key k y (sort_keys ks), contains-sort_keys y ks)

contains-keys_of :
    (y : ℕ) (m : VirtualPhysicalMappingMap) → contains (keys_of m) y ≡ is_some (lookup y m)
contains-keys_of y [] = refl
contains-keys_of y ((v, p) ∷ m) = ground (arith, contains-keys_of y m)

sort_keys-Ascending :
    (n : ℕ) (m : VirtualPhysicalMappingMap) → IsMapping n m → Ascending (sort_keys (keys_of m))
unfolding sort_keys
sort_keys-Ascending n [] h = tt
sort_keys-Ascending n ((v, p) ∷ m) (b, u, h) =
    insert_key-Ascending v (sort_keys (keys_of m)) (sort_keys-Ascending n m h)
      (contains-sort_keys v (keys_of m) ∙ contains-keys_of v m ∙ ap is_some u)

Above-contains : (a y : ℕ) (xs : List ℕ) → All (Above a) xs → contains xs y ≡ true → a < y
Above-contains a y [] l h = cc
Above-contains a y (x ∷ xs) (l, ls) h = ground (arith, Above-contains a y xs ls)

-- An ascending list is determined by what it contains.
Ascending-range :
    (a n : ℕ) (xs : List ℕ)
    → Ascending xs
    → ((y : ℕ) → contains xs y ≡ (leb a y && ltb y (a + n)))
    → xs ≡ range a n
Ascending-range a zero [] l h = refl
Ascending-range a zero (x ∷ xs) l h = absurd (ground (arith, h x))
Ascending-range a (suc n) [] l h = absurd (ground (arith, h a))
Ascending-range a (suc n) (x ∷ xs) (l, ls) h =
    let first : x ≡ a = ground (arith, h x, h a, Above-contains x a xs l) in
    let rest : xs ≡ range (suc a) n =
      Ascending-range (suc a) n xs ls (λ y. ground (arith, h y, first, Above-contains x y xs l)) in
    cc

-- For a mapping of exactly the virtual qubits below `n`, each once, the list that is sent to the estimator has the
-- physical qubit of each virtual one in order, whatever the order of the map.
pub mapping_list-range :
    (n : ℕ) (m : VirtualPhysicalMappingMap)
    → IsMapping n m
    → ((y : ℕ) → is_some (lookup y m) ≡ ltb y n)
    → mapping_list m ≡ map (value_at m) (range 0 n)
unfolding mapping_list
mapping_list-range n m u h = ap (map (value_at m)) (
    Ascending-range 0 n (sort_keys (keys_of m)) (sort_keys-Ascending n m u)
      (λ y. ground (arith, contains-sort_keys y (keys_of m), contains-keys_of y m, h y)))
