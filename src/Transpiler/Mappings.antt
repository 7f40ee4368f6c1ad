-- ===== src/Transpiler/Mappings.antt =====
-- The two mappings that the transpiler's client makes of one answer.
use oqtopus_engine.Prelude.{
  ℕ, ◌<◌, Option, none, some, [], ◌∷◌, Outcome, ok, err, ◌≡◌, ◌↔◌, refl, ◌∙◌, ap, sym, subst, All,
  arith,
}
use oqtopus_engine.Prelude.Int.{ℤ, pos, uint32, uint32_small}
use oqtopus_engine.Prelude.Dict.{Bytes, Dict, lookup, insert, nat_eq, lookup-insert}
use oqtopus_engine.Core.Fault.{Fault, invalid_key}
use oqtopus_engine.Core.Mapping.{parse_uint, to_map, to_map_from}
use oqtopus_engine.Qpu.Gateway.Send.{to_uint32}
use oqtopus_engine.Transpiler.{physical_virtual_from}

-- The entries with their keys read as numbers.
abbrev pub parse_all : Dict Bytes ℕ → Option (Dict ℕ ℕ)
parse_all [] = some []
parse_all ((k, v) ∷ m) = elim (parse_uint k) [
  | none ↦ none
  | some n ↦ elim (parse_all m) [ none ↦ none | some l ↦ some ((n, v) ∷ l) ]
]

-- The object as Go decodes it, a physical qubit as an int.
abbrev pub as_ints : Dict Bytes ℕ → Dict Bytes ℤ
as_ints [] = []
as_ints ((k, v) ∷ m) = (k, pos v) ∷ as_ints m

abbrev pub swapped : Dict ℕ ℕ → Dict ℕ ℕ
swapped [] = []
swapped ((v, p) ∷ m) = (p, v) ∷ swapped m

-- No key twice.
abbrev pub Unique : Dict ℕ ℕ → Type 0
Unique [] = Unit
Unique ((v, p) ∷ m) = (lookup v m ≡ none) × Unique m

-- Entries written one after the other.
abbrev pub inserts : Dict ℕ ℕ → Dict ℕ ℕ → Dict ℕ ℕ
inserts [] m = m
inserts ((v, p) ∷ l) m = inserts l (insert v p m)

abbrev or_from : Option ℕ → Option ℕ → Option ℕ
or_from (some a) o = some a
or_from none o = o

lookup-inserts :
    (k : ℕ) (l m : Dict ℕ ℕ) → Unique l → lookup k (inserts l m) ≡ or_from (lookup k l) (lookup k m)
lookup-inserts k [] m u = refl
lookup-inserts k ((v, p) ∷ l) m (n, u) =
    ground (arith, lookup-inserts k l (insert v p m) u, lookup-insert v k p m)

or_from-none : (o : Option ℕ) → or_from o none ≡ o
or_from-none none = refl
or_from-none (some a) = refl

stored : (k : ℕ) (l : Dict ℕ ℕ) → Unique l → lookup k (inserts l []) ≡ lookup k l
stored k l u = lookup-inserts k l [] u ∙ or_from-none (lookup k l)

swapped-swapped : (l : Dict ℕ ℕ) → swapped (swapped l) ≡ l
swapped-swapped [] = refl
swapped-swapped ((v, p) ∷ l) = rw (swapped-swapped l)

lookup-swapped :
    (v p : ℕ) (l : Dict ℕ ℕ)
    → Unique (swapped l)
    → lookup v l ≡ some p
    → lookup p (swapped l) ≡ some v
lookup-swapped v p [] u h = cc
lookup-swapped v p ((w, q) ∷ l) (n, u) h = ground (arith, lookup-swapped v p l u)

-- What reading the entries into a map comes to.
abbrev read_as : (Dict ℕ ℕ → Dict ℕ ℕ) → Option (Dict ℕ ℕ) → Outcome Fault (Dict ℕ ℕ)
read_as f none = err invalid_key
read_as f (some l) = ok (f l)

to_map_from-inserts :
    (m : Dict Bytes ℕ) (acc : Dict ℕ ℕ)
    → to_map_from acc m ≡ read_as (λ l. inserts l acc) (parse_all m)
unfolding to_map_from
to_map_from-inserts [] acc = refl
to_map_from-inserts ((k, v) ∷ m) acc = by (parse_uint k) (to_map_from-inserts m)
  where
    longer :
        (n : ℕ) (o : Option (Dict ℕ ℕ))
        → read_as (λ l. inserts l (insert n v acc)) o
          ≡ read_as (λ l. inserts l acc) (elim o [ none ↦ none | some l ↦ some ((n, v) ∷ l) ])
    longer n none = refl
    longer n (some l) = refl

    by :
        (o : Option ℕ)
        → ((a : Dict ℕ ℕ) → to_map_from a m ≡ read_as (λ l. inserts l a) (parse_all m))
        → (elim o [ none ↦ err invalid_key | some key ↦ to_map_from (insert key v acc) m ])
          ≡ read_as
              (λ l. inserts l acc)
              (elim o [
                | none ↦ none
                | some n ↦ elim (parse_all m) [ none ↦ none | some l ↦ some ((n, v) ∷ l) ]
              ])
    by none ih = refl
    by (some n) ih = ih (insert n v acc) ∙ longer n (parse_all m)

-- A physical qubit fits in 32 bits.
abbrev pub Fits : Bytes × ℕ → Type 0
Fits e = e.1 < 4294967296

physical_virtual_from-inserts :
    (m : Dict Bytes ℕ) (acc : Dict ℕ ℕ)
    → All Fits m
    → physical_virtual_from acc (as_ints m) ≡ read_as (λ l. inserts (swapped l) acc) (parse_all m)
unfolding physical_virtual_from to_uint32
physical_virtual_from-inserts [] acc f = refl
physical_virtual_from-inserts ((k, v) ∷ m) acc (f, fs) =
    by (parse_uint k) (λ a. physical_virtual_from-inserts m a fs)
  where
    longer :
        (n : ℕ) (o : Option (Dict ℕ ℕ))
        → read_as (λ l. inserts (swapped l) (insert (uint32 v) n acc)) o
          ≡ read_as
              (λ l. inserts (swapped l) acc)
              (elim o [ none ↦ none | some l ↦ some ((n, v) ∷ l) ])
    longer n none = refl
    longer n (some l) = rw (uint32_small v f)

    by :
        (o : Option ℕ)
        → ((a : Dict ℕ ℕ)
            → physical_virtual_from a (as_ints m)
              ≡ read_as (λ l. inserts (swapped l) a) (parse_all m))
        → (elim o [
          | none ↦ err invalid_key
          | some num ↦ physical_virtual_from (insert (uint32 v) num acc) (as_ints m)
        ])
          ≡ read_as
              (λ l. inserts (swapped l) acc)
              (elim o [
                | none ↦ none
                | some n ↦ elim (parse_all m) [ none ↦ none | some l ↦ some ((n, v) ∷ l) ]
              ])
    by none ih = refl
    by (some n) ih = ih (insert (uint32 v) n acc) ∙ longer n (parse_all m)

-- For entries that name each virtual and each physical qubit once, the mapping that `ToMap` reads and the
-- one of the client both exist, and they are inverse to each other.
pub mappings_inverse :
    (m : Dict Bytes ℕ) (l : Dict ℕ ℕ)
    → parse_all m ≡ some l
    → All Fits m
    → Unique l
    → Unique (swapped l)
    → (vpm pvm : Dict ℕ ℕ) × (to_map m ≡ ok vpm)
      × (physical_virtual_from [] (as_ints m) ≡ ok pvm)
      × ((v p : ℕ) → (lookup v vpm ≡ some p) ↔ (lookup p pvm ≡ some v))
unfolding to_map
mappings_inverse m l h f u us = (
  inserts l [],
  inserts (swapped l) [],
  to_map_from-inserts m [] ∙ ap (read_as (λ k. inserts k [])) h,
  physical_virtual_from-inserts m [] f ∙ ap (read_as (λ k. inserts (swapped k) [])) h,
  λ v p. (
    (λ e. stored p (swapped l) us ∙ lookup-swapped v p l us (sym (stored v l u) ∙ e)),
    (λ e.
        stored v l u
        ∙ subst (λ k. lookup v k ≡ some p) (swapped-swapped l)
            (lookup-swapped p v (swapped l) (subst Unique (sym (swapped-swapped l)) u)
              (sym (stored p (swapped l) us) ∙ e))),
  ),
)
