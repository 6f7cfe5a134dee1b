-- ===== src/Std/Dict.antt =====
-- `std::unordered_map` and `std::map` with text keys, as an association list. The order of the list
-- stands for the order in which a range-`for` visits the entries.
use tcp_udp.Base.{
  ◌≡◌, ◌≢◌, refl, subst, inl, inr, Option, none, some, List, [], ◌∷◌, arith, if◌then◌else◌,
  Bool-cases, bytes_eq, bytes_eq_sound, bytes_eq_refl, bytes_eq_ne, bytes_eq_iff, All,
}
use tcp_udp.Std.Text.{Bytes}

module _ {ℓ} {V : Type ℓ} where
  -- `find`; `none` is `end()`.
  unfoldable pub lookup : Bytes → List (Bytes × V) → Option V
  lookup k [] = none
  lookup k ((j, v) ∷ m) = if bytes_eq j k then some v else lookup k m

  -- `m[k] = v`, and `emplace(k, v)` where `k` has no entry. A new entry goes to the end.
  unfoldable pub insert : Bytes → V → List (Bytes × V) → List (Bytes × V)
  insert k v [] = (k, v) ∷ []
  insert k v ((j, w) ∷ m) = if bytes_eq j k then (j, v) ∷ m else (j, w) ∷ insert k v m

  unfoldable pub erase : Bytes → List (Bytes × V) → List (Bytes × V)
  erase k [] = []
  erase k ((j, v) ∷ m) = if bytes_eq j k then m else (j, v) ∷ erase k m

  abbrev pub keys : List (Bytes × V) → List Bytes
  keys [] = []
  keys ((k, v) ∷ m) = k ∷ keys m

  -- No key has two entries.
  abbrev pub IsMap : List (Bytes × V) → Type 0
  IsMap [] = Unit
  IsMap ((k, v) ∷ m) = All (λ j. j ≢ k) (keys m) × IsMap m

  pub lookup-insert :
      (k j : Bytes) (v : V) (m : List (Bytes × V))
      → lookup j (insert k v m) ≡ (if bytes_eq k j then some v else lookup j m)
  unfolding lookup insert
  lookup-insert k j v [] = refl
  lookup-insert k j v ((i, w) ∷ m) =
      ground (arith, bytes_eq_iff k j, bytes_eq_iff i k, bytes_eq_iff i j, lookup-insert k j v m)

  pub lookup-insert_self :
      (k : Bytes) (v : V) (m : List (Bytes × V)) → lookup k (insert k v m) ≡ some v
  lookup-insert_self k v m = rw (lookup-insert k k v m, bytes_eq_refl k) refl

  pub lookup-insert_ne :
      (k j : Bytes) (v : V) (m : List (Bytes × V)) → k ≢ j → lookup j (insert k v m) ≡ lookup j m
  lookup-insert_ne k j v m h = rw (lookup-insert k j v m, bytes_eq_ne k j h) refl

  pub lookup_absent :
      (k : Bytes) (m : List (Bytes × V)) → All (λ j. j ≢ k) (keys m) → lookup k m ≡ none
  unfolding lookup
  lookup_absent k [] h = refl
  lookup_absent k ((j, v) ∷ m) h = rw (bytes_eq_ne j k h.0) (lookup_absent k m h.1)

  pub lookup-erase_ne :
      (k j : Bytes) (m : List (Bytes × V)) → k ≢ j → lookup j (erase k m) ≡ lookup j m
  unfolding lookup erase
  lookup-erase_ne k j [] h = refl
  lookup-erase_ne k j ((i, w) ∷ m) h =
      ground (arith, bytes_eq_iff i k, bytes_eq_iff i j, bytes_eq_iff k j, lookup-erase_ne k j m h)

  pub lookup-erase_self : (k : Bytes) (m : List (Bytes × V)) → IsMap m → lookup k (erase k m) ≡ none
  unfolding lookup erase
  lookup-erase_self k [] h = refl
  lookup-erase_self k ((i, w) ∷ m) h = elim (Bool-cases (bytes_eq i k)) [
    | inl e ↦ rw e (lookup_absent k m (rw (bytes_eq_sound i k e) at h.0))
    | inr e ↦ rw (e, lookup, e) (lookup-erase_self k m h.1)
  ]

  insert-All :
      (i k : Bytes) (v : V) (m : List (Bytes × V))
      → k ≢ i
      → All (λ j. j ≢ i) (keys m)
      → All (λ j. j ≢ i) (keys (insert k v m))
  unfolding insert
  insert-All i k v [] n h = (n, tt)
  insert-All i k v ((j, w) ∷ m) n h = elim (Bool-cases (bytes_eq j k)) [
    | inl e ↦ rw e h
    | inr e ↦ rw e (h.0, insert-All i k v m n h.1)
  ]

  pub insert-IsMap : (k : Bytes) (v : V) (m : List (Bytes × V)) → IsMap m → IsMap (insert k v m)
  unfolding insert
  insert-IsMap k v [] h = (tt, tt)
  insert-IsMap k v ((j, w) ∷ m) h = elim (Bool-cases (bytes_eq j k)) [
    | inl e ↦ rw e h
    | inr e ↦ rw e (
      insert-All j k v m (λ q. absurd (ground (arith, bytes_eq_iff j k))) h.0,
      insert-IsMap k v m h.1,
    )
  ]

  erase-All :
      (i k : Bytes) (m : List (Bytes × V))
      → All (λ j. j ≢ i) (keys m)
      → All (λ j. j ≢ i) (keys (erase k m))
  unfolding erase
  erase-All i k [] h = tt
  erase-All i k ((j, w) ∷ m) h = elim (Bool-cases (bytes_eq j k)) [
    | inl e ↦ rw e h.1
    | inr e ↦ rw e (h.0, erase-All i k m h.1)
  ]

  pub erase-IsMap : (k : Bytes) (m : List (Bytes × V)) → IsMap m → IsMap (erase k m)
  unfolding erase
  erase-IsMap k [] h = tt
  erase-IsMap k ((j, w) ∷ m) h = elim (Bool-cases (bytes_eq j k)) [
    | inl e ↦ rw e h.1
    | inr e ↦ rw e (erase-All j k m h.0, erase-IsMap k m h.1)
  ]

module _ {ℓ κ} {V : Type ℓ} (P : Bytes × V → Type κ) where
  pub insert-All_entries :
      (k : Bytes) (v : V) (m : List (Bytes × V)) → P (k, v) → All P m → All P (insert k v m)
  unfolding insert
  insert-All_entries k v [] p h = (p, tt)
  insert-All_entries k v ((j, w) ∷ m) p h = elim (Bool-cases (bytes_eq j k)) [
    | inl e ↦ rw e (rw (bytes_eq_sound j k e) p, h.1)
    | inr e ↦ rw e (h.0, insert-All_entries k v m p h.1)
  ]

  pub erase-All_entries : (k : Bytes) (m : List (Bytes × V)) → All P m → All P (erase k m)
  unfolding erase
  erase-All_entries k [] h = tt
  erase-All_entries k ((j, w) ∷ m) h = elim (Bool-cases (bytes_eq j k)) [
    | inl e ↦ rw e h.1
    | inr e ↦ rw e (h.0, erase-All_entries k m h.1)
  ]

  -- An entry that is found has its key, and the property of the entries.
  pub lookup-All_entries :
      (k : Bytes) (m : List (Bytes × V)) {v : V} → lookup k m ≡ some v → All P m → P (k, v)
  unfolding lookup
  lookup-All_entries k [] e h = absurd (cc)
  lookup-All_entries k ((j, w) ∷ m) {v} e h = elim (Bool-cases (bytes_eq j k)) [
    | inl q ↦
        let found : some w ≡ some v = rw q at e in
        let same : w ≡ v = cc in rw (← bytes_eq_sound j k q) (subst (λ x. P (j, x)) same h.0)
    | inr q ↦ lookup-All_entries k m (rw q at e) h.1
  ]
