-- ===== src/Prelude/Assoc.antt =====
-- `HashMap` as an association list: `insert` replaces, `remove` drops every entry of the key, and
-- the order of iteration is the order of the list.
use mathlib.Core.Path.{◌≡◌, refl}
use mathlib.Core.Bool.{Bool, true, false}
use mathlib.Core.Logic.{◌↔◌}
use mathlib.Core.Option.{Option, none, some}
use mathlib.Core.List.{List, [], ◌∷◌}
use native.Mathlib.Omega.{arith}
use mathlib.Core.Logic.{inl, inr}
use mathlib.Core.Option
use rust_smb_server.Prelude.Tests.{if◌then◌else◌, Bool-cases}
use rust_smb_server.Prelude.Lists.{All, All-mono, All-both}

-- `Eq` of a key type.
pub record Eq {ℓ} (K : Type ℓ) : Type ℓ where
  pub beq : K → K → Bool
  pub beq_iff : (a b : K) → (beq a b ≡ true) ↔ (a ≡ b)

abbrev pub is_some {ℓ} : {A : Type ℓ} → Option A → Bool
is_some none = false
is_some (some a) = true

module _ {ℓ} {K : Type ℓ} ⦃e : Eq K⦄ where
  unfoldable pub has : K → List K → Bool
  has k [] = false
  has k (j ∷ ks) = if e.beq j k then true else has k ks

module _ {ℓ κ} {K : Type ℓ} {V : Type κ} ⦃e : Eq K⦄ where
  unfoldable pub lookup : K → List (K × V) → Option V
  lookup k [] = none
  lookup k ((j, v) ∷ m) = if e.beq j k then some v else lookup k m

  unfoldable pub remove : K → List (K × V) → List (K × V)
  remove k [] = []
  remove k ((j, v) ∷ m) = let rest = remove k m in if e.beq j k then rest else (j, v) ∷ rest

  unfoldable pub insert : K → V → List (K × V) → List (K × V)
  insert k v m = (k, v) ∷ remove k m

  pub lookup-remove :
      (k j : K) (m : List (K × V))
      → lookup j (remove k m) ≡ (if e.beq k j then none else lookup j m)
  unfolding lookup remove
  lookup-remove k j [] = ground arith
  lookup-remove k j ((i, v) ∷ m) =
      ground (arith, lookup-remove k j m, e.beq_iff i k, e.beq_iff i j, e.beq_iff k j)

  pub lookup-insert :
      (k j : K) (v : V) (m : List (K × V))
      → lookup j (insert k v m) ≡ (if e.beq k j then some v else lookup j m)
  unfolding lookup insert
  lookup-insert k j v m = ground (arith, lookup-remove k j m)

  -- A value is changed in its place, through its lock.
  unfoldable pub modify : K → (V → V) → List (K × V) → List (K × V)
  modify k f [] = []
  modify k f ((j, v) ∷ m) =
      let others = modify k f m in if e.beq j k then (j, f v) ∷ m else (j, v) ∷ others

  pub lookup-modify :
      (k j : K) (f : V → V) (m : List (K × V))
      → lookup j (modify k f m) ≡ (if e.beq k j then Option.map f (lookup j m) else lookup j m)
  unfolding lookup modify
  lookup-modify k j f [] = ground arith
  lookup-modify k j f ((i, v) ∷ m) =
      ground (arith, lookup-modify k j f m, e.beq_iff i k, e.beq_iff i j, e.beq_iff k j)

  module _ {μ} (P : K × V → Type μ) where
    pub All-remove : (k : K) (m : List (K × V)) → All P m → All P (remove k m)
    unfolding remove
    All-remove k [] h = tt
    All-remove k ((j, v) ∷ m) h = elim (Bool-cases (e.beq j k)) [
      | inl same ↦ rw same (All-remove k m h.1)
      | inr other ↦ rw other (h.0, All-remove k m h.1)
    ]

    pub All-insert : (k : K) (v : V) (m : List (K × V)) → P (k, v) → All P m → All P (insert k v m)
    unfolding insert
    All-insert k v m p h = (p, All-remove k m h)

    pub All-modify :
        (k : K) (f : V → V) (m : List (K × V))
        → ((v : V) → lookup k m ≡ some v → P (k, v) → P (k, f v))
        → All P m
        → All P (modify k f m)
    unfolding modify lookup
    All-modify k f [] keep h = tt
    All-modify k f ((j, v) ∷ m) keep h = elim (Bool-cases (e.beq j k)) [
      | inl same ↦
          let jk : j ≡ k = (e.beq_iff j k).0 same in
          rw same (rw jk (keep v (rw same refl) (rw jk at h.0)), h.1)
      | inr other ↦ rw other (h.0, All-modify k f m (λ u found. keep u (rw other found)) h.1)
    ]

    pub All-lookup : (k : K) (v : V) (m : List (K × V)) → All P m → lookup k m ≡ some v → P (k, v)
    unfolding lookup
    All-lookup k v [] h found = cc
    All-lookup k v ((j, w) ∷ m) h found = elim (Bool-cases (e.beq j k)) [
      | inl same ↦
          let jk : j ≡ k = (e.beq_iff j k).0 same in
          let found' : some w ≡ some v = rw same at found in
          let wv : w ≡ v = cc found' in rw (← jk, ← wv) h.0
      | inr other ↦ All-lookup k v m h.1 (rw other at found)
    ]

  -- After a removal no entry has the key.
  pub remove-ne : (k : K) (m : List (K × V)) → All (λ p. e.beq p.0 k ≡ false) (remove k m)
  unfolding remove
  remove-ne k [] = tt
  remove-ne k ((j, v) ∷ m) = elim (Bool-cases (e.beq j k)) [
    | inl same ↦ rw same (remove-ne k m)
    | inr other ↦ rw other (other, remove-ne k m)
  ]

  pub lookup-none-remove : (k : K) (m : List (K × V)) → lookup k m ≡ none → remove k m ≡ m
  unfolding lookup remove
  lookup-none-remove k [] h = refl
  lookup-none-remove k ((j, v) ∷ m) h = ground (arith, lookup-none-remove k m)

  -- The keys of the entries whose value passes a test, and the removal of some keys.
  unfoldable pub keys_where : (V → Bool) → List (K × V) → List K
  keys_where test [] = []
  keys_where test ((j, v) ∷ m) = let keys = keys_where test m in if test v then j ∷ keys else keys

  unfoldable pub remove_keys : List K → List (K × V) → List (K × V)
  remove_keys [] m = m
  remove_keys (k ∷ ks) m = remove_keys ks (remove k m)

  pub All-remove_keys {μ} :
      (P : K × V → Type μ) (ks : List K) (m : List (K × V)) → All P m → All P (remove_keys ks m)
  unfolding remove_keys
  All-remove_keys P [] m h = h
  All-remove_keys P (k ∷ ks) m h = All-remove_keys P ks (remove k m) (All-remove P k m h)

  All-trivial : (m : List (K × V)) → All (λ _. Unit {0}) m
  All-trivial [] = tt
  All-trivial (p ∷ m) = (tt, All-trivial m)

  removed-has : (ks : List K) (m : List (K × V)) → All (λ p. has p.0 ks ≡ false) (remove_keys ks m)
  unfolding remove_keys has
  removed-has [] m = All-mono (λ _. Unit {0}) _ (λ p _. refl) m (All-trivial m)
  removed-has (k ∷ ks) m =
      All-mono (λ p. (e.beq p.0 k ≡ false) × (has p.0 ks ≡ false)) _
        (λ p h. ground (arith, e.beq_iff p.0 k, e.beq_iff k p.0)) (remove_keys ks (remove k m))
        (All-both _ _ (remove_keys ks (remove k m))
          (All-remove_keys _ ks (remove k m) (remove-ne k m)) (removed-has ks (remove k m)))

  keys_where-has :
      (test : V → Bool) (m : List (K × V))
      → All (λ p. test p.1 ≡ true → has p.0 (keys_where test m) ≡ true) m
  unfolding keys_where has
  keys_where-has test [] = tt
  keys_where-has test ((j, v) ∷ m) = (
    (λ t. ground (arith, e.beq_iff j j)),
    All-mono (λ p. test p.1 ≡ true → has p.0 (keys_where test m) ≡ true) _
        (λ p h t. ground (arith, h t)) m (keys_where-has test m),
  )

  -- Once the keys of all entries that pass a test are removed, no entry passes it.
  pub keys_where-removed :
      (test : V → Bool) (m : List (K × V))
      → All (λ p. test p.1 ≡ false) (remove_keys (keys_where test m) m)
  keys_where-removed test m =
      let ks : List K = keys_where test m in
      let left : List (K × V) = remove_keys ks m in
      All-mono (λ p. (test p.1 ≡ true → has p.0 ks ≡ true) × (has p.0 ks ≡ false)) _
        (λ p h. elim (Bool-cases (test p.1)) [ inl yes' ↦ cc (h.0 yes', h.1) | inr other ↦ other ])
        left (All-both _ _ left (All-remove_keys _ ks m (keys_where-has test m)) (removed-has ks m))

  abbrev pub contains_key : K → List (K × V) → Bool
  contains_key k m = is_some (lookup k m)

  pub contains_key-insert :
      (k j : K) (v : V) (m : List (K × V))
      → contains_key j m ≡ true
      → contains_key j (insert k v m) ≡ true
  contains_key-insert k j v m h = elim (Bool-cases (e.beq k j)) [
    | inl same ↦ rw (lookup-insert k j v m, same) refl
    | inr other ↦ rw (lookup-insert k j v m, other) h
  ]

  pub contains_key-remove :
      (k j : K) (m : List (K × V))
      → e.beq k j ≡ false
      → contains_key j m ≡ true
      → contains_key j (remove k m) ≡ true
  contains_key-remove k j m other h = rw (lookup-remove k j m, other) h
