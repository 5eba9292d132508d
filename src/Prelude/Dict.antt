-- ===== src/Prelude/Dict.antt =====
-- Python dicts, Redis hashes and tables keyed by numbers, in insertion order.
use emoselfie_be.Prelude.{
  ℕ, suc, ◌≡◌, refl, Bool, ◌||◌, Option, none, some, List, [], ◌∷◌, arith, ◌==◌, if◌then◌else◌,
  is_some, length,
}
use emoselfie_be.Prelude.Sets.{has, IsDistinct}

abbrev pub Dict {ℓ} : Type ℓ → Type ℓ
Dict V = List (ℕ × V)

module _ {ℓ} {V : Type ℓ} where
  abbrev pub lookup : ℕ → Dict V → Option V
  lookup k [] = none
  lookup k ((j, v) ∷ d) = if k == j then some v else lookup k d

  -- `d[k] = v`
  abbrev pub insert : ℕ → V → Dict V → Dict V
  insert k v [] = (k, v) ∷ []
  insert k v ((j, w) ∷ d) = if k == j then (k, v) ∷ d else (j, w) ∷ insert k v d

  -- `del d[k]`
  abbrev pub erase : ℕ → Dict V → Dict V
  erase k [] = []
  erase k ((j, w) ∷ d) = if k == j then erase k d else (j, w) ∷ erase k d

  abbrev pub keys : Dict V → List ℕ
  keys [] = []
  keys ((k, _) ∷ d) = k ∷ keys d

  -- `k in d`
  abbrev pub has_key : ℕ → Dict V → Bool
  has_key k d = is_some (lookup k d)

  pub lookup-insert :
      (j k : ℕ) (v : V) (d : Dict V)
      → lookup j (insert k v d) ≡ (if j == k then some v else lookup j d)
  lookup-insert j k v [] = refl
  lookup-insert j k v ((i, w) ∷ d) = ground (arith, lookup-insert j k v d)

  pub lookup-erase :
      (j k : ℕ) (d : Dict V) → lookup j (erase k d) ≡ (if j == k then none else lookup j d)
  lookup-erase j k [] = ground arith
  lookup-erase j k ((i, w) ∷ d) = ground (arith, lookup-erase j k d)

  pub has-keys : (k : ℕ) (d : Dict V) → has k (keys d) ≡ has_key k d
  has-keys k [] = refl
  has-keys k ((j, v) ∷ d) = ground (arith, has-keys k d)

  pub has-keys_insert :
      (j k : ℕ) (v : V) (d : Dict V) → has j (keys (insert k v d)) ≡ ((j == k) || has j (keys d))
  has-keys_insert j k v [] = ground arith
  has-keys_insert j k v ((i, w) ∷ d) = ground (arith, has-keys_insert j k v d)

  pub insert-IsDistinct :
      (k : ℕ) (v : V) (d : Dict V) → IsDistinct (keys d) → IsDistinct (keys (insert k v d))
  insert-IsDistinct k v [] h = (refl, tt)
  insert-IsDistinct k v ((i, w) ∷ d) h =
      ground (arith, insert-IsDistinct k v d h.1, has-keys_insert i k v d)

  pub length-insert :
      (k : ℕ) (v : V) (d : Dict V)
      → length (insert k v d) ≡ (if has_key k d then length d else suc (length d))
  length-insert k v [] = refl
  length-insert k v ((i, w) ∷ d) = ground (arith, length-insert k v d)
