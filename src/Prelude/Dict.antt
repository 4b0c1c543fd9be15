-- ===== src/Prelude/Dict.antt =====
-- The laws of dictionaries that the components share.
use cartesi_release_validati.Prelude.{
  suc, ◌≡◌, refl, true, false, some, List, [], ◌∷◌, arith, eq_iff, str_eq, String, if◌then◌else◌,
  length, lookup, has_key, insert, remove, HasDistinctKeys,
}

module _ {ℓ} {V : Type ℓ} where
  pub lookup-insert :
      (k j : String) (v : V) (m : List (String × V))
      → lookup j (insert k v m) ≡ (if str_eq k j then some v else lookup j m)
  lookup-insert k j v [] = refl
  lookup-insert k j v ((i, w) ∷ m) =
      ground (arith, eq_iff k j, eq_iff i k, eq_iff i j, lookup-insert k j v m)

  pub has_key-insert :
      (k j : String) (v : V) (m : List (String × V))
      → has_key j (insert k v m) ≡ (if str_eq k j then true else has_key j m)
  has_key-insert k j v [] = ground arith
  has_key-insert k j v ((i, w) ∷ m) =
      ground (arith, eq_iff k j, eq_iff i k, eq_iff i j, has_key-insert k j v m)

  pub length-insert :
      (k : String) (v : V) (m : List (String × V))
      → length (insert k v m) ≡ (if has_key k m then length m else suc (length m))
  length-insert k v [] = refl
  length-insert k v ((i, w) ∷ m) = ground (arith, length-insert k v m)

  pub insert-HasDistinctKeys :
      (k : String) (v : V) (m : List (String × V))
      → HasDistinctKeys m
      → HasDistinctKeys (insert k v m)
  insert-HasDistinctKeys k v [] h = (refl, tt)
  insert-HasDistinctKeys k v ((i, w) ∷ m) h =
      ground
        (arith, eq_iff i k, eq_iff k i, has_key-insert k i v m, insert-HasDistinctKeys k v m h.1)

  pub has_key-remove-ne :
      (k j : String) (m : List (String × V)) → has_key j m ≡ false → has_key j (remove k m) ≡ false
  has_key-remove-ne k j [] h = refl
  has_key-remove-ne k j ((i, w) ∷ m) h = ground (arith, has_key-remove-ne k j m)

  pub remove-HasDistinctKeys :
      (k : String) (m : List (String × V)) → HasDistinctKeys m → HasDistinctKeys (remove k m)
  remove-HasDistinctKeys k [] h = tt
  remove-HasDistinctKeys k ((i, w) ∷ m) h =
      ground (arith, has_key-remove-ne k i m, remove-HasDistinctKeys k m h.1)

  pub length-remove :
      (k : String) (m : List (String × V))
      → (if has_key k m then suc (length (remove k m)) else length (remove k m)) ≡ length m
  length-remove k [] = refl
  length-remove k ((i, w) ∷ m) = ground (arith, length-remove k m)

  pub remove_of_no_key : (k : String) (m : List (String × V)) → has_key k m ≡ false → remove k m ≡ m
  remove_of_no_key k [] h = refl
  remove_of_no_key k ((i, w) ∷ m) h = ground (arith, remove_of_no_key k m)

  pub remove-insert :
      (k : String) (v : V) (m : List (String × V))
      → has_key k m ≡ false
      → remove k (insert k v m) ≡ m
  remove-insert k v [] h = ground (arith, eq_iff k k)
  remove-insert k v ((i, w) ∷ m) h = ground (arith, remove-insert k v m)

  -- Every key is gone after its removal, if it stood there once.
  pub lookup-remove :
      (k j : String) (m : List (String × V))
      → HasDistinctKeys m
      → has_key j (remove k m) ≡ (if str_eq k j then false else has_key j m)
  lookup-remove k j [] h = ground arith
  lookup-remove k j ((i, w) ∷ m) h =
      ground (arith, eq_iff k j, eq_iff i k, eq_iff i j, lookup-remove k j m h.1)
