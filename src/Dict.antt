-- ===== src/Dict.antt =====
-- A Python dictionary: keys in the order of insertion, one entry for each key.
use mock_amqp_server.Prelude.{
  ◌≡◌, refl, Bool, true, false, Option, none, some, List, [], ◌∷◌, arith, ◌||◌, KeyType, ◌==◌,
  if◌then◌else◌,
}

abbrev pub Dict {ℓ κ} : Type ℓ → Type κ → Type (ℓ ⊔ κ)
Dict K V = List (K × V)

module _ {ℓ κ} {K : Type ℓ} {V : Type κ} ⦃e : KeyType K⦄ where
  -- `d.get(k, None)`
  unfoldable pub get : K → Dict K V → Option V
  get k [] = none
  get k ((j, v) ∷ d) = if j == k then some v else get k d

  -- `d[k] = v`
  unfoldable pub put : K → V → Dict K V → Dict K V
  put k v [] = (k, v) ∷ []
  put k v ((j, w) ∷ d) = if j == k then (j, v) ∷ d else (j, w) ∷ put k v d

  -- `del d[k]`
  unfoldable pub remove : K → Dict K V → Dict K V
  remove k [] = []
  remove k ((j, w) ∷ d) = let rest = remove k d in if j == k then rest else (j, w) ∷ rest

  -- `k in d`
  abbrev pub contains : K → Dict K V → Bool
  contains k d = elim (get k d) [ none ↦ false | some v ↦ true ]

  pub get-put :
      (k j : K) (v : V) (d : Dict K V) → get j (put k v d) ≡ (if k == j then some v else get j d)
  unfolding get put
  get-put k j v [] = refl
  get-put k j v ((i, w) ∷ d) =
      ground (arith, e.same_iff k j, e.same_iff i k, e.same_iff i j, get-put k j v d)

  pub get-remove :
      (k j : K) (d : Dict K V) → get j (remove k d) ≡ (if k == j then none else get j d)
  unfolding get remove
  get-remove k j [] = ground arith
  get-remove k j ((i, w) ∷ d) =
      ground (arith, e.same_iff k j, e.same_iff i k, e.same_iff i j, get-remove k j d)

module _ {ℓ κ} {K : Type ℓ} {V : Type κ} ⦃e : KeyType K⦄ where
  pub contains-put :
      (k j : K) (v : V) (d : Dict K V) → contains j (put k v d) ≡ (k == j || contains j d)
  contains-put k j v d = ground (arith, get-put k j v d)

  -- A write to a key that is there leaves the keys as they are.
  pub contains-put_same :
      (k j : K) (v w : V) (d : Dict K V) → get k d ≡ some w → contains j (put k v d) ≡ contains j d
  contains-put_same k j v w d h = ground (arith, get-put k j v d, e.same_iff k j)

module _ {ℓ κ} {K : Type ℓ} ⦃e : KeyType K⦄ where
  pub get-empty : {V : Type κ} (k : K) → get {V = V} k [] ≡ none
  unfolding get
  get-empty k = refl

module _ {ℓ} {K : Type ℓ} ⦃e : KeyType K⦄ where
  pub eq_refl : (k : K) → (k == k) ≡ true
  eq_refl k = (e.same_iff k k).1 refl
