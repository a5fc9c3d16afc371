-- ===== src/Python/Sets.antt =====
-- Python sets as lists without repetition, and what the run time chooses: the order in which a set
-- is walked, the random numbers, the environment's variables.
use mock_amqp_server.Prelude.{
  ℕ, suc, ◌+◌, ◌≡◌, ◌≤◌, Bool, false, refl, arith, List, [], ◌∷◌, ◌++◌, ◌||◌, KeyType, ◌==◌,
  str_keys, nat_keys, if◌then◌else◌,
}
use mock_amqp_server.Python.Actions.{Str}

module _ {ℓ} {A : Type ℓ} ⦃e : KeyType A⦄ where
  -- `x in s`
  unfoldable pub member : A → List A → Bool
  member x [] = false
  member x (y ∷ ys) = y == x || member x ys

  -- `s.add(x)`
  unfoldable pub add : A → List A → List A
  unfolding member
  add x s = if member x s then s else s ++ (x ∷ [])

  unfoldable pub occurrences : A → List A → ℕ
  occurrences x [] = 0
  occurrences x (y ∷ ys) = let n = occurrences x ys in if y == x then suc n else n

module _ {ℓ} {A : Type ℓ} ⦃e : KeyType A⦄ where
  pub occurrences-append :
      (x : A) (s t : List A) → occurrences x (s ++ t) ≡ occurrences x s + occurrences x t
  unfolding occurrences
  occurrences-append x [] t = omega arith
  occurrences-append x (y ∷ s) t = ground (arith, occurrences-append x s t)

  -- `member` asks whether an element occurs.
  pub occurrences-member : (x : A) (s : List A) → (if member x s then 1 else 0) ≤ occurrences x s
  unfolding occurrences member
  occurrences-member x [] = ground arith
  occurrences-member x (y ∷ s) = ground (arith, occurrences-member x s)

  pub occurrences-absent : (x : A) (s : List A) → member x s ≡ false → occurrences x s ≡ 0
  unfolding occurrences member
  occurrences-absent x [] h = ground arith
  occurrences-absent x (y ∷ s) h = ground (arith, occurrences-absent x s)

  pub member-append : (x : A) (s t : List A) → member x (s ++ t) ≡ (member x s || member x t)
  unfolding member
  member-append x [] t = refl
  member-append x (y ∷ s) t = ground (arith, member-append x s t)

  pub member-add : (x y : A) (s : List A) → member x (add y s) ≡ (y == x || member x s)
  unfolding add member
  member-add x y s = ground (arith, member-append x s (y ∷ []), e.same_iff y x)

  -- `add` adds at most one occurrence, and only of what was not there.
  pub occurrences-add : (x y : A) (s : List A) → occurrences x s ≤ 1 → occurrences x (add y s) ≤ 1
  unfolding add occurrences
  occurrences-add x y s h =
      ground (arith, occurrences-append x s (y ∷ []), occurrences-absent y s, e.same_iff y x)

-- `for x in s` meets each element of the set once, in an order that is not specified.
pub record Runtime : Type 0 where
  pub default_user : Str
  pub default_password : Str
  pub iterate : List Str → List Str
  pub iterate_same : (s : List Str) (x : Str) → occurrences x (iterate s) ≡ occurrences x s
  pub iterate_tags : List ℕ → List ℕ
  pub iterate_tags_same : (s : List ℕ) (x : ℕ) → occurrences x (iterate_tags s) ≡ occurrences x s
  pub randint : ℕ → ℕ
