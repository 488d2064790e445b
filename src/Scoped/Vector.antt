-- ===== src/Scoped/Vector.antt =====
-- dreal/util/scoped_vector.h: a vector with scopes. The front of a list is the first element of the
-- vector; the front of `scopes` is its last.
use dlinear.Base.{
  ℕ, zero, suc, ◌+◌, ◌-◌, ◌≤◌, ◌≡◌, refl, sym, ◌∙◌, ap, ap₂, Option, none, some, List, [], ◌∷◌,
  ◌++◌, length, take, length-append, append-nil, append_assoc, arith,
}

pub record ScopedVector {ℓ} (A : Type ℓ) : Type ℓ where
  pub vector : List A
  pub scopes : List ℕ

module _ {ℓ} {A : Type ℓ} where
  unfoldable pub push_back : A → ScopedVector A → ScopedVector A
  push_back x s = record s { vector = s.vector ++ x ∷ [] }

  unfoldable pub push : ScopedVector A → ScopedVector A
  push s = record s { scopes = length s.vector ∷ s.scopes }

  -- `vector_.pop_back()`.
  unfoldable pub pop_back : List A → List A
  pop_back [] = []
  pop_back (x ∷ []) = []
  pop_back (x ∷ y ∷ xs) = x ∷ pop_back (y ∷ xs)

  -- `while (cur_size-- > prev_size)`, over the number of rounds.
  unfoldable pub pop_back_times : ℕ → List A → List A
  pop_back_times zero xs = xs
  pop_back_times (suc n) xs = pop_back_times n (pop_back xs)

  -- The state after `pop` and the number of elements that it drops.
  unfoldable pub pop : ScopedVector A → Option (ScopedVector A × ℕ)
  unfolding pop_back pop_back_times
  pop s = elim s.scopes [
    | [] ↦ none
    | prev_size ∷ rest ↦
        let count = length s.vector - prev_size in
        some (record { vector = pop_back_times count s.vector; scopes = rest }, count)
  ]

  unfoldable pub push_back_all : List A → ScopedVector A → ScopedVector A
  unfolding push_back
  push_back_all [] s = s
  push_back_all (x ∷ xs) s = push_back_all xs (push_back x s)

  length-pop_back : (xs : List A) → length (pop_back xs) ≡ length xs - 1
  unfolding pop_back
  length-pop_back [] = omega arith
  length-pop_back (x ∷ []) = omega arith
  length-pop_back (x ∷ y ∷ xs) = omega (arith, length-pop_back (y ∷ xs))

  pop_back-append : (xs : List A) (x : A) → pop_back (xs ++ x ∷ []) ≡ xs
  unfolding pop_back
  pop_back-append [] x = refl
  pop_back-append (y ∷ []) x = refl
  pop_back-append (y ∷ z ∷ xs) x = ap (λ l. y ∷ l) (pop_back-append (z ∷ xs) x)

  take-pop_back :
      (n : ℕ) (xs : List A) → n ≤ length xs → suc n ≤ length xs → take n (pop_back xs) ≡ take n xs
  unfolding pop_back
  take-pop_back zero xs h k = refl
  take-pop_back (suc n) [] h k = refl
  take-pop_back (suc n) (x ∷ []) h k = absurd (omega arith)
  take-pop_back (suc n) (x ∷ y ∷ xs) h k =
      ap (λ l. x ∷ l) (take-pop_back n (y ∷ xs) (omega arith) (omega arith))

  take-length : (n : ℕ) (xs : List A) → length xs ≡ n → take n xs ≡ xs
  take-length zero [] h = refl
  take-length zero (x ∷ xs) h = absurd (omega arith)
  take-length (suc n) [] h = refl
  take-length (suc n) (x ∷ xs) h = ap (λ l. x ∷ l) (take-length n xs (omega arith))

  -- Dropping from the back keeps the front.
  pop_back_times-take :
      (n k : ℕ) (xs : List A) → length xs ≡ n + k → pop_back_times k xs ≡ take n xs
  unfolding pop_back_times
  pop_back_times-take n zero xs h = sym (take-length n xs (omega arith))
  pop_back_times-take n (suc k) xs h =
      pop_back_times-take n k (pop_back xs) (omega (arith, length-pop_back xs))
      ∙ take-pop_back n xs (omega arith) (omega arith)

  take-append : (xs ys : List A) → take (length xs) (xs ++ ys) ≡ xs
  take-append [] ys = refl
  take-append (x ∷ xs) ys = ap (λ l. x ∷ l) (take-append xs ys)

  push_back_all_lem :
      (xs : List A) (s : ScopedVector A) → push_back_all xs s ≡ record s { vector = s.vector ++ xs }
  unfolding push_back_all push_back
  push_back_all_lem [] s = ap (λ l. record s { vector = l }) (sym (append-nil s.vector))
  push_back_all_lem (x ∷ xs) s =
      push_back_all_lem xs (push_back x s)
      ∙ ap (λ l. record s { vector = l }) (append_assoc s.vector (x ∷ []) xs)

  -- With a scope at `n`, within the vector, `pop` leaves its first `n` elements and the scopes
  -- before, and reports how many it dropped.
  pub pop_lem :
      (xs : List A) (n : ℕ) (rest : List ℕ)
      → n ≤ length xs
      → pop (record { vector = xs; scopes = n ∷ rest })
        ≡ some (record { vector = take n xs; scopes = rest }, length xs - n)
  unfolding pop
  pop_lem xs n rest h =
      ap (λ l. some (record { vector = l; scopes = rest }, length xs - n))
        (pop_back_times-take n (length xs - n) xs (omega arith))

  -- Whatever is pushed back after `push`, `pop` restores the vector and reports how much it
  -- dropped.
  pub pop-push_back_all-push :
      (xs : List A) (s : ScopedVector A) → pop (push_back_all xs (push s)) ≡ some (s, length xs)
  unfolding push
  pop-push_back_all-push xs s =
      let all = length-append s.vector xs in
      ap pop (push_back_all_lem xs (push s))
      ∙ (pop_lem (s.vector ++ xs) (length s.vector) s.scopes (omega (arith, all))
          ∙ ap₂ (λ l n. some (record { vector = l; scopes = s.scopes }, n))
              (take-append s.vector xs) (omega (arith, all)))
