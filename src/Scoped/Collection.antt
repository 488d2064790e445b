-- ===== src/Scoped/Collection.antt =====
-- dreal/util/scoped_unordered_set.h: a set that records what is inserted into it. The front of
-- `actions` and of `stack` is their last element.
use dlinear.Base.{
  ℕ, zero, suc, ◌-◌, ◌≤◌, Bool, true, false, ◌≡◌, ◌↔◌, refl, ◌∙◌, ap, Option, none, some, List, [],
  ◌∷◌, ◌||◌, length, if◌then◌else◌, Bool-cases, inl, inr, arith,
}

-- The only kind of action is an insertion of the key.
pub record ScopedSet (K : Type 0) : Type 0 where
  pub actions : List K
  pub stack : List ℕ
  pub set : List K

module _ {K : Type 0} (same : K → K → Bool) where
  unfoldable pub contains : K → List K → Bool
  contains k [] = false
  contains k (j ∷ m) = same k j || contains k m

  unfoldable pub erase : K → List K → List K
  erase k [] = []
  erase k (j ∷ m) = if same k j then m else j ∷ erase k m

  unfoldable pub insert : K → ScopedSet K → ScopedSet K
  insert k s = if contains k s.set then s else record s { actions = k ∷ s.actions; set = k ∷ s.set }

  unfoldable pub count : ScopedSet K → K → ℕ
  unfolding contains
  count s k = if contains k s.set then 1 else 0

  unfoldable pub push : ScopedSet K → ScopedSet K
  push s = record s { stack = length s.actions ∷ s.stack }

  -- One round of the loop of `pop`.
  unfoldable pub undo_last : ScopedSet K → ScopedSet K
  unfolding erase
  undo_last s = elim s.actions [
    | [] ↦ s
    | k ∷ rest ↦ record s { actions = rest; set = erase k s.set }
  ]

  unfoldable pub undo_times : ℕ → ScopedSet K → ScopedSet K
  undo_times zero s = s
  undo_times (suc n) s = undo_times n (undo_last s)

  unfoldable pub pop : ScopedSet K → Option (ScopedSet K)
  unfolding undo_times undo_last
  pop s = elim s.stack [
    | [] ↦ none
    | idx ∷ rest ↦ some (record (undo_times (length s.actions - idx) s) { stack = rest })
  ]

  unfoldable pub insert_all : List K → ScopedSet K → ScopedSet K
  unfolding insert
  insert_all [] s = s
  insert_all (k ∷ l) s = insert_all l (insert k s)

module _ {K : Type 0} (same : K → K → Bool)
    (same_iff : (j k : K) → (same j k ≡ true) ↔ (j ≡ k)) where
  erase-cons : (k : K) (m : List K) → erase same k (k ∷ m) ≡ m
  unfolding erase
  erase-cons k m = rw ((same_iff k k).1 refl)

  insert_old : (k : K) (s : ScopedSet K) → contains same k s.set ≡ true → insert same k s ≡ s
  unfolding insert
  insert_old k s e = rw (e, insert)

  undo_last-insert :
      (k : K) (s : ScopedSet K)
      → contains same k s.set ≡ false
      → undo_last same (insert same k s) ≡ s
  unfolding undo_last insert
  undo_last-insert k s e = rw (e, insert) (ap (λ m. record s { set = m }) (erase-cons k s.set))

  length-insert :
      (k : K) (s : ScopedSet K)
      → contains same k s.set ≡ false
      → length (insert same k s).actions ≡ suc (length s.actions)
  unfolding insert
  length-insert k s e = ground arith

  length-insert-le : (k : K) (s : ScopedSet K) → length s.actions ≤ length (insert same k s).actions
  unfolding insert
  length-insert-le k s = ground arith

  undo_times-insert :
      (k : K) (s : ScopedSet K) (idx : ℕ)
      → idx ≤ length s.actions
      → undo_times same (length (insert same k s).actions - idx) (insert same k s)
        ≡ undo_times same (length s.actions - idx) s
  unfolding undo_times
  undo_times-insert k s idx h = elim (Bool-cases (contains same k s.set)) [
    | inl old ↦ rw (insert_old k s old)
    | inr new ↦
        let e : length (insert same k s).actions - idx ≡ suc (length s.actions - idx) =
          omega (arith, length-insert k s new) in
        ap (λ n. undo_times same n (insert same k s)) e
        ∙ ap (undo_times same (length s.actions - idx)) (undo_last-insert k s new)
  ]

  undo_times-insert_all :
      (l : List K) (s : ScopedSet K) (idx : ℕ)
      → idx ≤ length s.actions
      → undo_times same (length (insert_all same l s).actions - idx) (insert_all same l s)
        ≡ undo_times same (length s.actions - idx) s
  unfolding insert_all
  undo_times-insert_all [] s idx h = refl
  undo_times-insert_all (k ∷ l) s idx h =
      undo_times-insert_all l (insert same k s) idx (omega (arith, length-insert-le k s))
      ∙ undo_times-insert k s idx h

  stack-insert_all : (l : List K) (s : ScopedSet K) → (insert_all same l s).stack ≡ s.stack
  unfolding insert_all insert
  stack-insert_all [] s = refl
  stack-insert_all (k ∷ l) s = stack-insert_all l (insert same k s) ∙ ground arith

  pop_at :
      (s : ScopedSet K) (idx : ℕ) (rest : List ℕ)
      → s.stack ≡ idx ∷ rest
      → pop same s ≡ some (record (undo_times same (length s.actions - idx) s) { stack = rest })
  unfolding pop
  pop_at s idx rest e = simp (e, pop)

  undo_times_none : (s : ScopedSet K) → undo_times same (length s.actions - length s.actions) s ≡ s
  unfolding undo_times
  undo_times_none s =
      let e : length s.actions - length s.actions ≡ 0 = omega arith in
      ap (λ n. undo_times same n s) e

  -- Whatever is inserted after `push`, `pop` restores the container: its set, its record of actions
  -- and its scopes; `same` decides equality of keys.
  pub pop_restores :
      (l : List K) (s : ScopedSet K) → pop same (insert_all same l (push same s)) ≡ some s
  unfolding push
  pop_restores l s =
      pop_at (insert_all same l (push same s)) (length s.actions) s.stack
        (stack-insert_all l (push same s))
      ∙ ap {A = ScopedSet K} (λ t. some (record t { stack = s.stack }))
          (undo_times-insert_all l (push same s) (length s.actions) (omega arith)
            ∙ undo_times_none (push same s))
