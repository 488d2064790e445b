-- ===== src/Scoped/Table.antt =====
-- dreal/util/scoped_unordered_map.h: a map that records what is done to it. The front of `actions`
-- and of `stack` is their last element; the hash map is an association list.
use dlinear.Base.{
  ℕ, zero, suc, ◌-◌, ◌≤◌, Bool, true, ◌≡◌, ◌↔◌, refl, ◌∙◌, ap, Option, none, some, List, [], ◌∷◌,
  length, if◌then◌else◌, Option-cases, inl, inr, arith,
}

pub data Action (K V : Type 0) : Type 0 where
  inserted : K → V → Action K V
  updated : K → V → Action K V

pub record ScopedMap (K V : Type 0) : Type 0 where
  pub actions : List (Action K V)
  pub stack : List ℕ
  pub map : List (K × V)

module _ {K V : Type 0} (same : K → K → Bool) where
  unfoldable pub find : K → List (K × V) → Option V
  find k [] = none
  find k ((j, v) ∷ m) = if same k j then some v else find k m

  unfoldable pub erase : K → List (K × V) → List (K × V)
  erase k [] = []
  erase k ((j, v) ∷ m) = if same k j then m else (j, v) ∷ erase k m

  -- `it->second = v`.
  unfoldable pub replace : K → V → List (K × V) → List (K × V)
  replace k v [] = []
  replace k v ((j, w) ∷ m) = if same k j then (j, v) ∷ m else (j, w) ∷ replace k v m

  unfoldable pub insert : K → V → ScopedMap K V → ScopedMap K V
  insert k v s = elim (find k s.map) [
    | none ↦ record s { actions = inserted k v ∷ s.actions; map = (k, v) ∷ s.map }
    | some old ↦ record s { actions = updated k old ∷ s.actions; map = replace k v s.map }
  ]

  -- `operator[]`, which throws where the key is missing.
  unfoldable pub at : ScopedMap K V → K → Option V
  unfolding find
  at s k = find k s.map

  unfoldable pub push : ScopedMap K V → ScopedMap K V
  push s = record s { stack = length s.actions ∷ s.stack }

  unfoldable pub undo : Action K V → List (K × V) → List (K × V)
  unfolding erase replace
  undo (inserted k v) m = erase k m
  undo (updated k v) m = replace k v m

  -- One round of the loop of `pop`.
  unfoldable pub undo_last : ScopedMap K V → ScopedMap K V
  unfolding undo
  undo_last s = elim s.actions [
    | [] ↦ s
    | a ∷ rest ↦ record s { actions = rest; map = undo a s.map }
  ]

  unfoldable pub undo_times : ℕ → ScopedMap K V → ScopedMap K V
  undo_times zero s = s
  undo_times (suc n) s = undo_times n (undo_last s)

  unfoldable pub pop : ScopedMap K V → Option (ScopedMap K V)
  unfolding undo_times undo_last
  pop s = elim s.stack [
    | [] ↦ none
    | idx ∷ rest ↦ some (record (undo_times (length s.actions - idx) s) { stack = rest })
  ]

  unfoldable pub insert_all : List (K × V) → ScopedMap K V → ScopedMap K V
  unfolding insert
  insert_all [] s = s
  insert_all ((k, v) ∷ l) s = insert_all l (insert k v s)

module _ {K V : Type 0} (same : K → K → Bool)
    (same_iff : (j k : K) → (same j k ≡ true) ↔ (j ≡ k)) where
  erase-cons : (k : K) (v : V) (m : List (K × V)) → erase same k ((k, v) ∷ m) ≡ m
  unfolding erase
  erase-cons k v m = rw ((same_iff k k).1 refl)

  -- Writing a value and then the old one again.
  replace-replace :
      (k : K) (v old : V) (m : List (K × V))
      → find same k m ≡ some old
      → replace same k old (replace same k v m) ≡ m
  unfolding find replace
  replace-replace k v old [] h = cc
  replace-replace k v old ((j, w) ∷ m) h = ground (arith, replace-replace k v old m)

  undo_last-insert : (k : K) (v : V) (s : ScopedMap K V) → undo_last same (insert same k v s) ≡ s
  unfolding undo_last insert
  undo_last-insert k v s = elim (Option-cases (find same k s.map)) [
    | inl e ↦ rw (e, insert) (ap (λ m. record s { map = m }) (erase-cons k v s.map))
    | inr (old, e) ↦
        rw (e, insert) (ap (λ m. record s { map = m }) (replace-replace k v old s.map e))
  ]

  length-insert :
      (k : K) (v : V) (s : ScopedMap K V)
      → length (insert same k v s).actions ≡ suc (length s.actions)
  unfolding insert
  length-insert k v s = ground arith

  undo_times-insert_all :
      (l : List (K × V)) (s : ScopedMap K V) (idx : ℕ)
      → idx ≤ length s.actions
      → undo_times same (length (insert_all same l s).actions - idx) (insert_all same l s)
        ≡ undo_times same (length s.actions - idx) s
  unfolding insert_all
  undo_times-insert_all [] s idx h = refl
  undo_times-insert_all ((k, v) ∷ l) s idx h =
      let grown = length-insert k v s in
      undo_times-insert_all l (insert same k v s) idx (omega (arith, grown))
      ∙ (ap (λ n. undo_times same n (insert same k v s))
            (let e : length (insert same k v s).actions - idx ≡ suc (length s.actions - idx) =
                omega (arith, grown) in
              e)
          ∙ unfold undo_times in
            ap (undo_times same (length s.actions - idx)) (undo_last-insert k v s))

  stack-insert_all : (l : List (K × V)) (s : ScopedMap K V) → (insert_all same l s).stack ≡ s.stack
  unfolding insert_all insert
  stack-insert_all [] s = refl
  stack-insert_all ((k, v) ∷ l) s = stack-insert_all l (insert same k v s) ∙ ground arith

  pop_at :
      (s : ScopedMap K V) (idx : ℕ) (rest : List ℕ)
      → s.stack ≡ idx ∷ rest
      → pop same s ≡ some (record (undo_times same (length s.actions - idx) s) { stack = rest })
  unfolding pop
  pop_at s idx rest e = simp (e, pop)

  undo_times_none :
      (s : ScopedMap K V) → undo_times same (length s.actions - length s.actions) s ≡ s
  unfolding undo_times
  undo_times_none s =
      let e : length s.actions - length s.actions ≡ 0 = omega arith in
      ap (λ n. undo_times same n s) e

  -- Whatever is inserted after `push`, over keys old and new, `pop` restores the container: its
  -- map, its record of actions and its scopes; `same` decides equality of keys.
  pub pop-insert_all-push :
      (l : List (K × V)) (s : ScopedMap K V) → pop same (insert_all same l (push same s)) ≡ some s
  unfolding push
  pop-insert_all-push l s =
      pop_at (insert_all same l (push same s)) (length s.actions) s.stack
        (stack-insert_all l (push same s))
      ∙ ap {A = ScopedMap K V} (λ t. some (record t { stack = s.stack }))
          (undo_times-insert_all l (push same s) (length s.actions) (omega arith)
            ∙ undo_times_none (push same s))

  find-replace :
      (j k : K) (v : V) (m : List (K × V)) (old : V)
      → find same k m ≡ some old
      → find same j (replace same k v m) ≡ (if same j k then some v else find same j m)
  unfolding find replace
  find-replace j k v [] old h = cc
  find-replace j k v ((i, w) ∷ m) old h =
      ground (arith, find-replace j k v m old, same_iff j k, same_iff k i, same_iff j i)

  -- After an insertion its key reads the value inserted, and every other key what it read before;
  -- `same` decides equality of keys.
  pub at-insert :
      (j k : K) (v : V) (s : ScopedMap K V)
      → at same (insert same k v s) j ≡ (if same j k then some v else at same s j)
  unfolding at insert
  at-insert j k v s = elim (Option-cases (find same k s.map)) [
    | inl e ↦ rw (e, insert) (unfold find in refl)
    | inr (old, e) ↦ rw (e, insert) (find-replace j k v s.map old e)
  ]
