-- ===== src/TseitinCnfizer/Keys.antt =====
-- The map of definitions: its keys, and what an entry that is added says.
use dlinear.Base.{
  ℕ, ◌+◌, ◌≤◌, ◌<◌, Bool, true, false, ◌&&◌, ◌≡◌, refl, List, [], ◌∷◌, ltb, ◌==◌, All, All-imp,
  Bool-cases, inl, inr, arith,
}
use dlinear.Symbolic.Syntax.{
  Variable, Formula, Formulas, bot, top, prop, eq, neq, gt, geq, lt, leq, conj, disj, neg, forall,
  nil, cons,
}
use dlinear.Symbolic.Meaning.{Structure, Env, holds}
use dlinear.Symbolic.Kinds.{get_clauses, is_atomic}
use dlinear.Symbolic.Library.{Library, insert}
use dlinear.TseitinCnfizer.{State, fresh, emplace, quantify_all, visit_forall, visit, visit_all}
use dlinear.TseitinCnfizer.Clauses.{iff_bool, defined}

module _ {Q : Type 0} where
  -- Every key satisfies `P` and lies below `hi`.
  abbrev pub KeysIn : (ℕ → Type 0) → ℕ → List (Variable × Formula Q) → Type 0
  KeysIn P hi m = All (λ e. P e.0.id × (e.0.id < hi)) m

  abbrev pub NoKey : ℕ → List (Variable × Formula Q) → Type 0
  NoKey i m = All (λ e. (i == e.0.id) ≡ false) m

  -- The keys so far lie below the counter.
  abbrev pub IsBelow : State Q → Type 0
  IsBelow s = KeysIn (λ _. Unit) s.next s.map

  pub KeysIn-le :
      (P : ℕ → Type 0) (hi hi' : ℕ) (m : List (Variable × Formula Q))
      → hi ≤ hi'
      → KeysIn P hi m
      → KeysIn P hi' m
  KeysIn-le P hi hi' m l h = All-imp (λ e (a, b). (a, omega (arith, l, b))) m h

  pub NoKey-next : (s : State Q) → IsBelow s → NoKey s.next s.map
  NoKey-next s h = All-imp (λ e (a, b). ground (arith, b)) s.map h

  pub All-emplace :
      (P : Variable × Formula Q → Type 0) (b : Variable) (f : Formula Q)
      (m : List (Variable × Formula Q))
      → All P m
      → P (b, f)
      → All P (emplace b f m)
  unfolding emplace
  All-emplace P b f [] h p = (p, tt)
  All-emplace P b f ((c, g) ∷ m) h p = elim (Bool-cases (ltb b.id c.id)) [
    | inl lower ↦ rw lower (p, h)
    | inr e ↦ elim (Bool-cases (ltb c.id b.id)) [
      | inl higher ↦ rw (e, higher) (h.0, All-emplace P b f m h.1 p)
      | inr same ↦ rw (e, same) h
    ]
  ]

module _ {Q : Type 0} (S : Structure Q) (env : Env Q) where
  -- Every variable is as true as its definition.
  abbrev pub consistent : List (Variable × Formula Q) → Bool
  consistent [] = true
  consistent ((b, f) ∷ m) = iff_bool S (env.truth b.id) (holds S env f) && consistent m

  pub consistent-emplace :
      (b : Variable) (f : Formula Q) (m : List (Variable × Formula Q))
      → NoKey b.id m
      → consistent (emplace b f m) ≡ (consistent m && iff_bool S (env.truth b.id) (holds S env f))
  unfolding emplace
  consistent-emplace b f [] h = ground arith
  consistent-emplace b f ((c, g) ∷ m) h = ground (arith, consistent-emplace b f m h.1, h.0)

  defined-other :
      (b : Variable) (m : List (Variable × Formula Q))
      → NoKey b.id m
      → defined S env b m ≡ consistent m
  defined-other b [] h = refl
  defined-other b ((c, g) ∷ m) h = ground (arith, defined-other b m h.1, h.0)

  pub defined-emplace :
      (b : Variable) (f : Formula Q) (m : List (Variable × Formula Q))
      → NoKey b.id m
      → defined S env b (emplace b f m) ≡ (consistent m && holds S env f)
  unfolding emplace
  defined-emplace b f [] h = ground arith
  defined-emplace b f ((c, g) ∷ m) h =
      ground (arith, defined-emplace b f m h.1, defined-other b m h.1, h.0)

module _ {Q : Type 0} (L : Library Q) (naive : Formula Q → Formula Q) (P : ℕ → Type 0) (lo : ℕ)
    (all_above : (k : ℕ) → lo ≤ k → P k) where
  abbrev pub Grown : State Q → State Q → Type 0
  Grown s s' = (s.next ≤ s'.next) × KeysIn P s'.next s'.map

  declared :
      (g : Formula Q) (n : ℕ) (m : List (Variable × Formula Q))
      → lo ≤ n
      → KeysIn P n m
      → KeysIn P (n + 1) (emplace (fresh n) g m)
  declared g n m l h =
      All-emplace _ (fresh n) g m (KeysIn-le P n (n + 1) m (omega arith) h)
        (all_above _ l, omega arith)

  visit_forall-Keys :
      (cs : Formulas Q) (s : State Q)
      → lo ≤ s.next
      → KeysIn P s.next s.map
      → Grown s (visit_forall L naive cs s).1
  visit_forall-Keys nil s l h = (omega arith, declared _ s.next s.map l h)
  visit_forall-Keys (cons c nil) s l h = (omega arith, h)
  visit_forall-Keys (cons c (cons d ds)) s l h = (omega arith, declared _ s.next s.map l h)

  mutual
    unfolding visit

    pub visit-Keys :
        (f : Formula Q) (s : State Q)
        → lo ≤ s.next
        → KeysIn P s.next s.map
        → Grown s (visit L naive f s).1
    visit-Keys bot s l h = (omega arith, h)
    visit-Keys top s l h = (omega arith, h)
    visit-Keys (prop v) s l h = (omega arith, h)
    visit-Keys (eq d e) s l h = (omega arith, h)
    visit-Keys (neq d e) s l h = (omega arith, h)
    visit-Keys (gt d e) s l h = (omega arith, h)
    visit-Keys (geq d e) s l h = (omega arith, h)
    visit-Keys (lt d e) s l h = (omega arith, h)
    visit-Keys (leq d e) s l h = (omega arith, h)
    visit-Keys (conj fs) s l h =
        let s' = (visit_all L naive fs nil s).1 in
        let (grown, keys) = visit_all-Keys fs nil s l h in
        (omega arith, declared _ s'.next s'.map (omega arith) keys)
    visit-Keys (disj fs) s l h =
        let s' = (visit_all L naive fs nil s).1 in
        let (grown, keys) = visit_all-Keys fs nil s l h in
        (omega arith, declared _ s'.next s'.map (omega arith) keys)
    visit-Keys (neg f) s l h = elim (Bool-cases (is_atomic f)) [
      | inl atom ↦ rw atom (omega arith, h)
      | inr deep ↦
          let s1 : State Q = record s { next = s.next + 1 } in
          let s' = (visit L naive f s1).1 in
          let (grown, keys) =
            visit-Keys f s1 (omega arith) (KeysIn-le P s.next (s.next + 1) s.map (omega arith) h) in
          rw deep
            (omega arith, All-emplace _ (fresh s.next) _ s'.map keys (all_above _ l, omega arith))
    ]
    visit-Keys (forall vs f) s l h =
        visit_forall-Keys (quantify_all L vs (get_clauses (naive f)) nil) s l h

    pub visit_all-Keys :
        (fs r : Formulas Q) (s : State Q)
        → lo ≤ s.next
        → KeysIn P s.next s.map
        → Grown s (visit_all L naive fs r s).1
    visit_all-Keys nil r s l h = (omega arith, h)
    visit_all-Keys (cons f fs) r s l h =
        let (g, s') = visit L naive f s in
        let (grown, keys) = visit-Keys f s l h in
        let (grown', keys') = visit_all-Keys fs (insert L g r) s' (omega arith) keys in
        (omega arith, keys')

module _ {Q : Type 0} (L : Library Q) (naive : Formula Q → Formula Q) where
  pub visit-IsBelow :
      (f : Formula Q) (s : State Q)
      → IsBelow s
      → (s.next ≤ (visit L naive f s).1.next) × IsBelow (visit L naive f s).1
  visit-IsBelow f s h = visit-Keys L naive (λ _. Unit) 0 (λ k _. tt) f s (omega arith) h

  pub visit_all-IsBelow :
      (fs r : Formulas Q) (s : State Q)
      → IsBelow s
      → (s.next ≤ (visit_all L naive fs r s).1.next) × IsBelow (visit_all L naive fs r s).1
  visit_all-IsBelow fs r s h =
      visit_all-Keys L naive (λ _. Unit) 0 (λ k _. tt) fs r s (omega arith) h

  -- What is visited after a variable is taken does not define it.
  pub visit-NoKey :
      (f : Formula Q) (s : State Q)
      → IsBelow s
      → NoKey s.next (visit L naive f (record s { next = s.next + 1 })).1.map
  visit-NoKey f s h =
      let s1 : State Q = record s { next = s.next + 1 } in
      let Other = λ (k : ℕ). (s.next == k) ≡ false in
      let start : KeysIn Other (s.next + 1) s.map =
        All-imp (λ e (a, b). (ground (arith, b), omega (arith, b))) s.map h in
      let (_, keys) =
        visit-Keys L naive Other (s.next + 1) (λ k l. ground (arith, l)) f s1 (omega arith) start in
      All-imp (λ e (a, b). a) (visit L naive f s1).1.map keys
