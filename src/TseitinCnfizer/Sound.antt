-- ===== src/TseitinCnfizer/Sound.antt =====
-- A model of the clauses is a model of the formula.
use dlinear.Base.{
  ℕ, ◌+◌, Bool, true, false, not, ◌&&◌, ◌||◌, ◌≡◌, refl, sym, ◌∙◌, ap, subst, some, List, [], ◌∷◌,
  if◌then◌else◌, Bool-cases, inl, inr, arith,
}
use dlinear.Symbolic.Syntax.{
  Variable, Variables, Formula, Formulas, bot, top, prop, eq, neq, gt, geq, lt, leq, conj, disj,
  neg, forall, nil, cons,
}
use dlinear.Symbolic.Meaning.{Structure, Env, holds, all_hold, some_holds, for_all}
use dlinear.Symbolic.Kinds.{get_clauses, is_atomic}
use dlinear.Symbolic.Fits.{Ascending, Fits, AllFit}
use dlinear.Symbolic.Library.{Library, IsSound, insert}
use dlinear.Symbolic.Quantifier.{for_all-cong}
use dlinear.Nnfizer.Laws.{all_hold-insert, some_holds-insert}
use dlinear.PlaistedGreenbaum.Sound.{all_hold-get_clauses, get_clauses-AllFit}
use dlinear.TseitinCnfizer.{
  State, fresh, emplace, record_definition, quantify_all, visit_forall, visit, visit_all,
  clauses_of, convert,
}
use dlinear.Symbolic.Satisfy.{satisfies}
use dlinear.TseitinCnfizer.Clauses.{defined, satisfies-collect}
use dlinear.TseitinCnfizer.Keys.{
  NoKey, IsBelow, KeysIn-le, NoKey-next, visit-IsBelow, visit_all-IsBelow, visit-NoKey, consistent,
  consistent-emplace, defined-emplace,
}
use dlinear.TseitinCnfizer.Quantified.{all_hold-quantify_all}

module _ {Q : Type 0} {S : Structure Q} {L : Library Q} (law : IsSound S L)
    (naive : Formula Q → Formula Q)
    (holds-naive : (env : Env Q) (f : Formula Q) → holds S env (naive f) ≡ holds S env f)
    (naive-Fits : (n : ℕ) (f : Formula Q) → Fits n f → Fits n (naive f)) (n : ℕ) (env : Env Q) where
  -- The clauses that stand for a quantified formula.
  pub all_hold-quantified :
      (vs : Variables) (f : Formula Q)
      → Ascending vs
      → Fits n f
      → all_hold S env (quantify_all L vs (get_clauses (naive f)) nil)
        ≡ for_all S vs (λ e. holds S e f) env
  unfolding holds
  all_hold-quantified vs f asc w =
      let cs = get_clauses (naive f) in
      all_hold-quantify_all law env vs cs nil n (get_clauses-AllFit n (naive f) (naive-Fits n f w))
        asc
      ∙ for_all-cong S vs _ _ env (λ e _. all_hold-get_clauses S (naive f) e ∙ holds-naive e f)

  -- An entry that is added, where the definition means `t`.
  entry :
      (b : Variable) (g : Formula Q) (m : List (Variable × Formula Q)) (t : Bool)
      → NoKey b.id m
      → (consistent S env m ≡ true → holds S env g ≡ t)
      → consistent S env (emplace b g m) ≡ true
      → (env.truth b.id ≡ t) × (consistent S env m ≡ true)
  entry b g m t far means h =
      let e = consistent-emplace S env b g m far in
      let old : consistent S env m ≡ true = ground (arith) in
      let same = means old in (ground (arith), old)

  visit_forall_sound :
      (cs : Formulas Q) (s : State Q) (t : Bool)
      → IsBelow s
      → all_hold S env cs ≡ t
      → consistent S env (visit_forall L naive cs s).1.map ≡ true
      → (holds S env (visit_forall L naive cs s).0 ≡ t) × (consistent S env s.map ≡ true)
  unfolding holds
  visit_forall_sound nil s t keys h e =
      entry (fresh s.next) _ s.map t (NoKey-next s keys)
        (λ _. law.holds-make_conjunction env nil ∙ h) e
  visit_forall_sound (cons c nil) s t keys h e = (ground (arith), e)
  visit_forall_sound (cons c (cons d ds)) s t keys h e =
      entry (fresh s.next) _ s.map t (NoKey-next s keys)
        (λ _. law.holds-make_conjunction env (cons c (cons d ds)) ∙ h) e

  -- The two results of a negation.
  abbrev chosen : Bool → Formula Q → Formula Q → State Q → State Q → Formula Q × State Q
  chosen atom g f s s' =
      if atom then (neg f, s) else (prop (fresh s.next), record_definition L (fresh s.next) g s')

  mutual
    unfolding visit holds Fits

    pub visit_sound :
        (f : Formula Q) (s : State Q)
        → Fits n f
        → IsBelow s
        → consistent S env (visit L naive f s).1.map ≡ true
        → (holds S env (visit L naive f s).0 ≡ holds S env f) × (consistent S env s.map ≡ true)
    visit_sound bot s w keys h = (refl, h)
    visit_sound top s w keys h = (refl, h)
    visit_sound (prop v) s w keys h = (refl, h)
    visit_sound (eq d e) s w keys h = (refl, h)
    visit_sound (neq d e) s w keys h = (refl, h)
    visit_sound (gt d e) s w keys h = (refl, h)
    visit_sound (geq d e) s w keys h = (refl, h)
    visit_sound (lt d e) s w keys h = (refl, h)
    visit_sound (leq d e) s w keys h = (refl, h)
    visit_sound (conj fs) s w keys h =
        let (ops, s') = visit_all L naive fs nil s in
        let far = NoKey-next s' (visit_all-IsBelow L naive fs nil s keys).1 in
        let (now, old) =
          entry (fresh s'.next) (L.make_conjunction ops) s'.map (all_hold S env fs) far
            (λ c. law.holds-make_conjunction env ops ∙ (visit_all_sound fs nil s w keys c).0) h in
        (now, (visit_all_sound fs nil s w keys old).2)
    visit_sound (disj fs) s w keys h =
        let (ops, s') = visit_all L naive fs nil s in
        let far = NoKey-next s' (visit_all-IsBelow L naive fs nil s keys).1 in
        let (now, old) =
          entry (fresh s'.next) (L.make_disjunction ops) s'.map (some_holds S env fs) far
            (λ c. law.holds-make_disjunction env ops ∙ (visit_all_sound fs nil s w keys c).1) h in
        (now, (visit_all_sound fs nil s w keys old).2)
    visit_sound (neg f) s w keys h = elim (Bool-cases (is_atomic f)) [
      | inl atom ↦ ground (arith)
      | inr deep ↦
          let s1 : State Q = record s { next = s.next + 1 } in
          let (g, s') = visit L naive f s1 in
          let t = not (holds S env f) in
          let h' : consistent S env (emplace (fresh s.next) (L.negate g) s'.map) ≡ true =
            subst (λ a. consistent S env (chosen a (L.negate g) f s s').1.map ≡ true) deep h in
          let keys' = KeysIn-le _ s.next (s.next + 1) s.map (omega arith) keys in
          let (now, mid) =
            entry (fresh s.next) (L.negate g) s'.map t (visit-NoKey L naive f s keys)
              (λ c. law.holds-negate env g ∙ ap not (visit_sound f s1 w keys' c).0) h' in
          (rw deep now, (visit_sound f s1 w keys' mid).1)
    ]
    visit_sound (forall vs f) s w keys h =
        visit_forall_sound (quantify_all L vs (get_clauses (naive f)) nil) s
          (for_all S vs (λ e. holds S e f) env) keys (all_hold-quantified vs f w.1 w.2) h

    pub visit_all_sound :
        (fs r : Formulas Q) (s : State Q)
        → AllFit n fs
        → IsBelow s
        → consistent S env (visit_all L naive fs r s).1.map ≡ true
        → (all_hold S env (visit_all L naive fs r s).0 ≡ (all_hold S env r && all_hold S env fs))
          × (some_holds S env (visit_all L naive fs r s).0
              ≡ (some_holds S env r || some_holds S env fs))
          × (consistent S env s.map ≡ true)
    visit_all_sound nil r s w keys h = (ground arith, ground arith, h)
    visit_all_sound (cons f fs) r s w keys h =
        let (g, s') = visit L naive f s in
        let (grown, keys') = visit-IsBelow L naive f s keys in
        let (every, any, mid) = visit_all_sound fs (insert L g r) s' w.1 keys' h in
        let (same, old) = visit_sound f s w.0 keys mid in
        (
          every ∙ ground (arith, all_hold-insert law env g r, same),
          any ∙ ground (arith, some_holds-insert law env g r, same),
          old,
        )

  abbrev variable_of : Formula Q → Variable
  variable_of (prop v) = v
  variable_of _ = fresh 0

  -- The definition of the head is true.
  head_entry :
      (b v : Variable) (g : Formula Q) (m : List (Variable × Formula Q)) (t : Bool)
      → NoKey b.id m
      → b ≡ v
      → (consistent S env m ≡ true → holds S env g ≡ t)
      → defined S env v (emplace b g m) ≡ true
      → t ≡ true
  head_entry b v g m t far is_head means h =
      let h' : defined S env b (emplace b g m) ≡ true =
        ap (λ u. defined S env u (emplace b g m)) is_head ∙ h in
      let e = defined-emplace S env b g m far in
      let old : consistent S env m ≡ true = ground (arith) in
      let meant = means old in ground (arith)

  abbrev is_nil : List (Variable × Formula Q) → Bool
  is_nil [] = true
  is_nil _ = false

  head_forall :
      (cs : Formulas Q) (t : Bool) (v : Variable)
      → let s : State Q = record { map = []; next = n } in
        all_hold S env cs ≡ t
        → (visit_forall L naive cs s).0 ≡ prop v
        → is_nil (visit_forall L naive cs s).1.map ≡ false
        → defined S env v (visit_forall L naive cs s).1.map ≡ true
        → t ≡ true
  unfolding emplace
  head_forall nil t v h same some_map e =
      head_entry (fresh n) v _ [] t tt (ap variable_of same)
        (λ _. law.holds-make_conjunction env nil ∙ h) e
  head_forall (cons c nil) t v h same some_map e = ground (arith)
  head_forall (cons c (cons d ds)) t v h same some_map e =
      head_entry (fresh n) v _ [] t tt (ap variable_of same)
        (λ _. law.holds-make_conjunction env (cons c (cons d ds)) ∙ h) e

  head_sound :
      (f : Formula Q) (v : Variable)
      → let s : State Q = record { map = []; next = n } in
        Fits n f
        → (visit L naive f s).0 ≡ prop v
        → is_nil (visit L naive f s).1.map ≡ false
        → defined S env v (visit L naive f s).1.map ≡ true
        → holds S env f ≡ true
  unfolding visit holds Fits
  head_sound (conj fs) v w same some_map h =
      let s : State Q = record { map = []; next = n } in
      let (ops, s') = visit_all L naive fs nil s in
      head_entry (fresh s'.next) v (L.make_conjunction ops) s'.map (all_hold S env fs)
        (NoKey-next s' (visit_all-IsBelow L naive fs nil s tt).1) (ap variable_of same)
        (λ c. law.holds-make_conjunction env ops ∙ (visit_all_sound fs nil s w tt c).0) h
  head_sound (disj fs) v w same some_map h =
      let s : State Q = record { map = []; next = n } in
      let (ops, s') = visit_all L naive fs nil s in
      head_entry (fresh s'.next) v (L.make_disjunction ops) s'.map (some_holds S env fs)
        (NoKey-next s' (visit_all-IsBelow L naive fs nil s tt).1) (ap variable_of same)
        (λ c. law.holds-make_disjunction env ops ∙ (visit_all_sound fs nil s w tt c).1) h
  head_sound (neg f) v w same some_map h = elim (Bool-cases (is_atomic f)) [
    | inl atom ↦ ground (arith)
    | inr deep ↦
        let s : State Q = record { map = []; next = n } in
        let s1 : State Q = record { map = []; next = n + 1 } in
        let (g, s') = visit L naive f s1 in
        let Head = λ (r : Formula Q × State Q). (r.0 ≡ prop v) × (defined S env v r.1.map ≡ true) in
        let (same', h') = subst (λ a. Head (chosen a (L.negate g) f s s')) deep (same, h) in
        head_entry (fresh n) v (L.negate g) s'.map (not (holds S env f))
          (visit-NoKey L naive f s tt) (ap variable_of same')
          (λ c. law.holds-negate env g ∙ ap not (visit_sound f s1 w tt c).0) h'
  ]
  head_sound (forall vs f) v w same some_map h =
      head_forall (quantify_all L vs (get_clauses (naive f)) nil)
        (for_all S vs (λ e. holds S e f) env) v (all_hold-quantified vs f w.1 w.2) same some_map h
  head_sound f v w same some_map h = ground (arith)

  answered :
      (f head : Formula Q) (m : List (Variable × Formula Q)) (clauses : List (Formula Q))
      → let s : State Q = record { map = []; next = n } in
        Fits n f
        → (visit L naive f s).0 ≡ head
        → (visit L naive f s).1.map ≡ m
        → clauses_of L naive head m ≡ some clauses
        → satisfies S env clauses ≡ true
        → holds S env f ≡ true
  unfolding clauses_of holds
  answered f head [] clauses w eh em h sat =
      let s : State Q = record { map = []; next = n } in
      let none_defined = ap (consistent S env) em in
      let (same, _) = visit_sound f s w tt none_defined in
      let here : holds S env (visit L naive f s).0 ≡ true = ap (holds S env) eh ∙ ground (arith) in
      sym same ∙ here
  answered f (prop v) (entry1 ∷ m) clauses w eh em h sat =
      let said = satisfies-collect law env v (entry1 ∷ m) [] clauses h in
      let defined_all : defined S env v (entry1 ∷ m) ≡ true = sym said ∙ sat in
      head_sound f v w eh (ap is_nil em) (ap (defined S env v) em ∙ defined_all)
  answered f head (entry1 ∷ m) clauses w eh em h sat = ground (arith)

  -- Where the clauses that the Tseitin conversion returns for a formula, whose identifiers are
  -- below `n`, all hold, the formula holds; the naive conversion inside quantifiers is any that
  -- keeps the meaning and the identifiers.
  pub convert_tseitin_sound :
      (f : Formula Q) (clauses : List (Formula Q))
      → Fits n f
      → convert L naive f n ≡ some clauses
      → satisfies S env clauses ≡ true
      → holds S env f ≡ true
  unfolding convert
  convert_tseitin_sound f clauses w h sat =
      answered f (visit L naive f (record { map = []; next = n })).0 _ clauses w refl refl h sat
