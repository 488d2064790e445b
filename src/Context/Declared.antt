-- ===== src/Context/Declared.antt =====
-- Declaring variables keeps the box and the model variables in step.
use dlinear.Base.{
  ℕ, Bool, true, false, ◌||◌, ◌≡◌, refl, sym, ap, ◌∙◌, subst, some, List, [], ◌∷◌, ◌++◌,
  if◌then◌else◌, All, All-imp, All-append, Bool-cases, Option-cases, inl, inr, arith,
}
use dlinear.Symbolic.Syntax.{Variable, VarType, continuous, integer, binary, boolean}
use dlinear.Symbolic.Meaning.{Structure}
use dlinear.Symbolic.Ids.{in_ids, contains, Different}
use dlinear.Box.Intervals.{Interval}
use dlinear.Box.{Box, has_variable, add}
use dlinear.Box.Access.{add-IsShaped}
use dlinear.Box.Grow.{is_addable, added_variables}
use dlinear.Context.{add_to_box}
use dlinear.Context.Session.{Session, mark_model_variable, declare_variable}
use dlinear.Context.Model.{DistinctIds, IsDeclared, has_variable-in_ids}

in_ids-append : (i : ℕ) (vs ws : List Variable) → in_ids i (vs ++ ws) ≡ (in_ids i vs || in_ids i ws)
in_ids-append i [] ws = refl
in_ids-append i (v ∷ vs) ws = ground (arith, in_ids-append i vs ws)

DistinctIds-snoc :
    (vs : List Variable) (v : Variable)
    → DistinctIds vs
    → in_ids v.id vs ≡ false
    → DistinctIds (vs ++ v ∷ [])
DistinctIds-snoc [] v d h = (refl, tt)
DistinctIds-snoc (w ∷ ws) v d h = (
  ground (arith, in_ids-append w.id ws (v ∷ []), d.0),
  DistinctIds-snoc ws v d.1 (ground (arith)),
)

module _ {Q : Type 0} (S : Structure Q) (entire : Interval Q) where
  mark-Different :
      (v : Variable) (ids : List ℕ) → Different ids → Different (mark_model_variable v ids)
  unfolding mark_model_variable
  mark-Different v ids d = elim (Bool-cases (contains v.id ids)) [
    | inl old ↦ rw old d
    | inr fresh ↦ rw fresh (fresh, d)
  ]

  mark-among :
      (v : Variable) (ids : List ℕ) (vs : List Variable)
      → in_ids v.id vs ≡ true
      → All (λ i. in_ids i vs ≡ true) ids
      → All (λ i. in_ids i vs ≡ true) (mark_model_variable v ids)
  unfolding mark_model_variable
  mark-among v ids vs h w = elim (Bool-cases (contains v.id ids)) [
    | inl old ↦ rw old w
    | inr fresh ↦ rw fresh (h, w)
  ]

  addable_added :
      (v : Variable) (b b' : Box Q) (t : VarType)
      → v.type ≡ t
      → add S entire v b ≡ some b'
      → is_addable t ≡ true
  unfolding add
  addable_added v b b' continuous is h = refl
  addable_added v b b' boolean is h = refl
  addable_added v b b' integer is h = ground (arith)
  addable_added v b b' binary is h = ground (arith)

  add_to_box-IsDeclared :
      (v : Variable) (ids : List ℕ) (b b' : Box Q)
      → IsDeclared ids b
      → add_to_box S entire v b ≡ some b'
      → IsDeclared ids b' × (in_ids v.id b'.variables ≡ true)
  unfolding add_to_box
  add_to_box-IsDeclared v ids b b' d h = elim (Bool-cases (has_variable b v)) [
    | inl there ↦
        let same : b ≡ b' = ground (arith) in
        (
          subst (IsDeclared ids) same d,
          subst (λ c. in_ids v.id c.variables ≡ true) same (sym (has_variable-in_ids b v) ∙ there),
        )
    | inr absent ↦
        let e : add S entire v b ≡ some b' = ground (arith) in
        let vars = added_variables S entire v b b' v.type refl e in
        let not_in : in_ids v.id b.variables ≡ false = sym (has_variable-in_ids b v) ∙ absent in
        (
          record {
            shaped = add-IsShaped S entire v b b' e;
            distinct =
                subst DistinctIds (sym vars) (DistinctIds-snoc b.variables v d.distinct not_in);
            addable = subst (All (λ v. is_addable v.type ≡ true)) (sym vars) (
                All-append _ b.variables (v ∷ []) d.addable
                  (addable_added v b b' v.type refl e, tt));
            different = d.different;
            among =
                subst (λ vs. All (λ i. in_ids i vs ≡ true) ids) (sym vars)
                  (All-imp (λ i w. ground (arith, w, in_ids-append i b.variables (v ∷ []))) ids
                    d.among);
          },
          ap (in_ids v.id) vars ∙ ground (arith, in_ids-append v.id b.variables (v ∷ [])),
        )
  ]

  -- When `DeclareVariable` succeeds, it keeps the box and the model variables in step: the box has
  -- every variable once, each with an interval and of a type that a box takes, and the model
  -- variables are different ones of the box.
  pub declare_variable-IsDeclared :
      (v : Variable) (is_model : Bool) (s s' : Session Q)
      → IsDeclared s.model_variables s.box
      → declare_variable S entire v is_model s ≡ some s'
      → IsDeclared s'.model_variables s'.box
  unfolding declare_variable
  declare_variable-IsDeclared v is_model s s' d h =
      elim (Option-cases (add_to_box S entire v s.box)) [
        | inl e ↦ ground (arith)
        | inr (b, e) ↦
            let (d1, there) = add_to_box-IsDeclared v s.model_variables s.box b d e in
            let ids =
              if is_model then mark_model_variable v s.model_variables else s.model_variables in
            let same_ids : ids ≡ s'.model_variables = ground (arith) in
            let same_box : b ≡ s'.box = ground (arith) in
            subst (λ c. IsDeclared s'.model_variables c) same_box
              (subst (λ is. IsDeclared is b) same_ids
                (elim (Bool-cases is_model) [
                  | inr plain ↦ rw plain d1
                  | inl marked ↦ rw marked (record {
                    shaped = d1.shaped;
                    distinct = d1.distinct;
                    addable = d1.addable;
                    different = mark-Different v s.model_variables d1.different;
                    among = mark-among v s.model_variables b.variables there d1.among;
                  })
                ]))
      ]
