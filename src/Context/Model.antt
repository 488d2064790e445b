-- ===== src/Context/Model.antt =====
-- The model that is extracted has the model variables, with their intervals, and no other.
use dlinear.Base.{
  ℕ, suc, true, false, ◌≡◌, refl, ◌∙◌, none, some, List, [], ◌∷◌, length, if◌then◌else◌, ◌==◌, All,
  All-imp, Bool-cases, inl, inr, arith,
}
use dlinear.Symbolic.Syntax.{Variable}
use dlinear.Symbolic.Meaning.{Structure}
use dlinear.Symbolic.Ids.{in_ids, Different, contains-in_ids}
use dlinear.Box.Intervals.{Interval}
use dlinear.Box.{Box, new, index_from, index, has_variable, at}
use dlinear.Box.Access.{IsShaped, at-some}
use dlinear.Box.Grow.{is_addable, add_with-some}
use dlinear.Context.Session.{is_model_variable, copy_variable, extract_from, extract_model}

abbrev pub DistinctIds : List Variable → Type 0
DistinctIds [] = Unit
DistinctIds (v ∷ vs) = (in_ids v.id vs ≡ false) × DistinctIds vs

-- The box has every variable once, with an interval, and the model variables are among them.
pub record IsDeclared {Q : Type 0} (ids : List ℕ) (b : Box Q) : Type 0 where
  pub shaped : IsShaped b
  pub distinct : DistinctIds b.variables
  pub addable : All (λ v. is_addable v.type ≡ true) b.variables
  pub different : Different ids
  pub among : All (λ i. in_ids i b.variables ≡ true) ids

index_from-in_ids :
    (n : ℕ) (v : Variable) (vs : List Variable)
    → (elim (index_from n v vs) [ none ↦ false | some _ ↦ true ]) ≡ in_ids v.id vs
unfolding index_from
index_from-in_ids n v [] = refl
index_from-in_ids n v (w ∷ vs) = ground (arith, index_from-in_ids (suc n) v vs)

apart-All : (i : ℕ) (vs : List Variable) → in_ids i vs ≡ false → All (λ u. (i == u.id) ≡ false) vs
apart-All i [] h = tt
apart-All i (v ∷ vs) h = (ground (arith), apart-All i vs (ground (arith)))

All-in_ids : (vs : List Variable) → All (λ v. in_ids v.id vs ≡ true) vs
All-in_ids [] = tt
All-in_ids (v ∷ vs) = (ground arith, All-imp (λ u h. ground (arith, h)) vs (All-in_ids vs))

All-and :
    (P R : Variable → Type 0) (vs : List Variable) → All P vs → All R vs → All (λ v. P v × R v) vs
All-and P R [] p r = tt
All-and P R (v ∷ vs) p r = ((p.0, r.0), All-and P R vs p.1 r.1)

module _ {Q : Type 0} where
  pub has_variable-in_ids : (b : Box Q) (v : Variable) → has_variable b v ≡ in_ids v.id b.variables
  unfolding has_variable index
  has_variable-in_ids b v = index_from-in_ids 0 v b.variables

  at-absent : (b : Box Q) (v : Variable) → has_variable b v ≡ false → at b v ≡ none
  unfolding has_variable at index
  at-absent b v h = ground (arith)

has_variable-new :
    {Q : Type 0} (S : Structure Q) (entire : Interval Q) (v : Variable)
    → has_variable (new S entire) v ≡ false
unfolding has_variable index index_from new
has_variable-new S entire v = refl

module _ {Q : Type 0} (S : Structure Q) (entire : Interval Q) (ids : List ℕ) (box : Box Q) where
  -- What the extracted box has at a variable.
  abbrev pub Extracted : Box Q → Variable → Type 0
  Extracted b v = at b v ≡ (if is_model_variable ids v then at box v else none)

  extract_from-Extracted :
      (vs : List Variable) (b : Box Q)
      → IsShaped box
      → All (λ v. (has_variable box v ≡ true) × (is_addable v.type ≡ true)) vs
      → DistinctIds vs
      → IsShaped b
      → All (λ v. has_variable b v ≡ false) vs
      → (b' : Box Q) × (extract_from S entire ids box vs b ≡ some b')
        × All (Extracted b') vs
        × ((w : Variable) → in_ids w.id vs ≡ false → at b' w ≡ at b w)
  unfolding extract_from
  extract_from-Extracted [] b shaped known far shaped_b absent = (b, refl, tt, λ w h. refl)
  extract_from-Extracted (v ∷ vs) b shaped known far shaped_b absent =
      elim (Bool-cases (is_model_variable ids v)) [
        | inr other ↦
            let (b', e, all, rest) =
              extract_from-Extracted vs b shaped known.1 far.1 shaped_b absent.1 in
            let here = rest v far.0 in
            let nothing = at-absent b v absent.0 in
            (b', ground (arith), (ground (arith), all), λ w h. rest w (ground (arith)))
        | inl marked ↦
            let (iv, found) = at-some box v shaped known.0.0 in
            let (b1, e1, shaped1, there, value, others) =
              add_with-some S entire v iv.lb iv.ub b known.0.1 shaped_b in
            let absent1 =
              All-imp (λ u (ne, h). (others u ne).0 ∙ h) vs
                (All-and _ _ vs (apart-All v.id vs far.0) absent.1) in
            let (b', e, all, rest) =
              extract_from-Extracted vs b1 shaped known.1 far.1 shaped1 absent1 in
            let copied : copy_variable S entire box v b ≡ some b1 =
              unfold copy_variable in ground (arith) in
            let here = rest v far.0 in
            (
              b',
              ground (arith),
              (ground (arith), all),
              λ w h. rest w (ground (arith)) ∙ (others w (ground (arith))).1,
            )
      ]

  -- `ExtractModel` succeeds, and the box that it returns has every model variable of the given box
  -- with its interval and no other variable of the box, where the box has every variable once, each
  -- with an interval and of a type that a box takes, and the model variables are different ones of
  -- the box.
  pub extract_model-Extracted :
      IsDeclared ids box
      → (b : Box Q) × (extract_model S entire ids box ≡ some b) × All (Extracted b) box.variables
  unfolding extract_model new
  extract_model-Extracted d =
      let there =
        All-imp (λ v h. has_variable-in_ids box v ∙ h) box.variables (All-in_ids box.variables) in
      elim (Bool-cases (length ids == length box.variables)) [
        | inl same ↦
            let marked =
              All-imp
                (λ v h.
                  contains-in_ids ids box.variables v.id d.different d.among (ground (arith)) h)
                box.variables (All-in_ids box.variables) in
            (box, ground (arith), All-imp (λ v h. rw h refl) box.variables marked)
        | inr other ↦
            let start = new S entire in
            let (b, e, all, _) =
              extract_from-Extracted box.variables start d.shaped
                (All-and _ _ box.variables there d.addable) d.distinct (omega arith)
                (All-imp (λ v h. has_variable-new S entire v) box.variables there) in
            (b, ground (arith), all)
      ]
