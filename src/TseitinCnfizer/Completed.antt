-- ===== src/TseitinCnfizer/Completed.antt =====
-- What a visit promises of a model, for the visits that make one definition.
use dlinear.Base.{ℕ, ◌+◌, Bool, ◌≡◌, refl, sym, ◌∙◌, if◌then◌else◌, Bool-cases, inl, inr, arith}
use dlinear.Symbolic.Syntax.{Variables, Formula, Formulas, prop, nil, cons}
use dlinear.Symbolic.Meaning.{Structure, Env, holds, all_hold}
use dlinear.Symbolic.Kinds.{have_intersection}
use dlinear.Symbolic.Fits.{Ascending, IdsBelow, Fits, AllFit, holds-Agree}
use dlinear.Symbolic.Weaken.{Fits-le}
use dlinear.Symbolic.Library.{Library, IsSound, IsClosed, insert}
use dlinear.Nnfizer.Closed.{insert-AllFit}
use dlinear.PlaistedGreenbaum.Fresh.{define, Agree-define, define_self}
use dlinear.TseitinCnfizer.{State, fresh, record_definition, quantify_all, visit_forall}
use dlinear.TseitinCnfizer.Keys.{NoKey-next}
use dlinear.TseitinCnfizer.Model.{
  MapFits-IsBelow, Extends-refl, IsModel-next, IsModel-entry, Extends-trans, IsModel, Extends,
}

module _ {Q : Type 0} {S : Structure Q} {L : Library Q} (law : IsSound S L) (closed : IsClosed L)
    (naive : Formula Q → Formula Q)
    (holds-naive : (env : Env Q) (f : Formula Q) → holds S env (naive f) ≡ holds S env f)
    (naive-Fits : (n : ℕ) (f : Formula Q) → Fits n f → Fits n (naive f)) where
  -- What a visit promises: a model of what is added, and a result that means what is asked.
  unfoldable pub Completed : State Q → Env Q → Formula Q × State Q → Bool → Type 0
  Completed s d r t = (e : Env Q) × Extends S s r.1 d e × Fits r.1.next r.0 × (holds S e r.0 ≡ t)

  pub unchanged :
      (f : Formula Q) (s : State Q) (d : Env Q)
      → Fits s.next f
      → IsModel S s d
      → Completed s d (f, s) (holds S d f)
  unfolding Completed
  unchanged f s d w m = (d, Extends-refl S s d m, w, refl)

  -- A definition that is made last.
  pub defined_last :
      (s : State Q) (d : Env Q) (g : Formula Q) (t : Bool)
      → Fits s.next g
      → holds S d g ≡ t
      → IsModel S s d
      → Completed s d
          (
            prop (fresh s.next),
            record_definition L (fresh s.next) g (record s { next = s.next + 1 }),
          )
          t
  unfolding Completed holds Fits
  defined_last s d g t w h m =
      let s1 : State Q = record s { next = s.next + 1 } in
      let c = define s.next t d in
      let a = Agree-define s.next t d in
      let now = define_self s.next t d in
      (
        c,
        record {
          agree = a;
          grows = omega arith;
          model =
              IsModel-entry S s1 c (fresh s.next) g (NoKey-next s (MapFits-IsBelow s m.fits))
                (omega arith) (Fits-le g s.next (s.next + 1) (omega arith) w)
                (now ∙ (sym h ∙ holds-Agree S g s.next d c w a)) (IsModel-next S s d t m);
        },
        omega arith,
        now,
      )

  pub Completed-trans :
      (s s1 : State Q) (d c : Env Q) (r : Formula Q × State Q) (t : Bool)
      → Extends S s s1 d c
      → Completed s1 c r t
      → Completed s d r t
  unfolding Completed
  Completed-trans s s1 d c r t x (e, y, w, h) = (e, Extends-trans S s s1 r.1 d c e x y, w, h)

  pub quantify_all-AllFit :
      (n : ℕ) (vs : Variables) (cs r : Formulas Q)
      → IdsBelow n vs
      → Ascending vs
      → AllFit n cs
      → AllFit n r
      → AllFit n (quantify_all L vs cs r)
  unfolding quantify_all Fits
  quantify_all-AllFit n vs nil r hv asc w wr = wr
  quantify_all-AllFit n vs (cons c cs) r hv asc w wr =
      let d = if have_intersection (L.free_variables c) vs then L.make_forall vs c else c in
      let wd : Fits n d = elim (Bool-cases (have_intersection (L.free_variables c) vs)) [
        | inl met ↦ rw met (closed.make_forall-Fits n vs c hv asc w.0)
        | inr apart ↦ rw apart (w.0)
      ] in
      quantify_all-AllFit n vs cs (insert L d r) hv asc w.1 (insert-AllFit L n d r wd wr)

  pub visit_forall_complete :
      (cs : Formulas Q) (s : State Q) (d : Env Q) (t : Bool)
      → AllFit s.next cs
      → all_hold S d cs ≡ t
      → IsModel S s d
      → Completed s d (visit_forall L naive cs s) t
  unfolding Completed holds Fits
  visit_forall_complete nil s d t w h m =
      defined_last s d (L.make_conjunction nil) t (closed.make_conjunction-Fits s.next nil w)
        (law.holds-make_conjunction d nil ∙ h) m
  visit_forall_complete (cons c nil) s d t w h m = (d, Extends-refl S s d m, w.0, ground (arith))
  visit_forall_complete (cons c (cons b bs)) s d t w h m =
      let cs = cons c (cons b bs) in
      defined_last s d (L.make_conjunction cs) t (closed.make_conjunction-Fits s.next cs w)
        (law.holds-make_conjunction d cs ∙ h) m
