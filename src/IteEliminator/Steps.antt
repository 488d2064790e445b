-- ===== src/IteEliminator/Steps.antt =====
-- What a visit does to the formulas and variables collected so far: it only adds, what it adds can
-- be made true by values for the new variables, and where it is true the result has its meaning.
use dlinear.Base.{ℕ, ◌≤◌, ◌<◌, true, false, ◌≡◌, refl, ◌∙◌, All, arith}
use dlinear.Symbolic.Syntax.{Variables, Expression, Formula}
use dlinear.Symbolic.Meaning.{Structure, Env, value_of, holds}
use dlinear.Symbolic.Ids.{in_ids}
use dlinear.Symbolic.Satisfy.{satisfies}
use dlinear.Symbolic.Fits.{IdsBelow, Fits, Agree}
use dlinear.PlaistedGreenbaum.Fresh.{Agree-refl, Agree-trans}
use dlinear.IteEliminator.{State}

module _ {Q : Type 0} where
  -- The environments differ only in the values of the variables.
  pub record Only (vs : Variables) (d e : Env Q) : Type 0 where
    pub same_truth : d.truth ≡ e.truth
    pub same_value : (i : ℕ) → in_ids i vs ≡ false → d.value i ≡ e.value i

  -- What is collected stands below the counter.
  pub record IsBelow (s : State Q) : Type 0 where
    pub formulas : All (λ f. Fits s.next f) s.added
    pub variables : IdsBelow s.next s.variables

module _ {Q : Type 0} (S : Structure Q) where
  -- `e` makes what is collected in `s'` true.
  pub record Extends (s s' : State Q) (d e : Env Q) : Type 0 where
    pub agree : Agree s.next d e
    pub only : Only s'.variables d e
    pub satisfied : satisfies S e s'.added ≡ true

  pub record Step (s s' : State Q) (P : Env Q → Type 0) : Type 0 where
    pub grows : s.next ≤ s'.next
    pub old_variables : (i : ℕ) → in_ids i s'.variables ≡ false → in_ids i s.variables ≡ false
    pub new_variables :
        (i : ℕ) → i < s.next → in_ids i s.variables ≡ false → in_ids i s'.variables ≡ false
    pub below : IsBelow s → IsBelow s'
    pub sound :
        (env : Env Q) → satisfies S env s'.added ≡ true → (satisfies S env s.added ≡ true) × P env
    pub complete :
        (d : Env Q) → IsBelow s → satisfies S d s.added ≡ true → (e : Env Q) × Extends s s' d e

  Only-refl : (vs : Variables) (d : Env Q) → Only vs d d
  Only-refl vs d = record { same_truth = refl; same_value = λ i h. refl }

  pub stay : (s : State Q) (P : Env Q → Type 0) → ((env : Env Q) → P env) → Step s s P
  stay s P p = record {
    grows = omega arith;
    old_variables = λ i h. h;
    new_variables = λ i l h. h;
    below = λ b. b;
    sound = λ env h. (h, p env);
    complete = λ d b h.
        (d, record { agree = Agree-refl s.next d; only = Only-refl s.variables d; satisfied = h });
  }

  pub Extends-trans :
      (s s1 s2 : State Q) (b c d : Env Q)
      → s.next ≤ s1.next
      → ((i : ℕ) → in_ids i s2.variables ≡ false → in_ids i s1.variables ≡ false)
      → Extends s s1 b c
      → Extends s1 s2 c d
      → Extends s s2 b d
  Extends-trans s s1 s2 b c d l old x y = record {
    agree = Agree-trans s.next s1.next b c d l x.agree y.agree;
    only = record {
      same_truth = x.only.same_truth ∙ y.only.same_truth;
      same_value = λ i h. x.only.same_value i (old i h) ∙ y.only.same_value i h;
    };
    satisfied = y.satisfied;
  }

  -- One step after the other.
  pub chain :
      (s s1 s2 : State Q) (P R : Env Q → Type 0)
      → Step s s1 P
      → Step s1 s2 R
      → Step s s2 (λ env. P env × R env)
  chain s s1 s2 P R a b = record {
    grows = (let l = a.grows in let m = b.grows in omega arith);
    old_variables = λ i h. a.old_variables i (b.old_variables i h);
    new_variables =
        λ i l h. (let g = a.grows in b.new_variables i (omega arith) (a.new_variables i l h));
    below = λ w. b.below (a.below w);
    sound = λ env h. (let (h1, r) = b.sound env h in let (h0, p) = a.sound env h1 in (h0, (p, r)));
    complete = λ d w h.
        (let (e, x) = a.complete d w h in
          let (e', y) = b.complete e (a.below w) (x.satisfied) in
          (e', Extends-trans s s1 s2 d e e' a.grows b.old_variables x y));
  }

  pub meaning :
      (s s' : State Q) (P R : Env Q → Type 0)
      → ((env : Env Q) → P env → R env)
      → Step s s' P
      → Step s s' R
  meaning s s' P R f a = record {
    grows = a.grows;
    old_variables = a.old_variables;
    new_variables = a.new_variables;
    below = a.below;
    sound = λ env h. (let (h0, p) = a.sound env h in (h0, f env p));
    complete = a.complete;
  }

  -- Where the guard holds, the result has the value, and the truth, of what is visited.
  abbrev pub ValueKept : Formula Q → Expression Q → Expression Q → Env Q → Type 0
  ValueKept guard r e env = holds S env guard ≡ true → value_of S env r ≡ value_of S env e

  abbrev pub TruthKept : Formula Q → Formula Q → Formula Q → Env Q → Type 0
  TruthKept guard r f env = holds S env guard ≡ true → holds S env r ≡ holds S env f
