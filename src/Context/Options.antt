-- ===== src/Context/Options.antt =====
-- dreal/solver/context_impl.cc: `SetOption` and `SetInfo`. Of `Config` (dreal/solver/config.h) the
-- fields that `SetOption` writes.
use Prim.Native.String.{String}
use text.Mathlib.Text.{◌==◌ as ◌==ˢ◌}
use dlinear.Base.{Bool, true, false, Option, none, some, List, [], ◌∷◌, if◌then◌else◌}
use dlinear.OptionValue.{OptionValue, set_from_file}

pub record Config (D : Type 0) : Type 0 where
  pub precision : OptionValue D
  pub produce_models : OptionValue Bool
  pub use_polytope : OptionValue Bool
  pub use_polytope_in_forall : OptionValue Bool
  pub use_worklist_fixpoint : OptionValue Bool
  pub use_local_optimization : OptionValue Bool

-- `config_`, `info_` and `option_`.
pub record Settings (D : Type 0) : Type 0 where
  pub config : Config D
  pub info : List (String × String)
  pub option : List (String × String)

-- Whether a call returns or throws; what it wrote before it throws stays.
pub data Outcome : Type 0 where
  done : Outcome
  thrown : Outcome

-- `info_[key] = val`.
unfoldable pub put : String → String → List (String × String) → List (String × String)
put key val [] = (key, val) ∷ []
put key val ((k, v) ∷ m) = if k ==ˢ key then (k, val) ∷ m else (k, v) ∷ put key val m

unfoldable pub parse_boolean_option : String → Option Bool
parse_boolean_option val =
    if val ==ˢ "true" then some true else if val ==ˢ "false" then some false else none

-- The five options with a Boolean value.
pub data Flag : Type 0 where
  polytope : Flag
  forall_polytope : Flag
  local_optimization : Flag
  worklist_fixpoint : Flag
  models : Flag

-- The chain of tests on the key.
unfoldable pub flag_of : String → Option Flag
flag_of key =
    if key ==ˢ ":polytope"
    then some polytope
    else if key ==ˢ ":forall-polytope"
    then some forall_polytope
    else if key ==ˢ ":local-optimization"
    then some local_optimization
    else if key ==ˢ ":worklist-fixpoint"
    then some worklist_fixpoint
    else if key ==ˢ ":produce-models"
    then some models
    else none

module _ {D : Type 0} where
  unfoldable pub set_info : String → String → Settings D → Settings D
  unfolding put
  set_info key val s = record s { info = put key val s.info }

  unfoldable pub flag : Flag → Config D → OptionValue Bool
  flag polytope c = c.use_polytope
  flag forall_polytope c = c.use_polytope_in_forall
  flag local_optimization c = c.use_local_optimization
  flag worklist_fixpoint c = c.use_worklist_fixpoint
  flag models c = c.produce_models

  unfoldable pub set_flag : Flag → Bool → Config D → Config D
  unfolding set_from_file
  set_flag polytope b c = record c { use_polytope = set_from_file b c.use_polytope }
  set_flag forall_polytope b c = record c {
    use_polytope_in_forall = set_from_file b c.use_polytope_in_forall;
  }
  set_flag local_optimization b c = record c {
    use_local_optimization = set_from_file b c.use_local_optimization;
  }
  set_flag worklist_fixpoint b c = record c {
    use_worklist_fixpoint = set_from_file b c.use_worklist_fixpoint;
  }
  set_flag models b c = record c { produce_models = set_from_file b c.produce_models }

  unfoldable pub set_option : String → String → Settings D → Settings D × Outcome
  unfolding flag_of set_flag parse_boolean_option put
  set_option key val s =
      let recorded : Settings D = record s { option = put key val s.option } in
      elim (flag_of key) [
        | none ↦ (recorded, done)
        | some f ↦ elim (parse_boolean_option val) [
          | none ↦ (recorded, thrown)
          | some b ↦ (record recorded { config = set_flag f b s.config }, done)
        ]
      ]

  -- The overload for a number: `print` is the number's text, `is_nonpositive` the test `val <= 0.0`.
  unfoldable pub set_number :
      (D → String) → (D → Bool) → String → D → Settings D → Settings D × Outcome
  unfolding put set_from_file
  set_number print is_nonpositive key val s =
      let recorded : Settings D = record s { option = put key (print val) s.option } in
      if key ==ˢ ":precision"
      then if is_nonpositive val then (recorded, thrown) else (
        record recorded {
          config = record s.config { precision = set_from_file val s.config.precision };
        },
        done,
      )
      else (recorded, done)
