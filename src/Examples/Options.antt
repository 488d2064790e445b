-- ===== src/Examples/Options.antt =====
-- Requests for an option, and commands of a file on settings that the command line has touched.
use dlinear.Base.{ℕ, true, false, List, [], ◌∷◌, ◌≡◌, refl}
use dlinear.OptionValue.{from_command_line, new}
use dlinear.OptionValue.Priority.{
  update_all-strongest, Request, command_line, file, update_all, strongest,
}
use dlinear.Context.Options.{Settings, models, flag, set_option}
use dlinear.Context.Outranked.{here, outranks_file, by_option, flag_outranked}

abbrev requests : List (Request ℕ)
requests = file 1 ∷ command_line 2 ∷ file 3 ∷ []

update_all-strongest_example : update_all requests (new 0) ≡ strongest 0 requests
update_all-strongest_example = update_all-strongest 0 requests

strongest_run : strongest 0 requests ≡ record { value = 2; type = from_command_line }
unfolding strongest
strongest_run = refl

abbrev settings : Settings ℕ
settings = record {
  config = record {
    precision = new 5;
    produce_models = record { value = true; type = from_command_line };
    use_polytope = new false;
    use_polytope_in_forall = new false;
    use_worklist_fixpoint = new false;
    use_local_optimization = new false;
  };
  info = [];
  option = [];
}

flag_outranked_example :
    flag models (set_option ":produce-models" "false" settings).0.config
    ≡ flag models settings.config
unfolding outranks_file flag
flag_outranked_example =
    flag_outranked models settings (set_option ":produce-models" "false" settings).0
      (by_option here ":produce-models" "false") refl
