-- ===== src/OptionValue/Priority.antt =====
-- What an option holds after a sequence of requests: a description that does not run them.
use dlinear.Base.{Option, none, some, List, [], ◌∷◌, ◌≡◌, refl, arith}
use dlinear.OptionValue.{
  Origin, default, from_file, from_command_line, from_code, OptionValue, new, assign,
  set_from_command_line, set_from_file,
}

pub data Request (T : Type 0) : Type 0 where
  code : T → Request T
  command_line : T → Request T
  file : T → Request T

module _ {T : Type 0} where
  unfoldable pub update : Request T → OptionValue T → OptionValue T
  unfolding assign set_from_command_line set_from_file
  update (code value) o = assign value o
  update (command_line value) o = set_from_command_line value o
  update (file value) o = set_from_file value o

  unfoldable pub update_all : List (Request T) → OptionValue T → OptionValue T
  unfolding update
  update_all [] o = o
  update_all (r ∷ rs) o = update_all rs (update r o)

  -- The later of two values, where there is one.
  unfoldable pub later : Option T → Option T → Option T
  later new_value old = elim new_value [ none ↦ old | some v ↦ some v ]

  -- The value that a request has of an origin.
  unfoldable pub asks : Origin → Request T → Option T
  asks from_code (code v) = some v
  asks from_command_line (command_line v) = some v
  asks from_file (file v) = some v
  asks _ _ = none

  unfoldable pub last_of : Origin → List (Request T) → Option T
  unfolding later asks
  last_of origin [] = none
  last_of origin (r ∷ rs) = later (last_of origin rs) (asks origin r)

  unfoldable pub or_set : Origin → Option T → OptionValue T → OptionValue T
  or_set origin last o = elim last [ none ↦ o | some v ↦ record { value = v; type = origin } ]

  -- The last value of the strongest origin that asks for one.
  unfoldable pub strongest : T → List (Request T) → OptionValue T
  unfolding or_set last_of
  strongest v rs = or_set from_code (last_of from_code rs) (
      or_set from_command_line (last_of from_command_line rs)
        (or_set from_file (last_of from_file rs) (record { value = v; type = default })))

  or_set-later :
      (origin : Origin) (a b : Option T) (o : OptionValue T)
      → or_set origin (later a b) o ≡ or_set origin a (or_set origin b o)
  unfolding later or_set
  or_set-later origin none b o = refl
  or_set-later origin (some v) b o = refl

  update_all-coded :
      (rs : List (Request T)) (v : T)
      → update_all rs (record { value = v; type = from_code })
        ≡ or_set from_code (last_of from_code rs) (record { value = v; type = from_code })
  unfolding update_all update assign set_from_command_line set_from_file or_set last_of asks
  update_all-coded [] v = refl
  update_all-coded (code w ∷ rs) v = grind (arith, update_all-coded rs w, or_set-later)
  update_all-coded (command_line w ∷ rs) v = grind (arith, update_all-coded rs v, or_set-later)
  update_all-coded (file w ∷ rs) v = grind (arith, update_all-coded rs v, or_set-later)

  update_all-commanded :
      (rs : List (Request T)) (v : T)
      → update_all rs (record { value = v; type = from_command_line })
        ≡ or_set from_code (last_of from_code rs) (
            or_set from_command_line
              (last_of from_command_line rs)
              (record { value = v; type = from_command_line }))
  unfolding update_all update assign set_from_command_line set_from_file or_set last_of asks
  update_all-commanded [] v = refl
  update_all-commanded (code w ∷ rs) v = grind (arith, update_all-coded rs w, or_set-later)
  update_all-commanded (command_line w ∷ rs) v =
      grind (arith, update_all-commanded rs w, or_set-later)
  update_all-commanded (file w ∷ rs) v = grind (arith, update_all-commanded rs v, or_set-later)

  update_all-filed :
      (rs : List (Request T)) (v : T)
      → update_all rs (record { value = v; type = from_file })
        ≡ or_set from_code (last_of from_code rs) (
            or_set from_command_line
              (last_of from_command_line rs)
              (or_set from_file (last_of from_file rs) (record { value = v; type = from_file })))
  unfolding update_all update assign set_from_command_line set_from_file or_set last_of asks
  update_all-filed [] v = refl
  update_all-filed (code w ∷ rs) v = grind (arith, update_all-coded rs w, or_set-later)
  update_all-filed (command_line w ∷ rs) v = grind (arith, update_all-commanded rs w, or_set-later)
  update_all-filed (file w ∷ rs) v = grind (arith, update_all-filed rs w, or_set-later)

  -- After a sequence of requests, an option holds the last value that the code assigned; when there
  -- is none, the last of the command line; when there is none either, the last of a file; and
  -- otherwise the value of its construction: each with that origin.
  pub update_all-strongest :
      (v : T) (rs : List (Request T)) → update_all rs (new v) ≡ strongest v rs
  unfolding update_all update assign set_from_command_line set_from_file or_set last_of asks new
      strongest
  update_all-strongest v [] = refl
  update_all-strongest v (code w ∷ rs) = grind (arith, update_all-coded rs w, or_set-later)
  update_all-strongest v (command_line w ∷ rs) =
      grind (arith, update_all-commanded rs w, or_set-later)
  update_all-strongest v (file w ∷ rs) = grind (arith, update_all-filed rs w, or_set-later)
