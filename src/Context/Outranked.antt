-- ===== src/Context/Outranked.antt =====
-- What `SetOption` and `SetInfo` leave, on every path, and that a file cannot change what the command
-- line or the code has set.
use Prim.Native.String.{String}
use text.Mathlib.Text.{◌==◌ as ◌==ˢ◌}
use text.Mathlib.TextEquality.{eq_iff}
use dlinear.Base.{
  Bool, true, false, Option, none, some, List, [], ◌∷◌, if◌then◌else◌, ◌≡◌, refl, inl, inr,
  Option-cases, ◌∙◌, sym, subst, arith,
}
use dlinear.OptionValue.{
  Origin, default, from_file, from_command_line, from_code, OptionValue, set_from_file,
}
use dlinear.Context.Options.{
  Config, Settings, put, parse_boolean_option, Flag, polytope, forall_polytope, local_optimization,
  worklist_fixpoint, models, flag_of, flag, set_flag, set_option, set_number, set_info,
}

-- What the map has at a key.
unfoldable pub read : String → List (String × String) → Option String
read key [] = none
read key ((k, v) ∷ m) = if k ==ˢ key then some v else read key m

read-put :
    (k j v : String) (m : List (String × String))
    → read j (put k v m) ≡ (if k ==ˢ j then some v else read j m)
unfolding read put
read-put k j v [] = refl
read-put k j v ((i, w) ∷ m) = ground (arith, eq_iff k j, eq_iff i k, eq_iff i j, read-put k j v m)

unfoldable pub outranks_file : Origin → Bool
outranks_file default = false
outranks_file from_file = false
outranks_file from_command_line = true
outranks_file from_code = true

module _ {T : Type 0} where
  set_from_file-at :
      (v x : T) (t : Origin)
      → outranks_file t ≡ true
      → set_from_file v (record { value = x; type = t }) ≡ record { value = x; type = t }
  unfolding set_from_file outranks_file
  set_from_file-at v x default h = ground (arith)
  set_from_file-at v x from_file h = ground (arith)
  set_from_file-at v x from_command_line h = refl
  set_from_file-at v x from_code h = refl

  set_from_file-outranked :
      (v : T) (o : OptionValue T) → outranks_file o.type ≡ true → set_from_file v o ≡ o
  set_from_file-outranked v o h = set_from_file-at v o.value o.type h

module _ {D : Type 0} where
  -- The settings that commands of a file lead to, those included that throw.
  pub data Reachable (s : Settings D) : Settings D → Type 0 where
    here : Reachable s s
    by_option :
        {t : Settings D} → Reachable s t → (key val : String) → Reachable s (set_option key val t).0
    by_number :
        {t : Settings D}
        → Reachable s t
        → (print : D → String) (is_nonpositive : D → Bool) (key : String) (val : D)
        → Reachable s (set_number print is_nonpositive key val t).0
    by_info :
        {t : Settings D} → Reachable s t → (key val : String) → Reachable s (set_info key val t)

  set_flag-outranked :
      (f g : Flag) (b : Bool) (c : Config D)
      → outranks_file (flag f c).type ≡ true
      → flag f (set_flag g b c) ≡ flag f c
  unfolding flag set_flag
  set_flag-outranked polytope polytope b c h = set_from_file-outranked b c.use_polytope h
  set_flag-outranked forall_polytope forall_polytope b c h =
      set_from_file-outranked b c.use_polytope_in_forall h
  set_flag-outranked local_optimization local_optimization b c h =
      set_from_file-outranked b c.use_local_optimization h
  set_flag-outranked worklist_fixpoint worklist_fixpoint b c h =
      set_from_file-outranked b c.use_worklist_fixpoint h
  set_flag-outranked models models b c h = set_from_file-outranked b c.produce_models h
  set_flag-outranked f g b c h = refl

  set_option-outranked :
      (f : Flag) (key val : String) (s : Settings D)
      → outranks_file (flag f s.config).type ≡ true
      → flag f (set_option key val s).0.config ≡ flag f s.config
  unfolding set_option
  set_option-outranked f key val s h = elim (Option-cases (flag_of key)) [
    | inl e ↦ rw (e, set_option) refl
    | inr (g, e) ↦ elim (Option-cases (parse_boolean_option val)) [
      | inl p ↦ rw (e, p, set_option) refl
      | inr (b, p) ↦ rw (e, p, set_option) (set_flag-outranked f g b s.config h)
    ]
  ]

  set_number-outranked :
      (f : Flag) (print : D → String) (is_nonpositive : D → Bool) (key : String) (val : D)
      (s : Settings D)
      → flag f (set_number print is_nonpositive key val s).0.config ≡ flag f s.config
  unfolding set_number flag
  set_number-outranked polytope print is_nonpositive key val s = ground (arith)
  set_number-outranked forall_polytope print is_nonpositive key val s = ground (arith)
  set_number-outranked local_optimization print is_nonpositive key val s = ground (arith)
  set_number-outranked worklist_fixpoint print is_nonpositive key val s = ground (arith)
  set_number-outranked models print is_nonpositive key val s = ground (arith)

  -- Whatever commands of a file run, those included that throw, a Boolean option that the command
  -- line or the code has set keeps its value and its origin.
  pub flag_outranked :
      (f : Flag) (s t : Settings D)
      → Reachable s t
      → outranks_file (flag f s.config).type ≡ true
      → flag f t.config ≡ flag f s.config
  unfolding set_info
  flag_outranked f s _ here h = refl
  flag_outranked f s _ (by_option r key val) h =
      let same = flag_outranked f s _ r h in
      set_option-outranked f key val _ (subst (λ o. outranks_file o.type ≡ true) (sym same) h)
      ∙ same
  flag_outranked f s _ (by_number r print is_nonpositive key val) h =
      set_number-outranked f print is_nonpositive key val _ ∙ flag_outranked f s _ r h
  flag_outranked f s _ (by_info r key val) h = flag_outranked f s _ r h
