-- ===== src/OptionValue.antt =====
-- dreal/util/option_value.h: a value with the origin that set it, by which a request of a weaker
-- origin is ignored.
pub mod Priority

pub data Origin : Type 0 where
  default : Origin
  from_file : Origin
  from_command_line : Origin
  from_code : Origin

pub record OptionValue (T : Type 0) : Type 0 where
  pub value : T
  pub type : Origin

module _ {T : Type 0} where
  unfoldable pub new : T → OptionValue T
  new value = record { value = value; type = default }

  -- `operator=` of a `T`.
  unfoldable pub assign : T → OptionValue T → OptionValue T
  assign value o = record { value = value; type = from_code }

  unfoldable pub set_from_command_line : T → OptionValue T → OptionValue T
  set_from_command_line value o = elim o.type [
    | default ↦ record { value = value; type = from_command_line }
    | from_file ↦ record { value = value; type = from_command_line }
    | from_command_line ↦ record { value = value; type = from_command_line }
    | from_code ↦ o
  ]

  unfoldable pub set_from_file : T → OptionValue T → OptionValue T
  set_from_file value o = elim o.type [
    | default ↦ record { value = value; type = from_file }
    | from_file ↦ record { value = value; type = from_file }
    | from_command_line ↦ o
    | from_code ↦ o
  ]
