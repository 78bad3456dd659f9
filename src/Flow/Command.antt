-- ===== src/Flow/Command.antt =====
-- lib/flow-lib/src/command/mod.rs: what the graph asks of a command, with the default methods of
-- `CommandTrait`; `InstructionInfo`; and the descriptions of lib/flow-lib/src/config/mod.rs.
use flow_backend.Prelude.{
  Bool, true, false, not, ◌&&◌, Option, none, some, List, [], ◌∷◌, Str, str_beq, filter,
  map as list_map, ◌++◌, if◌then◌else◌,
}
use flow_backend.Value
use flow_backend.Value.{Value, Map}

abbrev pub Name : Type 0
Name = Str

pub data ValueType : Type 0 where
  bool u8 u16 u32 u64 u128 i8 i16 i32 i64 i128 f32 f64 decimal pubkey address : ValueType
  keypair signature string bytes array map json free other : ValueType

pub record CmdInputDescription : Type 0 where
  pub name : Name
  pub type_bounds : List ValueType
  pub required : Bool
  pub passthrough : Bool

pub record CmdOutputDescription : Type 0 where
  pub name : Name
  pub type : ValueType
  pub optional : Bool

pub record InstructionInfo : Type 0 where
  pub before : List Name
  pub signature : Name
  pub after : List Name

-- `dyn CommandTrait`, without `run`: what a run returns is an event of the execution.
pub record Command : Type 0 where
  pub name : Name
  pub inputs : List CmdInputDescription
  pub outputs : List CmdOutputDescription
  pub instruction_info : Option InstructionInfo

find_required : Name → List CmdInputDescription → Option Bool
find_required name [] = none
find_required name (i ∷ is) = if str_beq i.name name then some i.required else find_required name is

unfoldable pub input_is_required : Command → Name → Option Bool
unfolding find_required
input_is_required c name = find_required name c.inputs

find_optional : Name → List CmdOutputDescription → Option Bool
find_optional name [] = none
find_optional name (o ∷ os) = if str_beq o.name name then some o.optional else find_optional name os

unfoldable pub output_is_optional : Command → Name → Option Bool
unfolding find_optional
output_is_optional c name = find_optional name c.outputs

abbrev is_null : Value → Bool
is_null Value.null = true
is_null _ = false

-- How the deserializers of a type read a value, the conversion back included; `none` is an error.
abbrev pub ReadAs : Type 0
ReadAs = ValueType → Value → Option Value

abbrev or_else {ℓ} : {A : Type ℓ} → Option A → A → A
or_else none d = d
or_else (some a) d = a

-- The conversion by the first type bound, or the value itself where that fails.
unfoldable pub convert : ReadAs → List ValueType → Value → Value
convert read (ValueType.pubkey ∷ _) v = or_else (read ValueType.pubkey v) v
convert read (ValueType.keypair ∷ _) v = or_else (read ValueType.keypair v) v
convert read (ValueType.signature ∷ _) v = or_else (read ValueType.signature v) v
convert read (ValueType.decimal ∷ _) v = or_else (read ValueType.decimal v) v
convert read _ v = v

passthrough_one : ReadAs → Map → CmdInputDescription → Option Value → Map → Map
passthrough_one read inputs i none res = res
passthrough_one read inputs i (some value) res =
    if not i.required && is_null value
    then res
    else Value.insert res i.name (convert read i.type_bounds value)

passthrough_loop : ReadAs → Map → List CmdInputDescription → Map → Map
passthrough_loop read inputs [] res = res
passthrough_loop read inputs (i ∷ is) res =
    passthrough_loop read inputs is
      (if i.passthrough then passthrough_one read inputs i (Value.get inputs i.name) res else res)

unfoldable pub passthrough_outputs : ReadAs → Command → Map → Map
unfolding passthrough_one passthrough_loop convert
passthrough_outputs read c inputs = passthrough_loop read inputs c.inputs Map.empty

-- InstructionInfo::simple
unfoldable pub simple : Command → Name → InstructionInfo
simple c sign = record {
  before =
      list_map (λ i. i.name) (filter (λ i. i.passthrough) c.inputs)
      ++ list_map (λ o. o.name) (filter (λ o. not (str_beq o.name sign)) c.outputs);
  signature = sign;
  after = [];
}
