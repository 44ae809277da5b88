-- ===== src/Message/Datatype.antt =====
-- `plcDatatype` and `plcType` of src/common/messages/message_base.h, and the functions on
-- datatypes of src/common/comm_messages.c.
use plcontainer.Common.{
  ℕ, suc, ◌%◌, Bool, true, false, Option, none, some, List, ◌==◌, if◌then◌else◌, ◌≡◌, refl,
}

-- A `char *`: NULL, or the characters before the NUL.
abbrev pub Cstring : Type 0
Cstring = Option (List ℕ)

pub data Datatype : Type 0 where
  int1 int2 int4 int8 float4 float8 text array udt bytea invalid : Datatype
  -- An entry that was allocated and not filled.
  unset : Datatype
  unknown : ℕ → Datatype

-- `(char) type->type`
unfoldable pub to_code : Datatype → ℕ
to_code int1 = 0
to_code int2 = 1
to_code int4 = 2
to_code int8 = 3
to_code float4 = 4
to_code float8 = 5
to_code text = 6
to_code array = 7
to_code udt = 8
to_code bytea = 9
to_code invalid = 10
to_code unset = 0
to_code (unknown n) = n % 256

-- `(int) typ`
unfoldable pub of_code : ℕ → Datatype
of_code n =
    if n == 0
    then int1
    else if n == 1
    then int2
    else if n == 2
    then int4
    else if n == 3
    then int8
    else if n == 4
    then float4
    else if n == 5
    then float8
    else if n == 6
    then text
    else if n == 7
    then array
    else if n == 8
    then udt
    else if n == 9
    then bytea
    else if n == 10
    then invalid
    else unknown n

abbrev pub has_subtypes : Datatype → Bool
has_subtypes array = true
has_subtypes udt = true
has_subtypes _ = false

-- `plc_get_type_length`; `none` is its `plc_elog(ERROR)`. A pointer takes 8 bytes.
unfoldable pub plc_get_type_length : Datatype → Option ℕ
plc_get_type_length int1 = some 1
plc_get_type_length int2 = some 2
plc_get_type_length int4 = some 4
plc_get_type_length int8 = some 8
plc_get_type_length float4 = some 4
plc_get_type_length float8 = some 8
plc_get_type_length text = some 8
plc_get_type_length udt = some 8
plc_get_type_length bytea = some 8
plc_get_type_length _ = none

-- `subTypes` has `nSubTypes` entries.
mutual
  pub data PlcType : Type 0 where
    plc_type : Datatype → Cstring → PlcTypes → PlcType

  pub data PlcTypes : Type 0 where
    nil : PlcTypes
    cons : PlcType → PlcTypes → PlcTypes

abbrev pub n_sub_types : PlcTypes → ℕ
n_sub_types nil = 0
n_sub_types (cons t ts) = suc (n_sub_types ts)

-- The datatypes that the header names.
abbrev pub IsKnown : Datatype → Type 0
IsKnown (unknown n) = ⊥
IsKnown unset = ⊥
IsKnown _ = Unit {0}

pub of_code-to_code : (d : Datatype) → IsKnown d → of_code (to_code d) ≡ d
unfolding of_code to_code
of_code-to_code int1 k = refl
of_code-to_code (unknown n) k = absurd k
of_code-to_code unset k = absurd k
of_code-to_code _ k = refl

abbrev pub datatype : PlcType → Datatype
datatype (plc_type type _ _) = type
