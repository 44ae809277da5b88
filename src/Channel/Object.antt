-- ===== src/Channel/Object.antt =====
-- `send_raw_object` and `receive_raw_object` of src/common/comm_channel.c, with arrays and
-- composites.
pub mod Encoding
use plcontainer.Common.{
  ℕ, zero, suc, ◌*◌, ◌-◌, ◌^◌, Bool, false, ◌||◌, Option, none, some, List, [], ◌∷◌, length, ltb,
  leb, ◌==◌, if◌then◌else◌,
}
use mathlib.Core.Bool.{xor}
use plcontainer.Outcome.{Outcome, raised, undefined, Action, pure, ◌>>=◌}
use plcontainer.Connectivity.Conn.{Conn, Status, success}
use plcontainer.Message.Datatype.{
  Datatype, datatype, int1, int2, int4, int8, float4, float8, invalid, unset, unknown, PlcType,
  plc_type, PlcTypes, plc_get_type_length,
}
use plcontainer.Message.Datatype
use plcontainer.Message.Value.{Value, scalar, Raw, null, datum, Raws, count}
use plcontainer.Message.Value
use plcontainer.Channel.Action.{
  Write, Read, ◌|=◌, ◌&&=◌, ◌&&⊛◌, map_read, use_after, or_return, give, raise, misuse, repeat,
}
use plcontainer.Channel.Word.{of_le_bytes}
use plcontainer.Channel.Primitive.{
  send_char, send_int16, send_int32, send_int64, send_float4, send_float8, send_cstring, send_bytea,
  receive_char, receive_int16, receive_int32, receive_int64, receive_float4, receive_float8,
  receive_raw, receive_cstring, receive_bytea, is_negative,
}

unfoldable pub send_dims : List ℕ → Write
send_dims [] = pure success
send_dims (d ∷ ds) = send_int32 d |= send_dims ds

-- A value that is not of its type is read through a pointer of another type.
unfoldable mutual
  unfolding send_dims

  pub send_raw_object : PlcType → Raw → Write
  send_raw_object type null = send_char b'N'
  send_raw_object type (datum value) = send_char b'D' |= send_value type value

  pub send_value : PlcType → Value → Write
  send_value (plc_type int1 _ _) (scalar n) = send_char n
  send_value (plc_type int2 _ _) (scalar n) = send_int16 n
  send_value (plc_type int4 _ _) (scalar n) = send_int32 n
  send_value (plc_type int8 _ _) (scalar n) = send_int64 n
  send_value (plc_type float4 _ _) (scalar n) = send_float4 n
  send_value (plc_type float8 _ _) (scalar n) = send_float8 n
  send_value (plc_type Datatype.text _ _) (Value.text s) = send_cstring s
  send_value (plc_type Datatype.bytea _ _) (Value.bytea s) = send_bytea s
  send_value (plc_type Datatype.array _ (PlcTypes.cons type _)) (Value.array dims items) =
      send_int32 (length dims) |= send_dims dims &&= send_items type items
  send_value (plc_type Datatype.udt _ sub_types) (Value.udt members) =
      send_members sub_types members
  send_value (plc_type invalid _ _) value = raise
  send_value (plc_type (unknown _) _ _) value = raise
  send_value _ value = misuse

  -- The loop of `send_raw_array_iter` over what the iterator yields.
  pub send_items : PlcType → Raws → Write
  send_items type Raws.nil = pure success
  send_items type (Raws.cons r rs) = send_raw_object type r &&= send_items type rs

  -- The loop of `send_udt`.
  pub send_members : PlcTypes → Raws → Write
  send_members PlcTypes.nil members = pure success
  send_members (PlcTypes.cons t ts) (Raws.cons r rs) = send_raw_object t r &&= send_members ts rs
  send_members (PlcTypes.cons t ts) Raws.nil = misuse

-- `if (isn == 'N')` after a read of `isn`, which is compared whether or not it was received.
unfoldable pub receive_nullable : Read Value → Read Raw
receive_nullable value =
    use_after receive_char λ isn. if isn == b'N' then give null else map_read datum value

-- `arr->meta->size`, an `int`, as a sign and a magnitude.
pub record Size : Type 0 where
  pub negative : Bool
  pub magnitude : ℕ

-- `size *= dim`; `none` is signed overflow.
unfoldable pub times : Size → ℕ → Option Size
times size dim =
    let below = is_negative dim in
    let sign = xor size.negative below in
    let product = size.magnitude * (if below then 2 ^ 32 - dim else dim) in
    if ltb (if sign then 2 ^ 31 else 2 ^ 31 - 1) product
    then none
    else some (record { negative = sign; magnitude = product })

abbrev pub with_dim : ℕ → List ℕ × Size → List ℕ × Size
with_dim dim (ds, size) = (dim ∷ ds, size)

-- A dimension is multiplied into the size, and the loop goes on with `rest`.
unfoldable pub next_dim : (Size → Read (List ℕ × Size)) → Size → ℕ → Read (List ℕ × Size)
unfolding times
next_dim rest size dim = elim (times size dim) [
  | none ↦ misuse
  | some size' ↦ map_read (with_dim dim) (rest size')
]

-- The loop over the dimensions. Each is used whether or not it was received.
unfoldable pub receive_dims : ℕ → Size → Read (List ℕ × Size)
unfolding next_dim
receive_dims zero size = give ([], size)
receive_dims (suc n) size = use_after receive_int32 (next_dim (receive_dims n) size)

abbrev pub first_size : ℕ → Size
first_size ndims = record {
  negative = false;
  magnitude = if ndims == 0 || is_negative ndims then 0 else 1;
}

-- The element loop. The length of an element is asked for first, and the block's size computed.
unfoldable pub receive_items : Datatype → Read Value → List ℕ × Size → Read Value
receive_items type element (dims, size) =
    if size.negative || size.magnitude == 0
    then give (Value.array dims Raws.nil)
    else elim (plc_get_type_length type) [
      | none ↦ raise
      | some entrylen ↦
          if ltb (2 ^ 31 - 1) (size.magnitude * entrylen)
          then misuse
          else map_read (Value.array dims)
              (repeat Raws.nil Raws.cons size.magnitude (receive_nullable element))
    ]

-- The dimensions and the elements of `receive_array`.
unfoldable pub array_of_dims : Datatype → Read Value → ℕ → Read Value
unfolding receive_dims receive_items receive_nullable
array_of_dims type element ndims =
    or_return (receive_dims (if is_negative ndims then 0 else ndims) (first_size ndims))
      (receive_items type element)

-- The rest of `receive_array` once the number of dimensions was read. `arr->meta->type` is taken
-- from the element type first.
unfoldable pub array_of_ndims : Datatype → Read Value → ℕ → Read Value
unfolding array_of_dims
array_of_ndims unset element ndims = misuse
array_of_ndims type element ndims = array_of_dims type element ndims

-- `receive_array` for elements of a datatype that are received by `element`.
unfoldable pub receive_array : Datatype → Read Value → Read Value
unfolding array_of_ndims
receive_array type element = use_after receive_int32 (array_of_ndims type element)

abbrev pub receive_fixed : ℕ → Read Value
receive_fixed len = map_read (λ bytes. scalar (of_le_bytes bytes)) (receive_raw len)

unfoldable mutual
  unfolding receive_array receive_nullable

  -- The `switch` of `receive_raw_object`.
  pub receive_value : PlcType → Read Value
  receive_value (plc_type int1 _ _) = map_read scalar receive_char
  receive_value (plc_type int2 _ _) = map_read scalar receive_int16
  receive_value (plc_type int4 _ _) = map_read scalar receive_int32
  receive_value (plc_type int8 _ _) = map_read scalar receive_int64
  receive_value (plc_type float4 _ _) = map_read scalar receive_float4
  receive_value (plc_type float8 _ _) = map_read scalar receive_float8
  receive_value (plc_type Datatype.text _ _) = map_read Value.text receive_cstring
  receive_value (plc_type Datatype.bytea _ _) = map_read Value.bytea receive_bytea
  receive_value (plc_type Datatype.array _ PlcTypes.nil) = misuse
  receive_value (plc_type Datatype.array _ (PlcTypes.cons type _)) =
      receive_array (datatype type) (receive_element type)
  receive_value (plc_type Datatype.udt _ sub_types) = map_read Value.udt (receive_members sub_types)
  receive_value (plc_type unset _ _) = misuse
  receive_value (plc_type invalid _ _) = raise
  receive_value (plc_type (unknown _) _ _) = raise

  -- The `switch` of `receive_array`.
  pub receive_element : PlcType → Read Value
  receive_element (plc_type int1 _ _) = receive_fixed 1
  receive_element (plc_type int2 _ _) = receive_fixed 2
  receive_element (plc_type int4 _ _) = receive_fixed 4
  receive_element (plc_type int8 _ _) = receive_fixed 8
  receive_element (plc_type float4 _ _) = receive_fixed 4
  receive_element (plc_type float8 _ _) = receive_fixed 8
  receive_element (plc_type Datatype.text _ _) = map_read Value.text receive_cstring
  receive_element (plc_type Datatype.bytea _ _) = map_read Value.bytea receive_bytea
  receive_element (plc_type Datatype.udt _ sub_types) =
      map_read Value.udt (receive_members sub_types)
  receive_element (plc_type Datatype.array _ _) = raise
  receive_element (plc_type unset _ _) = misuse
  receive_element (plc_type invalid _ _) = raise
  receive_element (plc_type (unknown _) _ _) = raise

  -- The loop of `receive_udt`.
  pub receive_members : PlcTypes → Read Raws
  receive_members PlcTypes.nil = give Raws.nil
  receive_members (PlcTypes.cons t ts) =
      map_read {B = Raws → Raws} Raws.cons (receive_nullable (receive_value t))
      &&⊛ receive_members ts

unfoldable pub receive_raw_object : PlcType → Read Raw
unfolding receive_value receive_nullable
receive_raw_object type = receive_nullable (receive_value type)
