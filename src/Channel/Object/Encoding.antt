-- ===== src/Channel/Object/Encoding.antt =====
-- The wire format of values, and which values are of a type: src/common/comm_channel.c.
pub mod Send
pub mod Receive
use plcontainer.Common.{
  ℕ, suc, ◌+◌, ◌*◌, ◌^◌, ◌<◌, false, Option, none, some, List, [], ◌∷◌, ◌++◌, length, ◌≡◌, All,
}
use plcontainer.Message.Datatype.{
  Datatype, datatype, int1, int2, int4, int8, float4, float8, invalid, unknown, PlcType, plc_type,
  PlcTypes, plc_get_type_length,
}
use plcontainer.Message.Value.{Value, scalar, Raw, null, datum, Raws, count}
use plcontainer.Channel.Word.{le_bytes}
use plcontainer.Channel.Primitive.Encoding.{encode_cstring, encode_bytea, IsCstring, IsBytea}
use plcontainer.Channel.Object.{Size, times, first_size}

unfoldable pub encode_dims : List ℕ → List ℕ
encode_dims [] = []
encode_dims (d ∷ ds) = le_bytes 4 d ++ encode_dims ds

unfoldable mutual
  unfolding encode_dims

  pub encode_raw : PlcType → Raw → List ℕ
  encode_raw type null = le_bytes 1 b'N'
  encode_raw type (datum value) = le_bytes 1 b'D' ++ encode_value type value

  pub encode_value : PlcType → Value → List ℕ
  encode_value (plc_type int1 _ _) (scalar n) = le_bytes 1 n
  encode_value (plc_type int2 _ _) (scalar n) = le_bytes 2 n
  encode_value (plc_type int4 _ _) (scalar n) = le_bytes 4 n
  encode_value (plc_type int8 _ _) (scalar n) = le_bytes 8 n
  encode_value (plc_type float4 _ _) (scalar n) = le_bytes 4 n
  encode_value (plc_type float8 _ _) (scalar n) = le_bytes 8 n
  encode_value (plc_type Datatype.text _ _) (Value.text s) = encode_cstring s
  encode_value (plc_type Datatype.bytea _ _) (Value.bytea s) = encode_bytea s
  encode_value (plc_type Datatype.array _ (PlcTypes.cons type _)) (Value.array dims items) =
      (le_bytes 4 (length dims) ++ encode_dims dims) ++ encode_items type items
  encode_value (plc_type Datatype.udt _ sub_types) (Value.udt members) =
      encode_members sub_types members
  encode_value type value = []

  pub encode_items : PlcType → Raws → List ℕ
  encode_items type Raws.nil = []
  encode_items type (Raws.cons r rs) = encode_raw type r ++ encode_items type rs

  pub encode_members : PlcTypes → Raws → List ℕ
  encode_members (PlcTypes.cons t ts) (Raws.cons r rs) = encode_raw t r ++ encode_members ts rs
  encode_members types members = []

-- The number of elements, by the code's multiplication; `none` is signed overflow.
unfoldable pub dims_size : Size → List ℕ → Option Size
dims_size size [] = some size
dims_size size (d ∷ ds) = elim (times size d) [ none ↦ none | some size' ↦ dims_size size' ds ]

abbrev pub counts : ℕ → Size
counts n = record { negative = false; magnitude = n }

-- The values that the protocol can carry at a type. An array's dimensions give the number of its
-- elements, and its block fits an `int`, which leaves out arrays of arrays.
abbrev mutual
  pub IsRawOf : PlcType → Raw → Type 0
  IsRawOf type null = Unit {0}
  IsRawOf type (datum value) = IsValueOf type value

  pub IsValueOf : PlcType → Value → Type 0
  IsValueOf (plc_type int1 _ _) (scalar n) = n < 256 ^ 1
  IsValueOf (plc_type int2 _ _) (scalar n) = n < 256 ^ 2
  IsValueOf (plc_type int4 _ _) (scalar n) = n < 256 ^ 4
  IsValueOf (plc_type int8 _ _) (scalar n) = n < 256 ^ 8
  IsValueOf (plc_type float4 _ _) (scalar n) = n < 256 ^ 4
  IsValueOf (plc_type float8 _ _) (scalar n) = n < 256 ^ 8
  IsValueOf (plc_type Datatype.text _ _) (Value.text s) = IsCstring s
  IsValueOf (plc_type Datatype.bytea _ _) (Value.bytea s) = IsBytea s
  IsValueOf (plc_type Datatype.array _ (PlcTypes.cons type _)) (Value.array dims items) =
      (length dims < 2 ^ 31)
      × All (λ d. d < 256 ^ 4) dims
      × (dims_size (first_size (length dims)) dims ≡ some (counts (count items)))
      × ((len : ℕ) × (plc_get_type_length (datatype type) ≡ some len)
          × (count items * len < 2 ^ 31))
      × AreItemsOf type items
  IsValueOf (plc_type Datatype.udt _ sub_types) (Value.udt members) = AreMembersOf sub_types members
  IsValueOf type value = ⊥

  pub AreItemsOf : PlcType → Raws → Type 0
  AreItemsOf type Raws.nil = Unit {0}
  AreItemsOf type (Raws.cons r rs) = IsRawOf type r × AreItemsOf type rs

  pub AreMembersOf : PlcTypes → Raws → Type 0
  AreMembersOf PlcTypes.nil Raws.nil = Unit {0}
  AreMembersOf (PlcTypes.cons t ts) (Raws.cons r rs) = IsRawOf t r × AreMembersOf ts rs
  AreMembersOf types members = ⊥
