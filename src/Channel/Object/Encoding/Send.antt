-- ===== src/Channel/Object/Encoding/Send.antt =====
-- That `send_raw_object` of src/common/comm_channel.c writes the wire format.
use plcontainer.Common.{ℕ, List, [], ◌∷◌, length}
use plcontainer.Message.Datatype.{
  Datatype, int1, int2, int4, int8, float4, float8, PlcType, plc_type, PlcTypes,
}
use plcontainer.Message.Value.{Value, scalar, Raw, null, datum, Raws}
use plcontainer.Channel.Action.Sends.{Sends, Sends-|=, Sends-&&=, Sends-append, Sends-nothing}
use plcontainer.Channel.Word.{le_bytes}
use plcontainer.Channel.Primitive.{
  send_char, send_int16, send_int32, send_int64, send_float4, send_float8,
}
use plcontainer.Channel.Primitive.Encoding.{Sends-cstring, Sends-bytea}
use plcontainer.Channel.Object.{send_dims, send_raw_object, send_value, send_items, send_members}
use plcontainer.Channel.Object.Encoding.{
  encode_dims, encode_raw, encode_value, encode_items, encode_members, IsRawOf, IsValueOf,
  AreItemsOf, AreMembersOf,
}

Sends-dims : (ds : List ℕ) → Sends (encode_dims ds) (send_dims ds)
unfolding send_dims encode_dims send_int32
Sends-dims [] = Sends-nothing
Sends-dims (d ∷ ds) = Sends-|= (Sends-append (le_bytes 4 d)) (Sends-dims ds)

mutual
  unfolding send_raw_object encode_raw send_char send_int16 send_int32 send_int64 send_float4
      send_float8

  raw_goes_out :
      (t : PlcType) (r : Raw) → IsRawOf t r → Sends (encode_raw t r) (send_raw_object t r)
  raw_goes_out t null h = Sends-append (le_bytes 1 b'N')
  raw_goes_out t (datum v) h = Sends-|= (Sends-append (le_bytes 1 b'D')) (value_goes_out t v h)

  value_goes_out :
      (t : PlcType) (v : Value) → IsValueOf t v → Sends (encode_value t v) (send_value t v)
  value_goes_out (plc_type int1 _ _) (scalar n) h = Sends-append (le_bytes 1 n)
  value_goes_out (plc_type int2 _ _) (scalar n) h = Sends-append (le_bytes 2 n)
  value_goes_out (plc_type int4 _ _) (scalar n) h = Sends-append (le_bytes 4 n)
  value_goes_out (plc_type int8 _ _) (scalar n) h = Sends-append (le_bytes 8 n)
  value_goes_out (plc_type float4 _ _) (scalar n) h = Sends-append (le_bytes 4 n)
  value_goes_out (plc_type float8 _ _) (scalar n) h = Sends-append (le_bytes 8 n)
  value_goes_out (plc_type Datatype.text _ _) (Value.text s) h = Sends-cstring s h
  value_goes_out (plc_type Datatype.bytea _ _) (Value.bytea s) h = Sends-bytea s
  value_goes_out (plc_type Datatype.array _ (PlcTypes.cons t _)) (Value.array dims items) h =
      Sends-&&= (Sends-|= (Sends-append (le_bytes 4 (length dims))) (Sends-dims dims))
        (items_goes_out t items h.4)
  value_goes_out (plc_type Datatype.udt _ ts) (Value.udt members) h = members_goes_out ts members h
  value_goes_out _ _ h = absurd h

  items_goes_out :
      (t : PlcType) (rs : Raws) → AreItemsOf t rs → Sends (encode_items t rs) (send_items t rs)
  items_goes_out t Raws.nil h = Sends-nothing
  items_goes_out t (Raws.cons r rs) h = Sends-&&= (raw_goes_out t r h.0) (items_goes_out t rs h.1)

  members_goes_out :
      (ts : PlcTypes) (rs : Raws)
      → AreMembersOf ts rs
      → Sends (encode_members ts rs) (send_members ts rs)
  members_goes_out PlcTypes.nil Raws.nil h = Sends-nothing
  members_goes_out (PlcTypes.cons t ts) (Raws.cons r rs) h =
      Sends-&&= (raw_goes_out t r h.0) (members_goes_out ts rs h.1)
  members_goes_out _ _ h = absurd h

-- `send_raw_object` adds the encoding of its value.
pub Sends-raw_object :
    (t : PlcType) (r : Raw) → IsRawOf t r → Sends (encode_raw t r) (send_raw_object t r)
Sends-raw_object t r h = raw_goes_out t r h

pub Sends-members :
    (ts : PlcTypes) (rs : Raws)
    → AreMembersOf ts rs
    → Sends (encode_members ts rs) (send_members ts rs)
Sends-members ts rs h = members_goes_out ts rs h
