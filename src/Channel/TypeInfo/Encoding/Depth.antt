-- ===== src/Channel/TypeInfo/Encoding/Depth.antt =====
-- A type of src/common/comm_channel.c is nested at most as deep as its wire format is long.
use plcontainer.Common.{◌≤◌, ◌++◌, length, ◌≡◌, refl, arith, length-append, Bool-cases, inl, inr}
use plcontainer.Message.Datatype.{
  Cstring, Datatype, PlcType, plc_type, PlcTypes, nil, cons, to_code, has_subtypes, n_sub_types,
}
use plcontainer.Channel.Word.{le_bytes, length-le_bytes}
use plcontainer.Channel.Primitive.Encoding.{encode_cstring}
use plcontainer.Channel.TypeInfo.Encoding.{
  encode_type, encode_types, depth, depth_all, IsType, AreTypes, HasNoSubtypes,
}

no_depth : (ts : PlcTypes) → HasNoSubtypes ts → depth_all ts ≡ 0
unfolding depth_all
no_depth nil h = refl
no_depth (cons t ts) h = absurd h

node :
    (type : Datatype) (type_name : Cstring) (ts : PlcTypes)
    → IsType (plc_type type type_name ts)
    → depth_all ts ≤ length (encode_types ts)
    → depth (plc_type type type_name ts) ≤ length (encode_type (plc_type type type_name ts))
unfolding encode_type depth
node type type_name ts h d = elim (Bool-cases (has_subtypes type)) [
  | inl e ↦ rw e (
      omega (
        arith,
        length-append
            ((le_bytes 1 (to_code type) ++ encode_cstring type_name) ++ le_bytes 2 (n_sub_types ts))
            (encode_types ts),
        length-append (le_bytes 1 (to_code type) ++ encode_cstring type_name)
            (le_bytes 2 (n_sub_types ts)),
        length-le_bytes 2 (n_sub_types ts),
        d,
      ))
  | inr e ↦ rw e (
      omega (
        arith,
        length-append (le_bytes 1 (to_code type)) (encode_cstring type_name),
        length-le_bytes 1 (to_code type),
        no_depth ts (rw e at h.2),
      ))
]

mutual
  unfolding encode_types depth_all

  depth_at_most : (t : PlcType) → IsType t → depth t ≤ length (encode_type t)
  depth_at_most (plc_type type type_name ts) h = node type type_name ts h (depths_at_most ts h.3)

  depths_at_most : (ts : PlcTypes) → AreTypes ts → depth_all ts ≤ length (encode_types ts)
  depths_at_most nil h = omega arith
  depths_at_most (cons t ts) h = omega (
    arith,
    depth_at_most t h.0,
    depths_at_most ts h.1,
    length-append (encode_type t) (encode_types ts),
  )

pub depth-encode_type : (t : PlcType) → IsType t → depth t ≤ length (encode_type t)
depth-encode_type t h = depth_at_most t h
