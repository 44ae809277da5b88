-- ===== src/Channel/Object/Encoding/Receive.antt =====
-- That `receive_raw_object` of src/common/comm_channel.c reads the wire format.
use plcontainer.Common.{
  ℕ, suc, ◌*◌, ◌-◌, ◌^◌, ◌<◌, Option-cases, inl, inr, ◌≡◌, refl, subst, false, ltb, ◌==◌, ◌||◌,
  if◌then◌else◌, some, List, [], ◌∷◌, ◌++◌, length, All, arith, append-nil, append_assoc,
}
use plcontainer.Connectivity.Conn.{plc_buffer_read}
use plcontainer.Message.Datatype.{
  Datatype, datatype, int1, int2, int4, int8, float4, float8, unset, PlcType, plc_type, PlcTypes,
  plc_get_type_length,
}
use plcontainer.Message.Value.{Value, scalar, Raw, null, datum, Raws, count}
use plcontainer.Channel.Action.{Read, map_read, repeat, or_return, give}
use plcontainer.Channel.Action.Receives.{
  Receives, Receives-map_read, Receives-use_after, Receives-give, Receives-&&⊛, Receives-or_return,
  Receives-read,
}
use plcontainer.Channel.Word.{le_bytes, of_le_bytes, length-le_bytes, of_le_bytes-le_bytes}
use plcontainer.Channel.Primitive.{
  receive_char, receive_int16, receive_int32, receive_int64, receive_float4, receive_float8,
  receive_raw, is_negative,
}
use plcontainer.Channel.Primitive.Encoding.{
  Receives-word, Receives-int32, not_negative, Receives-cstring, Receives-bytea,
}
use plcontainer.Channel.Object.{
  Size, times, first_size, receive_nullable, with_dim, next_dim, receive_dims, array_of_dims,
  array_of_ndims, receive_items, receive_array, receive_fixed, receive_value, receive_element,
  receive_members, receive_raw_object,
}
use plcontainer.Channel.Object.Encoding.{
  encode_dims, encode_raw, encode_value, encode_items, encode_members, dims_size, counts, IsRawOf,
  IsValueOf, AreItemsOf, AreMembersOf,
}

Receives-fixed :
    (len n : ℕ) → n < 256 ^ len → Receives (le_bytes len n) (scalar n) (receive_fixed len)
unfolding receive_raw
Receives-fixed len n h =
    let bs = le_bytes len n in
    let f = λ (bytes : List ℕ). scalar (of_le_bytes bytes) in
    subst (λ w. Receives bs (scalar n) (map_read f (plc_buffer_read w))) (length-le_bytes len n)
      (subst (λ m. Receives bs (scalar m) (map_read f (plc_buffer_read (length bs))))
        (of_le_bytes-le_bytes len n h) (Receives-map_read (Receives-read bs) f))

Receives-null : (value : Read Value) → Receives (le_bytes 1 b'N') null (receive_nullable value)
unfolding receive_nullable receive_char
Receives-null value =
    subst (λ bs. Receives bs null (receive_nullable value)) (append-nil (le_bytes 1 b'N'))
      (Receives-use_after (Receives-word 1 b'N' (omega arith))
        (λ isn. if isn == b'N' then give null else map_read datum value) (Receives-give null))

Receives-datum :
    {bs : List ℕ} {v : Value} {value : Read Value}
    → Receives bs v value
    → Receives (le_bytes 1 b'D' ++ bs) (datum v) (receive_nullable value)
unfolding receive_nullable receive_char
Receives-datum {value} r =
    Receives-use_after (Receives-word 1 b'D' (omega arith))
      (λ isn. if isn == b'N' then give null else map_read datum value) (Receives-map_read r datum)

-- The dimensions and the size that the loop computes from them.
Receives-dims :
    (ds : List ℕ) (size last : Size)
    → All (λ d. d < 256 ^ 4) ds
    → dims_size size ds ≡ some last
    → Receives (encode_dims ds) (ds, last) (receive_dims (length ds) size)
unfolding receive_dims encode_dims dims_size receive_int32 next_dim
Receives-dims [] size last h e =
    let same : size ≡ last = cc in
    subst (λ s. Receives {A = List ℕ × Size} [] ([], s) (give ([], size))) same
      (Receives-give ([], size))
Receives-dims (d ∷ ds) size last h e = elim (Option-cases (times size d)) [
  | inl n ↦ cc (rw (n, dims_size) at e)
  | inr (size', s) ↦
      Receives-use_after (Receives-word 4 d h.0) (next_dim (receive_dims (length ds)) size) (
        rw (s, next_dim)
          (Receives-map_read (Receives-dims ds size' last h.1 (rw (s, dims_size) at e))
            (with_dim d)))
]

array_of_known :
    (type : Datatype) (element : Read Value) (ndims len : ℕ)
    → plc_get_type_length type ≡ some len
    → array_of_dims type element ndims ≡ array_of_ndims type element ndims
unfolding array_of_ndims plc_get_type_length
array_of_known unset element ndims len e = absurd (cc)
array_of_known _ element ndims len e = refl

module _ (type : PlcType) (dims : List ℕ) where
  Receives-items :
      (items : Raws) (len : ℕ)
      → plc_get_type_length (datatype type) ≡ some len
      → count items * len < 2 ^ 31
      → Receives
          (encode_items type items)
          items
          (repeat Raws.nil Raws.cons (count items) (receive_nullable (receive_element type)))
      → Receives
          (encode_items type items)
          (Value.array dims items)
          (receive_items (datatype type) (receive_element type) (dims, counts (count items)))
  unfolding receive_items
  Receives-items Raws.nil len e fits r =
      unfold encode_items in Receives-give (Value.array dims Raws.nil)
  Receives-items (Raws.cons x xs) len e fits r =
      rw
        (
          (let t : (false || suc (count xs) == 0) ≡ false = ground arith in t),
          e,
          (let t : ltb (2 ^ 31 - 1) (suc (count xs) * len) ≡ false = ground arith in t),
        )
        (Receives-map_read r (Value.array dims))

  opened :
      (items : Raws) (len : ℕ)
      → length dims < 2 ^ 31
      → All (λ d. d < 256 ^ 4) dims
      → dims_size (first_size (length dims)) dims ≡ some (counts (count items))
      → plc_get_type_length (datatype type) ≡ some len
      → count items * len < 2 ^ 31
      → Receives
          (encode_items type items)
          items
          (repeat Raws.nil Raws.cons (count items) (receive_nullable (receive_element type)))
      → Receives
          (encode_dims dims ++ encode_items type items)
          (Value.array dims items)
          (array_of_dims (datatype type) (receive_element type) (length dims))
  unfolding array_of_dims
  opened items len few words size e fits r =
      let n = length dims in
      let rounds : n ≡ (if is_negative n then 0 else n) = rw (not_negative n few) in
      subst
        (λ k. Receives (encode_dims dims ++ encode_items type items) (Value.array dims items) (
          or_return (receive_dims k (first_size n))
            (receive_items (datatype type) (receive_element type))))
        rounds
        (Receives-or_return
          (Receives-dims dims (first_size (length dims)) (counts (count items)) words size)
          (receive_items (datatype type) (receive_element type))
          (Receives-items items len e fits r))

  Receives-array :
      (items : Raws) (len : ℕ)
      → length dims < 2 ^ 31
      → All (λ d. d < 256 ^ 4) dims
      → dims_size (first_size (length dims)) dims ≡ some (counts (count items))
      → plc_get_type_length (datatype type) ≡ some len
      → count items * len < 2 ^ 31
      → Receives
          (encode_items type items)
          items
          (repeat Raws.nil Raws.cons (count items) (receive_nullable (receive_element type)))
      → Receives
          ((le_bytes 4 (length dims) ++ encode_dims dims) ++ encode_items type items)
          (Value.array dims items)
          (receive_array (datatype type) (receive_element type))
  unfolding receive_array
  Receives-array items len few words size e fits r = simp append_assoc (
      Receives-use_after (Receives-int32 (length dims) few)
        (array_of_ndims (datatype type) (receive_element type))
        (subst (Receives (encode_dims dims ++ encode_items type items) (Value.array dims items))
          (array_of_known (datatype type) (receive_element type) (length dims) len e)
          (opened items len few words size e fits r)))

no_array_length : (len : ℕ) → plc_get_type_length Datatype.array ≡ some len → ⊥
unfolding plc_get_type_length
no_array_length len e = cc

mutual
  unfolding receive_value encode_raw repeat receive_char receive_int16 receive_int32 receive_int64
      receive_float4 receive_float8

  value_comes_in :
      (t : PlcType) (v : Value) → IsValueOf t v → Receives (encode_value t v) v (receive_value t)
  value_comes_in (plc_type int1 _ _) (scalar n) h = Receives-map_read (Receives-word 1 n h) scalar
  value_comes_in (plc_type int2 _ _) (scalar n) h = Receives-map_read (Receives-word 2 n h) scalar
  value_comes_in (plc_type int4 _ _) (scalar n) h = Receives-map_read (Receives-word 4 n h) scalar
  value_comes_in (plc_type int8 _ _) (scalar n) h = Receives-map_read (Receives-word 8 n h) scalar
  value_comes_in (plc_type float4 _ _) (scalar n) h = Receives-map_read (Receives-word 4 n h) scalar
  value_comes_in (plc_type float8 _ _) (scalar n) h = Receives-map_read (Receives-word 8 n h) scalar
  value_comes_in (plc_type Datatype.text _ _) (Value.text s) h =
      Receives-map_read (Receives-cstring s h) Value.text
  value_comes_in (plc_type Datatype.bytea _ _) (Value.bytea s) h =
      Receives-map_read (Receives-bytea s h) Value.bytea
  value_comes_in (plc_type Datatype.array _ (PlcTypes.cons t _)) (Value.array dims items) h =
      Receives-array t dims items h.3.0 h.0 h.1 h.2 h.3.1 h.3.2
        (items_comes_in t items h.4 h.3.0 h.3.1)
  value_comes_in (plc_type Datatype.udt _ ts) (Value.udt members) h =
      Receives-map_read (members_comes_in ts members h) Value.udt
  value_comes_in _ _ h = absurd h

  element_comes_in :
      (t : PlcType) (v : Value)
      → IsValueOf t v
      → (len : ℕ) → plc_get_type_length (datatype t) ≡ some len
      → Receives (encode_value t v) v (receive_element t)
  element_comes_in (plc_type int1 _ _) (scalar n) h len e = Receives-fixed 1 n h
  element_comes_in (plc_type int2 _ _) (scalar n) h len e = Receives-fixed 2 n h
  element_comes_in (plc_type int4 _ _) (scalar n) h len e = Receives-fixed 4 n h
  element_comes_in (plc_type int8 _ _) (scalar n) h len e = Receives-fixed 8 n h
  element_comes_in (plc_type float4 _ _) (scalar n) h len e = Receives-fixed 4 n h
  element_comes_in (plc_type float8 _ _) (scalar n) h len e = Receives-fixed 8 n h
  element_comes_in (plc_type Datatype.text _ _) (Value.text s) h len e =
      Receives-map_read (Receives-cstring s h) Value.text
  element_comes_in (plc_type Datatype.bytea _ _) (Value.bytea s) h len e =
      Receives-map_read (Receives-bytea s h) Value.bytea
  element_comes_in (plc_type Datatype.array _ (PlcTypes.cons t _)) (Value.array dims items) h len
        e =
      absurd (no_array_length len e)
  element_comes_in (plc_type Datatype.udt _ ts) (Value.udt members) h len e =
      Receives-map_read (members_comes_in ts members h) Value.udt
  element_comes_in _ _ h len e = absurd h

  items_comes_in :
      (t : PlcType) (rs : Raws)
      → AreItemsOf t rs
      → (len : ℕ) → plc_get_type_length (datatype t) ≡ some len
      → Receives
          (encode_items t rs)
          rs
          (repeat Raws.nil Raws.cons (count rs) (receive_nullable (receive_element t)))
  items_comes_in t Raws.nil h len e = Receives-give Raws.nil
  items_comes_in t (Raws.cons null rs) h len e =
      Receives-&&⊛
        (Receives-map_read {B = Raws → Raws} (Receives-null (receive_element t)) Raws.cons)
        (items_comes_in t rs h.1 len e)
  items_comes_in t (Raws.cons (datum v) rs) h len e =
      Receives-&&⊛
        (Receives-map_read {B = Raws → Raws} (Receives-datum (element_comes_in t v h.0 len e))
          Raws.cons)
        (items_comes_in t rs h.1 len e)

  members_comes_in :
      (ts : PlcTypes) (rs : Raws)
      → AreMembersOf ts rs
      → Receives (encode_members ts rs) rs (receive_members ts)
  members_comes_in PlcTypes.nil Raws.nil h = Receives-give Raws.nil
  members_comes_in (PlcTypes.cons t ts) (Raws.cons null rs) h =
      Receives-&&⊛ (Receives-map_read {B = Raws → Raws} (Receives-null (receive_value t)) Raws.cons)
        (members_comes_in ts rs h.1)
  members_comes_in (PlcTypes.cons t ts) (Raws.cons (datum v) rs) h =
      Receives-&&⊛
        (Receives-map_read {B = Raws → Raws} (Receives-datum (value_comes_in t v h.0)) Raws.cons)
        (members_comes_in ts rs h.1)
  members_comes_in _ _ h = absurd h

-- `receive_raw_object` takes the encoding of a value of its type and returns the value.
pub Receives-raw_object :
    (t : PlcType) (r : Raw) → IsRawOf t r → Receives (encode_raw t r) r (receive_raw_object t)
unfolding receive_raw_object encode_raw
Receives-raw_object t null h = Receives-null (receive_value t)
Receives-raw_object t (datum v) h = Receives-datum (value_comes_in t v h)

pub Receives-members :
    (ts : PlcTypes) (rs : Raws)
    → AreMembersOf ts rs
    → Receives (encode_members ts rs) rs (receive_members ts)
Receives-members ts rs h = members_comes_in ts rs h
