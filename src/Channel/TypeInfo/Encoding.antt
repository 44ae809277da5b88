-- ===== src/Channel/TypeInfo/Encoding.antt =====
-- The wire format of types, and that `send_type` and `receive_type` of
-- src/common/comm_channel.c agree on it.
pub mod Depth
use plcontainer.Common.{
  ℕ, zero, suc, ◌+◌, ◌≤◌, ◌<◌, ◌^◌, Bool, true, false, Option, none, some, List, [], ◌∷◌, ◌++◌,
  length, leb, if◌then◌else◌, ◌≡◌, refl, sym, ap, ap₂, ◌∙◌, subst, arith, append-nil, append_assoc,
  Bool-cases, inl, inr,
}
use Prim.Native.Nat.{max}
use plcontainer.Outcome.{Action, pure, ◌>>=◌}
use plcontainer.Connectivity.Conn.{Conn}
use plcontainer.Message.Datatype.{
  Cstring, Datatype, int1, int2, int4, int8, float4, float8, text, array, udt, bytea, invalid,
  unknown, PlcType, plc_type, PlcTypes, nil, cons, to_code, of_code, has_subtypes, n_sub_types,
  IsKnown, of_code-to_code,
}
use plcontainer.Channel.Action.{Read, Write, ◌|=◌, ◌&&=◌, ◌⊛◌, map_read, use_after, give, repeat}
use plcontainer.Channel.Action.Sends.{Sends, Sends-|=, Sends-&&=, Sends-append, Sends-nothing}
use plcontainer.Channel.Action.Receives.{Yields, Yields-bind, Yields-pure, Receives}
use plcontainer.Channel.Word.{le_bytes}
use plcontainer.Channel.Primitive.{
  send_char, send_int16, send_cstring, receive_char, receive_int16, receive_cstring,
}
use plcontainer.Channel.Primitive.Encoding.{
  Receives-word, encode_cstring, IsCstring, Sends-cstring, Receives-cstring,
}
use plcontainer.Channel.TypeInfo.{
  Fetched, whole, part, finish, extend, next_type, send_type, send_types, receive_type,
  receive_types, receive_type_body, receive_sub_types, rounds16,
}

unfoldable mutual
  pub encode_type : PlcType → List ℕ
  encode_type (plc_type type type_name sub_types) =
      if has_subtypes type
      then ((le_bytes 1 (to_code type) ++ encode_cstring type_name)
          ++ le_bytes 2 (n_sub_types sub_types))
        ++ encode_types sub_types
      else le_bytes 1 (to_code type) ++ encode_cstring type_name

  pub encode_types : PlcTypes → List ℕ
  encode_types nil = []
  encode_types (cons t ts) = encode_type t ++ encode_types ts

-- How deep a type is nested.
unfoldable mutual
  pub depth : PlcType → ℕ
  depth (plc_type type type_name sub_types) = suc (depth_all sub_types)

  pub depth_all : PlcTypes → ℕ
  depth_all nil = 0
  depth_all (cons t ts) = max (depth t) (depth_all ts)

abbrev HasNoSubtypes : PlcTypes → Type 0
HasNoSubtypes nil = Unit {0}
HasNoSubtypes (cons t ts) = ⊥

-- A type that the protocol can carry: of a known datatype, with at most 32767 subtypes, and
-- with none unless it is an array or a composite.
abbrev mutual
  pub IsType : PlcType → Type 0
  IsType (plc_type type type_name sub_types) =
      IsKnown type
      × IsCstring type_name
      × (if has_subtypes type then n_sub_types sub_types < 2 ^ 15 else HasNoSubtypes sub_types)
      × AreTypes sub_types

  pub AreTypes : PlcTypes → Type 0
  AreTypes nil = Unit {0}
  AreTypes (cons t ts) = IsType t × AreTypes ts

Sends-if :
    {bs cs : List ℕ} {m n : Write} (b : Bool)
    → (b ≡ true → Sends bs m)
    → (b ≡ false → Sends cs n)
    → Sends (if b then bs else cs) (if b then m else n)
Sends-if true h k = h refl
Sends-if false h k = k refl

mutual
  unfolding send_type encode_type send_char send_int16

  type_goes_out : (t : PlcType) → IsType t → Sends (encode_type t) (send_type t)
  type_goes_out (plc_type type type_name sub_types) h =
      let head =
        Sends-|= (Sends-append (le_bytes 1 (to_code type))) (Sends-cstring type_name h.1) in
      Sends-if (has_subtypes type)
        (λ _.
          Sends-&&= (Sends-|= head (Sends-append (le_bytes 2 (n_sub_types sub_types))))
            (types_goes_out sub_types h.3))
        (λ _. head)

  types_goes_out : (ts : PlcTypes) → AreTypes ts → Sends (encode_types ts) (send_types ts)
  types_goes_out nil h = Sends-nothing
  types_goes_out (cons t ts) h = Sends-&&= (type_goes_out t h.0) (types_goes_out ts h.1)

-- `send_type` adds the encoding of its type.
pub Sends-type : (t : PlcType) → IsType t → Sends (encode_type t) (send_type t)
Sends-type t h = type_goes_out t h

to_code-lt : (d : Datatype) → to_code d < 256 ^ 1
unfolding to_code
to_code-lt int1 = omega arith
to_code-lt _ = omega arith

rounds_few : (n : ℕ) → n < 2 ^ 15 → n ≡ rounds16 n
rounds_few n h = ground arith

-- One node, given that its subtypes are received.
module _ (sub : Action Conn (Fetched PlcType)) (type : Datatype) (type_name : Cstring)
    (sub_types : PlcTypes) (h : IsType (plc_type type type_name sub_types)) where
  counted :
      n_sub_types sub_types < 2 ^ 15
      → Yields
          (encode_types sub_types)
          (whole sub_types)
          (receive_types sub (n_sub_types sub_types))
      → Yields
          (encode_types sub_types)
          (whole sub_types)
          (receive_sub_types sub (some type_name) (some (n_sub_types sub_types)))
  unfolding receive_sub_types
  counted few rs =
      subst (λ k. Yields (encode_types sub_types) (whole sub_types) (receive_types sub k))
        (rounds_few (n_sub_types sub_types) few) rs

  body_of_subtyped :
      has_subtypes type ≡ true
      → Yields
          (encode_types sub_types)
          (whole sub_types)
          (receive_types sub (n_sub_types sub_types))
      → Yields
          (le_bytes 2 (n_sub_types sub_types) ++ (encode_types sub_types ++ []))
          (whole (plc_type type type_name sub_types))
          (receive_type_body sub (some (to_code type)) (some type_name))
  unfolding receive_type_body receive_int16
  body_of_subtyped e rs =
      let few : n_sub_types sub_types < 2 ^ 15 = rw e at h.2 in
      let finished = λ (ts : Fetched PlcTypes). pure {S = Conn} (finish type (some type_name) ts) in
      rw (of_code-to_code type h.0, e)
        (Yields-bind (λ n. receive_sub_types sub (some type_name) n >>= finished)
          (Receives-word 2 (n_sub_types sub_types) (omega arith))
          (Yields-bind finished (counted few rs)
            (Yields-pure (whole (plc_type type type_name sub_types)))))

  body_of_plain :
      has_subtypes type ≡ false
      → Yields []
          (whole (plc_type type type_name sub_types))
          (receive_type_body sub (some (to_code type)) (some type_name))
  unfolding receive_type_body
  body_of_plain e = rw (of_code-to_code type h.0, e) (without sub_types (rw e at h.2))
    where
      without :
          (ts : PlcTypes)
          → HasNoSubtypes ts
          → Yields []
              (whole (plc_type type type_name ts))
              (pure (whole (plc_type type type_name nil)))
      without nil k = Yields-pure (whole (plc_type type type_name nil))
      without (cons t ts) k = absurd k

headed :
    (fuel : ℕ) (type : Datatype) (type_name : Cstring) {t : PlcType} {cs : List ℕ}
    → IsCstring type_name
    → Yields cs
        (whole t)
        (receive_type_body (receive_type fuel) (some (to_code type)) (some type_name))
    → Yields
        (le_bytes 1 (to_code type) ++ (encode_cstring type_name ++ cs))
        (whole t)
        (receive_type (suc fuel))
unfolding receive_type receive_char
headed fuel type type_name h body =
    let sub = receive_type fuel in
    Yields-bind (λ typ. receive_cstring >>= λ name. receive_type_body sub typ name)
      (Receives-word 1 (to_code type) (to_code-lt type))
      (Yields-bind (λ name. receive_type_body sub (some (to_code type)) name)
        (Receives-cstring type_name h) body)

node_comes_in :
    (fuel : ℕ) (type : Datatype) (type_name : Cstring) (sub_types : PlcTypes)
    → IsType (plc_type type type_name sub_types)
    → Yields
        (encode_types sub_types)
        (whole sub_types)
        (receive_types (receive_type fuel) (n_sub_types sub_types))
    → Yields
        (encode_type (plc_type type type_name sub_types))
        (whole (plc_type type type_name sub_types))
        (receive_type (suc fuel))
unfolding encode_type
node_comes_in fuel type type_name sub_types h rs =
    let sub = receive_type fuel in
    elim (Bool-cases (has_subtypes type)) [
      | inl e ↦ rw e (
          simp append_assoc (
            simp append-nil at (
              headed fuel type type_name h.1
                (body_of_subtyped sub type type_name sub_types h e rs))))
      | inr e ↦ rw e (
          simp append-nil at
            (headed fuel type type_name h.1 (body_of_plain sub type type_name sub_types h e)))
    ]

no_types :
    (sub : Action Conn (Fetched PlcType)) → Yields [] (whole PlcTypes.nil) (receive_types sub 0)
unfolding receive_types
no_types sub = Yields-pure (whole PlcTypes.nil)

appended :
    (t : PlcType) (ts : PlcTypes) (sub : Action Conn (Fetched PlcType)) {bs cs : List ℕ}
    → Yields bs (whole t) sub
    → Yields cs (whole ts) (receive_types sub (n_sub_types ts))
    → Yields (bs ++ cs) (whole (cons t ts)) (receive_types sub (suc (n_sub_types ts)))
unfolding receive_types
appended t ts sub {bs} {cs} rt rs =
    let n = n_sub_types ts in
    simp append-nil at (
      Yields-bind (next_type n (receive_types sub n)) rt
        (Yields-bind (λ xs. pure {S = Conn} (extend t xs)) rs (Yields-pure (whole (cons t ts)))))

mutual
  unfolding encode_type depth

  type_comes_in :
      (t : PlcType)
      → IsType t
      → (fuel : ℕ) → depth t ≤ fuel
      → Yields (encode_type t) (whole t) (receive_type fuel)
  type_comes_in (plc_type type type_name sub_types) h zero d = absurd (omega arith)
  type_comes_in (plc_type type type_name sub_types) h (suc fuel) d =
      node_comes_in fuel type type_name sub_types h
        (types_comes_in sub_types h.3 fuel (omega arith))

  types_comes_in :
      (ts : PlcTypes)
      → AreTypes ts
      → (fuel : ℕ) → depth_all ts ≤ fuel
      → Yields (encode_types ts) (whole ts) (receive_types (receive_type fuel) (n_sub_types ts))
  types_comes_in nil h fuel d = no_types (receive_type fuel)
  types_comes_in (cons t ts) h fuel d =
      appended t ts (receive_type fuel) (type_comes_in t h.0 fuel (omega arith))
        (types_comes_in ts h.1 fuel (omega arith))

-- `receive_type` takes the encoding of a type and returns the type, with fuel for its depth.
pub Yields-type :
    (t : PlcType)
    → IsType t
    → (fuel : ℕ) → depth t ≤ fuel
    → Yields (encode_type t) (whole t) (receive_type fuel)
Yields-type t h fuel d = type_comes_in t h fuel d
