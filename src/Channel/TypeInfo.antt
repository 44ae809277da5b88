-- ===== src/Channel/TypeInfo.antt =====
-- `send_type` and `receive_type` of src/common/comm_channel.c.
pub mod Encoding
use plcontainer.Common.{ℕ, zero, suc, Option, none, some, leb, ◌^◌, if◌then◌else◌}
use plcontainer.Outcome.{Outcome, exhausted, Action, pure, ◌>>=◌}
use plcontainer.Connectivity.Conn.{Conn, Status, success}
use plcontainer.Message.Datatype.{
  Cstring, Datatype, unset, PlcType, plc_type, PlcTypes, nil, cons, to_code, of_code, has_subtypes,
  n_sub_types,
}
use plcontainer.Channel.Action.{Write, Read, ◌|=◌, ◌&&=◌, misuse}
use plcontainer.Channel.Primitive.{
  send_char, send_int16, send_cstring, receive_char, receive_int16, receive_cstring,
}

unfoldable mutual
  unfolding to_code

  pub send_type : PlcType → Write
  send_type (plc_type type type_name sub_types) =
      if has_subtypes type
      then send_char (to_code type)
        |= send_cstring type_name
        |= send_int16 (n_sub_types sub_types)
        &&= send_types sub_types
      else send_char (to_code type) |= send_cstring type_name

  pub send_types : PlcTypes → Write
  send_types nil = pure success
  send_types (cons t ts) = send_type t &&= send_types ts

-- What `receive_type` leaves in its argument, with the code 0 or -1.
pub data Fetched (A : Type 0) : Type 0 where
  whole part : A → Fetched A

abbrev pub unset_types : ℕ → PlcTypes
unset_types zero = nil
unset_types (suc n) = cons (plc_type unset none nil) (unset_types n)

abbrev pub extend : PlcType → Fetched PlcTypes → Fetched PlcTypes
extend t (whole ts) = whole (cons t ts)
extend t (part ts) = part (cons t ts)

-- After an entry the loop goes on with `rest`, unless the entry failed; `n` more stay unset then.
unfoldable pub next_type :
    ℕ → Action Conn (Fetched PlcTypes) → Fetched PlcType → Action Conn (Fetched PlcTypes)
next_type n rest (whole t) = rest >>= λ ts. pure (extend t ts)
next_type n rest (part t) = pure (part (cons t (unset_types n)))

-- `for (i = 0; i < n && res == 0; i++)`
unfoldable pub receive_types : Action Conn (Fetched PlcType) → ℕ → Action Conn (Fetched PlcTypes)
unfolding next_type
receive_types sub zero = pure (whole nil)
receive_types sub (suc n) = sub >>= next_type n (receive_types sub n)

abbrev pub finish : Datatype → Option Cstring → Fetched PlcTypes → Fetched PlcType
finish type (some type_name) (whole ts) = whole (plc_type type type_name ts)
finish type (some type_name) (part ts) = part (plc_type type type_name ts)
finish type none (whole ts) = part (plc_type type none ts)
finish type none (part ts) = part (plc_type type none ts)

-- The loop over the subtypes is not entered if the name was not received.
unfoldable pub subtypes_after :
    Action Conn (Fetched PlcType) → Option Cstring → ℕ → Action Conn (Fetched PlcTypes)
unfolding receive_types
subtypes_after sub none n = pure (part (unset_types n))
subtypes_after sub (some type_name) n = receive_types sub n

-- A positive `int16`; below 1 the loop makes no round.
abbrev pub rounds16 : ℕ → ℕ
rounds16 n = if leb (2 ^ 15) n then 0 else n

-- `receive_int16(conn, &type->nSubTypes)`: the count is compared whether or not it was received.
unfoldable pub receive_sub_types :
    Action Conn (Fetched PlcType) → Option Cstring → Option ℕ → Action Conn (Fetched PlcTypes)
unfolding subtypes_after
receive_sub_types sub type_name none = misuse
receive_sub_types sub type_name (some n) = subtypes_after sub type_name (rounds16 n)

-- The rest of `receive_type` after the code and the name. The code is used whether or not it
-- was received.
unfoldable pub receive_type_body :
    Action Conn (Fetched PlcType) → Option ℕ → Option Cstring → Action Conn (Fetched PlcType)
unfolding receive_sub_types
receive_type_body sub none type_name = misuse
receive_type_body sub (some typ) type_name =
    if has_subtypes (of_code typ)
    then (receive_int16 >>= λ n.
        receive_sub_types sub type_name n >>= λ ts. pure (finish (of_code typ) type_name ts))
    else pure (finish (of_code typ) type_name (whole nil))

-- The nesting is as deep as the peer says, so the recursion is on fuel.
unfoldable pub receive_type : ℕ → Action Conn (Fetched PlcType)
unfolding receive_type_body of_code
receive_type zero = λ c. exhausted
receive_type (suc fuel) = receive_char >>= λ typ.
    receive_cstring >>= λ type_name. receive_type_body (receive_type fuel) typ type_name

abbrev pub settled : Fetched PlcType → Option PlcType
settled (whole t) = some t
settled (part t) = none

-- `receive_type` where only a whole type is used.
unfoldable pub receive_whole_type : ℕ → Read PlcType
unfolding receive_type
receive_whole_type fuel = receive_type fuel >>= λ t. pure (settled t)
