-- ===== src/Channel/Argument/Encoding.antt =====
-- The wire format of arguments, and that the calls of src/common/comm_channel.c agree on it.
use plcontainer.Common.{
  ◌≡◌, false, subst, ℕ, ◌≤◌, none, some, List, [], ◌∷◌, ◌++◌, length, length-append, append-nil,
  append_assoc, arith,
}
use plcontainer.Outcome.{pure, ◌>>=◌}
use plcontainer.Connectivity.Conn.{Conn}
use plcontainer.Message.Struct.{Argument}
use plcontainer.Channel.Action.{repeat}
use plcontainer.Channel.Action.Sends.{Sends, Sends-|=, Sends-nothing}
use plcontainer.Channel.Action.Receives.{
  Receives, Yields-bind, Yields-pure, Receives-map_read, Receives-give, Receives-⊛, Receives-&&⊛,
}
use plcontainer.Channel.Primitive.Encoding.{
  encode_cstring, IsCstring, Sends-cstring, Receives-cstring,
}
use plcontainer.Channel.TypeInfo.{whole, receive_type}
use plcontainer.Channel.TypeInfo.Encoding.{
  encode_type, depth, depth_all, IsType, Sends-type, Yields-type,
}
use plcontainer.Channel.TypeInfo.Encoding.Depth.{depth-encode_type}
use plcontainer.Channel.Object.{receive_raw_object}
use plcontainer.Channel.Object.Encoding.{encode_raw, IsRawOf}
use plcontainer.Channel.Object.Encoding.Send.{Sends-raw_object}
use plcontainer.Channel.Object.Encoding.Receive.{Receives-raw_object}
use plcontainer.Message.Datatype.{Datatype, plc_type, PlcTypes, IsKnown, has_subtypes}
use plcontainer.Message.Value.{null}
use plcontainer.Channel.Argument.{fill_prepare_argument}
use plcontainer.Channel.Argument.{
  send_argument, send_arguments, argument_of, fetched, receive_argument, repeat_all,
}

unfoldable pub encode_argument : Argument → List ℕ
encode_argument a = (encode_cstring a.name ++ encode_type a.type) ++ encode_raw a.type a.value

unfoldable pub encode_arguments : List Argument → List ℕ
unfolding encode_argument
encode_arguments [] = []
encode_arguments (a ∷ args) = encode_argument a ++ encode_arguments args

-- An argument that the protocol can carry, nested at most `fuel` deep.
abbrev pub IsArgument : ℕ → Argument → Type 0
IsArgument fuel a =
    IsCstring a.name × IsType a.type × IsRawOf a.type a.value × (depth a.type ≤ fuel)

abbrev pub AreArguments : ℕ → List Argument → Type 0
AreArguments fuel [] = Unit {0}
AreArguments fuel (a ∷ args) = IsArgument fuel a × AreArguments fuel args

-- Fuel for the bytes of the arguments is fuel for their depth.
pub AreArguments-length :
    (fuel n : ℕ) (args : List Argument)
    → AreArguments fuel args
    → length (encode_arguments args) ≤ n
    → AreArguments n args
unfolding encode_arguments encode_argument
AreArguments-length fuel n [] h d = tt
AreArguments-length fuel n (a ∷ args) h d =
    let own = length-append (encode_argument a) (encode_arguments args) in
    let fields =
      length-append (encode_cstring a.name ++ encode_type a.type) (encode_raw a.type a.value) in
    let both = length-append (encode_cstring a.name) (encode_type a.type) in
    (
      (h.0.0, h.0.1, h.0.2, omega (arith, d, own, fields, both, depth-encode_type a.type h.0.1)),
      AreArguments-length fuel n args h.1 (omega (arith, d, own)),
    )

pub Sends-argument :
    (fuel : ℕ) (a : Argument) → IsArgument fuel a → Sends (encode_argument a) (send_argument a)
unfolding send_argument encode_argument
Sends-argument fuel a h =
    Sends-|= (Sends-|= (Sends-cstring a.name h.0) (Sends-type a.type h.1))
      (Sends-raw_object a.type a.value h.2)

pub Sends-arguments :
    (fuel : ℕ) (args : List Argument)
    → AreArguments fuel args
    → Sends (encode_arguments args) (send_arguments args)
unfolding send_arguments encode_arguments
Sends-arguments fuel [] h = Sends-nothing
Sends-arguments fuel (a ∷ args) h =
    Sends-|= (Sends-argument fuel a h.0) (Sends-arguments fuel args h.1)

pub Receives-argument :
    (fuel : ℕ) (a : Argument)
    → IsArgument fuel a
    → Receives (encode_argument a) a (receive_argument fuel)
unfolding receive_argument encode_argument
Receives-argument fuel a h = simp append_assoc (
    simp append-nil at (
      Yields-bind
        (λ name. receive_type fuel >>= λ type.
          receive_raw_object (fetched type) >>= λ value. pure (argument_of name type value))
        (Receives-cstring a.name h.0)
        (Yields-bind
          (λ type. receive_raw_object (fetched type) >>= λ value.
            pure (argument_of (some a.name) type value))
          (Yields-type a.type h.1 fuel h.3)
          (Yields-bind (λ value. pure {S = Conn} (argument_of (some a.name) (whole a.type) value))
            (Receives-raw_object a.type a.value h.2) (Yields-pure (some a))))))

module _ (fuel : ℕ) where
  pub Receives-repeat :
      (args : List Argument)
      → AreArguments fuel args
      → Receives (encode_arguments args) args (repeat [] ◌∷◌ (length args) (receive_argument fuel))
  unfolding repeat encode_arguments
  Receives-repeat [] h = Receives-give []
  Receives-repeat (a ∷ args) h =
      Receives-&&⊛ (Receives-map_read (Receives-argument fuel a h.0) ◌∷◌) (Receives-repeat args h.1)

  pub Receives-repeat_all :
      (args : List Argument)
      → AreArguments fuel args
      → Receives (encode_arguments args) args (repeat_all (length args) (receive_argument fuel))
  unfolding repeat_all encode_arguments
  Receives-repeat_all [] h = Receives-give []
  Receives-repeat_all (a ∷ args) h =
      Receives-⊛ (Receives-map_read (Receives-argument fuel a h.0) ◌∷◌)
        (Receives-repeat_all args h.1)

-- From a string that holds no NUL and fits an `int`, and a known datatype that has no subtypes,
-- `fill_prepare_argument` makes an argument that the protocol can carry.
pub fill_prepare_argument-IsArgument :
    (str : List ℕ) (type : Datatype) (arg : Argument)
    → IsCstring (some str)
    → IsKnown type
    → has_subtypes type ≡ false
    → fill_prepare_argument (some str) type ≡ some arg
    → IsArgument 1 arg
unfolding fill_prepare_argument depth depth_all
fill_prepare_argument-IsArgument str type arg s known plain e =
    let filled : Argument = record {
      name = none;
      type = plc_type type (some str) PlcTypes.nil;
      value = null;
    } in
    let same : filled ≡ arg = cc in
    subst (IsArgument 1) same (tt, (known, s, rw plain tt, tt), tt, omega arith)
