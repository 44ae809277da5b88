-- ===== src/Message/Value.antt =====
-- `rawdata` of src/common/messages/message_base.h with what its `value` points to, and
-- `plcArray`, `plcIterator` and `plcUDT` of message_data.h.
use plcontainer.Common.{ℕ, suc, List}
use plcontainer.Message.Datatype.{Cstring}

-- A scalar is the bit pattern of a number that takes 1, 2, 4 or 8 bytes. An array has its
-- dimensions and its elements in the order in which the iterator yields them.
mutual
  pub data Value : Type 0 where
    scalar : ℕ → Value
    text : Cstring → Value
    bytea : List ℕ → Value
    array : List ℕ → Raws → Value
    udt : Raws → Value

  pub data Raw : Type 0 where
    null : Raw
    datum : Value → Raw

  pub data Raws : Type 0 where
    nil : Raws
    cons : Raw → Raws → Raws

abbrev pub count : Raws → ℕ
count nil = 0
count (cons r rs) = suc (count rs)
