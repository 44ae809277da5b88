-- ===== src/Configuration/Runtime/Outcomes.antt =====
-- A predicate on what is accepted, through the steps of parse_runtime_configuration of
-- src/plc_configuration.c.
use plcontainer.Common.{Bool, true, false, if◌then◌else◌}
use plcontainer.Configuration.Runtime.{Complaint, HeldValue, Parsed, accepted, refused, bind_parsed}

pub data Holds {A : Type 0} (P : A → Type 0) : Parsed A → Type 0 where
  holds : {a : A} → P a → Holds P (accepted a)
  skips : {why : Complaint} {v : HeldValue} → Holds P (refused why v)

pub bind_parsed-Holds :
    {A B : Type 0} (P : A → Type 0) (Q : B → Type 0) (m : Parsed A) (f : A → Parsed B)
    → Holds P m
    → ((a : A) → P a → Holds Q (f a))
    → Holds Q (bind_parsed m f)
unfolding bind_parsed
bind_parsed-Holds P Q (accepted a) f (holds p) q = q a p
bind_parsed-Holds P Q (refused why v) f skips q = skips

pub if_Holds :
    {A : Type 0} (P : A → Type 0) (b : Bool) (s t : Parsed A)
    → Holds P s
    → Holds P t
    → Holds P (if b then s else t)
if_Holds P true s t p q = p
if_Holds P false s t p q = q

pub true-Holds : {A : Type 0} (m : Parsed A) → Holds (λ a. Unit {0}) m
true-Holds (accepted a) = holds tt
true-Holds (refused c v) = skips
