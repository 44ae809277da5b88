-- ===== src/CallHandler/Reach.antt =====
-- How a call of src/plcontainer.c gets to its client, and how an error is caught.
use plcontainer.Common.{
  ℕ, ◌≡◌, refl, ap, ◌∙◌, Bool, true, false, ◌||◌, Option, none, some, List, length, if◌then◌else◌,
}
use plcontainer.Outcome.{Outcome, done, blocked, undefined, exhausted}
use plcontainer.Subtransaction.{Backend, Session, plcontainer_abort_open_subtransactions}
use plcontainer.Container.Declaration.{runtime_id, parse_container_meta}
use plcontainer.Container.Slots.{ContainerState, init_containers, get_container_conn}
use plcontainer.Container.Delete.{delete_containers}
use plcontainer.CallHandler.State.{
  HandlerState, RuntimeConf, Setup, Ended, returned, raised, unfinished,
}
use plcontainer.CallHandler.Handler.{
  Rest, with_containers, aborted, abort_open, request, connect, permitted, with_meta, result_ends,
  plcontainer_get_result, caught, call_ends, function_handler, call_procedure, call_with,
}

pub or_true : (x y : Bool) → y ≡ true → (x || y) ≡ true
or_true true y e = refl
or_true false y e = e

pub or_false : (x y : Bool) → x ≡ false → y ≡ false → (x || y) ≡ false
or_false true y e f = cc
or_false false y e f = f

pub abort_open-keeps :
    (b : Backend) (level : ℕ) (h : HandlerState)
    → ((abort_open b level h).1.containers ≡ h.containers)
      × ((abort_open b level h).1.delete_backends_when_error ≡ h.delete_backends_when_error)
unfolding abort_open
abort_open-keeps b level h = go (plcontainer_abort_open_subtransactions b level h.session)
  where
    go :
        (o : Outcome Session (Unit {0}))
        → ((aborted h o).1.containers ≡ h.containers)
          × ((aborted h o).1.delete_backends_when_error ≡ h.delete_backends_when_error)
    go (done u s) = (refl, refl)
    go (Outcome.raised s) = (refl, refl)
    go blocked = (refl, refl)
    go undefined = (refl, refl)
    go exhausted = (refl, refl)

-- An error with the containers and the flag as they were.
abbrev pub Fails : HandlerState → Ended × HandlerState → Type 0
Fails h r =
    (r.0 ≡ raised)
    × (r.1.containers ≡ h.containers)
    × (r.1.delete_backends_when_error ≡ h.delete_backends_when_error)

-- The call gets to the client: nothing goes wrong before the call request is sent, and the runtime
-- has a connection.
pub record Reaches (setup : Setup) (h : HandlerState) (proc : ℕ) (id : List ℕ) (conf : RuntimeConf)
    (conn : ℕ) : Type 0 where
  pub no_trigger : setup.trigger ≡ false
  pub connects : setup.spi_connects ≡ true
  pub has_procedure : setup.procedure ≡ some proc
  pub names_runtime : parse_container_meta setup.source ≡ runtime_id id
  pub configured : setup.configuration id ≡ some conf
  pub permits : permitted conf ≡ true
  pub connected : (get_container_conn id h.containers).0 ≡ some conn
  pub sent : setup.sends ≡ true

-- The state in which the client's messages are received.
abbrev pub receiving : ℕ → ContainerState → HandlerState → HandlerState
receiving proc cs h = record h {
  containers = cs;
  curr_procedure = some proc;
  delete_backends_when_error = true;
}

pub connect-some :
    (setup : Setup) (rest : Rest) (id : List ℕ) (conn : ℕ) (p : Option ℕ × ContainerState)
    (h : HandlerState)
    → p.0 ≡ some conn
    → connect setup rest id p h ≡ request setup rest (with_containers p.1 h)
unfolding connect
connect-some setup rest id conn (none, cs) h e = cc
connect-some setup rest id conn (some c, cs) h e = refl

pub result_raised :
    (b : Backend) (level : ℕ) (r : Ended × HandlerState) (h : HandlerState)
    → Fails h r
    → Fails h (function_handler (result_ends b level r))
unfolding result_ends function_handler
result_raised b level (returned received, t) h (e, cs, flag) = cc
result_raised b level (unfinished, t) h (e, cs, flag) = cc
result_raised b level (raised, t) h (e, cs, flag) =
    let (same, still) = abort_open-keeps b level t in (refl, same ∙ cs, still ∙ flag)

-- An error that is caught while the flag is set, and one that is caught while it is not.
pub caught_set :
    (setup : Setup) (saved : Option ℕ) (h : HandlerState) (r : Ended × HandlerState)
    → Fails h r
    → h.delete_backends_when_error ≡ true
    → ((call_ends setup saved r).0 ≡ raised)
      × ((call_ends setup saved r).1.containers ≡ delete_containers setup.deletions h.containers)
unfolding call_ends caught
caught_set setup saved h (returned received, t) (e, cs, flag) set = cc
caught_set setup saved h (unfinished, t) (e, cs, flag) set = cc
caught_set setup saved h (raised, t) (e, cs, flag) set =
    let either : (setup.interrupted || t.delete_backends_when_error) ≡ true =
      or_true setup.interrupted t.delete_backends_when_error (flag ∙ set) in
    (refl, rw either (ap (delete_containers setup.deletions) cs))

pub caught_unset :
    (setup : Setup) (saved : Option ℕ) (h : HandlerState) (r : Ended × HandlerState)
    → Fails h r
    → h.delete_backends_when_error ≡ false
    → setup.interrupted ≡ false
    → ((call_ends setup saved r).0 ≡ raised)
      × ((call_ends setup saved r).1.containers ≡ h.containers)
unfolding call_ends caught
caught_unset setup saved h (returned received, t) (e, cs, flag) set calm = cc
caught_unset setup saved h (unfinished, t) (e, cs, flag) set calm = cc
caught_unset setup saved h (raised, t) (e, cs, flag) set calm =
    let neither : (setup.interrupted || t.delete_backends_when_error) ≡ false =
      or_false setup.interrupted t.delete_backends_when_error calm (flag ∙ set) in
    (refl, rw neither cs)

module _ (b : Backend) (setup : Setup) (rest : Rest) (h : HandlerState) (proc : ℕ) (id : List ℕ)
    (conf : RuntimeConf) (conn : ℕ) (r : Reaches setup h proc id conf conn) where
  abbrev pub state : HandlerState
  state = receiving proc (get_container_conn id h.containers).1 h

  meta_reaches :
      with_meta setup rest
        (parse_container_meta setup.source)
        (record h { curr_procedure = some proc })
      ≡ rest state
  unfolding with_meta connect request
  meta_reaches =
      rw (r.names_runtime, r.configured, r.permits)
        (connect-some setup rest id conn (get_container_conn id h.containers)
            (record h { curr_procedure = some proc }) r.connected
          ∙ rw r.sent refl)

  pub call_reaches :
      call_with b setup rest h
      ≡ call_ends setup h.curr_procedure (
          function_handler (result_ends b (length h.session.explicit_subtransactions) (rest state)))
  unfolding call_with call_procedure plcontainer_get_result
  call_reaches =
      rw (r.no_trigger, r.connects, r.has_procedure)
        (ap
          (λ t.
            call_ends setup h.curr_procedure
              (function_handler (result_ends b (length h.session.explicit_subtransactions) t)))
          meta_reaches)

pub get_container_conn-init :
    (id : List ℕ) (s : ContainerState) → (get_container_conn id s).1.containers_init ≡ true
unfolding get_container_conn init_containers
get_container_conn-init id s = go s.containers_init refl
  where
    go :
        (ready : Bool)
        → s.containers_init ≡ ready
        → (if ready then s else init_containers s).containers_init ≡ true
    go true e = e
    go false e = refl
