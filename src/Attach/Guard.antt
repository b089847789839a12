-- ===== src/Attach/Guard.antt =====
-- What was seen of an interface when a request is sent, and the wait for it.
use aerosuite.Base.{
  ◌⊎◌, inr, ℕ, bytes_beq_iff, bytes_eq, zero, suc, ◌≡◌, refl, ap, Bytes, codes, true, Option, none,
  some, [], ◌∷◌, leb, if◌then◌else◌, arith, ◌==◌, bytes_beq, ◌+◌,
}
use aerosuite.Program.{Call, Reply, Prog, call, Result, ok, err, ret}
use aerosuite.Program.Observed.{Observes, Observes-bind, Observes-if}
use aerosuite.Xml.{extract_balanced, extract_scalar}
use aerosuite.Aws.{Params, param}
use aerosuite.Attach.{
  Args, EniSelector, selector_params, describe_params, attach_params, ec2_host, detach_params,
  attachment_of,
}
use aerosuite.Attach.Commands.{
  first_status, shows, poll_loop, poll_until_available, poll_rounds, poll_answer, polled, nanos,
}

pub data Action : Type 0 where
  describes attaches detaches other : Action

-- The Action parameter, which comes first.
unfoldable pub action_of : Params → Action
action_of [] = other
action_of ((key, value) ∷ params) =
    if value == codes "DescribeNetworkInterfaces"
    then describes
    else if value == codes "AttachNetworkInterface"
    then attaches
    else if value == codes "DetachNetworkInterface"
    then detaches
    else other

-- The first description that was received, and the last one with the parameters that asked for it.
pub record Described : Type 0 where
  pub first : Option Bytes
  pub last : Option (Params × Bytes)

abbrev pub not_described : Described
not_described = record { first = none; last = none }

abbrev pub or_first : Option Bytes → Bytes → Option Bytes
or_first none xml = some xml
or_first (some xml) later = some xml

abbrev pub with_description : Action → Params → Described → Result Bytes → Described
with_description describes params t (ok xml) = record {
  first = or_first t.first xml;
  last = some (params, xml);
}
with_description describes params t (err e) = t
with_description attaches params t r = t
with_description detaches params t r = t
with_description other params t r = t

unfoldable pub then_described : Described → (c : Call) → Reply c → Described
unfolding action_of
then_described t (Call.aws_query host service region params) r =
    with_description (action_of params) params t r
then_described t _ r = t

abbrev pub attachment_within : Option Bytes → Option Bytes
attachment_within none = none
attachment_within (some item_xml) = attachment_of item_xml

unfoldable pub first_attachment : Bytes → Option Bytes
unfolding attachment_of
first_attachment xml = attachment_within (extract_balanced xml (codes "item"))

abbrev pub eni_within : Option Bytes → Option Bytes
eni_within none = none
eni_within (some item_xml) = extract_scalar item_xml (codes "networkInterfaceId")

-- The first interface in an answer.
abbrev pub first_eni : Bytes → Option Bytes
first_eni xml = eni_within (extract_balanced xml (codes "item"))

abbrev pub by_id_params : Bytes → Params
by_id_params eni_id = describe_params (param "NetworkInterfaceId.1" eni_id ∷ [])

-- The first description that was received names the interface first.
abbrev pub IsChosen : Described → Bytes → Type 0
IsChosen t eni_id = (xml : Bytes) × (t.first ≡ some xml) × (first_eni xml ≡ some eni_id)

-- The last description shows the status, and is the first one, or one of just this interface.
abbrev pub IsShown : Described → Bytes → Bytes → Bytes → Type 0
IsShown t eni_id status xml =
    (params : Params) × (t.last ≡ some (params, xml))
    × (first_status xml ≡ some status)
    × ((t.first ≡ some xml) ⊎ (params ≡ by_id_params eni_id))

abbrev pub IsFree : Described → Bytes → Type 0
IsFree t eni_id = IsChosen t eni_id × (xml : Bytes) × IsShown t eni_id (codes "available") xml

shows-some : (status : Bytes) (o : Option Bytes) → shows status o ≡ true → o ≡ some status
shows-some status none h = ground (arith, h)
shows-some status (some s) h = ap some ((bytes_beq_iff s status).0 h)

-- A takeover by these arguments.
module _ (args : Args) (selector : EniSelector) (instance_id : Bytes) where
  abbrev RequestAllowed : Described → Action → Params → Type 0
  RequestAllowed t describes params =
      ((t.first ≡ none) × (params ≡ describe_params (selector_params selector none)))
      ⊎ ((eni_id : Bytes) × IsChosen t eni_id × (params ≡ by_id_params eni_id))
  RequestAllowed t attaches params =
      (eni_id : Bytes) × IsFree t eni_id
      × (params ≡ attach_params instance_id eni_id args.device_index)
  RequestAllowed t detaches params =
      (eni_id : Bytes) × IsChosen t eni_id
      × (xml : Bytes) × IsShown t eni_id (codes "in-use") xml
      × (attachment_id : Bytes) × (first_attachment xml ≡ some attachment_id)
      × (params ≡ detach_params attachment_id true)
  RequestAllowed t other params = ⊥

  -- The requests go to EC2 in the region of the arguments. Interfaces are described by the selector first, and
  -- then only the chosen one. It is attached only when it was last shown available, to the instance and at
  -- the device index of the arguments, and detached only when it was last shown in use, by force, with the
  -- attachment that was shown.
  unfoldable pub Allowed : Described → Call → Type 0
  unfolding action_of
  Allowed t (Call.aws_query host service region params) =
      (host ≡ ec2_host args.region)
      × (region ≡ args.region)
      × RequestAllowed t (action_of params) params
  Allowed t _ = Unit {0}

  -- After `poll_until_available` the last description is of the interface, available.
  abbrev pub Polled : Bytes → Described → Result (Unit {0}) → Type 0
  Polled eni_id t (ok u) = IsFree t eni_id
  Polled eni_id t (err e) = Unit {0}

  abbrev LoopPolled : Bytes → Described → Option (Result (Unit {0})) → Type 0
  LoopPolled eni_id t none = Unit {0}
  LoopPolled eni_id t (some r) = Polled eni_id t r

  -- A further description changes nothing in the choice.
  IsChosen-later :
      (t : Described) (eni_id xml : Bytes)
      → IsChosen t eni_id
      → IsChosen
          (record { first = or_first t.first xml; last = some (by_id_params eni_id, xml) })
          eni_id
  IsChosen-later t eni_id xml (x, e, f) = (x, ap (λ o. or_first o xml) e, f)

  poll_answer-Observes :
      (next : Prog (Option (Result (Unit {0})))) (deadline : ℕ) (eni_id : Bytes) (t : Described)
      (r : Result Bytes)
      → IsChosen t eni_id
      → ((u : Described)
          → IsChosen u eni_id
          → Observes then_described Allowed (LoopPolled eni_id) u next)
      → Observes then_described Allowed
          (LoopPolled eni_id)
          (with_description describes (by_id_params eni_id) t r)
          (poll_answer next deadline r)
  unfolding poll_answer Allowed then_described
  poll_answer-Observes next deadline eni_id t (err e) c h = tt
  poll_answer-Observes next deadline eni_id t (ok xml) c h =
      let u : Described = record {
        first = or_first t.first xml;
        last = some (by_id_params eni_id, xml);
      } in
      Observes-if then_described Allowed (LoopPolled eni_id) u
        (shows (codes "available") (first_status xml)) _ _
        (λ e. (
          IsChosen-later t eni_id xml c,
          xml,
          (
            by_id_params eni_id,
            refl,
            shows-some (codes "available") (first_status xml) e,
            inr refl,
          ),
        ))
        (λ e. (
          tt,
          λ now.
              Observes-if then_described Allowed (LoopPolled eni_id) u (leb deadline now) _ _
                (λ k. tt) (λ k. h u (IsChosen-later t eni_id xml c)),
        ))

  poll_loop-Observes :
      (fuel : ℕ) (eni_id : Bytes) (deadline : ℕ) (t : Described)
      → IsChosen t eni_id
      → Observes then_described Allowed
          (LoopPolled eni_id)
          t
          (poll_loop fuel args.region eni_id deadline)
  unfolding poll_loop Allowed then_described bytes_beq
  poll_loop-Observes zero eni_id deadline t c = tt
  poll_loop-Observes (suc fuel) eni_id deadline t c = (
    (refl, refl, inr (eni_id, c, refl)),
    λ r.
        poll_answer-Observes
          (call (Call.sleep_secs 2) (λ _. poll_loop fuel args.region eni_id deadline)) deadline
          eni_id t r c
          (λ u d. (
            tt,
            λ _. unfold Allowed then_described in poll_loop-Observes fuel eni_id deadline u d,
          )),
  )

  pub poll_until_available-Observes :
      (eni_id : Bytes) (timeout_secs : ℕ) (t : Described)
      → IsChosen t eni_id
      → Observes then_described Allowed
          (Polled eni_id)
          t
          (poll_until_available args.region eni_id timeout_secs)
  unfolding poll_until_available Allowed then_described
  poll_until_available-Observes eni_id timeout_secs t c = (
    tt,
    λ now.
        let deadline : ℕ = now + nanos timeout_secs in
        Observes-bind then_described Allowed (LoopPolled eni_id) (Polled eni_id) t
          (poll_loop (poll_rounds timeout_secs) args.region eni_id deadline) (λ r. ret (polled r))
          (unfold Allowed then_described in
            poll_loop-Observes (poll_rounds timeout_secs) eni_id deadline t c)
          (λ u r. elim r as (λ x. LoopPolled eni_id u x → Polled eni_id u (polled x)) [
            | none ↦ λ h. tt
            | some x ↦ λ h. h
          ]),
  )
