-- ===== src/Attach/Takeover.antt =====
-- What a takeover has seen of an interface when it attaches or detaches it.
use aerosuite.Base.{
  bytes_beq_iff, bytes_eq, ◌≡◌, refl, ap, ◌∙◌, Bytes, codes, true, Option, none, some, Option-cases,
  inl, inr, ◌==◌, bytes_beq,
}
use aerosuite.Program.{Call, Prog, Result, ok, err, Error, ◌>>=?◌, missing_field, on_ok}
use aerosuite.Program.Observed.{Observes, Observes-then, Observes-if, Follows, Follows-on_ok}
use aerosuite.Xml.{extract_balanced, extract_scalar}
use aerosuite.Aws.{Params, required}
use aerosuite.Attach.{
  selector_params, describe_params, Args, EniSelector, describe_eni_xml, do_attach_eni,
  do_detach_eni, expect_true, attachment_of,
}
use aerosuite.Attach.Commands.{
  first_status, poll_until_available, free_eni, write_ip, cmd_takeover, status_in, take_first,
  take_item, attach_and_write,
}
use aerosuite.Attach.Guard.{
  Described, not_described, then_described, with_description, describes, attachment_within,
  first_attachment, eni_within, first_eni, IsChosen, IsFree, Allowed, Polled,
  poll_until_available-Observes,
}

-- The description by the selector, which is the first one.
abbrev by_selector : EniSelector → Params
by_selector selector = describe_params (selector_params selector none)

abbrev once_described : EniSelector → Bytes → Described
once_described selector xml = record { first = some xml; last = some (by_selector selector, xml) }

module _ (parent : Bytes → Option Bytes) (args : Args) (selector : EniSelector)
    (instance_id : Bytes) where
  abbrev Requests : Described → Call → Type 0
  Requests = Allowed args selector instance_id

  abbrev Safe : {A : Type 0} → Described → Prog A → Type 0
  Safe t m = Follows then_described Requests t m

  Safe-required :
      {A B : Type 0} (e : Error) (o : Option A) (t : Described) (f : A → Prog (Result B))
      → ((a : A) → o ≡ some a → Safe t (f a))
      → Safe t (required e o >>=? f)
  Safe-required e none t f h = tt
  Safe-required e (some a) t f h = h a refl

  required-Safe : {A : Type 0} (e : Error) (o : Option A) (t : Described) → Safe t (required e o)
  required-Safe e none t = tt
  required-Safe e (some a) t = tt

  -- The choice is still known when the answer to a detachment is read.
  expect_true-Observes :
      (eni_id : Bytes) (o : Option Bytes) (t : Described)
      → IsChosen t eni_id
      → Observes then_described Requests (λ u r. IsChosen u eni_id) t (expect_true o)
  unfolding expect_true
  expect_true-Observes eni_id none t c = c
  expect_true-Observes eni_id (some v) t c =
      Observes-if then_described Requests (λ u r. IsChosen u eni_id) t (v == codes "true") _ _
        (λ e. c) (λ e. c)

  detached-Observes :
      (eni_id : Bytes) (r : Result Bytes) (t : Described)
      → IsChosen t eni_id
      → Observes then_described Requests
          (λ u r. IsChosen u eni_id)
          t
          (on_ok (λ xml. expect_true (extract_scalar xml (codes "return"))) r)
  detached-Observes eni_id (err e) t c = c
  detached-Observes eni_id (ok xml) t c =
      expect_true-Observes eni_id (extract_scalar xml (codes "return")) t c

  do_detach_eni-Observes :
      (eni_id attachment_id xml : Bytes)
      → first_eni xml ≡ some eni_id
      → first_status xml ≡ some (codes "in-use")
      → first_attachment xml ≡ some attachment_id
      → Observes then_described Requests
          (λ u r. IsChosen u eni_id)
          (once_described selector xml)
          (do_detach_eni args.region attachment_id true)
  unfolding do_detach_eni Allowed then_described bytes_beq
  do_detach_eni-Observes eni_id attachment_id xml eni status attachment =
      let chosen : IsChosen (once_described selector xml) eni_id = (xml, refl, eni) in
      (
        (
          refl,
          refl,
          (
            eni_id,
            chosen,
            xml,
            (by_selector selector, refl, status, inl refl),
            attachment_id,
            attachment,
            refl,
          ),
        ),
        λ r.
            unfold Allowed then_described in
            detached-Observes eni_id r (once_described selector xml) chosen,
      )

  do_attach_eni-Safe :
      (eni_id : Bytes) (t : Described)
      → IsFree t eni_id
      → Safe t (do_attach_eni args.region instance_id eni_id args.device_index)
  unfolding do_attach_eni Allowed then_described bytes_beq
  do_attach_eni-Safe eni_id t h = (
    (refl, refl, (eni_id, h, refl)),
    λ r.
        unfold Allowed then_described in
        Follows-on_ok then_described Requests t _ r
          (λ xml. required-Safe missing_field (extract_scalar xml (codes "attachmentId")) t),
  )

  write_ip-Safe : (path ip : Option Bytes) (t : Described) → Safe t (write_ip parent path ip)
  unfolding write_ip Allowed then_described
  write_ip-Safe none ip t = tt
  write_ip-Safe (some path) none t = tt
  write_ip-Safe (some path) (some ip) t = elim (Option-cases (parent path)) [
    | inl e ↦ rw e (tt, λ r. tt)
    | inr (dir, e) ↦ rw e (
      tt,
      λ r.
          unfold Allowed then_described in
          Follows-on_ok then_described Requests t _ r (λ a. (tt, λ q. tt)),
    )
  ]

  -- Where cmd_takeover goes on, the chosen interface was last shown available.
  free_eni-Observes :
      (xml item_xml eni_id current_status : Bytes)
      → extract_balanced xml (codes "item") ≡ some item_xml
      → extract_scalar item_xml (codes "networkInterfaceId") ≡ some eni_id
      → extract_scalar item_xml (codes "status") ≡ some current_status
      → Observes then_described Requests
          (Polled args selector instance_id eni_id)
          (once_described selector xml)
          (free_eni args item_xml eni_id current_status)
  unfolding free_eni first_status first_attachment
  free_eni-Observes xml item_xml eni_id current_status item named status =
      let t = once_described selector xml in
      let After = Polled args selector instance_id eni_id in
      let shown : first_status xml ≡ some current_status = ap (λ o. status_in o) item ∙ status in
      let eni : first_eni xml ≡ some eni_id = ap (λ o. eni_within o) item ∙ named in
      Observes-if then_described Requests After t (current_status == codes "in-use") _ _
        (λ in_use. elim (Option-cases (attachment_of item_xml)) [
          | inl e ↦ rw e tt
          | inr (attachment_id, e) ↦ rw e (
              Observes-then then_described Requests (λ u r. IsChosen u eni_id) After t
                (do_detach_eni args.region attachment_id true)
                (λ _. poll_until_available args.region eni_id args.takeover_timeout)
                (do_detach_eni-Observes eni_id attachment_id xml eni
                  (shown ∙ ap some ((bytes_beq_iff _ _).0 in_use))
                  (ap (λ o. attachment_within o) item ∙ e))
                (λ u a c.
                  poll_until_available-Observes args selector instance_id eni_id
                    args.takeover_timeout u c)
                (λ u x q. tt))
        ])
        (λ not_in_use.
          Observes-if then_described Requests After t (current_status == codes "available") _ _
            (λ free. (
              (xml, refl, eni),
              xml,
              (by_selector selector, refl, shown ∙ ap some ((bytes_beq_iff _ _).0 free), inl refl),
            ))
            (λ other_status. tt))

  attach_and_write-Safe :
      (eni_id : Bytes) (private_ip : Option Bytes) (t : Described)
      → IsFree t eni_id
      → Safe t (attach_and_write parent args instance_id eni_id private_ip)
  unfolding attach_and_write do_attach_eni
  attach_and_write-Safe eni_id private_ip t h =
      Observes-then then_described Requests (λ u r. Unit {0}) (λ u r. Unit {0}) t
        (do_attach_eni args.region instance_id eni_id args.device_index)
        (λ _. write_ip parent args.write_ip_file private_ip) (do_attach_eni-Safe eni_id t h)
        (λ u a q. write_ip-Safe args.write_ip_file private_ip u) (λ u e q. tt)

  take_item-Safe :
      (xml item_xml : Bytes)
      → extract_balanced xml (codes "item") ≡ some item_xml
      → Safe (once_described selector xml) (take_item parent args instance_id item_xml)
  unfolding take_item
  take_item-Safe xml item_xml item =
      elim (Option-cases (extract_scalar item_xml (codes "networkInterfaceId"))) [
        | inl e ↦ rw e tt
        | inr (eni_id, e) ↦ rw e (elim (Option-cases (extract_scalar item_xml (codes "status"))) [
          | inl k ↦ rw k tt
          | inr (status, k) ↦ rw k (
              Observes-then then_described Requests (Polled args selector instance_id eni_id)
                (λ u r. Unit {0}) (once_described selector xml)
                (free_eni args item_xml eni_id status)
                (λ _.
                  attach_and_write parent args instance_id eni_id
                    (extract_scalar item_xml (codes "privateIpAddress")))
                (free_eni-Observes xml item_xml eni_id status item e k)
                (λ u a q.
                  attach_and_write-Safe eni_id (extract_scalar item_xml (codes "privateIpAddress"))
                    u q)
                (λ u x q. tt))
        ])
      ]

  takeover_answer-Safe :
      (r : Result Bytes)
      → Safe
          (with_description describes (by_selector selector) not_described r)
          (on_ok (take_first parent args instance_id) r)
  unfolding take_first
  takeover_answer-Safe (err e) = tt
  takeover_answer-Safe (ok xml) = elim (Option-cases (extract_balanced xml (codes "item"))) [
    | inl e ↦ rw e tt
    | inr (item_xml, e) ↦ rw e (take_item-Safe xml item_xml e)
  ]

  -- Whatever the answers are, a takeover sends requests only to EC2 in its region. First it describes what its
  -- selector selects, and then only the interface that the first answer names first. It attaches that very
  -- interface, to its instance and at its device index, and only when the last description that it received
  -- shows the interface available. It detaches only when the last description shows the interface in use, and
  -- then by force the attachment that this description names. It sends no other request.
  pub cmd_takeover-Allowed :
      Follows then_described
        (Allowed args selector instance_id)
        not_described
        (cmd_takeover parent args selector instance_id)
  unfolding cmd_takeover describe_eni_xml Allowed then_described bytes_beq
  cmd_takeover-Allowed =
      ((refl, refl, inl (refl, refl)), λ r. unfold Allowed then_described in takeover_answer-Safe r)
