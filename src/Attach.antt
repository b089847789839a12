-- ===== src/Attach.antt =====
-- aeroplug/src/attach.rs: a network interface (ENI) is attached to the running instance, detached, or
-- taken over from another one. The requests are signed with the instance's credentials, which are left
-- out here, as is what is printed.
pub mod Commands
pub mod Guard
pub mod Polls
pub mod Items
pub mod Takeover
use aerosuite.Aws.{
  param, Params, bool_text, required, AwsCredentials, fetch_imds_instance_id,
  fetch_imds_credentials,
}
use aerosuite.Base.{
  ℕ, to_decimal, bytes_eq, zero, suc, ◌+◌, ◌*◌, ◌/◌, Bytes, codes, Bool, true, false, Option, none,
  some, List, [], ◌∷◌, ◌++◌, leb, length, if◌then◌else◌, ◌==◌, ◌-◌, ◌%◌, ◌^◌, ◌≤◌, ◌<◌, ◌≡◌, refl,
  sym, ap, ◌∙◌, subst, not, ◌&&◌, ◌||◌, map, nat_beq, ltb, strip_prefix, strip_prefix-append,
  is_some, arith, Bool-cases, Option-cases, inl, inr, ◌≢◌, ◌⊎◌, All,
}
use aerosuite.Program.{
  Call, Prog, ret, send, Result, ok, err, no_match, missing_field, not_attached,
  unexpected_response, unexpected_status, timed_out, bad_argument, ◌>>=◌, ◌>>=?◌,
}
use aerosuite.Xml.{split_first, extract_balanced, extract_scalar, elements, listed}

pub record Args : Type 0 where
  pub eni_id : Option Bytes
  pub name : Option Bytes
  pub description : Option Bytes
  pub tag : List Bytes
  pub slot : Option ℕ
  pub attach : Bool
  pub detach : Bool
  pub takeover : Bool
  pub takeover_timeout : ℕ
  pub device_index : ℕ
  pub write_ip_file : Option Bytes
  pub force : Bool
  pub region : Bytes

pub data EniSelector : Type 0 where
  by_id by_name by_description : Bytes → EniSelector
  by_tags : List (Bytes × Bytes) → EniSelector
  by_slot : ℕ → EniSelector

abbrev with_pair : Bytes × Bytes → Result (List (Bytes × Bytes)) → Result (List (Bytes × Bytes))
with_pair p (err e) = err e
with_pair p (ok ps) = ok (p ∷ ps)

-- The `--tag` values; one without `=` is an error.
unfoldable pub tag_pairs : List Bytes → Result (List (Bytes × Bytes))
unfolding split_first
tag_pairs [] = ok []
tag_pairs (kv ∷ kvs) = elim (split_first (codes "=") kv) [
  | none ↦ err bad_argument
  | some pair ↦ with_pair pair (tag_pairs kvs)
]

abbrev selected_tags : Result (List (Bytes × Bytes)) → Result EniSelector
selected_tags (err e) = err e
selected_tags (ok pairs) = ok (by_tags pairs)

abbrev slot_selector : Option ℕ → Result EniSelector
slot_selector none = err bad_argument
slot_selector (some n) = ok (by_slot n)

abbrev tag_selector : List Bytes → Option ℕ → Result EniSelector
tag_selector [] slot = slot_selector slot
tag_selector (kv ∷ kvs) slot = selected_tags (tag_pairs (kv ∷ kvs))

abbrev description_selector : Option Bytes → List Bytes → Option ℕ → Result EniSelector
description_selector none tags slot = tag_selector tags slot
description_selector (some desc) tags slot = ok (by_description desc)

abbrev name_selector : Option Bytes → Option Bytes → List Bytes → Option ℕ → Result EniSelector
name_selector none description tags slot = description_selector description tags slot
name_selector (some name) description tags slot = ok (by_name name)

-- Args::eni_selector: the first of the five that is given.
unfoldable pub eni_selector : Args → Result EniSelector
unfolding tag_pairs
eni_selector args = elim args.eni_id [
  | some id ↦ ok (by_id id)
  | none ↦ name_selector args.name args.description args.tag args.slot
]

abbrev pub ec2_host : Bytes → Bytes
ec2_host region = codes "ec2." ++ (region ++ codes ".amazonaws.com")

-- The pair of parameters of the n-th filter.
abbrev filter_params : ℕ → Bytes → Bytes → Params
filter_params n name value =
    (codes "Filter." ++ (to_decimal n ++ codes ".Name"), name)
    ∷ (codes "Filter." ++ (to_decimal n ++ codes ".Value.1"), value)
    ∷ []

abbrev status_params : ℕ → Option Bytes → Params
status_params n none = []
status_params n (some s) = filter_params n (codes "status") s

-- The filters of the tags from the n-th on, then the one on the status.
unfoldable pub tag_params : ℕ → List (Bytes × Bytes) → Option Bytes → Params
tag_params n [] status = status_params n status
tag_params n ((key, value) ∷ pairs) status =
    filter_params n (codes "tag:" ++ key) value ++ tag_params (n + 1) pairs status

unfoldable pub selector_params : EniSelector → Option Bytes → Params
unfolding tag_params
selector_params (by_id id) status = param "NetworkInterfaceId.1" id ∷ status_params 1 status
selector_params (by_name name) status =
    filter_params 1 (codes "tag:Name") name ++ status_params 2 status
selector_params (by_description desc) status =
    filter_params 1 (codes "description") desc ++ status_params 2 status
selector_params (by_tags pairs) status = tag_params 1 pairs status
selector_params (by_slot n) status =
    filter_params 1 (codes "tag:aeroftp-slot") (to_decimal n) ++ status_params 2 status

abbrev pub describe_params : Params → Params
describe_params selection =
    param "Action" (codes "DescribeNetworkInterfaces")
    ∷ param "Version" (codes "2016-11-15")
    ∷ selection

abbrev pub ec2_query : Bytes → Params → Call
ec2_query region params = Call.aws_query (ec2_host region) (codes "ec2") region params

unfoldable pub describe_eni_xml : Bytes → EniSelector → Option Bytes → Prog (Result Bytes)
unfolding selector_params
describe_eni_xml region selector status =
    send (ec2_query region (describe_params (selector_params selector status)))

unfoldable pub resolve_eni :
    Bytes → EniSelector → Option Bytes → Prog (Result (Bytes × Option Bytes))
unfolding describe_eni_xml
resolve_eni region selector status = describe_eni_xml region selector status >>=? λ xml.
    required no_match (extract_balanced xml (codes "item")) >>=? λ item_xml.
    required missing_field (extract_scalar item_xml (codes "networkInterfaceId")) >>=? λ eni_id.
    ret (ok (eni_id, extract_scalar item_xml (codes "privateIpAddress")))

abbrev attachment_in : Option Bytes → Option Bytes
attachment_in none = none
attachment_in (some block) = extract_scalar block (codes "attachmentId")

-- The attachment of an interface, from its description.
unfoldable pub attachment_of : Bytes → Option Bytes
attachment_of item_xml = attachment_in (extract_balanced item_xml (codes "attachment"))

unfoldable pub resolve_eni_for_detach : Bytes → EniSelector → Prog (Result (Bytes × Bytes))
unfolding describe_eni_xml attachment_of
resolve_eni_for_detach region selector =
    describe_eni_xml region selector (some (codes "in-use")) >>=? λ xml.
    required no_match (extract_balanced xml (codes "item")) >>=? λ item_xml.
    required missing_field (extract_scalar item_xml (codes "networkInterfaceId")) >>=? λ eni_id.
    required not_attached (attachment_of item_xml) >>=? λ attachment_id.
    ret (ok (eni_id, attachment_id))

abbrev pub attach_params : Bytes → Bytes → ℕ → Params
attach_params instance_id eni_id device_index =
    param "Action" (codes "AttachNetworkInterface")
    ∷ param "Version" (codes "2016-11-15")
    ∷ param "NetworkInterfaceId" eni_id
    ∷ param "InstanceId" instance_id
    ∷ param "DeviceIndex" (to_decimal device_index)
    ∷ []

unfoldable pub do_attach_eni : Bytes → Bytes → Bytes → ℕ → Prog (Result Bytes)
do_attach_eni region instance_id eni_id device_index =
    send (ec2_query region (attach_params instance_id eni_id device_index)) >>=? λ xml.
    required missing_field (extract_scalar xml (codes "attachmentId"))

abbrev pub detach_params : Bytes → Bool → Params
detach_params attachment_id force =
    param "Action" (codes "DetachNetworkInterface")
    ∷ param "Version" (codes "2016-11-15")
    ∷ param "AttachmentId" attachment_id
    ∷ param "Force" (bool_text force)
    ∷ []

-- Only an answer whose `return` is "true" is success.
unfoldable pub expect_true : Option Bytes → Prog (Result (Unit {0}))
expect_true none = ret (err unexpected_response)
expect_true (some v) = if v == codes "true" then ret (ok tt) else ret (err unexpected_response)

unfoldable pub do_detach_eni : Bytes → Bytes → Bool → Prog (Result (Unit {0}))
unfolding expect_true
do_detach_eni region attachment_id force =
    send (ec2_query region (detach_params attachment_id force)) >>=? λ xml.
    expect_true (extract_scalar xml (codes "return"))
