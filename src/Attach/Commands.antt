-- ===== src/Attach/Commands.antt =====
-- aeroplug/src/attach.rs: the wait for an interface, the number of interfaces in an answer, and the commands.
use aerosuite.Aws.{param, required, AwsCredentials, fetch_imds_instance_id, fetch_imds_credentials}
use aerosuite.Base.{
  ℕ, bytes_eq, zero, suc, ◌+◌, ◌*◌, ◌/◌, Bytes, codes, Bool, true, false, Option, none, some, [],
  ◌∷◌, leb, length, if◌then◌else◌, ◌==◌,
}
use aerosuite.Program.{
  Call, Prog, ret, send, Result, ok, err, no_match, missing_field, not_attached, unexpected_status,
  timed_out, ◌>>=◌, ◌>>=?◌,
}
use aerosuite.Xml.{extract_balanced, extract_scalar, elements, listed}
use aerosuite.Attach.{
  Args, EniSelector, eni_selector, describe_params, ec2_query, describe_eni_xml, resolve_eni,
  attachment_of, resolve_eni_for_detach, do_attach_eni, do_detach_eni,
}

abbrev pub status_in : Option Bytes → Option Bytes
status_in none = none
status_in (some item_xml) = extract_scalar item_xml (codes "status")

-- The status of the first interface in an answer.
unfoldable pub first_status : Bytes → Option Bytes
first_status xml = status_in (extract_balanced xml (codes "item"))

abbrev pub shows : Bytes → Option Bytes → Bool
shows status none = false
shows status (some s) = s == status

abbrev pub nanos : ℕ → ℕ
nanos secs = secs * 1000000000

-- One round of the loop of poll_until_available: `next` is the wait and the rounds after it.
unfoldable pub poll_answer :
    Prog (Option (Result (Unit {0}))) → ℕ → Result Bytes → Prog (Option (Result (Unit {0})))
unfolding first_status
poll_answer next deadline (err e) = ret (some (err e))
poll_answer next deadline (ok xml) =
    if shows (codes "available") (first_status xml)
    then ret (some (ok tt))
    else (send Call.instant_now >>= λ now.
        if leb deadline now then ret (some (err timed_out)) else next)

-- The loop on fuel; `none` says that the fuel ran out.
unfoldable pub poll_loop : ℕ → Bytes → Bytes → ℕ → Prog (Option (Result (Unit {0})))
unfolding poll_answer
poll_loop zero region eni_id deadline = ret none
poll_loop (suc fuel) region eni_id deadline =
    let next = send (Call.sleep_secs 2) >>= λ _. poll_loop fuel region eni_id deadline in
    send (ec2_query region (describe_params (param "NetworkInterfaceId.1" eni_id ∷ [])))
    >>= poll_answer next deadline

-- One round at once and one after each two seconds within the timeout.
abbrev pub poll_rounds : ℕ → ℕ
poll_rounds timeout_secs = suc (suc (timeout_secs / 2))

abbrev pub polled : Option (Result (Unit {0})) → Result (Unit {0})
polled none = err timed_out
polled (some r) = r

unfoldable pub poll_until_available : Bytes → Bytes → ℕ → Prog (Result (Unit {0}))
unfolding poll_loop
poll_until_available region eni_id timeout_secs = send Call.instant_now >>= λ now.
    poll_loop (poll_rounds timeout_secs) region eni_id (now + nanos timeout_secs) >>= λ r.
    ret (polled r)

-- The number of top-level `item` elements in `networkInterfaceSet`, for a warning.
abbrev counted : Option Bytes → ℕ
counted none = 0
counted (some set_xml) = length (listed (elements (suc (length set_xml)) (codes "item") set_xml))

unfoldable pub count_items : Bytes → ℕ
unfolding extract_balanced elements
count_items xml = counted (extract_balanced xml (codes "networkInterfaceSet"))

unfoldable pub cmd_detach : Args → EniSelector → Prog (Result (Unit {0}))
unfolding resolve_eni_for_detach do_detach_eni
cmd_detach args selector =
    resolve_eni_for_detach args.region selector >>=? λ (eni_id, attachment_id).
    do_detach_eni args.region attachment_id args.force

-- What cmd_takeover does before it attaches, by the status that it found.
unfoldable pub free_eni : Args → Bytes → Bytes → Bytes → Prog (Result (Unit {0}))
unfolding attachment_of do_detach_eni poll_until_available
free_eni args item_xml eni_id current_status =
    if current_status == codes "in-use"
    then (required not_attached (attachment_of item_xml) >>=? λ attachment_id.
        do_detach_eni args.region attachment_id true >>=? λ _.
        poll_until_available args.region eni_id args.takeover_timeout)
    else if current_status == codes "available"
    then ret (ok tt)
    else ret (err (unexpected_status current_status))

-- The file for `--write-ip-file`; `parent` stands for Path::parent.
module _ (parent : Bytes → Option Bytes) where
  abbrev create_parent : Option Bytes → Prog (Result (Unit {0}))
  create_parent none = ret (ok tt)
  create_parent (some dir) = send (Call.create_dir dir)

  -- Without an address only a warning is printed.
  unfoldable pub write_ip : Option Bytes → Option Bytes → Prog (Result (Unit {0}))
  write_ip none private_ip = ret (ok tt)
  write_ip (some path) none = ret (ok tt)
  write_ip (some path) (some ip) =
      create_parent (parent path) >>=? λ _. send (Call.write_text path ip)

  -- The end of cmd_takeover, and of cmd_attach.
  unfoldable pub attach_and_write : Args → Bytes → Bytes → Option Bytes → Prog (Result (Unit {0}))
  unfolding do_attach_eni write_ip
  attach_and_write args instance_id eni_id private_ip =
      do_attach_eni args.region instance_id eni_id args.device_index >>=? λ _.
      write_ip args.write_ip_file private_ip

  unfoldable pub cmd_attach : Args → EniSelector → Bytes → Prog (Result (Unit {0}))
  unfolding resolve_eni attach_and_write
  cmd_attach args selector instance_id =
      resolve_eni args.region selector (some (codes "available")) >>=? λ (eni_id, private_ip).
      attach_and_write args instance_id eni_id private_ip

  -- cmd_takeover from the first interface of the description on
  unfoldable pub take_item : Args → Bytes → Bytes → Prog (Result (Unit {0}))
  unfolding free_eni attach_and_write
  take_item args instance_id item_xml =
      required missing_field (extract_scalar item_xml (codes "networkInterfaceId")) >>=? λ eni_id.
      required missing_field (extract_scalar item_xml (codes "status")) >>=? λ current_status.
      let private_ip = extract_scalar item_xml (codes "privateIpAddress") in
      free_eni args item_xml eni_id current_status >>=? λ _.
      attach_and_write args instance_id eni_id private_ip

  unfoldable pub take_first : Args → Bytes → Bytes → Prog (Result (Unit {0}))
  unfolding take_item
  take_first args instance_id xml =
      required no_match (extract_balanced xml (codes "item")) >>=? take_item args instance_id

  unfoldable pub cmd_takeover : Args → EniSelector → Bytes → Prog (Result (Unit {0}))
  unfolding describe_eni_xml take_first
  cmd_takeover args selector instance_id =
      describe_eni_xml args.region selector none >>=? take_first args instance_id

  -- `parse` stands for the reading of the credentials.
  unfoldable pub run_attach : (Bytes → Option AwsCredentials) → Args → Prog (Result (Unit {0}))
  unfolding fetch_imds_instance_id fetch_imds_credentials eni_selector cmd_attach cmd_detach
      cmd_takeover
  run_attach parse args = fetch_imds_instance_id >>=? λ instance_id.
      fetch_imds_credentials parse >>=? λ creds. ret (eni_selector args) >>=? λ selector.
      if args.attach
      then cmd_attach args selector instance_id
      else if args.detach
      then cmd_detach args selector
      else cmd_takeover args selector instance_id
