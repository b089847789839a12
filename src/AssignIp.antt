-- ===== src/AssignIp.antt =====
-- aeroplug/src/assign_ip.rs: a secondary address is assigned to a network interface, or taken from it.
use aerosuite.Base.{Bytes, codes, Bool, Option, none, some, [], ◌∷◌, ◌++◌, if◌then◌else◌}
use aerosuite.Program.{Call, Prog, ret, send, Result, ok, ◌>>=?◌}
use aerosuite.Xml.{extract_scalar}
use aerosuite.Aws.{
  Params, param, bool_text, AwsCredentials, fetch_imds_path, fetch_imds_credentials,
}
use aerosuite.Attach.{ec2_query, expect_true}

pub record AssignArgs : Type 0 where
  pub ip : Bytes
  pub eni : Option Bytes
  pub assign : Bool
  pub unassign : Bool
  pub allow_reassignment : Bool
  pub region : Bytes

unfoldable pub fetch_primary_eni_id : Prog (Result Bytes)
unfolding fetch_imds_path
fetch_primary_eni_id = send Call.imds_token >>=? λ token.
    fetch_imds_path token (codes "mac") >>=? λ mac.
    fetch_imds_path token (codes "network/interfaces/macs/" ++ (mac ++ codes "/interface-id"))

abbrev pub assign_params : Bytes → Bytes → Bool → Params
assign_params eni_id ip allow_reassignment =
    param "Action" (codes "AssignPrivateIpAddresses")
    ∷ param "Version" (codes "2016-11-15")
    ∷ param "NetworkInterfaceId" eni_id
    ∷ param "PrivateIpAddress.1" ip
    ∷ param "AllowReassignment" (bool_text allow_reassignment)
    ∷ []

unfoldable pub assign_secondary_ip : Bytes → Bytes → Bytes → Bool → Prog (Result (Unit {0}))
unfolding expect_true
assign_secondary_ip region eni_id ip allow_reassignment =
    send (ec2_query region (assign_params eni_id ip allow_reassignment)) >>=? λ xml.
    expect_true (extract_scalar xml (codes "return"))

abbrev pub unassign_params : Bytes → Bytes → Params
unassign_params eni_id ip =
    param "Action" (codes "UnassignPrivateIpAddresses")
    ∷ param "Version" (codes "2016-11-15")
    ∷ param "NetworkInterfaceId" eni_id
    ∷ param "PrivateIpAddress.1" ip
    ∷ []

unfoldable pub unassign_secondary_ip : Bytes → Bytes → Bytes → Prog (Result (Unit {0}))
unfolding expect_true
unassign_secondary_ip region eni_id ip =
    send (ec2_query region (unassign_params eni_id ip)) >>=? λ xml.
    expect_true (extract_scalar xml (codes "return"))

-- The interface that is named, or the primary one.
unfoldable pub chosen_eni : Option Bytes → Prog (Result Bytes)
unfolding fetch_primary_eni_id
chosen_eni none = fetch_primary_eni_id
chosen_eni (some id) = ret (ok id)

-- `parse` stands for the reading of the credentials.
unfoldable pub run_assign : (Bytes → Option AwsCredentials) → AssignArgs → Prog (Result (Unit {0}))
unfolding fetch_imds_credentials chosen_eni assign_secondary_ip unassign_secondary_ip
run_assign parse args = fetch_imds_credentials parse >>=? λ creds.
    chosen_eni args.eni >>=? λ eni_id.
    if args.assign
    then assign_secondary_ip args.region eni_id args.ip args.allow_reassignment
    else unassign_secondary_ip args.region eni_id args.ip
