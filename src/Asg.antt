-- ===== src/Asg.antt =====
-- aerocore/src/asg/mod.rs and aeroscale/src/snapshot/asg.rs: the requests to the Auto Scaling service and
-- what is read from its answers.
use aerosuite.Aws.{param, bool_text}
use aerosuite.Base.{
  ℕ, ℤ, pos, parse_i64, to_decimal, sort_by, bytes_leb, suc, Bytes, codes, Bool, Option, none, some,
  List, [], ◌∷◌, ◌++◌, map, length, if◌then◌else◌, is_some, bytes_eq,
}
use aerosuite.Program.{Call, Prog, ret, send, Result, ok, err, unexpected_response, ◌>>=?◌}
use aerosuite.Xml.{split_first, extract_balanced, extract_scalar, elements, listed}
use aerosuite.Snapshot.{AsgGroupInfo, AsgInstance}

-- asg::AsgInstance, which has one field more than the snapshot's.
pub record DescribedInstance : Type 0 where
  pub instance_id : Bytes
  pub availability_zone : Bytes
  pub lifecycle_state : Bytes
  pub health_status : Bytes

pub record AsgGroup : Type 0 where
  pub name : Bytes
  pub desired_capacity : ℤ
  pub min_size : ℤ
  pub max_size : ℤ
  pub instances : List DescribedInstance

abbrev pub autoscaling_host : Bytes → Bytes
autoscaling_host region = codes "autoscaling." ++ (region ++ codes ".amazonaws.com")

abbrev or_text : Bytes → Option Bytes → Bytes
or_text default none = default
or_text default (some s) = s

-- One `member` of `Instances`.
unfoldable pub parse_instance : Bytes → DescribedInstance
parse_instance xml = record {
  instance_id = or_text (codes "(unknown)") (extract_scalar xml (codes "InstanceId"));
  availability_zone = or_text [] (extract_scalar xml (codes "AvailabilityZone"));
  lifecycle_state = or_text [] (extract_scalar xml (codes "LifecycleState"));
  health_status = or_text [] (extract_scalar xml (codes "HealthStatus"));
}

-- The contents of the `member` elements, one after the other; an element that is passed over takes
-- characters with it, so a round for each character and one more is enough.
abbrev pub members_of : Bytes → List Bytes
members_of xml = listed (elements (suc (length xml)) (codes "member") xml)

abbrev instances_in : Option Bytes → List DescribedInstance
instances_in none = []
instances_in (some block) = map parse_instance (members_of block)

abbrev size_or_zero : Option ℤ → ℤ
size_or_zero none = pos 0
size_or_zero (some n) = n

abbrev parsed_or_zero : Option Bytes → ℤ
parsed_or_zero none = pos 0
parsed_or_zero (some s) = size_or_zero (parse_i64 s)

unfoldable pub parse_size : Bytes → Bytes → ℤ
parse_size xml tag = parsed_or_zero (extract_scalar xml tag)

-- One `member` of the answer; one without a name is not a group.
abbrev group_of : Bytes → Option Bytes → Option AsgGroup
group_of xml none = none
group_of xml (some name) = some (record {
  name = name;
  desired_capacity = parse_size xml (codes "DesiredCapacity");
  min_size = parse_size xml (codes "MinSize");
  max_size = parse_size xml (codes "MaxSize");
  instances = instances_in (extract_balanced xml (codes "Instances"));
})

unfoldable pub groups_of : List Bytes → List AsgGroup
groups_of [] = []
groups_of (xml ∷ rest) = elim (group_of xml (extract_scalar xml (codes "AutoScalingGroupName"))) [
  | none ↦ groups_of rest
  | some g ↦ g ∷ groups_of rest
]

unfoldable pub parse_asg_describe : Bytes → List AsgGroup
unfolding groups_of
parse_asg_describe xml = groups_of (members_of xml)

unfoldable pub describe : Bytes → Bytes → Prog (Result (List AsgGroup))
unfolding parse_asg_describe
describe region asg_name =
    send (
      Call.aws_query (autoscaling_host region) (codes "autoscaling") region (
        param "Action" (codes "DescribeAutoScalingGroups")
        ∷ param "Version" (codes "2011-01-01")
        ∷ param "AutoScalingGroupNames.member.1" asg_name
        ∷ []))
    >>=? λ xml. ret (ok (parse_asg_describe xml))

-- The answer names the response that was asked for.
unfoldable pub expect_response : Bytes → Bytes → Prog (Result (Unit {0}))
unfolding split_first
expect_response name xml =
    if is_some (split_first name xml) then ret (ok tt) else ret (err unexpected_response)

unfoldable pub set_desired : Bytes → Bytes → ℕ → Prog (Result (Unit {0}))
unfolding expect_response
set_desired region asg_name desired =
    send (
      Call.aws_query (autoscaling_host region) (codes "autoscaling") region (
        param "Action" (codes "SetDesiredCapacity")
        ∷ param "Version" (codes "2011-01-01")
        ∷ param "AutoScalingGroupName" asg_name
        ∷ param "DesiredCapacity" (to_decimal desired)
        ∷ param "HonorCooldown" (codes "false")
        ∷ []))
    >>=? expect_response (codes "SetDesiredCapacityResponse")

unfoldable pub terminate_instance : Bytes → Bytes → Bool → Prog (Result (Unit {0}))
unfolding expect_response
terminate_instance region instance_id decrement =
    send (
      Call.aws_query (autoscaling_host region) (codes "autoscaling") region (
        param "Action" (codes "TerminateInstanceInAutoScalingGroup")
        ∷ param "Version" (codes "2011-01-01")
        ∷ param "InstanceId" instance_id
        ∷ param "ShouldDecrementDesiredCapacity" (bool_text decrement)
        ∷ []))
    >>=? expect_response (codes "TerminateInstanceInAutoScalingGroupResponse")

-- snapshot/asg.rs: the first group's sizes, and all instances sorted by their ids.
abbrev first_info : List AsgGroup → Option AsgGroupInfo
first_info [] = none
first_info (g ∷ gs) = some (record {
  name = g.name;
  desired_capacity = g.desired_capacity;
  min_size = g.min_size;
  max_size = g.max_size;
})

abbrev snapshot_instance : DescribedInstance → AsgInstance
snapshot_instance i = record {
  instance_id = i.instance_id;
  lifecycle_state = i.lifecycle_state;
  health_status = i.health_status;
}

unfoldable pub all_instances : List AsgGroup → List AsgInstance
all_instances [] = []
all_instances (g ∷ gs) = map snapshot_instance g.instances ++ all_instances gs

abbrev pub by_instance_id : AsgInstance → AsgInstance → Bool
by_instance_id a b = bytes_leb a.instance_id b.instance_id

unfoldable pub read_all : Bytes → Bytes → Prog (Result (Option AsgGroupInfo × List AsgInstance))
unfolding describe all_instances
read_all region asg_name = describe region asg_name >>=? λ groups.
    ret (ok (first_info groups, sort_by by_instance_id (all_instances groups)))
