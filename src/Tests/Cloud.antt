-- ===== src/Tests/Cloud.antt =====
-- Answers of AWS, the takeover of an interface and a round of the daemon.
use aerosuite.Base.{
  ℕ, strip_prefix, ◌+◌, ◌≤◌, ◌≡◌, refl, Bytes, codes, true, false, none, some, [], ◌++◌, arith, ◌≢◌,
}
use aerosuite.Program.{Call, Reply, ok, Env, run}
use aerosuite.Program.Observed.{Follows}
use aerosuite.Xml.{open_tag, close_tag, split_first, extract_balanced, balanced_loop, elements}
use aerosuite.Xml.Loop.{scan_after, extract_balanced-scan, extract_balanced-terminates}
use aerosuite.Xml.Tree.{
  Content, done, text, element, print, IsName, IsWellFormed, is_name, is_name-IsName,
  is_well_formed, is_well_formed-IsWellFormed,
}
use aerosuite.Xml.Printed.{extract_balanced-print}
use aerosuite.Xml.Elements.{items, OnlyNamed, elements-terminates}
use aerosuite.Attach.{Args, by_name}
use aerosuite.Attach.Commands.{nanos, poll_loop, poll_rounds, count_items, cmd_takeover}
use aerosuite.Attach.Guard.{not_described, then_described, Allowed}
use aerosuite.Attach.Takeover.{cmd_takeover-Allowed}
use aerosuite.Attach.Polls.{Clock, poll_until_available-terminates}
use aerosuite.Attach.Items.{count_items-print}
use aerosuite.Tests.Master.{answers_nothing}

-- Two interfaces; the first has an inner `item`.
abbrev two_items : Content
two_items =
    element (codes "item")
      (element (codes "groupSet") (element (codes "item") (text (codes "sg-1") done) done) done)
      (text (codes " ") (element (codes "item") (text (codes "eni-2") done) done))

abbrev described : Bytes
described =
    codes "<r><networkInterfaceSet>" ++ (print two_items ++ codes "</networkInterfaceSet></r>")

item-IsName : IsName (codes "item")
unfolding is_name
item-IsName = is_name-IsName (codes "item") refl

two_items-IsWellFormed : IsWellFormed two_items
unfolding is_well_formed
two_items-IsWellFormed = is_well_formed-IsWellFormed two_items refl

extract_balanced-scan_example :
    extract_balanced described (codes "item")
    ≡ scan_after (codes "item") (split_first (open_tag (codes "item")) described)
extract_balanced-scan_example = extract_balanced-scan described (codes "item")

extract_balanced-terminates_example :
    (balanced_loop 9 (open_tag (codes "a")) (close_tag (codes "a")) 0 [] (codes "<a></a>") ≢ none)
    × (balanced_loop 9 (open_tag (codes "a")) (close_tag (codes "a")) 0 [] (codes "<a></a>")
        ≡ balanced_loop 8 (open_tag (codes "a")) (close_tag (codes "a")) 0 [] (codes "<a></a>"))
extract_balanced-terminates_example =
    extract_balanced-terminates (codes "a") (codes "<a></a>") 9 (omega arith)

count_items-print_example : count_items described ≡ 2
unfolding items OnlyNamed split_first strip_prefix print
count_items-print_example =
    count_items-print described (codes "<r>") (codes "</r>") two_items two_items-IsWellFormed
      (refl, (refl, tt)) refl

-- The first interface, with the `item` within it.
extract_balanced-print_example :
    extract_balanced described (codes "item")
    ≡ some (
        print (
          element (codes "groupSet") (element (codes "item") (text (codes "sg-1") done) done) done))
unfolding split_first strip_prefix print is_well_formed
extract_balanced-print_example =
    extract_balanced-print (codes "item") described (codes "<r><networkInterfaceSet>")
      (element (codes "groupSet") (element (codes "item") (text (codes "sg-1") done) done) done)
      (codes " <item>eni-2</item></networkInterfaceSet></r>") item-IsName
      (is_well_formed-IsWellFormed
        (element (codes "groupSet") (element (codes "item") (text (codes "sg-1") done) done) done)
        refl)
      refl

elements-terminates_example : elements 30 (codes "item") (codes "<item></item><item>") ≢ none
elements-terminates_example =
    elements-terminates (codes "item") item-IsName 30 (codes "<item></item><item>") (omega arith)

-- A cloud whose interface stays in `detaching`, and a clock of nanoseconds.
abbrev detaching : Bytes
detaching = codes "<item><status>detaching</status></item>"

unfoldable ticking : (c : Call) → ℕ → Reply c × ℕ
unfolding answers_nothing
ticking Call.instant_now t = (t, t + 1)
ticking (Call.sleep_secs n) t = (tt, t + nanos n)
ticking (Call.aws_query host service region params) t = (ok detaching, t + 5)
ticking c t = ((answers_nothing c tt).0, t)

abbrev slow_cloud : Env
slow_cloud = record { World = ℕ; exec = ticking }

never_back : (c : Call) (t : ℕ) → t ≤ (ticking c t).1
unfolding ticking
never_back Call.instant_now t = omega arith
never_back (Call.sleep_secs n) t = omega arith
never_back (Call.aws_query host service region params) t = omega arith
never_back _ t = omega arith

slow_clock : Clock slow_cloud
unfolding ticking
slow_clock = record {
  time = λ t. t;
  reads = λ t. refl;
  runs = λ c t. never_back c t;
  waits = λ n t. omega arith;
}

poll_until_available-terminates_example :
    (run slow_cloud
      (poll_loop
        (poll_rounds 5)
        (codes "eu")
        (codes "eni-1")
        ((ticking Call.instant_now 7).0 + nanos 5))
      (ticking Call.instant_now 7).1).0
    ≢ none
poll_until_available-terminates_example =
    poll_until_available-terminates slow_cloud slow_clock (codes "eu") (codes "eni-1") 5 7

abbrev standby_args : Args
standby_args = record {
  eni_id = none;
  name = some (codes "mgmt");
  description = none;
  tag = [];
  slot = none;
  attach = false;
  detach = false;
  takeover = true;
  takeover_timeout = 30;
  device_index = 1;
  write_ip_file = some (codes "/run/ip");
  force = false;
  region = codes "eu-west-2";
}

cmd_takeover-Allowed_example :
    Follows then_described
      (Allowed standby_args (by_name (codes "mgmt")) (codes "i-1"))
      not_described
      (cmd_takeover (λ p. some (codes "/run")) standby_args (by_name (codes "mgmt")) (codes "i-1"))
cmd_takeover-Allowed_example =
    cmd_takeover-Allowed (λ p. some (codes "/run")) standby_args (by_name (codes "mgmt"))
      (codes "i-1")
