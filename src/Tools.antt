-- ===== src/Tools.antt =====
-- aeroscale/src/bin/scale.rs and aeroscale/src/bin/aws-config.rs: the tools for the command line. What they
-- print is left out.
use aerosuite.Base.{ℕ, Bytes, codes, true, Option, ◌++◌}
use aerosuite.Program.{Call, Prog, ret, send, Result, ok, ◌>>=?◌}
use aerosuite.Aws.{AwsCredentials, fetch_imds_path, fetch_imds_credentials}
use aerosuite.Pulse.Main.{create_dir_of}
use aerosuite.Asg.{describe, set_desired, terminate_instance}

pub data Command : Type 0 where
  list : Command
  scale : ℕ → Command
  terminate : Bytes → Command

unfoldable pub cmd_list : Bytes → Bytes → Prog (Result (Unit {0}))
unfolding describe
cmd_list region asg_name = describe region asg_name >>=? λ groups. ret (ok tt)

unfoldable pub cmd_scale : Bytes → Bytes → ℕ → Prog (Result (Unit {0}))
unfolding set_desired
cmd_scale region asg_name desired = set_desired region asg_name desired >>=? λ _. ret (ok tt)

unfoldable pub cmd_terminate : Bytes → Bytes → Prog (Result (Unit {0}))
unfolding terminate_instance
cmd_terminate region instance_id = terminate_instance region instance_id true >>=? λ _. ret (ok tt)

unfoldable pub dispatch : Bytes → Bytes → Command → Prog (Result (Unit {0}))
unfolding cmd_list cmd_scale cmd_terminate
dispatch region asg_name list = cmd_list region asg_name
dispatch region asg_name (scale desired) = cmd_scale region asg_name desired
dispatch region asg_name (terminate instance_id) = cmd_terminate region instance_id

unfoldable pub scale_main :
    (Bytes → Option AwsCredentials) → Bytes → Bytes → Command → Prog (Result (Unit {0}))
unfolding fetch_imds_credentials dispatch
scale_main parse region asg_name command =
    fetch_imds_credentials parse >>=? λ creds. dispatch region asg_name command

abbrev pub config_text : Bytes → Bytes → Bytes → Bytes
config_text instance_id public_ipv4 private_ipv4 =
    codes "INSTANCE_ID="
    ++ (instance_id
        ++ (codes "\nPUBLIC_IPV4="
            ++ (public_ipv4 ++ (codes "\nPRIVATE_IPV4=" ++ (private_ipv4 ++ codes "\n")))))

-- `parent` stands for Path::parent.
unfoldable pub aws_config_main : (Bytes → Option Bytes) → Bytes → Prog (Result (Unit {0}))
unfolding fetch_imds_path
aws_config_main parent out = send Call.imds_token >>=? λ token.
    fetch_imds_path token (codes "instance-id") >>=? λ instance_id.
    fetch_imds_path token (codes "public-ipv4") >>=? λ public_ipv4.
    fetch_imds_path token (codes "local-ipv4") >>=? λ private_ipv4.
    create_dir_of (parent out) >>=? λ _.
    send (Call.write_text out (config_text instance_id public_ipv4 private_ipv4))
