-- ===== src/Vrrp.antt =====
-- aeroscale/src/vrrp.rs: whether this node holds the inside address.
use aerosuite.Base.{ℕ, to_decimal, ◌/◌, ◌%◌, ◌^◌, Bytes, codes, Bool, false, ◌&&◌, ◌++◌, is_some}
use aerosuite.Program.{Call, Prog, ret, send, Result, ok, err, ◌>>=◌}
use aerosuite.Xml.{split_first}

-- Ipv4Addr::to_string
unfoldable pub ipv4_text : ℕ → Bytes
ipv4_text ip =
    to_decimal (ip / 2 ^ 24)
    ++ (codes "."
        ++ (to_decimal (ip / 2 ^ 16 % 256)
            ++ (codes "."
                ++ (to_decimal (ip / 2 ^ 8 % 256) ++ (codes "." ++ to_decimal (ip % 256))))))

-- The output of a successful `ip addr show` contains the address; any failure means backup.
abbrev pub held : ℕ → Result (Bool × Bytes) → Bool
held vip (err e) = false
held vip (ok (success, stdout)) = success && is_some (split_first (ipv4_text vip) stdout)

unfoldable pub is_master : ℕ → Prog Bool
unfolding split_first ipv4_text
is_master vip = send Call.ip_addr_show >>= λ r. ret (held vip r)
