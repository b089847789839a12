-- ===== src/Pulse/WeightFiles.antt =====
-- aeropulse/src/main.rs, render_backends_conf: the weight files that keepalived is told to follow, against
-- the files that aeroscale keeps (aeroscale/src/snapshot/weights.rs).
use aerosuite.Base.{
  u32_mod, text_lines, concat, All, ℕ, zero, suc, ◌+◌, ◌<◌, ◌≡◌, refl, ap, Bytes, codes, Option,
  none, some, List, [], ◌∷◌, ◌++◌, strip_prefix, arith,
}
use mathlib.Core.List.{append_assoc}
use aerosuite.SlotNetwork.{SlotNetwork, ip_for_slot, ip_for_slot-lt}
use aerosuite.Vrrp.{ipv4_text}
use aerosuite.Xml.{split_first}
use aerosuite.WeightSync.Names.{ip_text-name}
use aerosuite.Collect.Weights.{file_ip}
use aerosuite.Pulse.Backends.{track_file_block, track_files, weight_dir}
use aerosuite.Pulse.Addresses.{IsText, ipv4_text-IsText, parse_ipv4-ipv4_text}

abbrev pub weight_file : ℕ → Bytes
weight_file ip = codes "backend-" ++ (ipv4_text ip ++ codes ".weight")

-- aeroscale reads the address back from the name of its weight file.
file_ip-weight_file : (ip : ℕ) → ip < u32_mod → file_ip (weight_file ip) ≡ some ip
unfolding file_ip
file_ip-weight_file ip h = rw (ip_text-name (ipv4_text ip)) (parse_ipv4-ipv4_text ip h)

-- The address that aeroscale gives to the file of a `file "<directory><name>"` line.
abbrev quoted_name : Option (Bytes × Bytes) → Option ℕ
quoted_name none = none
quoted_name (some (name, rest)) = file_ip name

abbrev in_dir : Option Bytes → Option ℕ
in_dir none = none
in_dir (some s) = quoted_name (split_first (codes "\"") s)

unfoldable pub followed : Bytes → Option ℕ
unfolding strip_prefix
followed line = in_dir (strip_prefix (codes "    file \"" ++ weight_dir) line)

abbrev found : Option ℕ → List ℕ → List ℕ
found none rest = rest
found (some ip) rest = ip ∷ rest

unfoldable pub all_followed : List Bytes → List ℕ
unfolding followed
all_followed [] = []
all_followed (line ∷ lines) = found (followed line) (all_followed lines)

-- The addresses of n slots from `slot` on.
unfoldable pub addresses : SlotNetwork → ℕ → ℕ → List ℕ
addresses net slot zero = []
addresses net slot (suc n) = ip_for_slot net slot ∷ addresses net (slot + 1) n

-- A text without a quote before the first quote.
split_first-quote :
    (a s rest : Bytes) (before : Bytes)
    → All IsText a
    → split_first (codes "\"") s ≡ some (before, rest)
    → split_first (codes "\"") (a ++ s) ≡ some (a ++ before, rest)
unfolding split_first strip_prefix
split_first-quote [] s rest before h e = e
split_first-quote (c ∷ a) s rest before h e =
    let later = split_first-quote a s rest before h.1 e in ground (arith, later, h.0.0)

text_lines-IsText :
    (a s l : Bytes) (ls : List Bytes)
    → All IsText a
    → text_lines s ≡ l ∷ ls
    → text_lines (a ++ s) ≡ (a ++ l) ∷ ls
unfolding text_lines
text_lines-IsText [] s l ls h e = e
text_lines-IsText (c ∷ a) s l ls h e =
    let later = text_lines-IsText a s l ls h.1 e in ground (arith, later, h.0.0)

block_end :
    (s : Bytes)
    → text_lines (codes ".weight\"\n}\n" ++ s) ≡ codes ".weight\"" ∷ codes "}" ∷ text_lines s
unfolding text_lines
block_end s = refl

block_middle :
    (s l : Bytes) (ls : List Bytes)
    → text_lines s ≡ l ∷ ls
    → text_lines (codes " {\n    file \"/etc/keepalived/weights/backend-" ++ s)
      ≡ codes " {" ∷ (codes "    file \"/etc/keepalived/weights/backend-" ++ l) ∷ ls
unfolding text_lines
block_middle s l ls e = rw e refl

block_start :
    (s l : Bytes) (ls : List Bytes)
    → text_lines s ≡ l ∷ ls
    → text_lines (codes "track_file backend_" ++ s) ≡ (codes "track_file backend_" ++ l) ∷ ls
unfolding text_lines
block_start s l ls e = rw e refl

-- The lines of a block, and what follows it.
text_lines-track_file_block :
    (ip : ℕ) (s : Bytes)
    → text_lines (track_file_block ip ++ s)
      ≡ (codes "track_file backend_" ++ (ipv4_text ip ++ codes " {"))
        ∷ (codes "    file \"/etc/keepalived/weights/backend-"
            ++ (ipv4_text ip ++ codes ".weight\""))
        ∷ codes "}"
        ∷ text_lines s
unfolding track_file_block concat
text_lines-track_file_block ip s =
    let t = ipv4_text ip in
    let safe = ipv4_text-IsText ip in
    simp append_assoc (
      block_start _ _ _ (
        text_lines-IsText t _ _ _ safe
          (block_middle _ _ _ (text_lines-IsText t _ _ _ safe (block_end s)))))

followed-file :
    (ip : ℕ)
    → ip < u32_mod
    → followed
        (codes "    file \"/etc/keepalived/weights/backend-" ++ (ipv4_text ip ++ codes ".weight\""))
      ≡ some ip
unfolding followed split_first
followed-file ip h =
    let q =
      split_first-quote (ipv4_text ip) (codes ".weight\"") [] (codes ".weight")
        (ipv4_text-IsText ip) refl in
    rw q (file_ip-weight_file ip h)

followed-start : (s : Bytes) → followed (codes "track_file backend_" ++ s) ≡ none
unfolding followed
followed-start s = refl

-- The track_file blocks for n slots name, in the order of the slots, exactly the weight files from whose
-- names aeroscale reads the addresses of these slots.
pub all_followed-track_files :
    (net : SlotNetwork) (slot n : ℕ)
    → all_followed (text_lines (track_files net slot n)) ≡ addresses net slot n
unfolding all_followed track_files addresses
all_followed-track_files net slot zero = unfold text_lines in refl
all_followed-track_files net slot (suc n) =
    let ip = ip_for_slot net slot in
    rw
      (
        text_lines-track_file_block ip (track_files net (slot + 1) n),
        followed-start (ipv4_text ip ++ codes " {"),
        followed-file ip (ip_for_slot-lt net slot),
      )
      (unfold followed in ap (λ l. ip ∷ l) (all_followed-track_files net (slot + 1) n))
