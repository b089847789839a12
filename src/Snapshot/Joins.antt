-- ===== src/Snapshot/Joins.antt =====
-- The joins of a snapshot: which lease a backend carries.
use aerosuite.Base.{
  ℕ, ◌<◌, ◌≡◌, refl, ◌∙◌, Option, none, some, List, [], ◌∷◌, ◌==◌, nat_eq, nat_beq, nat_beq_iff,
  insert, lookup, lookup-insert, All, u32_mod, if◌then◌else◌, arith, Bool-cases, inl, inr,
}
use aerosuite.SlotNetwork.{SlotNetwork, ip_for_slot, ip_for_slot_injective}
use aerosuite.Snapshot.{SlotLease, WeightEntry, IpvsBackend, ip_to_lease, status_of}

-- The lease of a list that holds a slot; of several the last.
unfoldable pub lease_of_slot : ℕ → List SlotLease → Option SlotLease
lease_of_slot slot [] = none
lease_of_slot slot (l ∷ ls) = elim (lease_of_slot slot ls) [
  | some k ↦ some k
  | none ↦ if l.slot == slot then some l else none
]

abbrev or_else : Option SlotLease → Option SlotLease → Option SlotLease
or_else (some l) b = some l
or_else none b = b

or_else-none : (o : Option SlotLease) → or_else o none ≡ o
or_else-none none = refl
or_else-none (some l) = refl

module _ (net : SlotNetwork) (slot : ℕ) (small : slot < u32_mod) where
  same_slot :
      (l : SlotLease)
      → l.slot < u32_mod
      → nat_beq (ip_for_slot net l.slot) (ip_for_slot net slot) ≡ nat_beq l.slot slot
  same_slot l h = elim (Bool-cases (nat_beq l.slot slot)) [
    | inl e ↦ rw ((nat_beq_iff l.slot slot).0 e) (ground arith)
    | inr e ↦ ground (arith, e, ip_for_slot_injective net l.slot slot h small)
  ]

  lookup-ip_to_lease :
      (ls : List SlotLease) (m : List (ℕ × SlotLease))
      → All (λ (l : SlotLease). l.slot < u32_mod) ls
      → lookup (ip_for_slot net slot) (ip_to_lease net ls m)
        ≡ or_else (lease_of_slot slot ls) (lookup (ip_for_slot net slot) m)
  unfolding ip_to_lease lease_of_slot
  lookup-ip_to_lease [] m h = refl
  lookup-ip_to_lease (l ∷ ls) m h = ground (
    arith,
    lookup-ip_to_lease ls (insert (ip_for_slot net l.slot) l m) h.1,
    lookup-insert (ip_for_slot net l.slot) (ip_for_slot net slot) l m,
    same_slot l h.0,
  )

  -- The backend whose weight file has the address of a u32 slot carries the lease of that slot, the last
  -- one if a list of leases of u32 slots has several, and none if the slot is not leased.
  pub lease-status_of :
      (ipvs : List IpvsBackend) (ls : List SlotLease) (w : WeightEntry)
      → All (λ (l : SlotLease). l.slot < u32_mod) ls
      → w.ip ≡ ip_for_slot net slot
      → (status_of net ipvs (ip_to_lease net ls []) w).lease ≡ lease_of_slot slot ls
  unfolding status_of lookup
  lease-status_of ipvs ls w h e =
      rw e (lookup-ip_to_lease ls [] h ∙ or_else-none (lease_of_slot slot ls))
