-- ===== src/Scaler/Order.antt =====
-- The order in which evaluate_drain looks at the backends.
use aerosuite.Base.{ℕ, ◌≤◌, List, [], ◌∷◌, All, leb, Bool-cases, inl, inr, arith}
use aerosuite.Snapshot.{BackendStatus}
use aerosuite.Scaler.{sessions}
use aerosuite.Scaler.Drain.{insert_by_sessions, sort_by_sessions, last_of}

abbrev HeadAtLeast : BackendStatus → List BackendStatus → Type 0
HeadAtLeast b [] = Unit
HeadAtLeast b (c ∷ cs) = sessions b ≤ sessions c

-- No backend has more sessions than its successor.
abbrev pub IsSorted : List BackendStatus → Type 0
IsSorted [] = Unit
IsSorted (b ∷ bs) = HeadAtLeast b bs × IsSorted bs

insert-HeadAtLeast :
    (a b : BackendStatus) (cs : List BackendStatus)
    → sessions a ≤ sessions b
    → HeadAtLeast a cs
    → HeadAtLeast a (insert_by_sessions b cs)
unfolding insert_by_sessions
insert-HeadAtLeast a b [] h k = h
insert-HeadAtLeast a b (c ∷ cs) h k = elim (Bool-cases (leb (sessions b) (sessions c))) [
  | inl e ↦ rw e h
  | inr e ↦ rw e k
]

insert-IsSorted :
    (b : BackendStatus) (cs : List BackendStatus) → IsSorted cs → IsSorted (insert_by_sessions b cs)
unfolding insert_by_sessions
insert-IsSorted b [] h = (tt, tt)
insert-IsSorted b (c ∷ cs) h = elim (Bool-cases (leb (sessions b) (sessions c))) [
  | inl e ↦ rw e (ground arith, h)
  | inr e ↦ rw e (insert-HeadAtLeast c b cs (ground arith) h.0, insert-IsSorted b cs h.1)
]

pub sort-IsSorted : (bs : List BackendStatus) → IsSorted (sort_by_sessions bs)
unfolding sort_by_sessions
sort-IsSorted [] = tt
sort-IsSorted (b ∷ bs) = insert-IsSorted b (sort_by_sessions bs) (sort-IsSorted bs)

module _ (P : BackendStatus → Type 0) where
  insert-All :
      (b : BackendStatus) (cs : List BackendStatus)
      → P b
      → All P cs
      → All P (insert_by_sessions b cs)
  unfolding insert_by_sessions
  insert-All b [] p h = (p, tt)
  insert-All b (c ∷ cs) p h = elim (Bool-cases (leb (sessions b) (sessions c))) [
    | inl e ↦ rw e (p, h)
    | inr e ↦ rw e (h.0, insert-All b cs p h.1)
  ]

  All-insert :
      (b : BackendStatus) (cs : List BackendStatus)
      → All P (insert_by_sessions b cs)
      → P b × All P cs
  unfolding insert_by_sessions
  All-insert b [] h = h
  All-insert b (c ∷ cs) h = elim (Bool-cases (leb (sessions b) (sessions c))) [
    | inl e ↦ rw e at h
    | inr e ↦
        let (c_holds, rest) = rw e at h in
        let (b_holds, cs_hold) = All-insert b cs rest in (b_holds, (c_holds, cs_hold))
  ]

  pub sort-All : (bs : List BackendStatus) → All P bs → All P (sort_by_sessions bs)
  unfolding sort_by_sessions
  sort-All [] h = tt
  sort-All (b ∷ bs) h = insert-All b (sort_by_sessions bs) h.0 (sort-All bs h.1)

  pub All-sort : (bs : List BackendStatus) → All P (sort_by_sessions bs) → All P bs
  unfolding sort_by_sessions
  All-sort [] h = tt
  All-sort (b ∷ bs) h = let k = All-insert b (sort_by_sessions bs) h in (k.0, All-sort bs k.1)

  pub All-last_of :
      (b : BackendStatus) (bs : List BackendStatus) → All P (b ∷ bs) → P (last_of b bs)
  unfolding last_of
  All-last_of b [] h = h.0
  All-last_of b (c ∷ cs) h = All-last_of c cs h.1

-- The last of a sorted list has the most sessions.
pub last_of-most :
    (b : BackendStatus) (bs : List BackendStatus)
    → IsSorted (b ∷ bs)
    → All (λ (c : BackendStatus). sessions c ≤ sessions (last_of b bs)) (b ∷ bs)
unfolding last_of
last_of-most b [] h = (ground arith, tt)
last_of-most b (c ∷ cs) h = let k = last_of-most c cs h.1 in (head (h.0) (k.0), k)
  where
    head : {m n o : ℕ} → m ≤ n → n ≤ o → m ≤ o
    head h k = omega arith
