-- ===== src/Redis/Table.antt =====
-- A database of the documented behaviour, as association lists: the laws of `Redis` can be met.
use aerosuite.Base.{
  ℕ, ◌≤◌, ◌≡◌, refl, ◌∙◌, Option-cases, ◌⊎◌, ap, Bytes, true, ◌&&◌, Option, none, some, List, [],
  ◌∷◌, ◌==◌, bytes_eq, bytes_beq, bytes_beq_iff, leb, is_some, contains, contains-filter, filter,
  lookup, insert, remove, lookup-insert, lookup-remove, if◌then◌else◌, arith, inl, inr, Bool-cases,
}
use native.Mathlib.Nat.{le_trans}
use aerosuite.Program.{SortedSet, available, leases}
use aerosuite.Redis.{Redis, at_most, set_beq}

abbrev pub Scores : Type 0
Scores = List (Bytes × ℕ)

pub record Table : Type 0 where
  pub keys : List (Bytes × Bytes)
  pub free : Scores
  pub leased : Scores

abbrev pub names : Scores → List Bytes
names [] = []
names ((n, s) ∷ l) = n ∷ names l

abbrev pub sorted_set : SortedSet → Table → Scores
sorted_set available t = t.free
sorted_set leases t = t.leased

abbrev pub with_set : SortedSet → Scores → Table → Table
with_set available l t = record t { free = l }
with_set leases l t = record t { leased = l }

-- The names with a score of at most `max`.
unfoldable pub names_up_to : ℕ → Scores → List Bytes
names_up_to max l = filter (λ m. at_most max (lookup m l)) (names l)

unfoldable pub better : Bytes → Option ℕ → Option (Bytes × ℕ) → Option (Bytes × ℕ)
better n none rest = rest
better n (some s) none = some (n, s)
better n (some s) (some (m, t)) = if leb s t then some (n, s) else some (m, t)

unfoldable pub least : List Bytes → Scores → Option (Bytes × ℕ)
unfolding better
least [] l = none
least (n ∷ ns) l = better n (lookup n l) (least ns l)

better-cases :
    (n : Bytes) (o : Option ℕ) (rest : Option (Bytes × ℕ)) (m : Bytes) (s : ℕ)
    → better n o rest ≡ some (m, s)
    → ((n ≡ m) × (o ≡ some s)) ⊎ (rest ≡ some (m, s))
unfolding better
better-cases n none rest m s e = inr e
better-cases n (some u) none m s e = inl (ground arith, ground arith)
better-cases n (some u) (some (k, v)) m s e = ground arith

better-le_own :
    (n : Bytes) (u : ℕ) (rest : Option (Bytes × ℕ)) (m : Bytes) (s : ℕ)
    → better n (some u) rest ≡ some (m, s)
    → s ≤ u
unfolding better
better-le_own n u none m s e = ground arith
better-le_own n u (some (k, v)) m s e = ground arith

better-le_rest :
    (n : Bytes) (o : Option ℕ) (k : Bytes) (v : ℕ) (m : Bytes) (s : ℕ)
    → better n o (some (k, v)) ≡ some (m, s)
    → s ≤ v
unfolding better
better-le_rest n none k v m s e = ground arith
better-le_rest n (some u) k v m s e = ground arith

pub contains-names : (l : Scores) (m : Bytes) → contains (names l) m ≡ is_some (lookup m l)
unfolding contains lookup
contains-names [] m = refl
contains-names ((n, s) ∷ l) m = ground (arith, contains-names l m)

pub contains-names_up_to :
    (max : ℕ) (m : Bytes) (l : Scores) → contains (names_up_to max l) m ≡ at_most max (lookup m l)
unfolding names_up_to
contains-names_up_to max m l =
    rw (contains-filter (λ n. at_most max (lookup n l)) (names l) m)
      (ground (arith, contains-names l m))

pub least-none :
    (ns : List Bytes) (l : Scores) (m : Bytes)
    → least ns l ≡ none
    → contains ns m ≡ true
    → lookup m l ≡ none
unfolding least contains
least-none [] l m e c = ground arith
least-none (n ∷ ns) l m e c =
    ground
      (arith, least-none ns l m, bytes_beq_iff n m, ap (λ x. lookup x l) ((bytes_beq_iff n m).0 _))

pub least-score :
    (ns : List Bytes) (l : Scores) (m : Bytes) (s : ℕ)
    → least ns l ≡ some (m, s)
    → lookup m l ≡ some s
unfolding least
least-score [] l m s e = ground arith
least-score (n ∷ ns) l m s e = elim (better-cases n (lookup n l) (least ns l) m s e) [
  | inl (p, q) ↦ rw (← p) q
  | inr r ↦ least-score ns l m s r
]

pub least-le :
    (ns : List Bytes) (l : Scores) (m n : Bytes) (s t : ℕ)
    → least ns l ≡ some (m, s)
    → contains ns n ≡ true
    → lookup n l ≡ some t
    → s ≤ t
unfolding least contains
least-le [] l m n s t e c h = ground arith
least-le (k ∷ ns) l m n s t e c h = elim (Bool-cases (bytes_beq k n)) [
  | inl p ↦
      let q = (bytes_beq_iff k n).0 p in
      better-le_own k t (least ns l) m s (rw (← (ap (λ x. lookup x l) q ∙ h)) e)
  | inr p ↦ elim (Option-cases (least ns l)) [
    | inl q ↦ cc (h, least-none ns l n q (ground arith))
    | inr ((j, v), q) ↦
        le_trans (better-le_rest k (lookup k l) j v m s (rw (← q) e))
          (least-le ns l j n v t q (ground arith) h)
  ]
]

pub keys-with_set : (z : SortedSet) (l : Scores) (t : Table) → (with_set z l t).keys ≡ t.keys
keys-with_set available l t = refl
keys-with_set leases l t = refl

pub score-set_keys :
    (z : SortedSet) (ks : List (Bytes × Bytes)) (t : Table)
    → sorted_set z (record t { keys = ks }) ≡ sorted_set z t
score-set_keys available ks t = refl
score-set_keys leases ks t = refl

pub score-insert :
    (z y : SortedSet) (m n : Bytes) (s : ℕ) (t : Table)
    → lookup m (sorted_set z (with_set y (insert n s (sorted_set y t)) t))
      ≡ (if set_beq y z && n == m then some s else lookup m (sorted_set z t))
score-insert available available m n s t = lookup-insert n m s t.free
score-insert available leases m n s t = refl
score-insert leases available m n s t = refl
score-insert leases leases m n s t = lookup-insert n m s t.leased

pub score-remove :
    (z y : SortedSet) (m n : Bytes) (t : Table)
    → lookup m (sorted_set z (with_set y (remove n (sorted_set y t)) t))
      ≡ (if set_beq y z && n == m then none else lookup m (sorted_set z t))
score-remove available available m n t = lookup-remove n m t.free
score-remove available leases m n t = refl
score-remove leases available m n t = refl
score-remove leases leases m n t = lookup-remove n m t.leased

pub none-of_first : (m : Bytes) (l : Scores) → least (names l) l ≡ none → lookup m l ≡ none
none-of_first m l e = elim (Option-cases (lookup m l)) [
  | inl h ↦ h
  | inr (s, h) ↦ least-none (names l) l m e (ground (arith, contains-names l m))
]

pub le-of_first :
    (l : Scores) (m n : Bytes) (s t : ℕ)
    → least (names l) l ≡ some (m, s)
    → lookup n l ≡ some t
    → s ≤ t
le-of_first l m n s t e h = least-le (names l) l m n s t e (ground (arith, contains-names l n)) h

-- The laws of Redis hold of tables.
abbrev pub table : Redis
table = record {
  Db = Table;
  get = λ k t. lookup k t.keys;
  set = λ k v t. record t { keys = insert k v t.keys };
  del = λ k t. record t { keys = remove k t.keys };
  score = λ z m t. lookup m (sorted_set z t);
  add = λ z m s t. with_set z (insert m s (sorted_set z t)) t;
  rem = λ z m t. with_set z (remove m (sorted_set z t)) t;
  up_to = λ z max t. names_up_to max (sorted_set z t);
  first = λ z t. least (names (sorted_set z t)) (sorted_set z t);
  members = λ z t. sorted_set z t;
  get-set = λ k j v t. lookup-insert k j v t.keys;
  get-del = λ k j t. lookup-remove k j t.keys;
  get-add = λ j m z s t. ap (lookup j) (keys-with_set z (insert m s (sorted_set z t)) t);
  get-rem = λ j m z t. ap (lookup j) (keys-with_set z (remove m (sorted_set z t)) t);
  score-set = λ z m k v t. ap (lookup m) (score-set_keys z (insert k v t.keys) t);
  score-del = λ z m k t. ap (lookup m) (score-set_keys z (remove k t.keys) t);
  score-add = score-insert;
  score-rem = score-remove;
  contains-up_to = λ z max m t. contains-names_up_to max m (sorted_set z t);
  first-none = λ z m t. none-of_first m (sorted_set z t);
  first-score = λ z t {m} {s} e. least-score (names (sorted_set z t)) (sorted_set z t) m s e;
  first-le = λ z t {m} {s} e n u h. le-of_first (sorted_set z t) m n s u e h;
}
