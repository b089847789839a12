-- ===== src/Redis.antt =====
-- The Redis server as the programs see it: the documented meaning of the commands that they send.
-- The server is not code of the repository, so a database is any type with these operations and
-- laws; `Redis.Table` is one.
pub mod Table
use aerosuite.Base.{
  ℕ, Bytes, Bool, true, false, ◌≡◌, ◌≤◌, ◌&&◌, Option, none, some, List, ◌==◌, bytes_eq, leb,
  contains, if◌then◌else◌,
}
use aerosuite.Program.{SortedSet, available, leases}

abbrev pub set_beq : SortedSet → SortedSet → Bool
set_beq available available = true
set_beq available leases = false
set_beq leases available = false
set_beq leases leases = true

abbrev pub at_most : ℕ → Option ℕ → Bool
at_most max none = false
at_most max (some s) = leb s max

pub record Redis : Type 1 where
  pub Db : Type 0
  -- GET, SET, DEL on string keys
  pub get : Bytes → Db → Option Bytes
  pub set : Bytes → Bytes → Db → Db
  pub del : Bytes → Db → Db
  -- ZSCORE, ZADD, ZREM, ZRANGEBYSCORE key -inf max, ZPOPMIN, ZRANGE key 0 -1 WITHSCORES
  pub score : SortedSet → Bytes → Db → Option ℕ
  pub add : SortedSet → Bytes → ℕ → Db → Db
  pub rem : SortedSet → Bytes → Db → Db
  pub up_to : SortedSet → ℕ → Db → List Bytes
  pub first : SortedSet → Db → Option (Bytes × ℕ)
  pub members : SortedSet → Db → List (Bytes × ℕ)
  pub get-set : (k j v : Bytes) (d : Db) → get j (set k v d) ≡ (if k == j then some v else get j d)
  pub get-del : (k j : Bytes) (d : Db) → get j (del k d) ≡ (if k == j then none else get j d)
  pub get-add : (j m : Bytes) (z : SortedSet) (s : ℕ) (d : Db) → get j (add z m s d) ≡ get j d
  pub get-rem : (j m : Bytes) (z : SortedSet) (d : Db) → get j (rem z m d) ≡ get j d
  pub score-set : (z : SortedSet) (m k v : Bytes) (d : Db) → score z m (set k v d) ≡ score z m d
  pub score-del : (z : SortedSet) (m k : Bytes) (d : Db) → score z m (del k d) ≡ score z m d
  pub score-add :
      (z y : SortedSet) (m n : Bytes) (s : ℕ) (d : Db)
      → score z m (add y n s d) ≡ (if set_beq y z && n == m then some s else score z m d)
  pub score-rem :
      (z y : SortedSet) (m n : Bytes) (d : Db)
      → score z m (rem y n d) ≡ (if set_beq y z && n == m then none else score z m d)
  pub contains-up_to :
      (z : SortedSet) (max : ℕ) (m : Bytes) (d : Db)
      → contains (up_to z max d) m ≡ at_most max (score z m d)
  -- The member that ZPOPMIN takes, if the set has one, has the lowest score.
  pub first-none : (z : SortedSet) (m : Bytes) (d : Db) → first z d ≡ none → score z m d ≡ none
  pub first-score :
      (z : SortedSet) (d : Db) {m : Bytes} {s : ℕ} → first z d ≡ some (m, s) → score z m d ≡ some s
  pub first-le :
      (z : SortedSet) (d : Db) {m : Bytes} {s : ℕ}
      → first z d ≡ some (m, s)
      → (n : Bytes) (t : ℕ) → score z n d ≡ some t
      → s ≤ t
