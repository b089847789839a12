-- ===== src/Snapshot/Outage.antt =====
-- Reading the leases while the owner records cannot be read.
use aerosuite.Base.{
  ℕ, ◌≡◌, refl, ap, Bytes, codes, Option, none, some, List, [], ◌∷◌, map, ◌∙◌, lookup, nat_eq,
  u32_mod, parse_unsigned,
}
use aerosuite.Program.{Call, err, Error, Env, run}
use aerosuite.Program.Laws.{run-bind}
use aerosuite.SlotPool.{key_owner}
use aerosuite.SlotPool.Publish.{slot_number}
use aerosuite.Snapshot.{SlotLease}
use aerosuite.Snapshot.Leases.{Cache, cached_or_unknown, resolve_owner, read_loop}

-- The owner of the last read that succeeded.
unfoldable pub last_known : Option Bytes → Bytes
last_known none = codes "(unknown)"
last_known (some owner) = owner

-- The lease of an entry with the owner that the cache knows.
unfoldable pub cached_lease : Cache → Bytes × ℕ → SlotLease
cached_lease cache (slot_str, expiry_score) = record {
  slot = slot_number (parse_unsigned u32_mod slot_str);
  owner_instance_id = last_known (lookup (slot_number (parse_unsigned u32_mod slot_str)) cache);
  expires_ms = expiry_score;
}

cached_or_unknown-last_known : (o : Option Bytes) → cached_or_unknown o ≡ last_known o
unfolding last_known
cached_or_unknown-last_known none = refl
cached_or_unknown-last_known (some owner) = refl

module _ (env : Env) (e : Error)
    (down : (key : Bytes) (w : env.World) → (env.exec (Call.get key) w).0 ≡ err e) where
  -- While every GET fails, each lease is reported with the owner of the last read that succeeded, or as
  -- "(unknown)" if there was none, and the cache stays as it is.
  pub read_loop_outage :
      (raw : List (Bytes × ℕ)) (cache : Cache) (w : env.World)
      → (run env (read_loop raw cache) w).0 ≡ (map (cached_lease cache) raw, cache)
  unfolding read_loop run cached_lease resolve_owner
  read_loop_outage [] cache w = refl
  read_loop_outage ((m, s) ∷ raw) cache w =
      let w' = (env.exec (Call.get (key_owner m)) w).1 in
      rw
        (
          down (key_owner m) w,
          run,
          resolve_owner,
          cached_or_unknown-last_known (lookup (slot_number (parse_unsigned u32_mod m)) cache),
        )
        (ap (λ x. x.0) (run-bind env (read_loop raw cache) _ w')
          ∙ rw (read_loop_outage raw cache w'))
