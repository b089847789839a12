-- ===== src/SlotPool/Retry.antt =====
-- The renewal of the heartbeat while commands are lost.
use aerosuite.Base.{ℕ, zero, suc, Bytes, List, [], ◌∷◌, bytes_eq}
use aerosuite.Program.{AsgChange, run}
use aerosuite.Redis.{Redis}
use aerosuite.SlotPool.Server.{Fate, answered, lost, unanswered, Session, answer}
use aerosuite.SlotPool.Commands.{renew_owned, is_redis_io_error}
use aerosuite.SlotPool.Equivalence.{calm}

-- No answer comes back.
abbrev pub IsLoss : Fate → Type 0
IsLoss answered = ⊥
IsLoss lost = Unit
IsLoss unanswered = Unit

ruleset trial = (run, answer, renew_owned, is_redis_io_error)

-- The list without its first elements.
unfoldable pub after : ℕ → List Fate → List Fate
after zero fates = fates
after (suc n) [] = []
after (suc n) (f ∷ fates) = after n fates

module _ (R : Redis) (channel : List AsgChange) (printed : List Bytes) where
  open R use {Db, get, add}

  -- A session in which the next commands have these fates.
  abbrev pub disturbed : ℕ → Db → List Fate → Session R
  disturbed clock d fates = record (calm R d clock channel printed) { fates = fates }
