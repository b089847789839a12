-- ===== src/Ftp/Storage.antt =====
-- aeroftp/src/ftp/storage.rs: an upload. What the client sends arrives as the results of the single reads.
use aerosuite.Base.{ℕ, u64_mod, suc, ◌+◌, ◌%◌, Bytes, List, [], ◌∷◌, length}
use aerosuite.Program.{Call, Prog, ret, send, Result, ok, err, ◌>>=◌, ◌>>=?◌}
use aerosuite.Ftp.{AeroUser}

-- copy_read_write_loop: to the first read of no bytes, or an error; the count is a u64.
unfoldable pub copy_read_write_loop : List (Result Bytes) → ℕ → Prog (Result ℕ)
copy_read_write_loop [] copied = ret (ok copied)
copy_read_write_loop (err e ∷ reads) copied = ret (err e)
copy_read_write_loop (ok [] ∷ reads) copied = ret (ok copied)
copy_read_write_loop (ok (b ∷ bs) ∷ reads) copied = send (Call.write_chunk (b ∷ bs)) >>=? λ _.
    copy_read_write_loop reads ((copied + suc (length bs)) % u64_mod)

-- The first error of the two decides that the upload failed.
abbrev pub outcome : Result ℕ → Result (Unit {0}) → Result ℕ
outcome (ok bytes) (ok x) = ok bytes
outcome (err e) shut = err e
outcome (ok bytes) (err e) = err e

-- AeroStorage::put; the writer is shut down after a failed copy, too.
unfoldable pub put : AeroUser → List (Result Bytes) → Bytes → Prog (Result ℕ)
unfolding copy_read_write_loop
put user input path = send (Call.open_writer path user.system_meta) >>=? λ _.
    copy_read_write_loop input 0 >>= λ copy_result.
    send Call.shutdown_writer >>= λ shutdown_result. ret (outcome copy_result shutdown_result)
