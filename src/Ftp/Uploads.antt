-- ===== src/Ftp/Uploads.antt =====
-- aeroftp/src/ftp/storage.rs: what an upload writes.
use aerosuite.Base.{
  ℕ, u64_mod, suc, ◌+◌, ◌%◌, ◌≡◌, refl, sym, ◌∙◌, Bytes, Bool, true, false, List, [], ◌∷◌, ◌++◌,
  length, arith,
}
use aerosuite.Base.{u64_mod}
use mathlib.Core.List.{append_assoc, append-nil}
use aerosuite.Program.{Call, Reply, Prog, ret, send, on_ok, Result, ok, err, ◌>>=◌}
use aerosuite.Program.Observed.{Observes, Observes-bind, Observes-mono}
use aerosuite.Ftp.{AeroUser}
use aerosuite.Ftp.Storage.{copy_read_write_loop, outcome, put}

-- What the client sent before the first read of no bytes or the first error.
unfoldable pub chunks : List (Result Bytes) → List Bytes
chunks [] = []
chunks (err e ∷ reads) = []
chunks (ok [] ∷ reads) = []
chunks (ok (b ∷ bs) ∷ reads) = (b ∷ bs) ∷ chunks reads

-- No read failed before the first read of no bytes.
unfoldable pub ends_well : List (Result Bytes) → Bool
ends_well [] = true
ends_well (err e ∷ reads) = false
ends_well (ok [] ∷ reads) = true
ends_well (ok (b ∷ bs) ∷ reads) = ends_well reads

abbrev pub total : List Bytes → ℕ
total [] = 0
total (c ∷ cs) = length c + total cs

-- Whether the writer is open, the chunks it took, and whether it was shut down.
pub record Upload : Type 0 where
  pub begun : Bool
  pub written : List Bytes
  pub closed : Bool

abbrev pub no_upload : Upload
no_upload = record { begun = false; written = []; closed = false }

abbrev opening : Upload → Result (Unit {0}) → Upload
opening s (ok x) = record s { begun = true }
opening s (err e) = s

abbrev taking : Upload → Bytes → Result (Unit {0}) → Upload
taking s b (ok x) = record s { written = s.written ++ (b ∷ []) }
taking s b (err e) = s

unfoldable pub uploads : Upload → (c : Call) → Reply c → Upload
uploads s (Call.open_writer path m) r = opening s r
uploads s (Call.write_chunk b) r = taking s b r
uploads s Call.shutdown_writer r = record s { closed = true }
uploads s c r = s

abbrev Open : Upload → Type 0
Open s = (s.begun ≡ true) × (s.closed ≡ false)

module _ (user : AeroUser) (input : List (Result Bytes)) (path : Bytes) where
  unfoldable pub InTurn : Upload → Call → Type 0
  InTurn s (Call.open_writer p m) = (s.begun ≡ false) × (p ≡ path) × (m ≡ user.system_meta)
  InTurn s (Call.write_chunk b) =
      Open s × ((more : List Bytes) × (chunks input ≡ s.written ++ (b ∷ more)))
  InTurn s Call.shutdown_writer = Open s
  InTurn s c = ⊥

  -- What the copy of the reads comes to from s on.
  abbrev Copied : Upload → ℕ → List (Result Bytes) → Upload → Result ℕ → Type 0
  Copied s copied reads t (err e) = Open t
  Copied s copied reads t (ok n) =
      Open t
      × (t.written ≡ s.written ++ chunks reads)
      × (ends_well reads ≡ true)
      × (n ≡ (copied + total (chunks reads)) % u64_mod)

  Copied-step :
      (s t : Upload) (copied b : ℕ) (bs : Bytes) (reads : List (Result Bytes)) (r : Result ℕ)
      → Copied
          (record s { written = s.written ++ ((b ∷ bs) ∷ []) })
          ((copied + suc (length bs)) % u64_mod)
          reads
          t
          r
      → Copied s copied (ok (b ∷ bs) ∷ reads) t r
  unfolding chunks ends_well
  Copied-step s t copied b bs reads (err e) h = h
  Copied-step s t copied b bs reads (ok n) (o, w, e, q) =
      (o, w ∙ append_assoc s.written ((b ∷ bs) ∷ []) (chunks reads), e, omega (arith, q))

  -- After a chunk was written, or was not.
  chunk_answered :
      (s : Upload) (copied b : ℕ) (bs : Bytes) (reads : List (Result Bytes)) (m : Prog (Result ℕ))
      → Open s
      → Observes uploads InTurn
          (Copied s copied (ok (b ∷ bs) ∷ reads))
          (record s { written = s.written ++ ((b ∷ bs) ∷ []) })
          m
      → (r : Result (Unit {0}))
      → Observes uploads InTurn
          (Copied s copied (ok (b ∷ bs) ∷ reads))
          (uploads s (Call.write_chunk (b ∷ bs)) r)
          (on_ok (λ x. m) r)
  unfolding uploads
  chunk_answered s copied b bs reads m o h (ok x) = h
  chunk_answered s copied b bs reads m o h (err e) = o

  copy-InTurn :
      (reads : List (Result Bytes)) (s : Upload) (copied : ℕ)
      → Open s
      → chunks input ≡ s.written ++ chunks reads
      → copied ≡ copied % u64_mod
      → Observes uploads InTurn (Copied s copied reads) s (copy_read_write_loop reads copied)
  unfolding copy_read_write_loop chunks ends_well InTurn
  copy-InTurn [] s copied o e k = (o, sym (append-nil s.written), refl, omega (arith, k))
  copy-InTurn (err x ∷ reads) s copied o e k = o
  copy-InTurn (ok [] ∷ reads) s copied o e k =
      (o, sym (append-nil s.written), refl, omega (arith, k))
  copy-InTurn (ok (b ∷ bs) ∷ reads) s copied o e k =
      let next : Upload = record s { written = s.written ++ ((b ∷ bs) ∷ []) } in
      let copied' : ℕ = (copied + suc (length bs)) % u64_mod in
      let rest : Observes uploads InTurn (Copied s copied (ok (b ∷ bs) ∷ reads)) next
          (copy_read_write_loop reads copied') =
        Observes-mono uploads InTurn next (copy_read_write_loop reads copied')
          (λ t r. Copied-step s t copied b bs reads r)
          (copy-InTurn reads next copied' o
            (e ∙ sym (append_assoc s.written ((b ∷ bs) ∷ []) (chunks reads))) (omega arith)) in
      (
        (o, (chunks reads, e)),
        λ r.
            unfold InTurn in
            chunk_answered s copied b bs reads (copy_read_write_loop reads copied') o rest r,
      )

  -- The end of put: the writer was opened, and it is shut down exactly then.
  abbrev pub Uploaded : Upload → Result ℕ → Type 0
  Uploaded t (err e) = t.closed ≡ t.begun
  Uploaded t (ok n) =
      (t.begun ≡ true)
      × (t.closed ≡ true)
      × (t.written ≡ chunks input)
      × (ends_well input ≡ true)
      × (n ≡ total (chunks input) % u64_mod)

  shut :
      (t : Upload) (copy_result : Result ℕ) (r : Result (Unit {0}))
      → t.begun ≡ true
      → Copied (record no_upload { begun = true }) 0 input t copy_result
      → Uploaded (uploads t Call.shutdown_writer r) (outcome copy_result r)
  unfolding uploads
  shut t (ok n) (ok x) b (o, w, e, q) = (b, refl, w, e, omega (arith, q))
  shut t (ok n) (err x) b h = sym b
  shut t (err e) r b h = sym b

  begun_of :
      (s t : Upload) (copied : ℕ) (reads : List (Result Bytes)) (r : Result ℕ)
      → Copied s copied reads t r
      → Open t
  begun_of s t copied reads (ok n) h = h.0
  begun_of s t copied reads (err e) h = h

  opened :
      (r : Result (Unit {0}))
      → Observes uploads InTurn Uploaded
          (uploads no_upload (Call.open_writer path user.system_meta) r)
          (on_ok
            (λ x. copy_read_write_loop input 0 >>= λ copy_result.
              send Call.shutdown_writer >>= λ shutdown_result.
              ret (outcome copy_result shutdown_result))
            r)
  unfolding uploads InTurn
  opened (err e) = refl
  opened (ok x) =
      let start : Upload = record no_upload { begun = true } in
      Observes-bind uploads InTurn (Copied start 0 input) Uploaded start
        (copy_read_write_loop input 0) _ (copy-InTurn input start 0 (refl, refl) refl refl)
        (λ t copy_result h.
          let o = begun_of start t 0 input copy_result h in
          (o, λ r. unfold uploads in shut t copy_result r o.0 h))

  -- Whatever the replies are, put opens one writer, for the path and with the metadata of the user, before all
  -- else; each chunk it writes is the next one that the client sent and that the writer has not yet taken; and
  -- it shuts the writer down exactly when it was opened, after the last chunk. Where it succeeds the writer has
  -- taken, in order, all that the client sent before the first read of no bytes, no read failed before that,
  -- and the result is the number of these bytes as a u64.
  pub put-InTurn : Observes uploads InTurn Uploaded no_upload (put user input path)
  unfolding put InTurn
  put-InTurn = ((refl, refl, refl), λ r. unfold InTurn in opened r)
