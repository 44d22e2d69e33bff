-- ===== src/Replication.antt =====
-- internal/replication/replicator.go: each update of the stream becomes a row of the messages table.
-- PostgreSQL answers each insertion with an error or none, and `scan` is `fmt.Sscan`.
pub mod Retries
use tgplane.Common.{
  string_key, ℕ, zero, suc, ◌+◌, String, List, [], ◌∷◌, ◌++◌, Option, none, some, map, Bool, true,
  false, ltb, if◌then◌else◌, ◌&&◌, same?,
}
use tgplane.Common.Int.{ℤ, pos, negsuc}
use tgplane.Stream.{Value, Entry, Turn, run, str_val, int64_val}

pub record Row (M : Type 0) : Type 0 where
  pub session_id : String
  pub worker_id : String
  pub type : String
  pub payload : String
  pub received_at : M

unfoldable pub is_positive : ℤ → Bool
is_positive (pos n) = ltb 0 n
is_positive (negsuc n) = false

-- `now` is `time.Now()`.
unfoldable pub received : {M : Type 0} → (ℤ → M) → M → ℤ → M
unfolding is_positive
received unix_milli now ms = if is_positive ms then unix_milli ms else now

-- The row of `insert`.
unfoldable pub row_of : {M : Type 0} → (ℤ → M) → (String → ℤ) → M → List (String × Value) → Row M
unfolding received
row_of unix_milli scan now vals =
    let payload = str_val vals "payload" in
    record {
      session_id = str_val vals "session_id";
      worker_id = str_val vals "worker_id";
      type = str_val vals "type";
      payload = if same? payload "" then "{}" else payload;
      received_at = received unix_milli now (int64_val scan vals "received_at");
    }

-- How `insertWithRetry` ends: nil, the error of the context, or that of the last attempt.
pub data Ending (E : Type 0) : Type 0 where
  inserted interrupted : Ending E
  given_up : Option E → Ending E

-- The ending, the number of insertions tried, and the pauses begun, in seconds.
pub record Attempts (E : Type 0) : Type 0 where
  pub ending : Ending E
  pub tried : ℕ
  pub pauses : List ℕ

-- The loop of `insertWithRetry`, with the attempts that are left, those made, and the last error.
-- `interrupted_at k` says whether the context ends in the pause before attempt k, and `answers k` is
-- what that attempt gets.
unfoldable pub attempts : {E : Type 0} → (ℕ → Bool) → (ℕ → Option E) → ℕ → ℕ → Option E → Attempts E
attempts interrupted_at answers zero made last = record {
  ending = given_up last;
  tried = made;
  pauses = [];
}
attempts interrupted_at answers (suc left) made last =
    let rest = attempts interrupted_at answers left (made + 1) (answers made) in
    let pause : List ℕ = if ltb 0 made then made ∷ [] else [] in
    if ltb 0 made && interrupted_at made
    then record { ending = interrupted; tried = made; pauses = pause }
    else elim (answers made) [
      | none ↦ record { ending = inserted; tried = made + 1; pauses = pause }
      | some e ↦ record rest { pauses = pause ++ rest.pauses }
    ]

unfoldable pub insert_with_retry : {E : Type 0} → (ℕ → Bool) → (ℕ → Option E) → Attempts E
unfolding attempts
insert_with_retry interrupted_at answers = attempts interrupted_at answers 3 0 none

-- What PostgreSQL and the context do during the insertion of one entry.
pub record Database (E : Type 0) : Type 0 where
  pub interrupted_at : ℕ → Bool
  pub answers : ℕ → Option E

-- `Run`: each entry that is read is inserted, or its error is logged.
unfoldable pub replicate_all :
    {E : Type 0} → (Entry → Database E) → List Turn → List (Entry × Attempts E)
unfolding insert_with_retry
replicate_all db turns =
    map (λ e. (e, insert_with_retry (db e).interrupted_at (db e).answers)) (run turns).handled
