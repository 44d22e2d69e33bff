-- ===== src/Tests/Streams.antt =====
-- The update stream and its readers at concrete inputs.
use tgplane.Common.{
  string_key, ℕ, suc, String, List, [], ◌∷◌, ◌++◌, Option, none, some, Bool, true, false, take,
  length, length-append, ◌≡◌, ◌≢◌, refl, ap, if◌then◌else◌, ◌==◌, arith, same?_apart, same?_refl,
}
use tgplane.Common.Int.{pos}
use tgplane.Common.Map.{lookup}
use tgplane.Stream.{
  Value, text, Entry, last_position, after, Turn, messages, timed_out, publish, run,
}
use tgplane.Stream.Reading.{Answers, Skims, handled_in_order}
use tgplane.Stream.Values.{IsStored, published_lem}
use tgplane.Webhook.Events.{extract_event}
use tgplane.Replication.{row_of, is_positive, insert_with_retry}
use tgplane.Replication.Retries.{Ends, begun, insert_with_retry-Ends}

abbrev third : ℕ → Option String
third k = if k == 2 then none else some "down"

abbrev patient : ℕ → Bool
patient k = false

insert_with_retry-Ends_example :
    let r = insert_with_retry patient third in
    Ends patient third 3 r
    × (r.pauses ≡ take (length r.pauses) (1 ∷ 2 ∷ []))
    × (suc (length r.pauses) ≡ begun r)
insert_with_retry-Ends_example = insert_with_retry-Ends patient third

abbrev entry : String → Entry
entry id = record { id = id; values = [] }

-- The entry "2" has been trimmed.
abbrev log : List Entry
log = entry "1" ∷ entry "2" ∷ entry "3" ∷ []

abbrev Trimmed : Entry → Type 0
Trimmed e = e.id ≡ "2"

abbrev turns : List Turn
turns = messages (entry "1" ∷ []) ∷ timed_out ∷ messages (entry "3" ∷ []) ∷ []

second-Answers : Answers Trimmed log (after "1") (entry "3" ∷ [])
second-Answers [] e post split same = (entry "2" ∷ [], [], ground arith, (refl, tt))
second-Answers (x ∷ []) e post split same = absurd (ground (arith, same?_apart "2" "1" refl))
second-Answers (x ∷ y ∷ []) e post split same = absurd (ground (arith, same?_apart "3" "1" refl))
second-Answers (x ∷ y ∷ z ∷ pre) e post split same =
    absurd (omega (arith, ap length split, length-append pre (e ∷ post)))

handled_in_order_example :
    (pre : List Entry) × (part : List Entry) × (rest : List Entry) × (log ≡ pre ++ (part ++ rest))
    × Skims Trimmed part (run turns).handled
unfolding last_position
handled_in_order_example =
    handled_in_order Trimmed log turns
      (([], entry "2" ∷ entry "3" ∷ [], refl), (second-Answers, tt))

abbrev update : List (String × Value)
update = (publish "w" "s" "message" "{1}" (pos 5)).values

-- What Redis keeps of the update: its time as a text.
abbrev kept : List (String × Value)
kept =
    ("session_id", text "s")
    ∷ ("worker_id", text "w")
    ∷ ("type", text "message")
    ∷ ("payload", text "{1}")
    ∷ ("received_at", text "5")
    ∷ []

kept-IsStored : IsStored (λ n. "5") update kept
unfolding publish lookup
kept-IsStored = record { texts = λ k s found. ground arith; numbers = λ k n found. ground arith }

not_empty : ◌≢◌ {A = String} "{1}" ""
not_empty same = ground (arith, same?_apart "{1}" "" refl, same?_refl {K = String} "")

later : is_positive (pos 5) ≡ true
unfolding is_positive
later = refl

published_lem_example :
    (extract_event (λ s. pos 5) kept ≡ record {
      session_id = "s";
      worker_id = "w";
      type = "message";
      payload = some "{1}";
      received_at = pos 5;
    })
    × (row_of (λ n. n) (λ s. pos 5) (pos 9) kept ≡ record {
      session_id = "s";
      worker_id = "w";
      type = "message";
      payload = "{1}";
      received_at = pos 5;
    })
published_lem_example =
    published_lem "w" "s" "message" "{1}" (pos 5) (λ n. n) (pos 9) (λ s. pos 5) (λ n. "5") kept
      kept-IsStored refl not_empty later
