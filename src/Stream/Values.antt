-- ===== src/Stream/Values.antt =====
-- What the two readers of the stream see of an update that was published.
use tgplane.Common.{
  string_key, String, List, some, true, ◌≡◌, ◌≢◌, refl, arith, same?_apart, same?_refl, same?_ne,
}
use tgplane.Common.Int.{ℤ}
use tgplane.Common.Map.{lookup}
use tgplane.Stream.{Value, text, int64, publish, str_val, text_or_empty, int64_val, int64_or_zero}
use tgplane.Webhook.Events.{extract_event, payload_of}
use tgplane.Replication.{row_of, received, is_positive}

-- What Redis keeps: each value as a text, a number in its decimal form.
pub record IsStored (decimal : ℤ → String) (sent stored : List (String × Value)) : Type 0 where
  pub texts : (k s : String) → lookup k sent ≡ some (text s) → lookup k stored ≡ some (text s)
  pub numbers :
      (k : String) (n : ℤ)
      → lookup k sent ≡ some (int64 n)
      → lookup k stored ≡ some (text (decimal n))

module _ (worker_id session_id type payload : String) (now : ℤ) where
  abbrev sent : List (String × Value)
  sent = (publish worker_id session_id type payload now).values

  published_session : lookup "session_id" sent ≡ some (text session_id)
  unfolding publish lookup
  published_session = ground (arith, same?_refl {K = String} "session_id")

  published_worker : lookup "worker_id" sent ≡ some (text worker_id)
  unfolding publish lookup
  published_worker =
      ground (arith, same?_apart "session_id" "worker_id" refl, same?_refl {K = String} "worker_id")

  published_type : lookup "type" sent ≡ some (text type)
  unfolding publish lookup
  published_type = ground (
    arith,
    same?_apart "session_id" "type" refl,
    same?_apart "worker_id" "type" refl,
    same?_refl {K = String} "type",
  )

  published_payload : lookup "payload" sent ≡ some (text payload)
  unfolding publish lookup
  published_payload = ground (
    arith,
    same?_apart "session_id" "payload" refl,
    same?_apart "worker_id" "payload" refl,
    same?_apart "type" "payload" refl,
    same?_refl {K = String} "payload",
  )

  published_time : lookup "received_at" sent ≡ some (int64 now)
  unfolding publish lookup
  published_time = ground (
    arith,
    same?_apart "session_id" "received_at" refl,
    same?_apart "worker_id" "received_at" refl,
    same?_apart "type" "received_at" refl,
    same?_apart "payload" "received_at" refl,
    same?_refl {K = String} "received_at",
  )

  -- An update that was published with a payload that is not empty and at a time after 1970, read back
  -- with each value as a text, and its time as a text that scans to it, gives the webhooks an event and
  -- the messages table a row, both with the same session, worker, type, payload and time.
  pub published_lem :
      {M : Type 0} (unix_milli : ℤ → M) (later : M) (scan : String → ℤ) (decimal : ℤ → String)
      (stored : List (String × Value))
      → IsStored decimal sent stored
      → scan (decimal now) ≡ now
      → payload ≢ ""
      → is_positive now ≡ true
      → (extract_event scan stored ≡ record {
        session_id = session_id;
        worker_id = worker_id;
        type = type;
        payload = some payload;
        received_at = now;
      })
        × (row_of unix_milli scan later stored ≡ record {
          session_id = session_id;
          worker_id = worker_id;
          type = type;
          payload = payload;
          received_at = unix_milli now;
        })
  unfolding extract_event payload_of row_of str_val text_or_empty int64_val int64_or_zero received
  published_lem unix_milli later scan decimal stored kept back full positive =
      let s = kept.texts "session_id" session_id published_session in
      let w = kept.texts "worker_id" worker_id published_worker in
      let t = kept.texts "type" type published_type in
      let p = kept.texts "payload" payload published_payload in
      let r = kept.numbers "received_at" now published_time in
      (
        rw (s, w, t, p, r, back, extract_event, str_val, int64_val) refl,
        rw (s, w, t, p, r, back, row_of, str_val, int64_val)
            (ground (arith, same?_ne payload "" full, positive)),
      )
