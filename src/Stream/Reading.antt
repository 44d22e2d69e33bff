-- ===== src/Stream/Reading.antt =====
-- Which entries of the stream a reading loop handles.
use tgplane.Common.{
  ℕ, zero, suc, List, [], ◌∷◌, ◌++◌, ◌≡◌, refl, sym, ap, ◌∙◌, replicate, All, arith,
}
use mathlib.Core.List.{append_assoc}
use tgplane.Stream.{
  Entry, Position, latest, after, Turn, cancelled_before, cancelled_reading, failed, timed_out,
  messages, last_position, read_loop, run,
}

-- A part of the stream, and what a loop handles of it: each entry once and in order, or it is not
-- handled and had been trimmed from the stream.
pub data Skims (Trimmed : Entry → Type 0) : List Entry → List Entry → Type 0 where
  done : Skims Trimmed [] []
  handled :
      (e : Entry) {part es : List Entry} → Skims Trimmed part es → Skims Trimmed (e ∷ part) (e ∷ es)
  missed :
      (e : Entry) {part es : List Entry}
      → Trimmed e
      → Skims Trimmed part es
      → Skims Trimmed (e ∷ part) es

module _ (Trimmed : Entry → Type 0) where
  -- What the documentation of `XREAD` and of the MAXLEN of `XADD` says of an answer, for a stream that
  -- these entries have ever been added to: the messages were added side by side, and directly after the
  -- entry of the id asked for, but for entries in between that have been trimmed, the oldest first.
  abbrev pub Answers : List Entry → Position → List Entry → Type 0
  Answers log latest es = (pre : List Entry) × (more : List Entry) × (log ≡ pre ++ (es ++ more))
  Answers log (after id) es =
      (pre : List Entry) (e : Entry) (post : List Entry)
      → log ≡ pre ++ (e ∷ post)
      → e.id ≡ id
      → (gone : List Entry) × (more : List Entry) × (post ≡ gone ++ (es ++ more)) × All Trimmed gone

  -- Each answer of a loop's history is such.
  abbrev pub Follows : List Entry → Position → List Turn → Type 0
  Follows log from [] = Unit
  Follows log from (cancelled_before ∷ turns) = Unit
  Follows log from (cancelled_reading ∷ turns) = Unit
  Follows log from (failed ∷ turns) = Follows log from turns
  Follows log from (timed_out ∷ turns) = Follows log from turns
  Follows log from (messages es ∷ turns) =
      Answers log from es × Follows log (last_position from es) turns

  handles-all :
      (es : List Entry) (part hs : List Entry)
      → Skims Trimmed part hs
      → Skims Trimmed (es ++ part) (es ++ hs)
  handles-all [] part hs s = s
  handles-all (e ∷ es) part hs s = handled e (handles-all es part hs s)

  misses-all :
      (gone : List Entry) (part hs : List Entry)
      → All Trimmed gone
      → Skims Trimmed part hs
      → Skims Trimmed (gone ++ part) hs
  misses-all [] part hs a s = s
  misses-all (e ∷ gone) part hs a s = missed e a.0 (misses-all gone part hs a.1 s)

  -- The last entry of a batch that follows an entry, or that entry.
  after_batch :
      (log pre : List Entry) (e : Entry) (es more : List Entry)
      → log ≡ pre ++ (e ∷ (es ++ more))
      → (pre' : List Entry) × (e' : Entry) × (log ≡ pre' ++ (e' ∷ more))
        × (last_position (after e.id) es ≡ after e'.id)
  unfolding last_position
  after_batch log pre e [] more split = (pre, e, split, refl)
  after_batch log pre e (x ∷ es) more split =
      after_batch log (pre ++ e ∷ []) x es more
        (split ∙ sym (append_assoc pre (e ∷ []) (x ∷ (es ++ more))))

  -- After an entry, a loop handles the next ones.
  read_loop-after :
      (log : List Entry) (turns : List Turn) (from : Position) (pre : List Entry) (e : Entry)
      (post : List Entry)
      → from ≡ after e.id
      → log ≡ pre ++ (e ∷ post)
      → Follows log from turns
      → (part : List Entry) × (rest : List Entry) × (post ≡ part ++ rest)
        × Skims Trimmed part (read_loop from turns).handled
  unfolding read_loop last_position
  read_loop-after log [] from pre e post at split f = ([], post, refl, done)
  read_loop-after log (cancelled_before ∷ turns) from pre e post at split f = ([], post, refl, done)
  read_loop-after log (cancelled_reading ∷ turns) from pre e post at split f =
      ([], post, refl, done)
  read_loop-after log (failed ∷ turns) from pre e post at split f =
      read_loop-after log turns from pre e post at split f
  read_loop-after log (timed_out ∷ turns) from pre e post at split f =
      read_loop-after log turns from pre e post at split f
  read_loop-after log (messages es ∷ turns) latest pre e post at split f = absurd (ground arith)
  read_loop-after log (messages [] ∷ turns) (after id) pre e post at split f =
      read_loop-after log turns (after id) pre e post at split f.1
  read_loop-after log (messages (x ∷ es) ∷ turns) (after id) pre e post at split f =
      let same : e.id ≡ id = ground arith in
      let (gone, more, here, trimmed) = f.0 pre e post split same in
      let whole : log ≡ (pre ++ (e ∷ gone)) ++ (x ∷ (es ++ more)) =
        split
        ∙ ap (λ l. pre ++ (e ∷ l)) here
        ∙ sym (append_assoc pre (e ∷ gone) (x ∷ (es ++ more))) in
      let (pre', e', split', at') = after_batch log (pre ++ (e ∷ gone)) x es more whole in
      let (part, rest, there, skims) =
        read_loop-after log turns (last_position (after x.id) es) pre' e' more at' split' f.1 in
      (
        gone ++ (x ∷ (es ++ part)),
        rest,
        here
            ∙ ap (λ l. gone ++ (x ∷ (es ++ l))) there
            ∙ ap (λ l. gone ++ (x ∷ l)) (sym (append_assoc es part rest))
            ∙ sym (append_assoc gone (x ∷ (es ++ part)) rest),
        misses-all gone (x ∷ (es ++ part)) _ trimmed (handles-all (x ∷ es) part _ skims),
      )

  -- From the end of the stream on.
  read_loop-latest :
      (log : List Entry) (turns : List Turn)
      → Follows log latest turns
      → (pre : List Entry) × (part : List Entry) × (rest : List Entry) × (log
          ≡ pre ++ (part ++ rest))
        × Skims Trimmed part (read_loop latest turns).handled
  unfolding read_loop last_position
  read_loop-latest log [] f = ([], [], log, refl, done)
  read_loop-latest log (cancelled_before ∷ turns) f = ([], [], log, refl, done)
  read_loop-latest log (cancelled_reading ∷ turns) f = ([], [], log, refl, done)
  read_loop-latest log (failed ∷ turns) f = read_loop-latest log turns f
  read_loop-latest log (timed_out ∷ turns) f = read_loop-latest log turns f
  read_loop-latest log (messages [] ∷ turns) f = read_loop-latest log turns f.1
  read_loop-latest log (messages (x ∷ es) ∷ turns) ((pre, more, split), f) =
      let (pre', e', split', at') = after_batch log pre x es more split in
      let (part, rest, there, skims) =
        read_loop-after log turns (last_position (after x.id) es) pre' e' more at' split' f in
      (
        pre,
        x ∷ (es ++ part),
        rest,
        split
            ∙ ap (λ l. pre ++ (x ∷ (es ++ l))) there
            ∙ ap (λ l. pre ++ (x ∷ l)) (sym (append_assoc es part rest)),
        handles-all (x ∷ es) part _ skims,
      )

  -- From the first entry on that a loop handles, up to some point of the stream, it handles each entry
  -- that has not been trimmed before it was read, once and in order, whatever reads fail or time out
  -- between.
  pub handled_in_order :
      (log : List Entry) (turns : List Turn)
      → Follows log latest turns
      → (pre : List Entry) × (part : List Entry) × (rest : List Entry) × (log
          ≡ pre ++ (part ++ rest))
        × Skims Trimmed part (run turns).handled
  unfolding run
  handled_in_order log turns f = read_loop-latest log turns f

-- Until the first message, each read asks for the end of the stream at its own time: n reads that time
-- out leave the loop as it started, so nothing that is added between two of them is ever asked for.
pub idle_asks_latest :
    (n : ℕ) (turns : List Turn)
    → ((run (replicate n timed_out ++ turns)).asked ≡ replicate n latest ++ (run turns).asked)
      × ((run (replicate n timed_out ++ turns)).handled ≡ (run turns).handled)
unfolding run read_loop
idle_asks_latest zero turns = (refl, refl)
idle_asks_latest (suc n) turns =
    let (asks, handles) = idle_asks_latest n turns in (ap (◌∷◌ latest) asks, handles)
