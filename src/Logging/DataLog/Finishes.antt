-- ===== src/Logging/DataLog/Finishes.antt =====
-- The end of the log.
use arby.Common.{
  ℕ, zero, suc, ◌≡◌, ◌≤◌, refl, sym, ap, subst, ◌∙◌, String, true, false, none, some, Option-cases,
  inl, inr, List, [], ◌∷◌, ◌++◌, length, replicate, append_assoc, append-nil, arith,
}
use arby.Logging.DataLog.{
  Message, Channel, Event, DataLog, data_log, receive, finish, handle_message, round, handle, run,
}
use arby.Logging.DataLog.Writes.{
  messages, text, line_messages, text-append, Stage, receive_lem, round_off, run-Stage,
}

-- The lines that are left, if those taken are the first of them.
left :
    (ss taken : List String) (rest queue : List Message)
    → line_messages ss ++ Message.eof ∷ rest ≡ line_messages taken ++ queue
    → (more : List String) × (ss ≡ taken ++ more)
      × (queue ≡ line_messages more ++ Message.eof ∷ rest)
      × (length more ≤ length ss)
left ss [] rest queue e = (ss, refl, sym e, omega arith)
left [] (t ∷ taken) rest queue e = absurd (ground arith)
left (s ∷ ss) (t ∷ taken) rest queue e =
    let (more, split, fits, fewer) = left ss taken rest queue (ground arith) in
    (more, ground (arith, split), fits, omega (arith, fewer))

module _ (channel : Channel) where
  receive_waits :
      (c : channel.State)
      → channel.is_open c ≡ true
      → receive channel c ≡ none
      → channel.queue c ≡ []
  unfolding receive
  receive_waits c live waits = elim (Option-cases (channel.try_receive c)) [
    | inl nothing ↦ channel.async_receive_waits c live (ground (arith, nothing))
    | inr (r, there) ↦ absurd (ground (arith, there))
  ]

  receive-some :
      (m : Message) (q : List Message) (c : channel.State)
      → channel.is_open c ≡ true
      → channel.queue c ≡ m ∷ q
      → (d : channel.State) × (receive channel c ≡ some (m, d))
        × (channel.queue d ≡ q)
        × (channel.is_open d ≡ true)
  receive-some m q c live there = elim (Option-cases (receive channel c)) [
    | inl waits ↦ absurd (ground (arith, receive_waits c live waits, there))
    | inr ((n, d), found) ↦
        let (first, is_live) = receive_lem channel n c d live found in
        (d, ground (arith, found, first, there), ground (arith, first, there), is_live)
  ]

  stays :
      (n : ℕ) (log : DataLog channel)
      → log.running ≡ false
      → run channel (replicate n Event.written) log ≡ log
  unfolding run handle
  stays zero log off = refl
  stays (suc n) log off =
      ap (run channel (replicate n Event.written)) (round_off channel none log off)
      ∙ stays n log off

  abbrev FinishedAs : List String → DataLog channel → Type 0
  FinishedAs stream log = (log.running ≡ false) × (log.stream_ ≡ stream)

  finishes :
      (n : ℕ) (more : List String) (rest : List Message) (log : DataLog channel)
      → suc (length more) ≤ n
      → log.running ≡ true
      → channel.is_open log.channel_ ≡ true
      → channel.queue log.channel_ ≡ line_messages more ++ Message.eof ∷ rest
      → FinishedAs (log.stream_ ++ text more) (run channel (replicate n Event.written) log)
  unfolding run handle round handle_message
  finishes zero more rest log enough on live there = absurd (omega (arith, enough))
  finishes (suc n) [] rest log enough on live there =
      let (d, found, left, is_live) = receive-some Message.eof rest log.channel_ live there in
      let ended = finish channel d log.stream_ in
      let next : ended ≡ round channel none log = ground (arith, on, found) in
      subst (λ l. FinishedAs (log.stream_ ++ text []) (run channel (replicate n Event.written) l))
        next
        (
          ap (λ l. l.running) (stays n ended refl),
          ap (λ l. l.stream_) (stays n ended refl) ∙ sym (append-nil log.stream_),
        )
  finishes (suc n) (s ∷ more) rest log enough on live there =
      let (d, found, left, is_live) = receive-some (Message.line s) _ log.channel_ live there in
      let wrote : DataLog channel = record log {
        channel_ = d;
        stream_ = log.stream_ ++ s ∷ "\n" ∷ [];
      } in
      let next : wrote ≡ round channel none log = ground (arith, on, found) in
      let (off, all) = finishes n more rest wrote (omega (arith, enough)) on is_live left in
      subst
        (λ l.
          FinishedAs (log.stream_ ++ text (s ∷ more)) (run channel (replicate n Event.written) l))
        next (off, all ∙ append_assoc log.stream_ (s ∷ "\n" ∷ []) (text more))

  run_append :
      (es fs : List Event) (log : DataLog channel)
      → run channel (es ++ fs) log ≡ run channel fs (run channel es log)
  unfolding run
  run_append [] fs log = refl
  run_append (e ∷ es) fs log = run_append es fs (handle channel e log)

  from_stage :
      (ss : List String) (rest sent : List Message) (log : DataLog channel)
      → Stage channel log sent
      → sent ≡ line_messages ss ++ Message.eof ∷ rest
      → log.running ≡ true
      → FinishedAs (text ss) (run channel (replicate (suc (length ss)) Event.written) log)
  from_stage ss rest sent log (Stage.going taken on live split wrote) sends running =
      let (more, parts, fits, fewer) =
        left ss taken rest (channel.queue log.channel_) (sym sends ∙ split) in
      let (off, all) =
        finishes (suc (length ss)) more rest log (omega (arith, fewer)) on live fits in
      (
        off,
        all ∙ ap (λ l. l ++ text more) wrote ∙ sym (text-append taken more) ∙ ap text (sym parts),
      )
  from_stage ss rest sent log (Stage.closed taken after off split wrote) sends running =
      absurd (ground (arith, off, running))
  from_stage ss rest sent log (Stage.broke taken part s after off split wrote) sends running =
      absurd (ground (arith, off, running))

  -- If the coroutine runs after some events in which a stop follows the lines that were sent, then one
  -- round more than there are lines, each of which writes, end it, and the file is these lines.
  pub run-finishes :
      (es : List Event) (ss : List String) (rest : List Message)
      → messages es ≡ line_messages ss ++ Message.eof ∷ rest
      → (run channel es (data_log channel)).running ≡ true
      → let end =
          run channel (es ++ replicate (suc (length ss)) Event.written) (data_log channel) in
        (end.running ≡ false) × (end.stream_ ≡ text ss)
  run-finishes es ss rest sends on =
      subst (λ l. (l.running ≡ false) × (l.stream_ ≡ text ss))
        (sym (run_append es (replicate (suc (length ss)) Event.written) (data_log channel)))
        (from_stage ss rest (messages es) (run channel es (data_log channel)) (run-Stage channel es)
          sends on)
