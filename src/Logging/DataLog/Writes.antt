-- ===== src/Logging/DataLog/Writes.antt =====
-- What the log writes.
use arby.Common.{
  ◌≡◌, refl, sym, ap, subst, ◌∙◌, String, true, false, Option, none, some, Option-cases, inl, inr,
  List, [], ◌∷◌, ◌++◌, map, append_assoc, append-nil, map-append, arith,
}
use arby.Logging.DataLog.{
  Message, Channel, Event, DataLog, data_log, do_send, receive, handle_message, round, handle, run,
}

-- The messages of events, and the texts of lines.
abbrev pub messages : List Event → List Message
messages [] = []
messages (Event.sent s ∷ es) = Message.line s ∷ messages es
messages (Event.stopped ∷ es) = Message.eof ∷ messages es
messages (e ∷ es) = messages es

abbrev pub text : List String → List String
text [] = []
text (s ∷ lines) = s ∷ "\n" ∷ text lines

abbrev pub line_messages : List String → List Message
line_messages lines = map Message.line lines

pub text-append : (l m : List String) → text (l ++ m) ≡ text l ++ text m
text-append [] m = refl
text-append (s ∷ l) m = ap (λ t. s ∷ "\n" ∷ t) (text-append l m)

module _ (channel : Channel) where
  -- How far the log has come with what it was sent: it goes on with the rest, it came to the end, or
  -- a write failed.
  pub data Stage (log : DataLog channel) (sent : List Message) : Type 0 where
    going :
        (taken : List String)
        → log.running ≡ true
        → channel.is_open log.channel_ ≡ true
        → sent ≡ map Message.line taken ++ channel.queue log.channel_
        → log.stream_ ≡ text taken
        → Stage log sent
    closed :
        (taken : List String) (rest : List Message)
        → log.running ≡ false
        → sent ≡ map Message.line taken ++ Message.eof ∷ rest
        → log.stream_ ≡ text taken
        → Stage log sent
    broke :
        (taken part : List String) (s : String) (rest : List Message)
        → log.running ≡ false
        → sent ≡ map Message.line taken ++ Message.line s ∷ rest
        → log.stream_ ≡ text taken ++ part
        → Stage log sent

  -- What `receive` gives is the first of the queue; it waits on an empty one.
  pub receive_lem :
      (m : Message) (c d : channel.State)
      → channel.is_open c ≡ true
      → receive channel c ≡ some (m, d)
      → (channel.queue c ≡ m ∷ channel.queue d) × (channel.is_open d ≡ true)
  unfolding receive
  receive_lem m c d live found = elim (Option-cases (channel.try_receive c)) [
    | inl nothing ↦ channel.async_receive_lem m c d live (ground (arith, nothing))
    | inr (r, there) ↦ channel.try_receive_lem m c d live (ground (arith, there))
  ]

  -- A message more in the channel.
  sent_more :
      (m : Message) (c : channel.State) (log : DataLog channel) (sent : List Message)
      → (channel.is_open log.channel_ ≡ true
          → (channel.queue c ≡ channel.queue log.channel_ ++ m ∷ []) × (channel.is_open c ≡ true))
      → Stage log sent
      → Stage (record log { channel_ = c }) (sent ++ m ∷ [])
  sent_more m c log sent more (going taken on live split wrote) =
      going taken on (more live).1
        (ap (λ l. l ++ m ∷ []) split
          ∙ append_assoc (line_messages taken) (channel.queue log.channel_) (m ∷ [])
          ∙ ap (λ q. line_messages taken ++ q) (sym (more live).0))
        wrote
  sent_more m c log sent more (closed taken rest off split wrote) =
      closed taken (rest ++ m ∷ []) off
        (ap (λ l. l ++ m ∷ []) split
          ∙ append_assoc (line_messages taken) (Message.eof ∷ rest) (m ∷ []))
        wrote
  sent_more m c log sent more (broke taken part s rest off split wrote) =
      broke taken part s (rest ++ m ∷ []) off
        (ap (λ l. l ++ m ∷ []) split
          ∙ append_assoc (line_messages taken) (Message.line s ∷ rest) (m ∷ []))
        wrote

  pub do_send-Stage :
      (m : Message) (log : DataLog channel) (sent : List Message)
      → Stage log sent
      → Stage (do_send channel m log) (sent ++ m ∷ [])
  unfolding do_send
  do_send-Stage m log sent stage = elim (Option-cases (channel.try_send m log.channel_)) [
    | inl full ↦
        rw (do_send, full) (sent_more m _ log sent (channel.async_send_lem m log.channel_) stage)
    | inr (c, room) ↦
        rw (do_send, room)
          (sent_more m c log sent (λ live. channel.try_send_lem m log.channel_ c live room) stage)
  ]

  handle_message-Stage :
      (failed : Option (List String)) (m : Message) (d : channel.State) (log : DataLog channel)
      (taken : List String)
      → log.running ≡ true
      → channel.is_open d ≡ true
      → log.stream_ ≡ text taken
      → Stage (handle_message channel failed m d log) (line_messages taken ++ m ∷ channel.queue d)
  unfolding handle_message
  handle_message-Stage failed Message.eof d log taken on live wrote =
      closed taken (channel.queue d) refl refl wrote
  handle_message-Stage none (Message.line s) d log taken on live wrote =
      going (taken ++ s ∷ []) on live
        (sym (
          ap (λ l. l ++ channel.queue d) (map-append Message.line taken (s ∷ []))
          ∙ append_assoc (line_messages taken) (Message.line s ∷ []) (channel.queue d)))
        (ap (λ l. l ++ s ∷ "\n" ∷ []) wrote ∙ sym (text-append taken (s ∷ [])))
  handle_message-Stage (some part) (Message.line s) d log taken on live wrote =
      broke taken part s (channel.queue d) refl refl (ap (λ l. l ++ part) wrote)

  -- A round once the coroutine ended.
  pub round_off :
      (failed : Option (List String)) (log : DataLog channel)
      → log.running ≡ false
      → round channel failed log ≡ log
  unfolding round
  round_off failed log off = ground (arith, off)

  pub round-Stage :
      (failed : Option (List String)) (log : DataLog channel) (sent : List Message)
      → Stage log sent
      → Stage (round channel failed log) sent
  unfolding round
  round-Stage failed log sent (going taken on live split wrote) =
      elim (Option-cases (receive channel log.channel_)) [
        | inl waits ↦
            subst (λ l. Stage l sent) (ground (arith, on, waits)) (going taken on live split wrote)
        | inr ((m, d), found) ↦
            let (first, is_live) = receive_lem m log.channel_ d live found in
            let next : handle_message channel failed m d log ≡ round channel failed log =
              ground (arith, on, found) in
            let all : line_messages taken ++ m ∷ channel.queue d ≡ sent =
              ap (λ q. line_messages taken ++ q) (sym first) ∙ sym split in
            subst (λ l. Stage l sent) next
              (subst (Stage (handle_message channel failed m d log)) all
                (handle_message-Stage failed m d log taken on is_live wrote))
      ]
  round-Stage failed log sent (closed taken rest off split wrote) =
      subst (λ l. Stage l sent) (sym (round_off failed log off)) (closed taken rest off split wrote)
  round-Stage failed log sent (broke taken part s rest off split wrote) =
      subst (λ l. Stage l sent) (sym (round_off failed log off))
        (broke taken part s rest off split wrote)

  run_from :
      (es : List Event) (log : DataLog channel) (sent : List Message)
      → Stage log sent
      → Stage (run channel es log) (sent ++ messages es)
  unfolding run handle
  run_from [] log sent stage = subst (Stage log) (sym (append-nil sent)) stage
  run_from (Event.sent s ∷ es) log sent stage =
      subst (Stage (run channel es (do_send channel (Message.line s) log)))
        (append_assoc sent (Message.line s ∷ []) (messages es))
        (run_from es _ _ (do_send-Stage (Message.line s) log sent stage))
  run_from (Event.stopped ∷ es) log sent stage =
      subst (Stage (run channel es (do_send channel Message.eof log)))
        (append_assoc sent (Message.eof ∷ []) (messages es))
        (run_from es _ _ (do_send-Stage Message.eof log sent stage))
  run_from (Event.written ∷ es) log sent stage =
      run_from es _ sent (round-Stage none log sent stage)
  run_from (Event.torn part ∷ es) log sent stage =
      run_from es _ sent (round-Stage (some part) log sent stage)

  -- After any events: the file holds the lines that were sent first, in order and each once, and the
  -- coroutine goes on with the others, or ended at the first stop, or at a line whose write failed.
  pub run-Stage : (es : List Event) → Stage (run channel es (data_log channel)) (messages es)
  unfolding data_log
  run-Stage es =
      run_from es (data_log channel) []
        (going [] refl channel.fresh_lem.1 (sym channel.fresh_lem.0) refl)
