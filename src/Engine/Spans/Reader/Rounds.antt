-- ===== src/Engine/Spans/Reader/Rounds.antt =====
-- The spans of the rounds of runEngine in wscengine/websocket_engine.go.
use gowsclient.Base.{
  suc, ◌+◌, ◌≡◌, refl, Bool, true, false, Option, none, some, String, List, [], ◌∷◌, All, length,
  arith, if◌then◌else◌, if_both, subst, ap, ◌∙◌, sym,
}
use gowsclient.Errors.{CloseError, canceled, is_nil, as_close_error}
use gowsclient.Tracing.{Status, record_error, ends, Span}
use gowsclient.Tracing.Names.{span_engine_background_run}
use gowsclient.Engine.State.{
  Engine, Session, read, on_message, on_read_error, note, cancel, session_done,
}
use gowsclient.Engine.Shutdown.{ShutdownEnv}
use gowsclient.Engine.Reader.{
  Pc, waiting, reading, processing, exited, stuck, signal, begin_read, ReadEnv, end_read,
  read_failed, leave, close_message,
}
use gowsclient.Engine.Reader.Loop.{
  Round, handle_read, run_round, goes_on, run_engine, Delivers, one_delivery,
}
use gowsclient.Engine.Spans.{start_span}
use gowsclient.Engine.Spans.Reader.{
  Traced, worker, left, traced_begin_read, traced_read_failed, traced_end_read, traced_handle,
  traced_round, deferred, traced_run_engine,
}

-- Whether a span has ended.
abbrev pub is_ended : Span → Bool
is_ended (ends ∷ span) = true
is_ended _ = false

-- The spans of a reader that stands where it does: ended if it has exited, else open.
abbrev pub AllEnd : Pc → List Span → Type 0
AllEnd exited spans = All (λ span. is_ended span ≡ true) spans
AllEnd _ spans = All (λ span. is_ended span ≡ false) spans

module _ (status_text : Status → String) (session_id routine_id : String) where
  IsRight : Traced → Engine × Pc → Type 0
  IsRight (e, pc, span) result = ((e, pc) ≡ result) × (is_ended span ≡ false)

  left-IsRight :
      (x : Engine × Pc) (span : Span)
      → is_ended span ≡ false
      → IsRight (left status_text session_id routine_id x span) x
  unfolding IsRight
  left-IsRight (e, exited) span h = (refl, refl)
  left-IsRight (e, waiting) span h = (refl, h)
  left-IsRight (e, reading) span h = (refl, h)
  left-IsRight (e, processing ty msg) span h = (refl, h)
  left-IsRight (e, stuck) span h = (refl, h)

  traced_begin_read-IsRight :
      (env : ShutdownEnv) (s : Session) (e : Engine)
      → IsRight (traced_begin_read status_text session_id routine_id env s e) (begin_read env s e)
  unfolding traced_begin_read begin_read IsRight
  traced_begin_read-IsRight env s e =
      if_both IsRight (session_done e s)
        (λ done.
          left-IsRight (leave env none true s e)
            (start_span span_engine_background_run (worker status_text session_id routine_id)) refl)
        (λ live. (refl, refl))

  traced_read_failed-IsRight :
      (env : ReadEnv) (s : Session) (c : Option CloseError) (e : Engine) (span : Span)
      → is_ended span ≡ false
      → IsRight
          (traced_read_failed status_text session_id routine_id env s c e span)
          (read_failed env s c e)
  unfolding traced_read_failed read_failed IsRight
  traced_read_failed-IsRight env s (some c) e span h =
      left-IsRight (leave env.shutdown (some (close_message c)) true s (cancel (some s.ctx) e)) _
        refl
  traced_read_failed-IsRight env s none e span h =
      let called = signal env.signals s s.exit (note (on_read_error env.err) e) in
      if_both IsRight (session_done called s)
        (λ done. left-IsRight (leave env.shutdown none false s called) span h) (λ live. (refl, h))

  traced_end_read-IsRight :
      (env : ReadEnv) (s : Session) (e : Engine) (span : Span)
      → is_ended span ≡ false
      → IsRight (traced_end_read status_text session_id routine_id env s e span) (end_read env s e)
  unfolding traced_end_read end_read IsRight
  traced_end_read-IsRight env s e span h =
      if_both IsRight (session_done e s)
        (λ done.
          left-IsRight (leave env.shutdown none true s e) (record_error canceled ∷ span) refl)
        (λ live.
          if_both IsRight (is_nil env.err) (λ ok. (refl, h))
            (λ bad. traced_read_failed-IsRight env s (as_close_error env.err) e _ refl))

  traced_round-IsRight :
      (r : Round) (s : Session) (e : Engine) (pc : Pc) (span : Span)
      → is_ended span ≡ false
      → IsRight
          (traced_round status_text session_id routine_id r s (e, pc, span))
          (run_round r s (e, pc))
  unfolding traced_round run_round IsRight traced_handle
  traced_round-IsRight r s e reading span h =
      let k = traced_end_read-IsRight r.read_env s e span h in (ap (handle_read r s) k.0, k.1)
  traced_round-IsRight r s e waiting span h = (refl, h)
  traced_round-IsRight r s e exited span h = (refl, h)
  traced_round-IsRight r s e stuck span h = (refl, h)
  traced_round-IsRight r s e (processing ty msg) span h = (refl, h)

  whole_round-IsRight :
      (r : Round) (s : Session) (e : Engine)
      → IsRight
          (traced_round status_text session_id routine_id r s
            (traced_begin_read status_text session_id routine_id r.shutdown s e))
          (run_round r s (begin_read r.shutdown s e))
  unfolding IsRight
  whole_round-IsRight r s e =
      let (e', pc, span) = traced_begin_read status_text session_id routine_id r.shutdown s e in
      let k = traced_begin_read-IsRight r.shutdown s e in
      subst
        (λ u.
          IsRight (traced_round status_text session_id routine_id r s (e', pc, span))
            (run_round r s u))
        k.0 (traced_round-IsRight r s e' pc span k.1)

  deferred-AllEnd :
      (pc : Pc) (spans : List Span)
      → All (λ span. is_ended span ≡ false) spans
      → AllEnd pc (deferred status_text session_id routine_id pc spans)
  deferred-AllEnd exited [] h = tt
  deferred-AllEnd exited (span ∷ spans) h = (refl, deferred-AllEnd exited spans h.1)
  deferred-AllEnd waiting spans h = h
  deferred-AllEnd reading spans h = h
  deferred-AllEnd (processing ty msg) spans h = h
  deferred-AllEnd stuck spans h = h

  Shows : Engine × Pc × List Span → Engine × Pc → Type 0
  Shows (e, pc, spans) result = ((e, pc) ≡ result) × AllEnd pc spans

  traced_run_engine-Shows :
      (rounds : List Round) (s : Session) (e : Engine) (spans : List Span)
      → All (λ span. is_ended span ≡ false) spans
      → Shows
          (traced_run_engine status_text session_id routine_id rounds s e spans)
          (run_engine rounds s e)
  unfolding traced_run_engine run_engine Shows IsRight
  traced_run_engine-Shows [] s e spans unended = (refl, unended)
  traced_run_engine-Shows (r ∷ rest) s e spans unended =
      let (e', pc, span) =
        traced_round status_text session_id routine_id r s
          (traced_begin_read status_text session_id routine_id r.shutdown s e) in
      let k = whole_round-IsRight r s e in
      subst
        (λ u.
          Shows
            (if goes_on pc
              then traced_run_engine status_text session_id routine_id rest s e' (span ∷ spans)
              else (e', pc, deferred status_text session_id routine_id pc (span ∷ spans)))
            (if goes_on u.1 then run_engine rest s u.0 else u))
        k.0
        (if_both Shows (goes_on pc)
          (λ on. traced_run_engine-Shows rest s e' (span ∷ spans) (k.1, unended))
          (λ off. (refl, deferred-AllEnd pc (span ∷ spans) (k.1, unended))))

  -- With its spans runEngine does the same. While it runs none of the spans of its rounds has ended;
  -- all of them have when it has returned.
  pub traced_run_engine_lem :
      (rounds : List Round) (s : Session) (e : Engine)
      → let (e', pc, spans) = traced_run_engine status_text session_id routine_id rounds s e [] in
        ((e', pc) ≡ run_engine rounds s e) × AllEnd pc spans
  unfolding Shows
  traced_run_engine_lem rounds s e = traced_run_engine-Shows rounds s e [] tt

  deliveries :
      (rounds : List Round) (s : Session) (e : Engine) (spans : List Span)
      → All Delivers rounds
      → session_done e s ≡ false
      → let (e', pc, spans') =
          traced_run_engine status_text session_id routine_id rounds s e spans in
        (pc ≡ waiting) × (length spans' ≡ length rounds + length spans)
  unfolding traced_run_engine IsRight
  deliveries [] s e spans all live = (refl, omega arith)
  deliveries (r ∷ rest) s e spans all live =
      let (e', pc, span) =
        traced_round status_text session_id routine_id r s
          (traced_begin_read status_text session_id routine_id r.shutdown s e) in
      let read_on : Engine = record e {
        calls = on_message s.ctx r.read_env.msg_type r.read_env.msg ∷ read ∷ e.calls;
      } in
      let k = (whole_round-IsRight r s e).0 ∙ one_delivery r s e all.0 live in
      subst
        (λ u.
          let (e'', pc', spans') =
            if goes_on u.1
            then traced_run_engine status_text session_id routine_id rest s u.0 (span ∷ spans)
            else (u.0, u.1, deferred status_text session_id routine_id u.1 (span ∷ spans)) in
          (pc' ≡ waiting) × (length spans' ≡ suc (length rest) + length spans))
        (sym k)
        (let ih = deliveries rest s read_on (span ∷ spans) all.1 live in
          (ih.0, omega (arith, ih.1)))

  -- A reader of a live session that reads one message after the other, whose OnMessage calls neither
  -- of its functions, starts a span for each message and ends none of these: after n messages n
  -- spans are open.
  pub traced_run_engine-is_ended :
      (rounds : List Round) (s : Session) (e : Engine)
      → All Delivers rounds
      → session_done e s ≡ false
      → let (e', pc, spans) = traced_run_engine status_text session_id routine_id rounds s e [] in
        (length spans ≡ length rounds) × All (λ span. is_ended span ≡ false) spans
  traced_run_engine-is_ended rounds s e all live =
      let (waits, many) = deliveries rounds s e [] all live in
      let (e', pc, spans) = traced_run_engine status_text session_id routine_id rounds s e [] in
      (omega (arith, many), subst (λ p. AllEnd p spans) waits (traced_run_engine_lem rounds s e).1)
