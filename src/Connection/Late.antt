-- ===== src/Connection/Late.antt =====
-- src/connection.rs: a request for a stream that comes after the connection has failed.
use picoquic_rs.Base.{ℕ, ◌<◌, ◌≡◌, refl, ap, true, some, Result, ok, err, ready, length}
use picoquic_rs.Errors.{Error, ErrorFn}
use picoquic_rs.World.{World}
use picoquic_rs.Channel
use picoquic_rs.Channel.{ReceiverWithError, propagate_error}
use picoquic_rs.Channel.Propagation.{error-propagate_error}
use picoquic_rs.Stream.Types.{Stream}
use picoquic_rs.Stream.Id.{StreamType}
use picoquic_rs.Connection.Types.{Ext, NewStreamHandle, Request}
use picoquic_rs.Connection.Handle.{answered, new_stream_handle, poll_new_stream}

module _ {Sys : Type 0} (ext : Ext Sys) where
  -- In the state `s` the channel of requests is closed, so that a request comes back, and the oneshot
  -- that is made for it hands on what is sent.
  pub record Shut (h : NewStreamHandle) (stype : StreamType) (s : Sys) : Type 0 where
    pub refused :
        let ((send, recv), s₁) = ext.create_oneshot s in
        (ext.requests_sink.start_send h.sender (stype, send) s₁).0 ≡ err (stype, send)
    pub is_closed :
        let ((send, recv), s₁) = ext.create_oneshot s in
        ext.requests_closed.is_closed h.sender
          (ext.requests_sink.start_send h.sender (stype, send) s₁).1
        ≡ true
    pub hands_on :
        (r : Result Stream Error)
        → let ((send, recv), s₁) = ext.create_oneshot s in
          let s₂ = (ext.requests_sink.start_send h.sender (stype, send) s₁).1 in
          (ext.poll_answer recv (ext.answer_stream send r s₂)).0 ≡ ok (ready r)

  -- `check_and_handle_error` on the channel of requests: the error is set, then the channel closed.
  abbrev pub fail_requests : ReceiverWithError ℕ → ErrorFn → World Sys → World Sys
  fail_requests r e w = Channel.close ext.requests_close r (propagate_error r e w)

  -- A failed send on a closed channel with an error reports it.
  closed-error :
      (h : NewStreamHandle) (w : World Sys) (request : Request) (x : Error)
      → ext.requests_closed.is_closed h.sender w.sys ≡ true
      → Channel.error h.error_state w ≡ some x
      → Channel.to_send_error ext.requests_closed h w request ≡ Channel.channel x request
  unfolding Channel.to_send_error Channel.check_for_error
  closed-error h w request x closed set =
      rw (Channel.to_send_error, Channel.check_for_error, closed, set) refl

  refused-request :
      (h : NewStreamHandle) (stype : StreamType) (w : World Sys) (x : Error)
      → Channel.error h.error_state w ≡ some x
      → Shut h stype w.sys
      → let (recv, w') = new_stream_handle ext h stype w in (poll_new_stream ext recv w').0 ≡ err x
  unfolding new_stream_handle poll_new_stream Channel.start_send Channel.error
  refused-request h stype w x set shut =
      let ((send, recv), s₁) = ext.create_oneshot w.sys in
      let w₂ : World Sys = record w {
        sys = (ext.requests_sink.start_send h.sender (stype, send) s₁).1;
      } in
      let reported = closed-error h w₂ (stype, send) x shut.is_closed set in
      rw (shut.refused, reported) (ap (answered ext) (shut.hands_on (err x)))

  -- After the receiver of requests has set an error and was closed, in that order, where the sender
  -- shares the receiver's allocated cell, a closed channel gives a request back and the oneshot hands
  -- on its answer: the future of a request that is made then resolves to that error at its first
  -- poll.
  pub new_stream_handle-fails :
      (h : NewStreamHandle) (r : ReceiverWithError ℕ) (stype : StreamType) (e : ErrorFn)
      (w : World Sys)
      → h.error_state ≡ r.error_state
      → h.error_state.inner < length w.cells
      → Shut h stype (fail_requests r e w).sys
      → let (recv, w') = new_stream_handle ext h stype (fail_requests r e w) in
        (poll_new_stream ext recv w').0 ≡ err (e tt)
  unfolding Channel.close Channel.error
  new_stream_handle-fails h r stype e w share live shut =
      refused-request h stype (fail_requests r e w) (e tt)
        (error-propagate_error h r e w share live) shut
