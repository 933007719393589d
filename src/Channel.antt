-- ===== src/Channel.antt =====
-- src/channel_with_error.rs: a channel whose receiver can hand an error to the sender. The traits
-- `Sink`, `Stream`, `Close` and `IsClosed` of the wrapped halves are records of operations.
pub mod Propagation
mod Examples
use picoquic_rs.Base.{
  ℕ, ◌+◌, ◌≡◌, Bool, true, false, List, [], ◌∷◌, ◌++◌, Option, none, some, Result, ok, err, Poll,
  Async, map_err, length, get_elem?, set, if◌then◌else◌,
}
use picoquic_rs.Errors.{Error, ErrorFn, ErrorKind, unknown, from_kind}
use picoquic_rs.World.{World, on_sys, with_sys}

-- `Arc<RwLock<Option<Box<dyn ErrorFn>>>>`: the place of the cell in `World.cells`.
pub record ErrorState : Type 0 where
  pub inner : ℕ

-- `AsyncSink`
pub data AsyncSink (Item : Type 0) : Type 0 where
  sink_ready : AsyncSink Item
  sink_not_ready : Item → AsyncSink Item

pub record Sink (Sys S Item E : Type 0) : Type 0 where
  pub start_send : S → Item → Sys → Result (AsyncSink Item) E × Sys
  pub poll_complete : S → Sys → Poll (Unit {0}) E × Sys

pub record IsClosed (Sys S : Type 0) : Type 0 where
  pub is_closed : S → Sys → Bool

pub record Stream (Sys S Item E : Type 0) : Type 0 where
  pub poll : S → Sys → Poll (Option Item) E × Sys

pub record Close (Sys S : Type 0) : Type 0 where
  pub close : S → Sys → Sys

pub data SendError (T : Type 0) : Type 0 where
  channel : Error → T → SendError T
  normal : T → SendError T

pub record SenderWithError (S : Type 0) : Type 0 where
  pub sender : S
  pub error_state : ErrorState

pub record ReceiverWithError (R : Type 0) : Type 0 where
  pub receiver : R
  pub error_state : ErrorState

abbrev read : Option (Option ErrorFn) → Option Error
read (some (some f)) = some (f tt)
read _ = none

module _ {Sys : Type 0} where
  -- `ErrorState::new`: a new cell, empty.
  unfoldable pub new_state : World Sys → ErrorState × World Sys
  new_state w = (record { inner = length w.cells }, record w { cells = w.cells ++ none ∷ [] })

  -- `ErrorState::error`
  unfoldable pub error : ErrorState → World Sys → Option Error
  error e w = read (get_elem? w.cells e.inner)

  -- `ErrorState::set_error`
  unfoldable pub set_error : ErrorState → ErrorFn → World Sys → World Sys
  set_error e f w = record w { cells = set w.cells e.inner (some f) }

  module _ {S : Type 0} where
    -- `Clone`: both senders share the cell.
    unfoldable pub clone :
        (S → Sys → S × Sys) → SenderWithError S → World Sys → SenderWithError S × World Sys
    clone clone_inner s w =
        let (t, w') = on_sys w (clone_inner s.sender w.sys) in
        (record { sender = t; error_state = s.error_state }, w')

    unfoldable pub check_for_error : IsClosed Sys S → SenderWithError S → World Sys → Option Error
    unfolding error
    check_for_error c s w = if c.is_closed s.sender w.sys then error s.error_state w else none

    -- `SenderWithError::map_err`
    -- `SenderWithError::map_err`
    unfoldable pub to_send_error :
        {E : Type 0} → IsClosed Sys S → SenderWithError S → World Sys → E → SendError E
    unfolding check_for_error
    to_send_error c s w e = elim (check_for_error c s w) [ some x ↦ channel x e | none ↦ normal e ]

    -- The wrapped sender sends first; whether it is closed is asked after that.
    unfoldable pub start_send :
        {Item E : Type 0}
        → Sink Sys S Item E
        → IsClosed Sys S
        → SenderWithError S
        → Item
        → World Sys
        → Result (AsyncSink Item) (SendError E) × World Sys
    start_send k c s item w =
        let (r, w') = on_sys w (k.start_send s.sender item w.sys) in
        (map_err (to_send_error c s w') r, w')

    unfoldable pub poll_complete :
        {Item E : Type 0}
        → Sink Sys S Item E
        → IsClosed Sys S
        → SenderWithError S
        → World Sys
        → Poll (Unit {0}) (SendError E) × World Sys
    poll_complete k c s w =
        let (r, w') = on_sys w (k.poll_complete s.sender w.sys) in
        (map_err (to_send_error c s w') r, w')

    -- `ReceiverWithError::propagate_error`
    unfoldable pub propagate_error : ReceiverWithError S → ErrorFn → World Sys → World Sys
    unfolding set_error
    propagate_error r f w = set_error r.error_state f w

    -- `ReceiverWithError::close`
    unfoldable pub close : Close Sys S → ReceiverWithError S → World Sys → World Sys
    close k r w = with_sys w (k.close r.receiver)

    unfoldable pub poll :
        {Item E : Type 0}
        → Stream Sys S Item E
        → ReceiverWithError S
        → World Sys
        → Poll (Option Item) Error × World Sys
    poll k r w =
        let (p, w') = on_sys w (k.poll r.receiver w.sys) in (map_err (λ _. from_kind unknown) p, w')

    -- `unbounded` and `channel`: both halves get the same cell. `create` makes the wrapped halves.
    unfoldable pub pair :
        {R : Type 0}
        → (Sys → (S × R) × Sys)
        → World Sys
        → (SenderWithError S × ReceiverWithError R) × World Sys
    unfolding new_state
    pair create w =
        let ((sender, receiver), w') = on_sys w (create w.sys) in
        let (error_state, w'') = new_state w' in
        (
          (
            record { sender = sender; error_state = error_state },
            record { receiver = receiver; error_state = error_state },
          ),
          w'',
        )
