-- ===== src/Connection/Requests.antt =====
-- src/connection.rs: the channel on which the application asks a connection for streams, as a queue.
use picoquic_rs.Base.{ℕ, ◌≡◌, List, [], ◌∷◌, ◌++◌, Option, some, Result, ok, Async, ready}
use picoquic_rs.Errors.{Error}
use picoquic_rs.Stream.Types.{Stream}
use picoquic_rs.Connection.Types.{Ext, Request}

module _ {Sys : Type 0} (ext : Ext Sys) where
  -- The requests in a channel, and the answers that were sent, the newest last. Asking an empty
  -- channel gives `idle`, which is not a request, and an answer goes to another channel.
  pub record Queue (receiver : ℕ) (idle : Async (Option Request)) : Type 1 where
    pub queue : Sys → List Request
    pub answers : Sys → List (ℕ × Result Stream Error)
    pub head :
        (s : Sys) (r : Request) (l : List Request)
        → queue s ≡ r ∷ l
        → (s' : Sys) × (ext.requests_stream.poll receiver s ≡ (ok (ready (some r)), s'))
          × (queue s' ≡ l)
          × (answers s' ≡ answers s)
    pub empty :
        (s : Sys)
        → queue s ≡ []
        → (s' : Sys) × (ext.requests_stream.poll receiver s ≡ (ok idle, s'))
          × (queue s' ≡ [])
          × (answers s' ≡ answers s)
    pub answered :
        (sender : ℕ) (r : Result Stream Error) (s : Sys)
        → (queue (ext.answer_stream sender r s) ≡ queue s)
          × (answers (ext.answer_stream sender r s) ≡ answers s ++ (sender, r) ∷ [])
