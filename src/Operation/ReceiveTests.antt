-- ===== src/Operation/ReceiveTests.antt =====
-- A publish that a node is asked to store: the sharding table has the node alone.
use trex_dkg.Prelude.{ℕ, ◌≡◌, refl, true, false, none, some, [], ◌∷◌, arith, ◌==◌, if◌then◌else◌}
use trex_dkg.Operation.Exchange.{MessageType}
use trex_dkg.Sharding.Data.{Peer}
use trex_dkg.Sharding.Order.{sort_by}
use trex_dkg.Sharding.Neighbourhood.{
  peers_of, get_all_peer_records, sort_peers, find_neighbourhood, validate_neighborhood,
}
use trex_dkg.Sharding.Agreements.{
  AgreementData, calculate_current_epoch, calculate_bid, validate_bid,
}
use trex_dkg.Operation.Receiving.{
  Facts, Init, RemoteStatus, Receiver, validate_received_data, handle_error, execute, receive,
}
use trex_dkg.Operation.Received.{IsAnswered, receive-IsAnswered}

abbrev me : Peer
me = record {
  peer_id = 4;
  blockchain_id = 1;
  ask = 2;
  stake = 50000;
  last_seen = 1;
  last_dialed = 0;
  sha256 = 70;
}

abbrev agreement : AgreementData
agreement = record {
  start_time = 1000;
  epochs_number = 5;
  epoch_length = 100;
  token_amount = 1000000;
  update_token_amount = 0;
}

-- At the first try, with three retries, the blockchain does not answer.
abbrev facts : ℕ → Facts
facts retries = record {
  now = 1050;
  table = me ∷ [];
  r2 = 20;
  latest_assertion_id = if retries == 3 then none else some 8;
  agreement = some agreement;
  assertion_size = 2048;
  r0 = 3;
  ask = 2;
}

abbrev message : Init
message = record {
  me = 4;
  blockchain = 1;
  assertion_id = 8;
  distance_of = λ hash. hash;
  maximum_assertion_size_in_kb = 2500;
}

abbrev start : Receiver
start = record { responses = []; statuses = []; cached = none; session = true }

second_try :
    receive 4 message facts 3 start
    ≡ some (record {
      responses = MessageType.ack ∷ [];
      statuses =
          RemoteStatus.validate_asset_remote_start ∷ RemoteStatus.validate_asset_remote_start
          ∷ RemoteStatus.validate_asset_remote_end ∷ [];
      cached = some agreement;
      session = false;
    })
unfolding receive execute validate_received_data validate_neighborhood find_neighbourhood sort_peers
    sort_by get_all_peer_records peers_of validate_bid calculate_bid calculate_current_epoch
second_try = refl

-- Another assertion than the latest one, until no retry is left.
refused :
    receive 4 (record message { assertion_id = 9 }) facts 1 start
    ≡ some (record {
      responses = MessageType.nack ∷ [];
      statuses = RemoteStatus.validate_asset_remote_start ∷ RemoteStatus.failed ∷ [];
      cached = none;
      session = false;
    })
unfolding receive execute handle_error validate_received_data validate_neighborhood
    find_neighbourhood sort_peers sort_by get_all_peer_records peers_of
refused = refl

receive-IsAnswered_example :
    (y : Receiver) × (receive 4 message facts 3 start ≡ some y) × IsAnswered message facts 3 start y
receive-IsAnswered_example = receive-IsAnswered 4 message facts 3 start (omega arith)
