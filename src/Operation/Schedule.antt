-- ===== src/Operation/Schedule.antt =====
-- ot-node-docker/src/commands/protocols/common/protocol-schedule-messages-command.js: sends an
-- operation to the next batch of nodes.
use trex_dkg.Prelude.{ℕ, none, List, [], map, length, take, drop, ltb, if◌then◌else◌}
use trex_dkg.Operation.Data.{IdStatus, CommandData, World}
use trex_dkg.Operation.Ids.{update_operation_id_status}

-- The first message command for one node, as it is added to the executor: period 5000, 3 retries.
pub record MessageCommand : Type 0 where
  pub node : ℕ
  pub command : CommandData
  pub delay : ℕ
  pub period : ℕ
  pub retries : ℕ

abbrev pub current_batch : CommandData → List ℕ
current_batch d = take d.batch_size d.leftover_nodes

abbrev pub current_leftover : CommandData → List ℕ
current_leftover d =
    if ltb d.batch_size (length d.leftover_nodes) then drop d.batch_size d.leftover_nodes else []

abbrev pub message_command : CommandData → ℕ → MessageCommand
message_command d node = record {
  node = node;
  command = record d { leftover_nodes = current_leftover d };
  delay = 0;
  period = 5000;
  retries = 3;
}

-- `execute`, with the event of the subclass's `startEvent`.
unfoldable pub schedule_messages : IdStatus → CommandData → World → World × List MessageCommand
schedule_messages start_event d w = (
  update_operation_id_status d.operation_id d.blockchain start_event none none w,
  map (message_command d) (current_batch d),
)
