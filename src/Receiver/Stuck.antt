-- ===== src/Receiver/Stuck.antt =====
-- A manager's connection on which a packet has arrived in part: the loop of src/ThreadReceiver.cpp in
-- the edge-triggered build does not leave when `ExecuteCommand` fails.
use thunder_chat.Prelude.{ℕ, zero, suc, ◌+◌, ◌≤◌, ◌<◌, ◌≡◌, refl, ◌∙◌, none, some, List, []}
use thunder_chat.Prelude.Int.{negsuc}
use thunder_chat.CircularBuff.{get_used_size, get_total_size}
use thunder_chat.CircularBuff.Bounds.{contents}
use thunder_chat.Packet.{pdu_header_size}
use thunder_chat.Message.{BroadcastMessage}
use thunder_chat.Client.{Client, client_chat_manager, execute_manager, is_valid_packet}
use thunder_chat.Client.Commands.{execute_command_manager}
use thunder_chat.Client.Packets.{IsStraight, IsPartial, FindsTooFew, next_packet_partial}
use thunder_chat.Receiver.{running, execute_loop, queue}
use thunder_chat.Receiver.Messages.{loop_turn}

manager_waits :
    (c : Client) (memory : List ℕ)
    → FindsTooFew c
    → execute_manager c memory ≡ some (negsuc 0, c, none)
unfolding execute_manager
manager_waits c memory f = rw f.result_eq refl

loop_spins :
    (fuel : ℕ) (memory : ℕ → List ℕ) (c : Client) (ms : List BroadcastMessage)
    → c.client_type ≡ client_chat_manager
    → 0 < is_valid_packet c
    → FindsTooFew c
    → execute_loop fuel memory c ms ≡ running
unfolding execute_loop queue
loop_spins zero memory c ms t held f = refl
loop_spins (suc fuel) memory c ms t held f =
    loop_turn fuel memory c c ms (negsuc 0) none held
      (execute_command_manager c (memory fuel) t ∙ manager_waits c (memory fuel) f)
    ∙ loop_spins fuel memory c ms t held f

-- The fault: when some bytes but no whole packet have come from a manager, in a valid buffer that does not
-- go round and has room for a header, the loop has not ended after any number of turns: the thread
-- spins and takes no other client.
pub execute_loop-running :
    (fuel : ℕ) (memory : ℕ → List ℕ) (c : Client)
    → c.client_type ≡ client_chat_manager
    → IsStraight c.buffer
    → c.buffer.head + pdu_header_size ≤ get_total_size c.buffer
    → 0 < get_used_size c.buffer
    → IsPartial (contents c.buffer)
    → execute_loop fuel memory c [] ≡ running
unfolding is_valid_packet
execute_loop-running fuel memory c t s room held part =
    loop_spins fuel memory c [] t held (next_packet_partial c s room part)
