-- ===== src/Receiver.antt =====
-- src/ThreadReceiver.cpp: one round of the loop of `Run`, from a client of the receive queue to its next
-- registration with epoll; with `Client::FillFromSocket` of src/Client.cpp.
pub mod Messages
pub mod Stuck
pub mod Overflow
use thunder_chat.Prelude.{
  ℕ, zero, suc, Option, none, some, List, [], ◌∷◌, ◌++◌, Bool, true, false, ◌==◌, if◌then◌else◌,
}
use thunder_chat.Prelude.Int.{ℤ, pos, negsuc, is_positive}
use thunder_chat.Kernel.{ReadResult}
use thunder_chat.CircularBuff.Fill.{Filled, returned, outside, waiting, put_socket}
use thunder_chat.Message.{BroadcastMessage}
use thunder_chat.Client.{Client, is_valid_packet, execute_command}

-- How a round ends: the client is registered again, having queued the messages; or it is closed; or a
-- copy goes outside a block; or the round waits for `read`, or has not ended when the fuel has.
pub data Round : Type 0 where
  rearmed : Client → List BroadcastMessage → Round
  closed : Client → Round
  crashed : Round
  blocked : Round
  running : Round

pub queue : List BroadcastMessage → Option BroadcastMessage → List BroadcastMessage
queue ms none = ms
queue ms (some m) = ms ++ (m ∷ [])

after_command :
    (Client → List BroadcastMessage → Round)
    → List BroadcastMessage
    → Option (ℤ × Client × Option BroadcastMessage)
    → Round
unfolding queue
after_command loop ms none = crashed
after_command loop ms (some (code, c, m)) = loop c (queue ms m)

-- `while ((bufferedPacketSize = pClient->IsValidPacket()) > 0)` of the edge-triggered build, which does
-- not look whether `ExecuteCommand` fails. `memory` is what the block of each fresh message holds.
pub execute_loop : ℕ → (ℕ → List ℕ) → Client → List BroadcastMessage → Round
unfolding after_command
execute_loop zero memory c ms = running
execute_loop (suc fuel) memory c ms =
    if is_valid_packet c == 0
    then rearmed c ms
    else after_command (execute_loop fuel memory) ms (execute_command c (memory fuel))

-- `FillFromSocket`
pub fill_from_socket : Client → ℕ → List ReadResult → Filled
fill_from_socket c available rs = put_socket c.buffer available rs

-- `iRet == USER_CLOSE`
is_user_close : ℤ → Bool
is_user_close (pos n) = false
is_user_close (negsuc n) = n == 99

after_fill : (Client → List BroadcastMessage → Round) → Client → Filled → Round
unfolding is_user_close
after_fill loop c (returned code b) =
    let c' = record c { buffer = b } in
    if is_positive code then loop c' [] else if is_user_close code then closed c' else rearmed c' []
after_fill loop c outside = crashed
after_fill loop c waiting = blocked

pub receive_round : ℕ → (ℕ → List ℕ) → Client → ℕ → List ReadResult → Round
unfolding after_fill fill_from_socket
receive_round fuel memory c available rs =
    after_fill (execute_loop fuel memory) c (fill_from_socket c available rs)
