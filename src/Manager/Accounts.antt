-- ===== src/Manager/Accounts.antt =====
-- The connections that src/ChatManager.cpp keeps: accepted in `Run`, closed by CloseClient, and checked by
-- HealthCheckUsers. `none` is a call through a dangling pointer or an iterator past the end.
use thunder_chat.Prelude.{ℕ, Option, none, some, List, [], Bool, ◌&&◌, ◌||◌, if◌then◌else◌, ◌>>=◌}
use thunder_chat.Prelude.Int.{ℤ, pos, increment, decrement, at_least}
use thunder_chat.Client.{
  client_user, create_client, set_state, set_main_process, state_wait, is_closed, chat_manager,
}
use thunder_chat.Listing.{push_back, remove, is_listed, erase_loop}
use thunder_chat.ChatServer.{Fresh, is_user, is_idle}
use thunder_chat.Manager.{ClientChatServer}

-- `max_user` is `GetMaxUser()`: what the settings say, which does not change.
pub record ChatManager : Type 0 where
  pub servers : List ClientChatServer
  pub conn_count : ℤ
  pub max_user : ℤ

abbrev pub server_pointer : ClientChatServer → ℕ
server_pointer s = s.client.pointer

-- The constructor `ChatManager(Properties &)`.
unfoldable pub create_manager : ℤ → ChatManager
create_manager max_user = record { servers = []; conn_count = pos 0; max_user = max_user }

-- `new ClientChatServer(pClientSocket)`, `SetState` and `SetMainProcess`; `memory` is what `m_uniqId` holds
-- before the hello.
unfoldable pub new_server : ℕ → ℕ → Fresh → ClientChatServer
new_server fd memory new = record {
  client =
      set_main_process
        (set_state (create_client new.pointer (some fd) client_user new.now new.buffer) state_wait)
        chat_manager;
  uniq_id = memory;
}

-- `m_iConnCount++` and `m_iConnCount--`, which no mutex guards.
unfoldable pub count_server : ChatManager → ChatManager
count_server m = record m { conn_count = increment m.conn_count }

unfoldable pub uncount_server : ChatManager → ChatManager
uncount_server m = record m { conn_count = decrement m.conn_count }

-- The `push_back` of `Run` and the `remove` of `CloseClient`, under `m_lockClient`.
unfoldable pub push_server : ChatManager → ClientChatServer → ChatManager
push_server m s = record m { servers = push_back m.servers s }

unfoldable pub remove_server : ChatManager → ℕ → Option ChatManager
remove_server m pointer =
    if is_listed server_pointer pointer m.servers
    then some (record m { servers = remove server_pointer pointer m.servers })
    else none

-- The test of `Run`.
unfoldable pub is_manager_full : ChatManager → Bool
is_manager_full m = at_least m.conn_count m.max_user

-- What `Run` does with an accepted socket, without another thread; `for_servers` tells whether the listening socket is of type
-- SERVER_PORT.
unfoldable pub accept_server : ChatManager → ℕ → ℕ → Bool → Fresh → ChatManager
unfolding is_manager_full
accept_server m fd memory for_servers new =
    if is_manager_full m
    then m
    else if for_servers
    then (if new.added then count_server (push_server m (new_server fd memory new)) else m)
    else m

-- `CloseClient`, run to its end without another thread.
unfoldable pub close_server : ChatManager → ℕ → Option ChatManager
close_server m pointer = remove_server m pointer >>= λ t. some (uncount_server t)

-- The test of `HealthCheckUsers`: only a connection that has not said hello is of type CLIENT_USER.
unfoldable pub is_dead_server : ℕ → ClientChatServer → Bool
is_dead_server now s = is_user s.client && (is_idle now s.client || is_closed s.client)

-- `HealthCheckUsers`
unfoldable pub health_check_servers : ChatManager → ℕ → Option ChatManager
health_check_servers m now =
    erase_loop (is_dead_server now) m.conn_count m.servers >>= λ (count, servers).
    some (record m { servers = servers; conn_count = count })
