-- ===== src/ServerInfo/Names.antt =====
-- The names of the settings that src/ServerInfoDN.cpp and src/ServerInfoDNMgr.cpp ask for, as characters.
use thunder_chat.Prelude.{[], ◌∷◌}
use thunder_chat.Properties.{Text}

-- "SERVER_IP"
abbrev pub server_ip_name : Text
server_ip_name = 83 ∷ 69 ∷ 82 ∷ 86 ∷ 69 ∷ 82 ∷ 95 ∷ 73 ∷ 80 ∷ []

-- "SERVER_PORT_DNMGR"
abbrev pub server_port_dnmgr_name : Text
server_port_dnmgr_name =
    83 ∷ 69 ∷ 82 ∷ 86 ∷ 69 ∷ 82 ∷ 95 ∷ 80 ∷ 79 ∷ 82 ∷ 84 ∷ 95 ∷ 68 ∷ 78 ∷ 77 ∷ 71 ∷ 82 ∷ []

-- "SERVER_PORT"
abbrev pub server_port_name : Text
server_port_name = 83 ∷ 69 ∷ 82 ∷ 86 ∷ 69 ∷ 82 ∷ 95 ∷ 80 ∷ 79 ∷ 82 ∷ 84 ∷ []

-- "DNMGR_SERVER_IPs"
abbrev pub dnmgr_server_ips_name : Text
dnmgr_server_ips_name =
    68 ∷ 78 ∷ 77 ∷ 71 ∷ 82 ∷ 95 ∷ 83 ∷ 69 ∷ 82 ∷ 86 ∷ 69 ∷ 82 ∷ 95 ∷ 73 ∷ 80 ∷ 115 ∷ []

-- "SERVER_LOGFILE"
abbrev pub server_logfile_name : Text
server_logfile_name = 83 ∷ 69 ∷ 82 ∷ 86 ∷ 69 ∷ 82 ∷ 95 ∷ 76 ∷ 79 ∷ 71 ∷ 70 ∷ 73 ∷ 76 ∷ 69 ∷ []

-- "THREAD_SENDER"
abbrev pub thread_sender_name : Text
thread_sender_name = 84 ∷ 72 ∷ 82 ∷ 69 ∷ 65 ∷ 68 ∷ 95 ∷ 83 ∷ 69 ∷ 78 ∷ 68 ∷ 69 ∷ 82 ∷ []

-- "THREAD_RECEIVER"
abbrev pub thread_receiver_name : Text
thread_receiver_name = 84 ∷ 72 ∷ 82 ∷ 69 ∷ 65 ∷ 68 ∷ 95 ∷ 82 ∷ 69 ∷ 67 ∷ 69 ∷ 73 ∷ 86 ∷ 69 ∷ 82 ∷ []

-- "THREAD_BROADCASTER"
abbrev pub thread_broadcaster_name : Text
thread_broadcaster_name =
    84 ∷ 72 ∷ 82 ∷ 69 ∷ 65 ∷ 68 ∷ 95 ∷ 66 ∷ 82 ∷ 79 ∷ 65 ∷ 68 ∷ 67 ∷ 65 ∷ 83 ∷ 84 ∷ 69 ∷ 82 ∷ []

-- "MRTG_URL"
abbrev pub mrtg_url_name : Text
mrtg_url_name = 77 ∷ 82 ∷ 84 ∷ 71 ∷ 95 ∷ 85 ∷ 82 ∷ 76 ∷ []

-- "VOLNAME"
abbrev pub volname_name : Text
volname_name = 86 ∷ 79 ∷ 76 ∷ 78 ∷ 65 ∷ 77 ∷ 69 ∷ []

-- "DIRECTORY_NAME"
abbrev pub directory_name_name : Text
directory_name_name = 68 ∷ 73 ∷ 82 ∷ 69 ∷ 67 ∷ 84 ∷ 79 ∷ 82 ∷ 89 ∷ 95 ∷ 78 ∷ 65 ∷ 77 ∷ 69 ∷ []

-- "SERVER_PORT_DN"
abbrev pub server_port_dn_name : Text
server_port_dn_name = 83 ∷ 69 ∷ 82 ∷ 86 ∷ 69 ∷ 82 ∷ 95 ∷ 80 ∷ 79 ∷ 82 ∷ 84 ∷ 95 ∷ 68 ∷ 78 ∷ []

-- "DM_MAX_USER"
abbrev pub dm_max_user_name : Text
dm_max_user_name = 68 ∷ 77 ∷ 95 ∷ 77 ∷ 65 ∷ 88 ∷ 95 ∷ 85 ∷ 83 ∷ 69 ∷ 82 ∷ []

-- "DS_MAX_USER"
abbrev pub ds_max_user_name : Text
ds_max_user_name = 68 ∷ 83 ∷ 95 ∷ 77 ∷ 65 ∷ 88 ∷ 95 ∷ 85 ∷ 83 ∷ 69 ∷ 82 ∷ []

-- "DN_CNT"
abbrev pub dn_cnt_name : Text
dn_cnt_name = 68 ∷ 78 ∷ 95 ∷ 67 ∷ 78 ∷ 84 ∷ []

-- "THREAD_WORKER"
abbrev pub thread_worker_name : Text
thread_worker_name = 84 ∷ 72 ∷ 82 ∷ 69 ∷ 65 ∷ 68 ∷ 95 ∷ 87 ∷ 79 ∷ 82 ∷ 75 ∷ 69 ∷ 82 ∷ []

-- "BAND"
abbrev pub band_name : Text
band_name = 66 ∷ 65 ∷ 78 ∷ 68 ∷ []

-- "BAND_MAX"
abbrev pub band_max_name : Text
band_max_name = 66 ∷ 65 ∷ 78 ∷ 68 ∷ 95 ∷ 77 ∷ 65 ∷ 88 ∷ []
