-- ===== src/ServerInfo.antt =====
-- src/ServerInfoDN.cpp and src/ServerInfoDNMgr.cpp: what a chat server and a manager take from the
-- settings. `none` is a read through a pointer into a string that is gone.
pub mod Names
pub mod Texts
pub mod Ports
pub mod Bandwidth
use thunder_chat.Prelude.{
  ℕ, zero, suc, ◌+◌, ◌-◌, ◌*◌, Option, none, some, List, [], ◌∷◌, ◌++◌, Bool, true, false, ◌==◌,
  ◌&&◌, ◌||◌, leb, ltb, if◌then◌else◌, ◌>>=◌, take, replicate, get_or,
}
use thunder_chat.Prelude.Int.{ℤ, pos, negsuc}
use thunder_chat.Properties.{Text, Entry, get_property, is_space, ltrim}
use thunder_chat.ServerInfo.Names.{
  server_ip_name, server_port_dnmgr_name, server_port_name, dnmgr_server_ips_name,
  server_logfile_name, thread_sender_name, thread_receiver_name, thread_broadcaster_name,
  mrtg_url_name, volname_name, directory_name_name, server_port_dn_name, dm_max_user_name,
  ds_max_user_name, dn_cnt_name, thread_worker_name, band_name, band_max_name,
}

-- ENUM_SERVERSOCKET_TYPE
abbrev pub port_of_server : ℕ
port_of_server = 0

abbrev pub port_of_manager : ℕ
port_of_manager = 1

-- ENUM_THREAD_TYPE
abbrev pub worker_threads : ℕ
worker_threads = 0

abbrev pub sender_threads : ℕ
sender_threads = 1

abbrev pub receiver_threads : ℕ
receiver_threads = 2

abbrev pub broadcaster_threads : ℕ
broadcaster_threads = 3

-- `std::map` from an enumeration to `int`.
abbrev pub NumberMap : Type 0
NumberMap = List (ℕ × ℤ)

-- `insert`: what is there stays.
unfoldable pub insert : NumberMap → ℕ → ℤ → NumberMap
insert [] key n = (key, n) ∷ []
insert ((k, m) ∷ map) key n =
    let rest = insert map key n in if k == key then (k, m) ∷ map else (k, m) ∷ rest

-- `GetPort` and `GetThreadCount`: -1 for a key that is not there.
unfoldable pub get_number : NumberMap → ℕ → ℤ
get_number [] key = negsuc 0
get_number ((k, m) ∷ map) key = let rest = get_number map key in if k == key then m else rest

-- `atoi`, for a number that an `int` holds: the digits at the start, after white space and a sign.
unfoldable pub digits : Text → ℕ → ℕ
digits [] n = n
digits (c ∷ cs) n =
    let more = digits cs (n * 10 + (c - 48)) in if leb 48 c && leb c 57 then more else n

unfoldable pub negated : ℕ → ℤ
negated zero = pos 0
negated (suc n) = negsuc n

unfoldable pub signed : Text → ℤ
signed [] = pos 0
signed (c ∷ cs) =
    if c == 45
    then negated (digits cs 0)
    else if c == 43
    then pos (digits cs 0)
    else pos (digits (c ∷ cs) 0)

unfoldable pub atoi : Text → ℤ
atoi s = signed (ltrim s)

-- `strncpy` into an array of `n` characters.
unfoldable pub strncpy : ℕ → Text → List ℕ
strncpy n s = take n (s ++ replicate n 0)

-- The string that starts an array; `none` is one that does not end in it.
unfoldable pub text_of : List ℕ → Option Text
text_of [] = none
text_of (c ∷ cs) = let rest = text_of cs in if c == 0 then some [] else (rest >>= λ s. some (c ∷ s))

unfoldable pub is_missing : Text → Bool
is_missing [] = true
is_missing (c ∷ cs) = false

-- `if(GetProperty(name) != "") map.insert(key, atoi(...))`
unfoldable pub insert_number : List Entry → Text → ℕ → NumberMap → NumberMap
unfolding is_missing
insert_number entries name key map =
    let value = get_property entries name in
    if is_missing value then map else insert map key (atoi value)

-- `if(GetProperty(name) != "") n = atoi(...)`
unfoldable pub set_number : List Entry → Text → ℤ → ℤ
unfolding is_missing
set_number entries name n =
    let value = get_property entries name in if is_missing value then n else atoi value

-- `if(GetProperty(name) != "") strncpy(array, ..., size)`; `Assert` only writes to a file.
unfoldable pub set_text : List Entry → Text → ℕ → List ℕ → List ℕ
unfolding is_missing
set_text entries name size array =
    let value = get_property entries name in if is_missing value then array else strncpy size value

-- Whether one of BAND_MAX and BAND1 to BAND9 is set.
unfoldable pub any_band : List Entry → ℕ → Bool
unfolding is_missing
any_band entries zero = if is_missing (get_property entries band_max_name) then false else true
any_band entries (suc k) =
    let before = any_band entries k in
    if is_missing (get_property entries (band_name ++ ((49 + k) ∷ []))) then before else true

pub record ServerInfoDn : Type 0 where
  pub ports : NumberMap
  pub thread_counts : NumberMap
  pub max_user : ℤ
  pub ip_addr : List ℕ
  pub log_file : List ℕ
  pub mrtg_url : List ℕ
  pub vol_name : List ℕ
  pub dir_name : List ℕ
  pub manager_ip_addresses : List ℕ
  pub bandwidth : List ℕ

-- What the constructor `ServerInfoDN(Properties &)` leaves of an object whose memory holds `old`, when no
-- BAND is set.
unfoldable pub settled : ServerInfoDn → List Entry → ServerInfoDn
settled old entries = record {
  ports =
      insert_number entries server_port_name port_of_server
        (insert_number entries server_port_dnmgr_name port_of_manager []);
  thread_counts = insert_number entries thread_broadcaster_name broadcaster_threads (
      insert_number entries thread_receiver_name receiver_threads
        (insert_number entries thread_sender_name sender_threads []));
  max_user = old.max_user;
  ip_addr = set_text entries server_ip_name 20 (replicate 20 0);
  log_file = set_text entries server_logfile_name 256 (replicate 256 0);
  mrtg_url = set_text entries mrtg_url_name 256 old.mrtg_url;
  vol_name = set_text entries volname_name 32 old.vol_name;
  dir_name = set_text entries directory_name_name 32 old.dir_name;
  manager_ip_addresses = set_text entries dnmgr_server_ips_name 256 old.manager_ip_addresses;
  bandwidth = replicate 10 0;
}

-- The constructor `ServerInfoDN(Properties &)`. A BAND setting is read through `c_str()` of a temporary.
unfoldable pub server_info : ServerInfoDn → List Entry → Option ServerInfoDn
server_info old entries = if any_band entries 9 then none else some (settled old entries)

pub record ServerInfoDnMgr : Type 0 where
  pub ports : NumberMap
  pub thread_counts : NumberMap
  pub max_user : ℤ
  pub ds_max_user : ℤ
  pub dn_port : ℤ
  pub dn_cnt : ℤ
  pub ip_addr : List ℕ
  pub log_file : List ℕ
  pub mrtg_url : List ℕ

-- The constructor `ServerInfoDNMgr(Properties &)`.
unfoldable pub manager_info : ServerInfoDnMgr → List Entry → ServerInfoDnMgr
manager_info old entries = record {
  ports = insert_number entries server_port_dnmgr_name port_of_server [];
  thread_counts = insert_number entries thread_worker_name worker_threads [];
  max_user = set_number entries dm_max_user_name old.max_user;
  ds_max_user = set_number entries ds_max_user_name old.ds_max_user;
  dn_port = set_number entries server_port_dn_name old.dn_port;
  dn_cnt = set_number entries dn_cnt_name old.dn_cnt;
  ip_addr = set_text entries server_ip_name 20 (replicate 20 0);
  log_file = set_text entries server_logfile_name 256 (replicate 256 0);
  mrtg_url = set_text entries mrtg_url_name 256 old.mrtg_url;
}

-- `GetBandwidth`
unfoldable pub get_bandwidth : ServerInfoDn → ℕ → ℕ
get_bandwidth i c = get_or i.bandwidth (if leb 48 c && leb c 57 then c - 48 else 0) 0
