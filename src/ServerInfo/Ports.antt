-- ===== src/ServerInfo/Ports.antt =====
-- The numbers that src/ServerInfoDN.cpp takes from a settings file.
use thunder_chat.Prelude.{
  ℕ, ◌≡◌, ◌≢◌, refl, ◌∙◌, Option, some, List, [], ◌∷◌, arith, if◌then◌else◌, ◌==◌, Bool-cases, inl,
  inr, false,
}
use thunder_chat.Prelude.Int.{ℤ, negsuc}
use thunder_chat.Properties.{Text, Entry, get_property}
use thunder_chat.ServerInfo.Names.{
  server_port_name, server_port_dnmgr_name, thread_sender_name, thread_receiver_name,
  thread_broadcaster_name,
}
use thunder_chat.ServerInfo.{
  NumberMap, settled, insert, get_number, insert_number, atoi, is_missing, any_band, ServerInfoDn,
  server_info, port_of_server, port_of_manager, sender_threads, receiver_threads,
  broadcaster_threads,
}

-- The number that a text says, and -1 for the empty one.
abbrev pub number_or_missing : Text → ℤ
number_or_missing [] = negsuc 0
number_or_missing (c ∷ cs) = atoi (c ∷ cs)

-- `key` has no number in the map.
abbrev IsNew : NumberMap → ℕ → Type 0
IsNew [] key = Unit
IsNew ((k, m) ∷ map) key = (k ≢ key) × IsNew map key

get_number-insert_same :
    (map : NumberMap) (key : ℕ) (n : ℤ) → IsNew map key → get_number (insert map key n) key ≡ n
unfolding get_number insert
get_number-insert_same [] key n new = ground arith
get_number-insert_same ((k, m) ∷ map) key n new =
    ground (arith, new, get_number-insert_same map key n new.1)

get_number-insert_other :
    (map : NumberMap) (key other : ℕ) (n : ℤ)
    → key ≢ other
    → get_number (insert map key n) other ≡ get_number map other
unfolding get_number insert
get_number-insert_other [] key other n apart = ground (arith, apart)
get_number-insert_other ((k, m) ∷ map) key other n apart =
    ground (arith, apart, get_number-insert_other map key other n apart)

get_number-new : (map : NumberMap) (key : ℕ) → IsNew map key → get_number map key ≡ negsuc 0
unfolding get_number
get_number-new [] key new = refl
get_number-new ((k, m) ∷ map) key new = ground (arith, new, get_number-new map key new.1)

insert-IsNew :
    (map : NumberMap) (key other : ℕ) (n : ℤ)
    → key ≢ other
    → IsNew map other
    → IsNew (insert map key n) other
unfolding insert
insert-IsNew [] key other n apart new = (apart, tt)
insert-IsNew ((k, m) ∷ map) key other n apart new = elim (Bool-cases (k == key)) [
  | inl same ↦ rw same new
  | inr differs ↦ rw differs (new.0, insert-IsNew map key other n apart new.1)
]

insert_number-IsNew :
    (entries : List Entry) (name : Text) (key other : ℕ) (map : NumberMap)
    → key ≢ other
    → IsNew map other
    → IsNew (insert_number entries name key map) other
unfolding insert_number
insert_number-IsNew entries name key other map apart new = by_value (get_property entries name)
  where
    by_value :
        (value : Text) → IsNew (if is_missing value then map else insert map key (atoi value)) other
    by_value [] = new
    by_value (c ∷ cs) = insert-IsNew map key other (atoi (c ∷ cs)) apart new

get_number-insert_number_same :
    (entries : List Entry) (name : Text) (key : ℕ) (map : NumberMap)
    → IsNew map key
    → get_number (insert_number entries name key map) key
      ≡ number_or_missing (get_property entries name)
unfolding insert_number
get_number-insert_number_same entries name key map new = by_value (get_property entries name)
  where
    by_value :
        (value : Text)
        → get_number (if is_missing value then map else insert map key (atoi value)) key
          ≡ number_or_missing value
    by_value [] = get_number-new map key new
    by_value (c ∷ cs) = get_number-insert_same map key (atoi (c ∷ cs)) new

get_number-insert_number_other :
    (entries : List Entry) (name : Text) (key other : ℕ) (map : NumberMap)
    → key ≢ other
    → get_number (insert_number entries name key map) other ≡ get_number map other
unfolding insert_number
get_number-insert_number_other entries name key other map apart =
    by_value (get_property entries name)
  where
    by_value :
        (value : Text)
        → get_number (if is_missing value then map else insert map key (atoi value)) other
          ≡ get_number map other
    by_value [] = refl
    by_value (c ∷ cs) = get_number-insert_other map key other (atoi (c ∷ cs)) apart

-- The ports and the numbers of threads that `info` holds are those that `says` has for their names.
pub record Holds (info : ServerInfoDn) (says : Text → Text) : Type 0 where
  pub server_port : get_number info.ports port_of_server ≡ number_or_missing (says server_port_name)
  pub manager_port :
      get_number info.ports port_of_manager ≡ number_or_missing (says server_port_dnmgr_name)
  pub senders :
      get_number info.thread_counts sender_threads ≡ number_or_missing (says thread_sender_name)
  pub receivers :
      get_number info.thread_counts receiver_threads ≡ number_or_missing (says thread_receiver_name)
  pub broadcasters :
      get_number info.thread_counts broadcaster_threads
      ≡ number_or_missing (says thread_broadcaster_name)

-- A constructor that ends with such an object.
pub record Settles (result : Option ServerInfoDn) (says : Text → Text) : Type 0 where
  pub info : ServerInfoDn
  pub result_eq : result ≡ some info
  pub holds : Holds info says

-- If no bandwidth is set, the constructor of the settings ends with a port and a number of threads of each
-- kind that is the number of its own setting, whatever the others are, and -1 where that setting is
-- missing.
pub server_info-Settles :
    (entries : List Entry) (old : ServerInfoDn)
    → any_band entries 9 ≡ false
    → Settles (server_info old entries) (get_property entries)
unfolding server_info settled
server_info-Settles entries old no_band = record {
  info = settled old entries;
  result_eq = rw no_band refl;
  holds = record {
    server_port = get_number-insert_number_same entries server_port_name port_of_server _ (
        insert_number-IsNew entries server_port_dnmgr_name port_of_manager port_of_server []
          (omega arith) tt);
    manager_port =
        get_number-insert_number_other entries server_port_name port_of_server port_of_manager _
          (omega arith)
        ∙ get_number-insert_number_same entries server_port_dnmgr_name port_of_manager [] tt;
    senders =
        get_number-insert_number_other entries thread_broadcaster_name broadcaster_threads
          sender_threads _ (omega arith)
        ∙ get_number-insert_number_other entries thread_receiver_name receiver_threads
            sender_threads _ (omega arith)
        ∙ get_number-insert_number_same entries thread_sender_name sender_threads [] tt;
    receivers =
        get_number-insert_number_other entries thread_broadcaster_name broadcaster_threads
          receiver_threads _ (omega arith)
        ∙ get_number-insert_number_same entries thread_receiver_name receiver_threads _ (
            insert_number-IsNew entries thread_sender_name sender_threads receiver_threads []
              (omega arith) tt);
    broadcasters =
        get_number-insert_number_same entries thread_broadcaster_name broadcaster_threads _ (
          insert_number-IsNew entries thread_receiver_name receiver_threads broadcaster_threads _
            (omega arith)
            (insert_number-IsNew entries thread_sender_name sender_threads broadcaster_threads []
              (omega arith) tt));
  };
}
