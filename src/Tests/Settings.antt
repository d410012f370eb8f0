-- ===== src/Tests/Settings.antt =====
-- The settings at concrete inputs.
use thunder_chat.Prelude.{refl, List, [], ◌∷◌, arith, ◌≡◌, false, some, ◌++◌, ◌*◌}
use thunder_chat.Prelude.Int.{pos, negsuc}
use thunder_chat.ServerInfo.{
  ServerInfoDn, server_info, settled, any_band, is_missing, insert_number, insert, get_number, atoi,
  signed, digits, port_of_server, port_of_manager, sender_threads,
}
use thunder_chat.ServerInfo.Names.{server_ip_name, server_port_name, thread_sender_name}
use thunder_chat.Formats.{decimal}
use thunder_chat.ServerInfo.Bandwidth.{define_bandwidth, define_bandwidth-decimal}
use thunder_chat.ServerInfo.Ports.{Settles, server_info-Settles}
use thunder_chat.ServerInfo.Texts.{
  AreTexts, no_setting, one_setting, no_character, character, SettlesTexts,
  server_info-SettlesTexts,
}
use thunder_chat.Properties.{
  Text, Entry, get_property, same_text, ltrim, trim_point, split_at_equals, is_skipped, load,
}
use thunder_chat.Properties.Trim.{IsBlank, nothing, blank}
use thunder_chat.Properties.Lines.{
  Setting, IsSetting, IsFile, file_end, comment, setting, Loads, get_property-load, line_of,
}

-- "A = 5"
abbrev a_is_five : Setting
a_is_five = record {
  before = [];
  name = 65 ∷ [];
  after_name = 32 ∷ [];
  before_value = 32 ∷ [];
  value = 53 ∷ [];
  after = [];
}

one_space : IsBlank (32 ∷ [])
one_space = blank 32 [] refl nothing

a_is_five-IsSetting : IsSetting a_is_five
unfolding split_at_equals is_skipped ltrim trim_point
a_is_five-IsSetting = record {
  blanks = (nothing, one_space, one_space, nothing);
  clean_name = record { starts = λ after. refl; ends = refl };
  clean_value = record { starts = λ after. refl; ends = refl };
  some_name = omega arith;
  some_value = omega arith;
  no_equals = refl;
  short_name = omega arith;
  short_value = omega arith;
  not_skipped = refl;
}

-- "# x"
abbrev remark : Text
remark = 35 ∷ 32 ∷ 120 ∷ []

abbrev two_lines : List Text
two_lines = remark ∷ line_of a_is_five ∷ []

two_lines-IsFile : IsFile two_lines (a_is_five ∷ [])
unfolding is_skipped
two_lines-IsFile =
    comment remark (line_of a_is_five ∷ []) (a_is_five ∷ []) refl (omega arith)
      (setting a_is_five [] [] a_is_five-IsSetting file_end)

get_property-load_example : Loads (a_is_five ∷ []) [] (load [] two_lines)
get_property-load_example = get_property-load two_lines (a_is_five ∷ []) two_lines-IsFile

-- The settings that a file with "SERVER_PORT = 80" and "THREAD_SENDER = 2" leaves.
abbrev port_and_senders : List Entry
port_and_senders = (server_port_name, 56 ∷ 48 ∷ []) ∷ (thread_sender_name, 50 ∷ []) ∷ []

abbrev unset : ServerInfoDn
unset = record {
  ports = [];
  thread_counts = [];
  max_user = pos 0;
  ip_addr = [];
  log_file = [];
  mrtg_url = [];
  vol_name = [];
  dir_name = [];
  manager_ip_addresses = [];
  bandwidth = [];
}

port_and_senders-no_band : any_band port_and_senders 9 ≡ false
unfolding any_band get_property same_text is_missing
port_and_senders-no_band = refl

server_info-Settles_example :
    Settles (server_info unset port_and_senders) (get_property port_and_senders)
server_info-Settles_example = server_info-Settles port_and_senders unset port_and_senders-no_band

-- Port 80, no port for managers, two senders.
port_and_senders-numbers :
    (get_number (settled unset port_and_senders).ports port_of_server ≡ pos 80)
    × (get_number (settled unset port_and_senders).ports port_of_manager ≡ negsuc 0)
    × (get_number (settled unset port_and_senders).thread_counts sender_threads ≡ pos 2)
unfolding settled insert_number insert get_number get_property same_text is_missing atoi ltrim
    signed digits
port_and_senders-numbers = (refl, refl, refl)

port_and_senders-AreTexts : AreTexts port_and_senders
port_and_senders-AreTexts =
    one_setting server_port_name (56 ∷ 48 ∷ []) _
      (character 56 (48 ∷ []) (omega arith) (character 48 [] (omega arith) no_character))
      (one_setting thread_sender_name (50 ∷ []) [] (character 50 [] (omega arith) no_character)
        no_setting)

-- The same with the address "1".
abbrev with_address : List Entry
with_address = (server_ip_name, 49 ∷ []) ∷ port_and_senders

with_address-no_band : any_band with_address 9 ≡ false
unfolding any_band get_property same_text is_missing
with_address-no_band = refl

server_info-SettlesTexts_example :
    SettlesTexts unset (server_info unset with_address) (get_property with_address)
server_info-SettlesTexts_example =
    server_info-SettlesTexts with_address unset with_address-no_band (
      one_setting server_ip_name (49 ∷ []) port_and_senders
        (character 49 [] (omega arith) no_character) port_and_senders-AreTexts)

define_bandwidth-decimal_example :
    (define_bandwidth (decimal 12 ++ (77 ∷ [])) ≡ some (12 * 1048576))
    × (define_bandwidth (decimal 12 ++ (75 ∷ [])) ≡ some (12 * 1024))
    × (define_bandwidth (decimal 12) ≡ some (12 * 1024))
define_bandwidth-decimal_example = define_bandwidth-decimal 12 (omega arith)
