-- ===== src/ServerInfo/Texts.antt =====
-- The texts that src/ServerInfoDN.cpp and src/ServerInfoDNMgr.cpp copy into arrays.
use thunder_chat.Prelude.{
  ℕ, zero, suc, ◌+◌, ◌≤◌, ◌<◌, ◌≡◌, ◌≢◌, refl, ◌∙◌, Option, none, some, List, [], ◌∷◌, ◌++◌, arith,
  length, take, replicate, if◌then◌else◌, ltb, false, Bool-cases, inl, inr,
}
use thunder_chat.Properties.{Text, Entry, get_property, same_text}
use thunder_chat.ServerInfo.{
  ServerInfoDn, text_of, strncpy, set_text, is_missing, any_band, server_info, settled,
}
use thunder_chat.ServerInfo.Names.{
  server_ip_name, dnmgr_server_ips_name, server_logfile_name, mrtg_url_name, volname_name,
  directory_name_name,
}

-- A text without the character zero.
pub data HasNoZero : Text → Type 0 where
  no_character : HasNoZero []
  character : (c : ℕ) (cs : Text) → c ≢ 0 → HasNoZero cs → HasNoZero (c ∷ cs)

text_of-take :
    (s : Text) (n j : ℕ)
    → HasNoZero s
    → n ≤ length s + j
    → text_of (take n (s ++ replicate j 0)) ≡ (if ltb (length s) n then some s else none)
unfolding text_of
text_of-take s zero j h room = ground arith
text_of-take s (suc n) zero no_character room = absurd (omega (arith, room))
text_of-take s (suc n) (suc j) no_character room = ground arith
text_of-take s (suc n) j (character c cs other h) room =
    ground (arith, other, text_of-take cs n j h (omega (arith, room)))

-- Settings without the character zero.
pub data AreTexts : List Entry → Type 0 where
  no_setting : AreTexts []
  one_setting :
      (name value : Text) (entries : List Entry)
      → HasNoZero value
      → AreTexts entries
      → AreTexts ((name, value) ∷ entries)

get_property-HasNoZero :
    (entries : List Entry) (name : Text) → AreTexts entries → HasNoZero (get_property entries name)
unfolding get_property
get_property-HasNoZero _ name no_setting = no_character
get_property-HasNoZero _ name (one_setting key value entries h more) =
    elim (Bool-cases (same_text key name)) [
      | inl same ↦ rw same h
      | inr other ↦ rw other (get_property-HasNoZero entries name more)
    ]

-- What an array of `size` characters, which held `old`, holds of a setting: without the setting it is as
-- it was; a text that is shorter than the array is read back from it; and a longer one does not end in it.
pub data IsHeld (value : Text) (size : ℕ) (old array : List ℕ) : Type 0 where
  missing : value ≡ [] → array ≡ old → IsHeld value size old array
  read_back :
      0 < length value
      → length value < size
      → text_of array ≡ some value
      → IsHeld value size old array
  unended :
      0 < length value → size ≤ length value → text_of array ≡ none → IsHeld value size old array

copied-IsHeld :
    (value : Text) (size : ℕ) (old : List ℕ)
    → HasNoZero value
    → IsHeld value size old (if is_missing value then old else strncpy size value)
unfolding strncpy is_missing
copied-IsHeld [] size old h = missing refl refl
copied-IsHeld (c ∷ cs) size old h =
    let e = text_of-take (c ∷ cs) size size h (omega arith) in
    elim (Bool-cases (ltb (length (c ∷ cs)) size)) [
      | inl short ↦ read_back (omega arith) (ground (arith, short)) (e ∙ rw short refl)
      | inr long ↦ unended (omega arith) (ground (arith, long)) (e ∙ rw long refl)
    ]

set_text-IsHeld :
    (entries : List Entry) (name : Text) (size : ℕ) (old : List ℕ)
    → AreTexts entries
    → IsHeld (get_property entries name) size old (set_text entries name size old)
unfolding set_text
set_text-IsHeld entries name size old ts =
    copied-IsHeld (get_property entries name) size old (get_property-HasNoZero entries name ts)

-- The texts that `info` holds are those that `says` has for their names, each in an array of its size; the
-- address and the name of the log file lie in cleared arrays, the others in what the object's memory held.
pub record HoldsTexts (old info : ServerInfoDn) (says : Text → Text) : Type 0 where
  pub address : IsHeld (says server_ip_name) 20 (replicate 20 0) info.ip_addr
  pub log_name : IsHeld (says server_logfile_name) 256 (replicate 256 0) info.log_file
  pub mrtg : IsHeld (says mrtg_url_name) 256 old.mrtg_url info.mrtg_url
  pub volume : IsHeld (says volname_name) 32 old.vol_name info.vol_name
  pub directory : IsHeld (says directory_name_name) 32 old.dir_name info.dir_name
  pub managers :
      IsHeld (says dnmgr_server_ips_name) 256 old.manager_ip_addresses info.manager_ip_addresses

-- A constructor that ends with such an object.
pub record SettlesTexts (old : ServerInfoDn) (result : Option ServerInfoDn) (says : Text → Text)
    : Type 0 where
  pub info : ServerInfoDn
  pub result_eq : result ≡ some info
  pub holds : HoldsTexts old info says

-- If no bandwidth is set and no setting has the character zero in it, the constructor of a chat server's
-- settings ends with each of its six texts from its own setting: SERVER_IP in 20 characters, SERVER_LOGFILE,
-- MRTG_URL and DNMGR_SERVER_IPs in 256, VOLNAME and DIRECTORY_NAME in 32. A text that is shorter than its
-- array is read back from it; one that is not does not end in the array; and without its setting the array
-- is cleared for the first two, and what the memory held for the others.
pub server_info-SettlesTexts :
    (entries : List Entry) (old : ServerInfoDn)
    → any_band entries 9 ≡ false
    → AreTexts entries
    → SettlesTexts old (server_info old entries) (get_property entries)
unfolding server_info settled
server_info-SettlesTexts entries old no_band ts = record {
  info = settled old entries;
  result_eq = rw no_band refl;
  holds = record {
    address = set_text-IsHeld entries server_ip_name 20 (replicate 20 0) ts;
    log_name = set_text-IsHeld entries server_logfile_name 256 (replicate 256 0) ts;
    mrtg = set_text-IsHeld entries mrtg_url_name 256 old.mrtg_url ts;
    volume = set_text-IsHeld entries volname_name 32 old.vol_name ts;
    directory = set_text-IsHeld entries directory_name_name 32 old.dir_name ts;
    managers = set_text-IsHeld entries dnmgr_server_ips_name 256 old.manager_ip_addresses ts;
  };
}
