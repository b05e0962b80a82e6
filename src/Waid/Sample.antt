-- ===== src/Waid/Sample.antt =====
-- A concrete `JidApi`, which tests and instances of the theorems run on: `user@server`, no device.
use whatsapp.Common.{refl, Bool, true, false, Option, some, [], ◌∷◌, ◌++◌, if◌then◌else◌}
use whatsapp.Common.Text.{Str, codes, str_eq, cut}
use whatsapp.Waid.Jid.{
  Server, default_user, hidden_user, bot, group, broadcast, newsletter, messenger, other, Jid,
  JidApi, IsJidApi, non_ad, jid_eq, empty_jid,
}

abbrev server_name : Server → Str
server_name default_user = codes "s.whatsapp.net"
server_name hidden_user = codes "lid"
server_name bot = codes "bot"
server_name group = codes "g.us"
server_name broadcast = codes "broadcast"
server_name newsletter = codes "newsletter"
server_name messenger = codes "msgr"
server_name (other s) = s

abbrev server_of : Str → Server
server_of s =
    if str_eq s (codes "s.whatsapp.net")
    then default_user
    else if str_eq s (codes "lid")
    then hidden_user
    else if str_eq s (codes "bot")
    then bot
    else if str_eq s (codes "g.us")
    then group
    else if str_eq s (codes "broadcast")
    then broadcast
    else if str_eq s (codes "newsletter")
    then newsletter
    else if str_eq s (codes "msgr")
    then messenger
    else other s

abbrev read_jid : Str × Str × Bool → Option Jid
read_jid (user, server, true) = some (record { user = user; server = server_of server; device = 0 })
read_jid (server, _, false) = some (record { user = []; server = server_of server; device = 0 })

abbrev sample_text : Str → Server → Str
sample_text [] server = server_name server
sample_text (c ∷ user) server = (c ∷ user) ++ (b'@' ∷ server_name server)

abbrev pub sample_api : JidApi
sample_api = record {
  new_jid = λ u s. record { user = u; server = s; device = 0 };
  to_non_ad = non_ad;
  to_string = λ j. sample_text j.user j.server;
  parse_jid = λ s. read_jid (cut b'@' s);
  is_empty = λ j. jid_eq j empty_jid;
}

pub sample_laws : IsJidApi sample_api
sample_laws = record { new_jid_lem = λ u s. refl; to_non_ad_lem = λ j. refl }

abbrev pub alice : Jid
alice = record { user = codes "15551234"; server = default_user; device = 0 }

abbrev pub alice_phone : Jid
alice_phone = record { user = codes "15551234"; server = default_user; device = 7 }

abbrev pub alice_lid : Jid
alice_lid = record { user = codes "9876"; server = hidden_user; device = 0 }

abbrev pub friends : Jid
friends = record { user = codes "120-363"; server = group; device = 0 }
