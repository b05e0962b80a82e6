-- ===== src/Connector/Sample.antt =====
-- Two logins, a friend and a configuration, which tests and instances of the theorems run on.
use whatsapp.Common.{[]}
use whatsapp.Common.{refl, arith, true, false}
use whatsapp.Common.Text.{codes}
use whatsapp.Waid.Jid.{Jid, default_user, hidden_user, broadcast, empty_jid}
use whatsapp.Waid.Id.RoundTrip.{IsReadable}
use whatsapp.Waid.Sample.{sample_api, alice, alice_phone, alice_lid, friends}
use whatsapp.Connector.Client.{Client}
use whatsapp.Connector.Reroute.{MessageSource}
use whatsapp.Connector.Receive.Config.{Config}
use whatsapp.Connector.WaMessage.{Message}
use whatsapp.Connector.Receive.Messages.{blank_message}
use whatsapp.Waid.DbMeta.{UserLoginMetadata}

-- A login of alice with a known LID, and a friend known by both addresses.
abbrev pub bob : Jid
bob = record { user = codes "15559999"; server = default_user; device = 0 }

abbrev pub bob_lid : Jid
bob_lid = record { user = codes "4444"; server = hidden_user; device = 0 }

abbrev pub client : Client
client = record {
  login_id = codes "15551234";
  jid = alice_phone;
  store_jid = alice_phone;
  store_lid = alice_lid;
  split_portals = false;
  pn_for_lid = λ lid. (bob, true);
}

abbrev pub other_client : Client
other_client = record client { login_id = codes "15559999" }

abbrev pub from_bob_lid : MessageSource
from_bob_lid = record {
  chat = bob_lid;
  sender = bob_lid;
  is_from_me = false;
  sender_alt = bob;
  recipient_alt = empty_jid;
  broadcast_list_owner = empty_jid;
}

abbrev pub from_group : MessageSource
from_group = record from_bob_lid { chat = friends }

abbrev pub status_chat : Jid
status_chat = record { user = codes "status"; server = broadcast; device = 0 }

abbrev pub config : Config
config = record {
  status_broadcast_jid = status_chat;
  enable_status_broadcast = false;
  disable_status_broadcast_send = true;
  backfill_enabled = true;
  manual_history_sync = true;
  call_start_notices = true;
  identity_change_notices = true;
  archive_tag = codes "a";
  pinned_tag = codes "p";
  send_presence_on_typing = false;
}

pub alice-IsReadable : IsReadable sample_api alice
alice-IsReadable = record { parses = refl; no_colon = omega arith }

pub bob-IsReadable : IsReadable sample_api bob
bob-IsReadable = record { parses = refl; no_colon = omega arith }

abbrev pub only_keys : Message
only_keys = record blank_message { sender_key_distribution_message = true }

abbrev pub text_and_keys : Message
text_and_keys = record only_keys { conversation = true }

abbrev pub login : UserLoginMetadata
login = record {
  wa_device_id = 7;
  phone_last_seen = 1000000;
  phone_last_pinged = 0;
  timezone = [];
  logged_in_at = 900000;
}
