-- ===== src/Connector/Client.antt =====
-- What the handlers of pkg/connector read of a `WhatsAppClient`: its login, its own addresses, the
-- configuration and the store's map of hidden addresses (LIDs) to phone numbers.
use whatsapp.Common.{Bool, ◌≡◌, ◌⊎◌}
use whatsapp.Common.Text.{Str}
use whatsapp.Waid.Jid.{Jid, JidApi, default_user}

pub record Client : Type 0 where
  pub login_id : Str  -- wa.UserLogin.ID
  pub jid : Jid  -- wa.JID
  pub store_jid : Jid  -- wa.GetStore().GetJID()
  pub store_lid : Jid  -- wa.GetStore().GetLID()
  pub split_portals : Bool  -- wa.Main.Bridge.Config.SplitPortals
  -- wa.GetStore().LIDs.GetPNForLID: the phone number, and whether there was no error.
  pub pn_for_lid : Jid → Jid × Bool

-- The lookup answers with a phone number or with an empty address.
abbrev pub IsPnLookup : JidApi → Client → Type 0
IsPnLookup api wa =
    (lid : Jid)
    → ((wa.pn_for_lid lid).0.server ≡ default_user)
      ⊎ (api.is_empty (wa.pn_for_lid lid).0 ≡ Bool.true)
