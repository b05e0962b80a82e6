-- ===== src/Connector/Receive/Receipts/Sent.antt =====
-- Which stored message a receipt is about, for a message that the bridge sent: `handleWAReceipt` of
-- pkg/connector/handlewhatsapp.go and `handleConvertedMatrixMessage` of pkg/connector/handlematrix.go.
use whatsapp.Common.{Bool, ◌&&◌}
use whatsapp.Waid.Jid.{Jid, JidApi, server_eq, hidden_user, group}
use whatsapp.Connector.Client.{Client}
use whatsapp.Connector.Reroute.{reroute_wa_message}
use whatsapp.Connector.Receive.Config.{Config}
use whatsapp.Connector.Receive.Receipts.{ReceiptEvent}
use whatsapp.Connector.Send.Messages.{Network}

module _ {M : Type 0} (api : JidApi) (wa : Client) (config : Config) (net : Network M) where
  -- The receipt says that an own message was read by a hidden address in a group.
  abbrev pub from_hidden_member : ReceiptEvent → Bool
  from_hidden_member evt =
      let source = reroute_wa_message api wa evt.source in
      server_eq source.chat.server group && server_eq source.sender.server hidden_user
