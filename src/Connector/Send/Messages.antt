-- ===== src/Connector/Send/Messages.antt =====
-- Messages, reactions, edits and removals of pkg/connector/handlematrix.go.
pub mod Echo
use whatsapp.Common.{
  ℕ, Bool, true, false, ◌&&◌, ◌||◌, not, Option, none, some, List, [], if◌then◌else◌, ok, err,
  panic, Outcome,
}
use whatsapp.Common.Text.{Str, has_prefix}
use whatsapp.Waid.Jid.{Jid, JidApi, server_eq, jid_eq, default_user, hidden_user}
use whatsapp.Waid.Id.{
  ParsedMessageId, parse_portal_id, parse_message_id, make_message_id, make_user_id,
}
use whatsapp.Waid.DbMeta.{
  MessageMetadata, ReactionMetadata, PortalMetadata, AddressingMode, mode_lid, no_error,
}
use whatsapp.Connector.Client.{Client}
use whatsapp.Connector.Ids.{MessageKey, message_id_to_key}
use whatsapp.Connector.Receive.Config.{Config}
use whatsapp.Connector.Send.Steps.{
  SendError, Handled, refuse, return, parsed, given, after, bad_portal_id, bad_message_id,
  broadcast_send_disabled, broadcast_reaction_unsupported, bad_conversion, bad_encryption, failed,
}

-- What is sent to WhatsApp: a message that the conversion made, or one of those made here.
pub data Content (M : Type 0) : Type 0 where
  converted : M → Content M
  -- The key of the message, the emoji, the time.
  reaction : MessageKey → Str → ℕ → Content M
  encrypted_reaction : M → Content M
  -- `BuildEdit`, and the time where it is set.
  edit : Jid → Str → M → Option ℕ → Content M
  -- `BuildRevoke`
  revoke : Jid → Jid → Str → Content M

pub data Action (M : Type 0) : Type 0 where
  add_pending remove_pending : Str → Action M
  -- `SendMessage`, with the ID of the message where the request has one.
  send_message : Jid → Content M → Option Str → Action M

-- `whatsmeow.SendResponse`
pub record SendResponse : Type 0 where
  pub sender : Jid
  pub timestamp : ℕ

-- `bridgev2.MatrixMessageResponse`
pub record MatrixResponse : Type 0 where
  pub message_id : Str
  pub sender_id : Str
  pub timestamp : ℕ
  pub metadata : MessageMetadata
  pub stream_order : ℕ
  pub pending_id : Str

abbrev sent_metadata : ℕ → MessageMetadata
sent_metadata device = record {
  sender_device_id = device;
  error = no_error;
  broadcast_list_jid = none;
  group_invite = none;
  failed_media_meta = none;
  direct_media_meta = none;
  is_matrix_poll = false;
  edits = [];
}

-- `bridgev2.MatrixReactionPreResponse`
pub record PreReaction : Type 0 where
  pub sender_id : Str
  pub emoji : Str
  pub max_reactions : ℕ

-- What the handlers take from other packages: the prefix of IDs that whatsmeow makes, its next ID,
-- the answer of `SendMessage` (`none` is an error), and `EncryptReaction`.
pub record Network (M : Type 0) : Type 0 where
  pub web_prefix : Str
  pub generated_id : Str
  pub answer : Jid → Content M → Option Str → Option SendResponse
  pub encrypt_reaction : ParsedMessageId → MessageKey → Str → ℕ → Option M

module _ {M : Type 0} (api : JidApi) (wa : Client) (config : Config) (net : Network M) where
  -- The ID of the transaction if it is one of WhatsApp's.
  abbrev pub transaction_id : Str → Option Str
  transaction_id txn = if has_prefix net.web_prefix txn then some txn else none

  abbrev pub request_id : Str → Str
  request_id txn = if has_prefix net.web_prefix txn then txn else net.generated_id

  -- `SendMessage`, and what follows it.
  abbrev sending :
      {A : Type 0}
      → Jid
      → Content M
      → Option Str
      → (SendResponse → Handled (Action M) A)
      → Handled (Action M) A
  sending chat content id f =
      after (send_message chat content id) (given failed (net.answer chat content id) f)

  -- Whether the message is stored as one of the own hidden address.
  abbrev pub sent_as_lid : Jid → SendResponse → Bool
  sent_as_lid chat resp =
      jid_eq resp.sender wa.store_lid && not (server_eq chat.server default_user)

  pick_id : Jid → Str → Str → SendResponse → Handled (Action M) MatrixResponse
  pick_id chat id1 id2 resp =
      let picked = if sent_as_lid chat resp then id2 else id1 in
      let dropped = if sent_as_lid chat resp then id1 else id2 in
      after (remove_pending dropped) (
        return (record {
          message_id = picked;
          sender_id = make_user_id resp.sender;
          timestamp = resp.timestamp;
          metadata = sent_metadata wa.jid.device;
          stream_order = resp.timestamp;
          pending_id = picked;
        }))

  send_converted : Str → M → Jid → Handled (Action M) MatrixResponse
  unfolding pick_id
  send_converted id m chat =
      if jid_eq chat config.status_broadcast_jid && config.disable_status_broadcast_send
      then refuse broadcast_send_disabled
      else (let id1 = make_message_id api chat wa.jid id in
          let id2 = make_message_id api chat wa.store_lid id in
          after (add_pending id1)
            (after (add_pending id2) (sending chat (converted m) (some id) (pick_id chat id1 id2))))

  -- `handleConvertedMatrixMessage`, on the transaction, the portal and the message.
  unfoldable pub handle_converted_matrix_message : Str → Str → M → Handled (Action M) MatrixResponse
  unfolding send_converted
  handle_converted_matrix_message txn portal m =
      parsed bad_portal_id (parse_portal_id api portal) (send_converted (request_id txn) m)

  -- `HandleMatrixMessage` and `HandleMatrixPollVote`, on the result of the conversion.
  unfoldable pub handle_matrix_message : Str → Str → Option M → Handled (Action M) MatrixResponse
  handle_matrix_message txn portal m =
      given bad_conversion m (handle_converted_matrix_message txn portal)

  poll_result : Outcome SendError MatrixResponse → Outcome SendError MatrixResponse
  poll_result (ok r) = ok (record r { metadata = record (r.metadata) { is_matrix_poll = true } })
  poll_result (err e) = err e
  poll_result panic = panic

  as_poll : Handled (Action M) MatrixResponse → Handled (Action M) MatrixResponse
  unfolding poll_result
  as_poll h = record { actions = h.actions; result = poll_result h.result }

  -- `HandleMatrixPollStart`
  unfoldable pub handle_matrix_poll_start : Str → Str → Option M → Handled (Action M) MatrixResponse
  unfolding as_poll
  handle_matrix_poll_start txn portal m =
      given bad_conversion m λ poll. as_poll (handle_converted_matrix_message txn portal poll)

  is_lid_mode : AddressingMode → Bool
  is_lid_mode mode_lid = true
  is_lid_mode _ = false

  -- `PreHandleMatrixReaction`; `emoji` is the key without variation selectors.
  unfoldable pub pre_handle_matrix_reaction :
      Str → PortalMetadata → Str → Handled (Action M) PreReaction
  unfolding is_lid_mode
  pre_handle_matrix_reaction portal meta emoji =
      parsed bad_portal_id (parse_portal_id api portal) λ chat.
        if jid_eq chat config.status_broadcast_jid
        then refuse broadcast_reaction_unsupported
        else return (record {
          sender_id = make_user_id (
              if server_eq chat.server hidden_user
                || meta.community_announcement_group
                || is_lid_mode meta.addressing_mode
              then wa.store_lid
              else wa.jid);
          emoji = emoji;
          max_reactions = 1;
        })

  send_reaction : Jid → ParsedMessageId → Bool → Str → ℕ → Handled (Action M) ReactionMetadata
  send_reaction chat id encrypted emoji ts =
      let key = message_id_to_key api wa id in
      let done : SendResponse → Handled (Action M) ReactionMetadata =
        λ resp. return (record { reaction_sender_device_id = wa.jid.device }) in
      if encrypted
      then (given bad_encryption (net.encrypt_reaction id key emoji ts)
          (λ m. sending chat (encrypted_reaction m) none done))
      else sending chat (reaction key emoji ts) none done

  -- `HandleMatrixReaction`, on the target, the portal, the emoji and the time.
  unfoldable pub handle_matrix_reaction :
      Str → Str → PortalMetadata → Str → ℕ → Handled (Action M) ReactionMetadata
  unfolding send_reaction
  handle_matrix_reaction target portal meta emoji ts =
      parsed bad_message_id (parse_message_id api target) λ id.
        parsed bad_portal_id (parse_portal_id api portal)
          λ chat. send_reaction chat id meta.community_announcement_group emoji ts

  -- `HandleMatrixReactionRemove`
  unfoldable pub handle_matrix_reaction_remove : Str → Str → Str → ℕ → Handled (Action M) Unit
  handle_matrix_reaction_remove txn target portal ts =
      parsed bad_message_id (parse_message_id api target) λ id.
        parsed bad_portal_id (parse_portal_id api portal) λ chat.
          sending chat (reaction (message_id_to_key api wa id) [] ts) (transaction_id txn)
            λ resp. return tt

  -- `HandleMatrixEdit`, on the result of the conversion; `own` is the case of `OrigSender == nil`.
  unfoldable pub handle_matrix_edit :
      Str → Str → Str → Option M → Bool → ℕ → Handled (Action M) Unit
  handle_matrix_edit txn target portal m own ts =
      parsed bad_message_id (parse_message_id api target) λ id.
        parsed bad_portal_id (parse_portal_id api portal) λ chat. given bad_conversion m λ new.
          sending chat (edit id.chat id.id new (if own then some ts else none))
            (some (request_id txn)) λ resp. return tt

  -- `HandleMatrixMessageRemove`
  unfoldable pub handle_matrix_message_remove : Str → Str → Str → Handled (Action M) Unit
  handle_matrix_message_remove txn target portal =
      parsed bad_message_id (parse_message_id api target) λ id.
        parsed bad_portal_id (parse_portal_id api portal) λ chat.
          sending chat (revoke id.chat id.sender id.id) (transaction_id txn) λ resp. return tt
