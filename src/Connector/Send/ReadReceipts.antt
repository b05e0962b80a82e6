-- ===== src/Connector/Send/ReadReceipts.antt =====
-- `HandleMatrixReadReceipt` of pkg/connector/handlematrix.go.
pub mod Grouped
use whatsapp.Common.{
  ℕ, ◌-◌, Bool, true, false, ◌||◌, not, Option, none, some, List, [], ◌∷◌, ◌++◌, if◌then◌else◌, ltb,
  ◌==◌, Outcome, ok, err, panic,
}
use whatsapp.Common.Text.{Str, str_eq}
use whatsapp.Waid.Jid.{Jid, JidApi, empty_jid, jid_eq}
use whatsapp.Waid.Id.{IdError, ParsedMessageId, parse_portal_id, parse_message_id}
use whatsapp.Connector.Client.{Client}
use whatsapp.Connector.Send.Steps.{
  SendError, Handled, refuse, return, parsed, given, bad_portal_id, failed,
}

-- `messagesToRead`, the map from senders to message IDs, as an association list.
abbrev pub Groups : Type 0
Groups = List (Jid × List Str)

-- `m[key] = append(m[key], id)`
unfoldable pub append_to : Jid → Str → Groups → Groups
append_to key id [] = (key, id ∷ []) ∷ []
append_to key id ((k, ids) ∷ m) =
    let rest = append_to key id m in
    if jid_eq k key then (k, ids ++ (id ∷ [])) ∷ m else (k, ids) ∷ rest

-- `MarkRead`: the IDs, the time, the chat and the sender.
pub record MarkRead : Type 0 where
  pub ids : List Str
  pub timestamp : ℕ
  pub chat : Jid
  pub sender : Jid

-- `bridgev2.MatrixReadReceipt`; times in seconds, 0 where there is none.
pub record ReadReceipt : Type 0 where
  pub portal_id : Str
  pub last_read : ℕ
  pub read_up_to : ℕ
  pub timestamp : ℕ

module _ (api : JidApi) (wa : Client) where
  -- Blank in direct messages.
  abbrev pub group_key : ParsedMessageId → Jid
  group_key p = if jid_eq p.sender p.chat then empty_jid else p.sender

  abbrev pub is_own : ParsedMessageId → Bool
  is_own p = str_eq p.sender.user wa.store_lid.user || str_eq p.sender.user wa.jid.user

  add_parsed : Outcome IdError ParsedMessageId → Groups → Groups
  add_parsed (ok p) m = if is_own p then m else append_to (group_key p) p.id m
  add_parsed _ m = m

  -- The loop over the messages.
  unfoldable pub messages_to_read : List Str → Groups → Groups
  unfolding add_parsed
  messages_to_read [] m = m
  messages_to_read (id ∷ ids) m = messages_to_read ids (add_parsed (parse_message_id api id) m)

  mark_all : ℕ → Jid → Groups → List MarkRead
  mark_all ts chat [] = []
  mark_all ts chat ((sender, ids) ∷ m) =
      record { ids = ids; timestamp = ts; chat = chat; sender = sender } ∷ mark_all ts chat m

  module _ (mark_read : MarkRead → Bool) where
    -- What `err` holds after the loop: the result of the last call.
    last_result : List MarkRead → Outcome SendError Unit
    last_result [] = ok tt
    last_result (c ∷ []) = if mark_read c then ok tt else err failed
    last_result (c ∷ d ∷ cs) = last_result (d ∷ cs)

    marked : List MarkRead → Handled MarkRead Unit
    unfolding last_result
    marked calls = record { actions = calls; result = last_result calls }

    -- The start of the range that is marked.
    abbrev pub read_after : ReadReceipt → ℕ
    read_after r = if r.last_read == 0 then r.read_up_to - 5 else r.last_read

    -- `HandleMatrixReadReceipt`; `between` is the query of the messages, by times. Go leaves the
    -- order of the groups open; here they come in the order of their first message.
    unfoldable pub handle_matrix_read_receipt :
        (ℕ → ℕ → Option (List Str)) → ReadReceipt → Handled MarkRead Unit
    unfolding marked mark_all
    handle_matrix_read_receipt between r =
        if not (ltb r.last_read r.read_up_to)
        then return tt
        else parsed bad_portal_id (parse_portal_id api r.portal_id) (λ chat.
          given failed (between (read_after r) r.read_up_to)
            (λ ids. marked (mark_all r.timestamp chat (messages_to_read ids []))))
