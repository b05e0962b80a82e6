-- ===== src/Lib.antt =====
-- A Matrix-WhatsApp puppeting bridge: it turns the events of a WhatsApp client (whatsmeow) into
-- events of a bridge framework, and Matrix events into WhatsApp messages. This library models the
-- decisions of the bridge: which chat, sender and message an event is about, what becomes of it, and
-- how the identifiers that the bridge stores are written and read.
--
-- The parts, and the files that model them:
--
-- - Common: strings as lists of bytes, Boolean tests, results that may be an error or a panic.
-- - Waid (pkg/waid): the identifiers. Waid/Jid holds the addresses of whatsmeow (`types.JID`) and
--   the operations on them that the code calls (`String`, `ParseJID`, `ToNonAD`, `IsEmpty`), as a
--   record of functions with their documented laws. Waid/Id is id.go. Waid/MediaId is mediaid.go,
--   with Waid/Decimal (`strconv`) and Waid/Binary (`encoding/hex`, big-endian numbers). Waid/DbMeta
--   is dbmeta.go.
-- - Connector (pkg/connector): the client. Connector/Client is what the handlers read of a
--   `WhatsAppClient`; Connector/Ids is id.go; Connector/Reroute is `rerouteWAMessage`;
--   Connector/WaMessage is a WhatsApp message with the names of its kinds, and Connector/MessageType
--   wamsgtype.go on it; Connector/PhonePing is phoneping.go; Connector/MediaEditCache is
--   mediaeditcache.go.
-- - Connector/Receive (handlewhatsapp.go and events.go): one file per group of handlers. A handler
--   takes the event and returns the remote event that it queues, or none. Messages, Chats (calls,
--   identity changes, deletions, mutes, joins) and Receipts (receipts, typing notices, retries) call
--   Reroute, Ids and MessageType in the order of the code. Dispatch is the part of `handleWAEvent`
--   that handles the connection, as a step on the bridge states, the login and the waiter.
-- - Connector/Send (handlematrix.go): what the bridge does with Matrix events. A handler is a list of
--   actions with a result (Send/Steps); the answers of WhatsApp are arguments. Messages holds messages,
--   reactions, edits and removals; ReadReceipts the grouping of read receipts; Rooms the settings and
--   members of rooms; Chats mutes, tags, unread marks and deletions, both on the requests of
--   Send/Requests; Avatar the choice of the part of an image that is sent.
-- - Connector/Conversation (pkg/connector/wadb/conversation.go): the chats of a history transfer, with
--   the SQL of the upsert as a function on rows and the table as a function of its keys.
-- - Msgconv/Text (pkg/msgconv/wa-text.go): the lists and quotes of a text as pieces of HTML; the text
--   of a line is one piece. Msgconv/Line formats it: each of the four regular expressions is a function
--   that finds its leftmost match, and their order, that of a Go map, is an argument;
--   Msgconv/Link replaces links. Msgconv/Html writes the pieces as bytes, with the lines formatted.
-- - Connector/Login (login.go): the process of a login as a state, with its events as steps. Login/Wait
--   is one call of `Wait`: the case of its `select`, the events before it and those after it are given
--   as lists, so every interleaving of events and calls is a run.
-- - Connector/MediaRequest (mediarequest.go and wadb/mediarequest.go): the requests for media that a
--   phone has to upload again, with the upsert of the database on a list of rows.
-- - Connector/Receive/Conversion (events.go): edits, messages that could not be decrypted, answers to
--   media retries, and the move of a group to hidden addresses. The converter of messages is an argument.
-- - Connector/ChatInfo (chatinfo.go): what the bridge tells its framework about a chat. Group is a full
--   sync of a group, Change an event about one, Chats every other kind of chat with the settings, Picture
--   the avatar. The functions that the framework runs later on the portal are values with a function that
--   runs them.
-- - Msgconv/Keys (wa-poll.go): the message that a WhatsApp key points to.
-- - Connector/UserInfo (userinfo.go): the names and the phone of a user out of the contacts of both
--   addresses. UserInfo/Queue is the queue of users and chats that are synced again, with the handler of
--   viewed chats (client.go) in Queue/Viewing.
-- - Connector/Session (client.go): connecting, disconnecting and the background loops.
-- - Msgconv/Code (wa-text.go): the loop over code blocks around Msgconv/Text.
-- - Connector/DirectMedia (directmedia.go): the requests for media that a download needs again, the
--   answers of the phone, and the wait for them with the calls that others make meanwhile.
--
-- Functions keep the names of the source in snake case: `make_wa_portal_key` is `makeWAPortalKey`.
-- Fallible code returns an `Outcome`: a value, an error with a constructor per sentence of the
-- source, or a panic. Times are numbers of seconds, in Connector/Login of nanoseconds; the current
-- time is an argument. A mutable
-- object is a record that a step takes and returns. Maps are association lists.
--
-- Four loops are on fuel. Printing a number in decimal takes a digit off in each round, so as many
-- rounds as the number itself are enough. The loop over code blocks takes text off in each round, so
-- that as many rounds as the text has bytes are enough: at the end of that fuel the loop of the code
-- has left by its own condition. The replacement of a regular expression in a line is given
-- as many rounds as the line has bytes, and more rounds change nothing (Msgconv/Line/Rounds); so is that
-- of links (Msgconv/Link/Written).
--
-- What other packages do is a parameter: the printing and parsing of addresses, decryption, the
-- store's map of hidden addresses to phone numbers, the queue of the framework. Logging, metrics,
-- contexts and locks are left out: each handler is one step, as the locks make it. Not modelled are
-- network requests, the rest of the database, media transfer, backfill, the
-- conversion of message contents, commands and configuration.
pub mod Common
pub mod Waid
pub mod Connector
pub mod Msgconv
