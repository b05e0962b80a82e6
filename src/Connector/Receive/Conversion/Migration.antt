-- ===== src/Connector/Receive/Conversion/Migration.antt =====
-- pkg/connector/events.go: the move of a group to hidden addresses is tried once.
use whatsapp.Common.{ℕ, ◌+◌, ◌≤◌, List, [], ◌∷◌, All, if◌then◌else◌, arith}
use whatsapp.Common.{
  Bool, true, false, ◌||◌, Option, none, some, ◌≡◌, refl, ◌∙◌, if_split, Outcome, ok, err, panic,
  not,
}
use whatsapp.Common.Text.{Str}
use whatsapp.Waid.Jid.{Jid, JidApi, server_eq, group}
use whatsapp.Waid.Id.{IdError, parse_portal_id}
use whatsapp.Waid.DbMeta.{PortalMetadata, AddressingMode, mode_lid, mode_pn, mode_unset}
use whatsapp.Connector.Reroute.{MessageSource}
use whatsapp.Connector.Receive.Conversion.{
  PreHandled, pre_handle, migrate_portal, migrated, unasked, uses_lids,
}

attempted_or : (a b : Bool) → b ≡ true → (a || b) ≡ false → ⊥
attempted_or true b h k = cc
attempted_or false b h k = cc

-- The mark of an attempt is kept.
abbrev pub KeepsAttempt : (PortalMetadata → PortalMetadata) → Type 0
KeepsAttempt change =
    (m : PortalMetadata) → (change m).lid_migration_attempted ≡ m.lid_migration_attempted

-- A message, and what changes the metadata between it and the next one.
pub record HandledMessage : Type 0 where
  pub mode : AddressingMode
  pub source : MessageSource
  pub change : PortalMetadata → PortalMetadata

module _ (api : JidApi) (get_group_info : Jid → Option AddressingMode)
    (update_info : PortalMetadata → PortalMetadata) where
  Attempted : PreHandled → Type 0
  Attempted r = r.asked ≡ true → r.meta.lid_migration_attempted ≡ true

  migrated-Attempted :
      (meta : PortalMetadata) (s : MessageSource) (o : Option AddressingMode)
      → KeepsAttempt update_info
      → meta.lid_migration_attempted ≡ true
      → Attempted (migrated api get_group_info update_info meta s o)
  unfolding migrated Attempted
  migrated-Attempted meta s none k h q = h
  migrated-Attempted meta s (some mode_lid) k h q = k meta ∙ h
  migrated-Attempted meta s (some mode_pn) k h q = h
  migrated-Attempted meta s (some mode_unset) k h q = h

  portal-Attempted :
      (meta : PortalMetadata) (s : MessageSource) (o : Outcome IdError Jid)
      → KeepsAttempt update_info
      → Attempted (migrate_portal api get_group_info update_info meta s o)
  unfolding migrate_portal unasked Attempted
  portal-Attempted meta s (ok j) k =
      if_split Attempted (uses_lids meta.addressing_mode || meta.lid_migration_attempted) _ _
        (λ e q. absurd cc)
        (λ e.
          migrated-Attempted (record meta { lid_migration_attempted = true }) s (get_group_info j) k
            refl)
  portal-Attempted meta s (err e) k = λ q. absurd cc
  portal-Attempted meta s panic k = λ q. absurd cc

  pre_handle-Attempted :
      (id : Str) (mode : AddressingMode) (s : MessageSource) (meta : PortalMetadata)
      → KeepsAttempt update_info
      → Attempted (pre_handle api get_group_info update_info id mode s meta)
  unfolding pre_handle unasked Attempted
  pre_handle-Attempted id mode s meta k =
      if_split Attempted (not (uses_lids mode) || not (server_eq s.chat.server group)) _ _
        (λ e q. absurd cc) (λ e. portal-Attempted meta s (parse_portal_id api id) k)

  -- Nothing was asked, and the mark is still there.
  Silent : PreHandled → Type 0
  Silent r = (r.asked ≡ false) × (r.meta.lid_migration_attempted ≡ true)

  portal-Silent :
      (meta : PortalMetadata) (s : MessageSource) (o : Outcome IdError Jid)
      → meta.lid_migration_attempted ≡ true
      → Silent (migrate_portal api get_group_info update_info meta s o)
  unfolding migrate_portal unasked Silent
  portal-Silent meta s (ok j) h =
      if_split Silent (uses_lids meta.addressing_mode || meta.lid_migration_attempted) _ _
        (λ e. (refl, h))
        (λ e.
          absurd (attempted_or (uses_lids meta.addressing_mode) meta.lid_migration_attempted h e))
  portal-Silent meta s (err e) h = (refl, h)
  portal-Silent meta s panic h = (refl, h)

  pre_handle-Silent :
      (id : Str) (mode : AddressingMode) (s : MessageSource) (meta : PortalMetadata)
      → meta.lid_migration_attempted ≡ true
      → Silent (pre_handle api get_group_info update_info id mode s meta)
  unfolding pre_handle unasked Silent
  pre_handle-Silent id mode s meta h =
      if_split Silent (not (uses_lids mode) || not (server_eq s.chat.server group)) _ _
        (λ e. (refl, h)) (λ e. portal-Silent meta s (parse_portal_id api id) h)

  -- How often WhatsApp is asked about the group of a portal over messages, each with what changes the
  -- portal's metadata after it.
  abbrev pub asks : Str → List HandledMessage → PortalMetadata → ℕ
  asks id [] meta = 0
  asks id (m ∷ ms) meta =
      let handled : PreHandled =
        pre_handle api get_group_info update_info id m.mode m.source meta in
      let later : ℕ = asks id ms (m.change handled.meta) in
      if handled.asked then 1 + later else later

  asks_none :
      (id : Str) (ms : List HandledMessage) (meta : PortalMetadata)
      → All (λ m. KeepsAttempt m.change) ms
      → meta.lid_migration_attempted ≡ true
      → asks id ms meta ≡ 0
  unfolding Silent
  asks_none id [] meta k h = refl
  asks_none id (m ∷ ms) meta k h =
      let handled : PreHandled =
        pre_handle api get_group_info update_info id m.mode m.source meta in
      let (quiet, kept) = pre_handle-Silent id m.mode m.source meta h in
      rw quiet (asks_none id ms (m.change handled.meta) k.1 (k.0 handled.meta ∙ kept))

  -- Over any messages of a portal, WhatsApp is asked about its group once at most, if neither the
  -- bridge's update of the portal nor what changes its metadata after a message touches the mark of an
  -- attempt, which stands in the metadata that the messages share.
  pub asked_once :
      (id : Str) (ms : List HandledMessage) (meta : PortalMetadata)
      → KeepsAttempt update_info
      → All (λ m. KeepsAttempt m.change) ms
      → asks id ms meta ≤ 1
  unfolding Attempted
  asked_once id [] meta u k = omega arith
  asked_once id (m ∷ ms) meta u k =
      let handled : PreHandled =
        pre_handle api get_group_info update_info id m.mode m.source meta in
      if_split (λ n. n ≤ 1) handled.asked _ _
        (λ e.
          let none_later : asks id ms (m.change handled.meta) ≡ 0 =
            asks_none id ms (m.change handled.meta) k.1
              (k.0 handled.meta ∙ pre_handle-Attempted id m.mode m.source meta u e) in
          omega arith)
        (λ e. asked_once id ms (m.change handled.meta) u k.1)
