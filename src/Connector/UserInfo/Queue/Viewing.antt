-- ===== src/Connector/UserInfo/Queue/Viewing.antt =====
-- `HandleMatrixViewingChat` of pkg/connector/client.go: what a chat that is being viewed puts in the
-- resync queue, and the presence that is sent.
use whatsapp.Common.{if_same}
use whatsapp.Common.{
  ℕ, ◌+◌, ◌*◌, ◌≤◌, ◌≡◌, refl, ap, ◌∙◌, arith, Bool, true, false, Option, none, some,
}
use whatsapp.Common.{List, [], ◌∷◌, ◌++◌, if◌then◌else◌, ltb, not}
use whatsapp.Common.Text.{Str, str_eq}
use whatsapp.Waid.Jid.{Jid, JidApi, jid_eq, jid_eq_refl}
use whatsapp.Waid.Id.{parse_user_id}
use whatsapp.Connector.Ids.{PortalKey}
use whatsapp.Connector.UserInfo.Queue.{
  State, Queue, Item, ghost, portal, LastSync, enqueue_ghost_resync, enqueue_portal_resync, has_key,
  unless_queued, is_recent, resync_min_interval,
}

-- The portal that is viewed: its key, the address of its ID, the other user of a direct chat (empty
-- for another chat), and its last sync.
pub record Viewed : Type 0 where
  pub key : PortalKey
  pub jid : Jid
  pub other_user_id : Str
  pub synced : ℕ

-- What the query for a ghost answers.
pub data GhostAnswer : Type 0 where
  ghost_failed ghost_missing ghost_found : GhostAnswer

-- The presence that WhatsApp has last been sent, where it is known: whether it is available.
pub record Presence : Type 0 where
  pub last_presence : Option Bool
  pub requests : List Bool

bool_same : Bool → Option Bool → Bool
bool_same b none = false
bool_same true (some c) = c
bool_same false (some c) = not c

-- `updatePresence`, which the handler calls where the presence changes; whether the request succeeds.
unfoldable pub set_presence : Bool → Bool → Presence → Presence
unfolding bool_same
set_presence sent available p = if bool_same available p.last_presence then p else record {
  last_presence = if sent then some available else p.last_presence;
  requests = available ∷ p.requests;
}

-- The last syncs that the queue reads: those of the viewed portal and ghost are reset.
abbrev pub reset : LastSync
reset = record { of_ghost = λ id. 0; of_portal = λ key. 0 }

both_true : (b : Bool) → (if b then true else true) ≡ true
both_true true = refl
both_true false = refl

not_recent : (now : ℕ) → resync_min_interval ≤ now → is_recent now 0 ≡ false
not_recent now h = ground arith

module _ (api : JidApi) where
  view_ghost : ℕ → Str → GhostAnswer → State → State × Bool
  view_ghost now id ghost_failed s = (s, false)
  view_ghost now id ghost_missing s = (s, true)
  view_ghost now id ghost_found s = (enqueue_ghost_resync api reset now id s, true)

  view_portal : ℕ → GhostAnswer → Viewed → State → State × Bool
  unfolding view_ghost
  view_portal now answer v s =
      let queued : State = enqueue_portal_resync api reset now v.jid v.key true s in
      if str_eq v.other_user_id []
      then (queued, true)
      else view_ghost now v.other_user_id answer queued

  -- The rest of the handler, with whether it returns no error.
  unfoldable pub handle_matrix_viewing_chat : ℕ → GhostAnswer → Option Viewed → State → State × Bool
  unfolding view_portal
  handle_matrix_viewing_chat now answer none s = (s, true)
  handle_matrix_viewing_chat now answer (some v) s =
      if ltb now (v.synced + 5 * 60) then (s, true) else view_portal now answer v s

  snoc-has_key : (j : Jid) (i : Item) (q : Queue) → has_key j (q ++ ((j, i) ∷ [])) ≡ true
  snoc-has_key j i [] = ap (λ b. if b then true else false) (jid_eq_refl j)
  snoc-has_key j i ((k, i') ∷ q) =
      ap (λ b. if jid_eq k j then true else b) (snoc-has_key j i q) ∙ both_true (jid_eq k j)

  queued_portal :
      (now : ℕ) (v : Viewed) (s : State)
      → resync_min_interval ≤ now
      → has_key v.jid s.queue ≡ false
      → enqueue_portal_resync api reset now v.jid v.key true s
        ≡ record s { queue = s.queue ++ ((v.jid, portal v.key) ∷ []) }
  unfolding enqueue_portal_resync unless_queued
  queued_portal now v s h n =
      ap
        (λ b. if b then s else record s {
          queue =
              if has_key v.jid s.queue then s.queue else s.queue ++ ((v.jid, portal v.key) ∷ []);
        })
        (not_recent now h)
      ∙ ap
          (λ b. record s { queue = if b then s.queue else s.queue ++ ((v.jid, portal v.key) ∷ []) })
          n

  dropped_ghost :
      (now : ℕ) (id : Str) (s : State)
      → has_key (parse_user_id api id) s.queue ≡ true
      → enqueue_ghost_resync api reset now id s ≡ s
  unfolding enqueue_ghost_resync unless_queued
  dropped_ghost now id s h =
      ap
        (λ b. if is_recent now 0 then s else record s {
          queue = if b then s.queue else s.queue ++ ((parse_user_id api id, ghost id) ∷ []);
        })
        h
      ∙ if_same (is_recent now 0) s

  -- In a direct chat whose portal has the address of the other user, which is not queued yet, viewing
  -- the chat queues the portal only: the other user's ghost, though found, is not queued. The time is
  -- a week or more after the zero time, and the portal was not synced in the last five minutes.
  pub viewed_ghost_dropped :
      (now : ℕ) (v : Viewed) (s : State)
      → resync_min_interval ≤ now
      → ltb now (v.synced + 5 * 60) ≡ false
      → parse_user_id api v.other_user_id ≡ v.jid
      → has_key v.jid s.queue ≡ false
      → handle_matrix_viewing_chat now ghost_found (some v) s
        ≡ (record s { queue = s.queue ++ ((v.jid, portal v.key) ∷ []) }, true)
  unfolding handle_matrix_viewing_chat view_portal view_ghost
  viewed_ghost_dropped now v s h r same n =
      let queued : State = record s { queue = s.queue ++ ((v.jid, portal v.key) ∷ []) } in
      let dropped : enqueue_ghost_resync api reset now v.other_user_id queued ≡ queued =
        dropped_ghost now v.other_user_id queued
          (ap (λ j. has_key j queued.queue) same ∙ snoc-has_key v.jid (portal v.key) s.queue) in
      ap (λ b. if b then (s, true) else view_portal now ghost_found v s) r
      ∙ ap
          (λ q.
            if str_eq v.other_user_id []
            then (q, true)
            else (enqueue_ghost_resync api reset now v.other_user_id q, true))
          (queued_portal now v s h n)
      ∙ ap (λ q. if str_eq v.other_user_id [] then (queued, true) else (q, true)) dropped
      ∙ if_same (str_eq v.other_user_id []) (queued, true)
