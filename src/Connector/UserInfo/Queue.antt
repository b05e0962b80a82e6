-- ===== src/Connector/UserInfo/Queue.antt =====
-- pkg/connector/userinfo.go: the queue of users and chats that are synced again in the background.
-- Times are in seconds; the lock of the queue makes each call a step.
pub mod Fresh
pub mod Viewing
use whatsapp.Common.{ℕ, ◌+◌, ◌*◌, Bool, true, false, ◌&&◌, not, Option, none, some, List, [], ◌∷◌}
use whatsapp.Common.{if◌then◌else◌, ltb, ◌++◌}
use whatsapp.Common.Text.{Str}
use whatsapp.Waid.Jid.{Jid, JidApi, jid_eq, server_eq, group}
use whatsapp.Waid.Id.{parse_user_id}
use whatsapp.Connector.Ids.{PortalKey}

-- `ResyncMinInterval` and `ResyncLoopInterval`
abbrev pub resync_min_interval : ℕ
resync_min_interval = 7 * (24 * 3600)

abbrev pub resync_loop_interval : ℕ
resync_loop_interval = 4 * 3600

-- `resyncQueueItem`: a ghost or a portal.
pub data Item : Type 0 where
  ghost : Str → Item
  portal : PortalKey → Item

abbrev pub Queue : Type 0
Queue = List (Jid × Item)

-- The last sync of each ghost and portal, which their metadata has when it is read.
pub record LastSync : Type 0 where
  pub of_ghost : Str → ℕ
  pub of_portal : PortalKey → ℕ

abbrev pub last_sync : LastSync → Item → ℕ
last_sync l (ghost id) = l.of_ghost id
last_sync l (portal key) = l.of_portal key

-- `t.Add(ResyncMinInterval).After(time.Now())`
abbrev pub is_recent : ℕ → ℕ → Bool
is_recent now t = ltb now (t + resync_min_interval)

abbrev pub has_key : Jid → Queue → Bool
has_key j [] = false
has_key j ((k, i) ∷ q) = if jid_eq k j then true else has_key j q

unless_queued : Jid → Item → Queue → Queue
unless_queued j i q = if has_key j q then q else q ++ ((j, i) ∷ [])

-- The fields of the client.
pub record State : Type 0 where
  pub queue : Queue
  pub next_resync : ℕ

module _ (api : JidApi) where
  -- `EnqueueGhostResync`
  unfoldable pub enqueue_ghost_resync : LastSync → ℕ → Str → State → State
  unfolding unless_queued
  enqueue_ghost_resync l now id s =
      if is_recent now (l.of_ghost id)
      then s
      else record s { queue = unless_queued (parse_user_id api id) (ghost id) s.queue }

  -- `EnqueuePortalResync`, with the address that the portal's ID is parsed to.
  unfoldable pub enqueue_portal_resync : LastSync → ℕ → Jid → PortalKey → Bool → State → State
  unfolding unless_queued
  enqueue_portal_resync l now jid key allow_dm s =
      if is_recent now (l.of_portal key)
      then s
      else if not allow_dm && not (server_eq jid.server group)
      then s
      else record s { queue = unless_queued jid (portal key) s.queue }

-- `rotateResyncQueue`: the new state, and the queue that is worked on.
unfoldable pub rotate_resync_queue : ℕ → State → State × Queue
rotate_resync_queue now s =
    (record { queue = []; next_resync = now + resync_loop_interval }, s.queue)

-- What `doGhostResync` collects: the portals that are queued, and the addresses of the ghosts that
-- WhatsApp is asked for.
pub record Resync : Type 0 where
  pub portals : List PortalKey
  pub ghosts : List (Jid × Str)

with_item : Jid → Item → Resync → Resync
with_item j (ghost id) r = record r { ghosts = (j, id) ∷ r.ghosts }
with_item j (portal key) r = record r { portals = key ∷ r.portals }

-- The loop over the queue; the order of a map is left open, here it is that of the list.
unfoldable pub collect : LastSync → ℕ → Queue → Resync
unfolding with_item
collect l now [] = record { portals = []; ghosts = [] }
collect l now ((j, i) ∷ q) =
    let rest = collect l now q in if is_recent now (last_sync l i) then rest else with_item j i rest

-- `doGhostResync`, up to the requests.
unfoldable pub do_ghost_resync : Bool → LastSync → ℕ → Queue → Resync
unfolding collect
do_ghost_resync logged_in l now q =
    if logged_in then collect l now q else record { portals = []; ghosts = [] }
