-- ===== src/Connector/UserInfo/Queue/Fresh.antt =====
-- pkg/connector/userinfo.go: what is in the resync queue, and what a round asks for.
use whatsapp.Common.{if-eq_false}
use whatsapp.Common.{ℕ, ◌≡◌, Bool, true, false, List, [], ◌∷◌, ◌++◌}
use whatsapp.Common.{if_split, if_both, All, not, ◌&&◌}
use whatsapp.Common.Text.{Str}
use whatsapp.Waid.Jid.{Jid, JidApi, jid_eq, server_eq, group}
use whatsapp.Waid.Id.{parse_user_id}
use whatsapp.Connector.Ids.{PortalKey}
use whatsapp.Connector.UserInfo.Queue.{
  Item, ghost, portal, Queue, LastSync, last_sync, is_recent, has_key, unless_queued, State,
  enqueue_ghost_resync, enqueue_portal_resync, rotate_resync_queue, Resync, with_item, collect,
  do_ghost_resync,
}

-- The calls that change the queue, each with its time and the last syncs at that time.
pub data Call : Type 0 where
  add_ghost : LastSync → ℕ → Str → Call
  add_portal : LastSync → ℕ → Jid → PortalKey → Bool → Call
  rotate : ℕ → Call

-- The addresses of a list are different from one another.
abbrev pub Distinct : {A : Type 0} → List (Jid × A) → Type 0
Distinct [] = Unit
Distinct ((j, a) ∷ q) = All (λ e. jid_eq j e.0 ≡ false) q × Distinct q

All-snoc :
    {A : Type 0} (P : A → Type 0) (xs : List A) (x : A) → All P xs → P x → All P (xs ++ (x ∷ []))
All-snoc P [] x h p = (p, tt)
All-snoc P (y ∷ xs) x h p = (h.0, All-snoc P xs x h.1 p)

snoc-Distinct :
    (j : Jid) (q : Queue) (i : Item)
    → has_key j q ≡ false
    → Distinct q
    → Distinct (q ++ ((j, i) ∷ []))
snoc-Distinct j [] i h d = (tt, tt)
snoc-Distinct j ((k, i') ∷ q) i h d =
    let parts : (jid_eq k j ≡ false) × (has_key j q ≡ false) =
      if-eq_false (jid_eq k j) (has_key j q) h in
    (
      All-snoc (λ (e : Jid × Item). jid_eq k e.0 ≡ false) q (j, i) d.0 parts.0,
      snoc-Distinct j q i parts.1 d.1,
    )

unless_queued-Distinct :
    (j : Jid) (i : Item) (q : Queue) → Distinct q → Distinct (unless_queued j i q)
unfolding unless_queued
unless_queued-Distinct j i q d =
    if_split {A = Queue} Distinct (has_key j q) _ _ (λ e. d) (λ e. snoc-Distinct j q i e d)

module _ (api : JidApi) where
  abbrev pub run_call : Call → State → State
  run_call (add_ghost l now id) s = enqueue_ghost_resync api l now id s
  run_call (add_portal l now jid key allow_dm) s =
      enqueue_portal_resync api l now jid key allow_dm s
  run_call (rotate now) s = (rotate_resync_queue now s).0

  abbrev pub run_calls : List Call → State → State
  run_calls [] s = s
  run_calls (c ∷ cs) s = run_calls cs (run_call c s)

  call-Distinct : (c : Call) (s : State) → Distinct s.queue → Distinct (run_call c s).queue
  unfolding enqueue_ghost_resync enqueue_portal_resync rotate_resync_queue
  call-Distinct (add_ghost l now id) s d =
      if_both {A = State} (λ x. Distinct x.queue) (is_recent now (l.of_ghost id)) _ _ d
        (unless_queued-Distinct (parse_user_id api id) (ghost id) s.queue d)
  call-Distinct (add_portal l now jid key allow_dm) s d =
      if_both {A = State} (λ x. Distinct x.queue) (is_recent now (l.of_portal key)) _ _ d
        (if_both {A = State} (λ x. Distinct x.queue)
          (not allow_dm && not (server_eq jid.server group)) _ _ d
          (unless_queued-Distinct jid (portal key) s.queue d))
  call-Distinct (rotate now) s d = tt

  calls-Distinct : (cs : List Call) (s : State) → Distinct s.queue → Distinct (run_calls cs s).queue
  calls-Distinct [] s d = d
  calls-Distinct (c ∷ cs) s d = calls-Distinct cs (run_call c s) (call-Distinct c s d)

module _ (l : LastSync) (now : ℕ) where
  -- Neither the ghosts nor the portals were synced within the week before.
  abbrev pub IsStale : Resync → Type 0
  IsStale r =
      All (λ (e : Jid × Str). is_recent now (l.of_ghost e.1) ≡ false) r.ghosts
      × All (λ key. is_recent now (l.of_portal key) ≡ false) r.portals

  with_item-IsStale :
      (j : Jid) (i : Item) (r : Resync)
      → is_recent now (last_sync l i) ≡ false
      → IsStale r
      → IsStale (with_item j i r)
  unfolding with_item
  with_item-IsStale j (ghost id) r n h = ((n, h.0), h.1)
  with_item-IsStale j (portal key) r n h = (h.0, (n, h.1))

  collect-IsStale : (q : Queue) → IsStale (collect l now q)
  unfolding collect
  collect-IsStale [] = (tt, tt)
  collect-IsStale ((j, i) ∷ q) =
      if_split IsStale (is_recent now (last_sync l i)) _ _ (λ e. collect-IsStale q)
        (λ e. with_item-IsStale j i (collect l now q) e (collect-IsStale q))

  with_item-All :
      (P : Jid → Type 0) (j : Jid) (i : Item) (r : Resync)
      → P j
      → All (λ (e : Jid × Str). P e.0) r.ghosts
      → All (λ (e : Jid × Str). P e.0) (with_item j i r).ghosts
  unfolding with_item
  with_item-All P j (ghost id) r p h = (p, h)
  with_item-All P j (portal key) r p h = h

  collect-All :
      (P : Jid → Type 0) (q : Queue)
      → All (λ (e : Jid × Item). P e.0) q
      → All (λ (e : Jid × Str). P e.0) (collect l now q).ghosts
  unfolding collect
  collect-All P [] h = tt
  collect-All P ((j, i) ∷ q) h =
      if_both {A = Resync} (λ r. All (λ (e : Jid × Str). P e.0) r.ghosts)
        (is_recent now (last_sync l i)) _ _ (collect-All P q h.1)
        (with_item-All P j i (collect l now q) h.0 (collect-All P q h.1))

  with_item-Distinct :
      (j : Jid) (i : Item) (r : Resync)
      → All (λ (e : Jid × Str). jid_eq j e.0 ≡ false) r.ghosts
      → Distinct r.ghosts
      → Distinct (with_item j i r).ghosts
  unfolding with_item
  with_item-Distinct j (ghost id) r a d = (a, d)
  with_item-Distinct j (portal key) r a d = d

  collect-Distinct : (q : Queue) → Distinct q → Distinct (collect l now q).ghosts
  unfolding collect
  collect-Distinct [] d = tt
  collect-Distinct ((j, i) ∷ q) d =
      if_both {A = Resync} (λ r. Distinct r.ghosts) (is_recent now (last_sync l i)) _ _
        (collect-Distinct q d.1)
        (with_item-Distinct j i (collect l now q) (collect-All (λ k. jid_eq j k ≡ false) q d.0)
          (collect-Distinct q d.1))

-- After any calls on an empty queue, a round asks WhatsApp for each address once at most, and neither
-- a ghost nor a portal that was synced within the week before the round is in it.
pub round_asks_once :
    (api : JidApi) (cs : List Call) (start : ℕ) (logged_in : Bool) (l : LastSync) (now : ℕ)
    → Distinct
        (do_ghost_resync logged_in l now
          (rotate_resync_queue now
            (run_calls api cs (record { queue = []; next_resync = start }))).1).ghosts
      × IsStale l now (
          do_ghost_resync logged_in l now
            (rotate_resync_queue now
              (run_calls api cs (record { queue = []; next_resync = start }))).1)
unfolding do_ghost_resync rotate_resync_queue
round_asks_once api cs start true l now = (
  collect-Distinct l now _ (calls-Distinct api cs (record { queue = []; next_resync = start }) tt),
  collect-IsStale l now _,
)
round_asks_once api cs start false l now = (tt, (tt, tt))
