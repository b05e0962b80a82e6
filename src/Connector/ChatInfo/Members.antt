-- ===== src/Connector/ChatInfo/Members.antt =====
-- pkg/connector/chatinfo.go: the members of a group.
use whatsapp.Common.{ℕ}
use whatsapp.Connector.Ids.{EventSender}
use whatsapp.Waid.Jid.{Server}
use whatsapp.Common.{
  Bool, true, false, ◌&&◌, some, List, [], ◌∷◌, ◌++◌, ◌≡◌, refl, sym, ap, ◌∙◌, arith, if_split,
  if_both, Bool-cases, inl, inr, All, if◌then◌else◌,
}
use whatsapp.Common.Text.{Str, str_eq, str_eq_refl, str_eq→eq}
use whatsapp.Waid.Jid.{Jid, JidApi, server_eq, newsletter}
use whatsapp.Waid.Id.{make_user_id}
use whatsapp.Connector.Client.{Client}
use whatsapp.Connector.Ids.{make_event_sender}
use whatsapp.Connector.ChatInfo.{ChatMembers, ChatMember, MemberMap, set_member, find_member}
use whatsapp.Connector.ChatInfo.Group.{
  Participant, GroupInfo, joined, left, hides_phone, add_participant, add_participants,
  wrap_group_info,
}

find-set :
    (k j : Str) (v : ChatMember) (m : MemberMap)
    → find_member k (set_member j v m) ≡ (if str_eq j k then some v else find_member k m)
unfolding find_member set_member
find-set k j v [] = refl
find-set k j v ((i, w) ∷ m) = elim (Bool-cases (str_eq i j)) [
  | inl e ↦ ground (arith, str_eq→eq i j e)
  | inr e ↦ rw (e, find-set k j v m) (ground (arith, str_eq→eq i k, str_eq→eq j k, str_eq_refl k))
]

set-All :
    (P : Str × ChatMember → Type 0) (k : Str) (v : ChatMember) (m : MemberMap)
    → P (k, v)
    → All P m
    → All P (set_member k v m)
unfolding set_member
set-All P k v [] p h = (p, tt)
set-All P k v ((j, w) ∷ m) p h =
    if_both (All P) (str_eq j k) _ _ (p, h.1) (h.0, set-All P k v m p h.1)

hidden_false : (a b : Bool) → a ≡ true → (a && b) ≡ false → b ≡ false
hidden_false true b h k = k
hidden_false false b h k = absurd cc

newsletter_id :
    (server : Server) (user : Str) (device : ℕ)
    → server_eq server newsletter ≡ true
    → make_user_id (record { user = user; server = server; device = device }) ≡ []
unfolding make_user_id
newsletter_id newsletter user device h = refl
newsletter_id _ user device h = absurd cc

module _ (api : JidApi) (wa : Client) where
  abbrev pub UnderOwnId : Str × ChatMember → Type 0
  UnderOwnId e = e.1.sender.sender ≡ e.0

  sender_id : (j : Jid) → (make_event_sender api wa j).sender ≡ make_user_id j
  unfolding make_event_sender make_user_id
  sender_id j =
      if_split {A = EventSender} (λ s. s.sender ≡ make_user_id j) (server_eq j.server newsletter) _
        _ (λ e. sym (newsletter_id j.server j.user j.device e)) (λ e. refl)

  participant-UnderOwnId :
      (p : Participant) (m : MemberMap)
      → All UnderOwnId m
      → All UnderOwnId (add_participant api wa p m)
  unfolding add_participant
  participant-UnderOwnId p m h =
      let with_member : All UnderOwnId (set_member (make_user_id p.jid) (joined api wa p) m) =
        set-All UnderOwnId (make_user_id p.jid) (joined api wa p) m (sender_id p.jid) h in
      if_both (All UnderOwnId) (hides_phone api wa p) _ _
        (set-All UnderOwnId (make_user_id p.phone_number) (left api wa p.phone_number) _ refl
          with_member)
        with_member

  participants-UnderOwnId :
      (ps : List Participant) (m : MemberMap)
      → All UnderOwnId m
      → All UnderOwnId (add_participants api wa ps m)
  unfolding add_participants
  participants-UnderOwnId [] m h = h
  participants-UnderOwnId (p ∷ ps) m h =
      participants-UnderOwnId ps (add_participant api wa p m) (participant-UnderOwnId p m h)

  -- Neither the participant nor the phone number that it hides has this ID.
  abbrev pub HasOtherIds : Str → Participant → Type 0
  HasOtherIds k p =
      (str_eq (make_user_id p.jid) k ≡ false)
      × ((hides_phone api wa p && str_eq (make_user_id p.phone_number) k) ≡ false)

  find-other :
      (k : Str) (p : Participant) (m : MemberMap)
      → HasOtherIds k p
      → find_member k (add_participant api wa p m) ≡ find_member k m
  unfolding add_participant
  find-other k p m h =
      let with_member : MemberMap = set_member (make_user_id p.jid) (joined api wa p) m in
      let base : find_member k with_member ≡ find_member k m =
        find-set k (make_user_id p.jid) (joined api wa p) m
        ∙ ap (λ b. if b then some (joined api wa p) else find_member k m) h.0 in
      if_split (λ x. find_member k x ≡ find_member k m) (hides_phone api wa p) _ _
        (λ e.
          find-set k (make_user_id p.phone_number) (left api wa p.phone_number) with_member
          ∙ ap (λ b. if b then some (left api wa p.phone_number) else find_member k with_member)
              (hidden_false (hides_phone api wa p) (str_eq (make_user_id p.phone_number) k) e h.1)
          ∙ base)
        (λ e. base)

  finds-other :
      (k : Str) (ps : List Participant) (m : MemberMap)
      → All (HasOtherIds k) ps
      → find_member k (add_participants api wa ps m) ≡ find_member k m
  unfolding add_participants
  finds-other k [] m h = refl
  finds-other k (p ∷ ps) m h =
      finds-other k ps (add_participant api wa p m) h.1 ∙ find-other k p m h.0

  find-participant :
      (p : Participant) (m : MemberMap)
      → (hides_phone api wa p && str_eq (make_user_id p.phone_number) (make_user_id p.jid)) ≡ false
      → find_member (make_user_id p.jid) (add_participant api wa p m) ≡ some (joined api wa p)
  unfolding add_participant
  find-participant p m h =
      let k : Str = make_user_id p.jid in
      let with_member : MemberMap = set_member k (joined api wa p) m in
      let base : find_member k with_member ≡ some (joined api wa p) =
        find-set k k (joined api wa p) m
        ∙ ap (λ b. if b then some (joined api wa p) else find_member k m) (str_eq_refl k) in
      if_split (λ x. find_member k x ≡ some (joined api wa p)) (hides_phone api wa p) _ _
        (λ e.
          find-set k (make_user_id p.phone_number) (left api wa p.phone_number) with_member
          ∙ ap (λ b. if b then some (left api wa p.phone_number) else find_member k with_member)
              (hidden_false (hides_phone api wa p) (str_eq (make_user_id p.phone_number) k) e h)
          ∙ base)
        (λ e. base)

  find-among :
      (before after : List Participant) (p : Participant) (m : MemberMap)
      → (hides_phone api wa p && str_eq (make_user_id p.phone_number) (make_user_id p.jid)) ≡ false
      → All (HasOtherIds (make_user_id p.jid)) after
      → find_member (make_user_id p.jid) (add_participants api wa (before ++ (p ∷ after)) m)
        ≡ some (joined api wa p)
  unfolding add_participants
  find-among [] after p m h o =
      finds-other (make_user_id p.jid) after (add_participant api wa p m) o ∙ find-participant p m h
  find-among (q ∷ before) after p m h o = find-among before after p (add_participant api wa q m) h o

  -- In the members of a group that is synced, every member stands under the ID of its own sender.
  pub group_members-UnderOwnId :
      (info : GroupInfo)
      → (ms : ChatMembers) × ((wrap_group_info api wa info).members ≡ some ms)
        × All UnderOwnId ms.member_map
  unfolding wrap_group_info
  group_members-UnderOwnId info = (_, refl, participants-UnderOwnId info.participants [] tt)

  -- A participant of a group that is synced is a member that has joined, with the level of its role,
  -- if no later participant has its ID, itself or by the phone number that it hides, and its own
  -- hidden phone number has another ID.
  pub group_member_joined :
      (info : GroupInfo) (before after : List Participant) (p : Participant)
      → info.participants ≡ before ++ (p ∷ after)
      → (hides_phone api wa p && str_eq (make_user_id p.phone_number) (make_user_id p.jid)) ≡ false
      → All (HasOtherIds (make_user_id p.jid)) after
      → (ms : ChatMembers) × ((wrap_group_info api wa info).members ≡ some ms)
        × (find_member (make_user_id p.jid) ms.member_map ≡ some (joined api wa p))
  unfolding wrap_group_info
  group_member_joined info before after p e h o = (
    _,
    refl,
    ap (λ ps. find_member (make_user_id p.jid) (add_participants api wa ps [])) e
        ∙ find-among before after p [] h o,
  )
