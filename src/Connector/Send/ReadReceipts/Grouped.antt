-- ===== src/Connector/Send/ReadReceipts/Grouped.antt =====
-- How the messages that are marked as read are grouped.
use whatsapp.Common.{
  ℕ, ◌≡◌, refl, arith, Bool, true, false, Option, some, List, [], ◌∷◌, ◌++◌, if◌then◌else◌,
  Bool-cases, inl, inr, Outcome, ok, err, panic, ◌∙◌, sym, All, ltb,
}
use whatsapp.Common.Text.{Str}
use whatsapp.Waid.Jid.{Jid, JidApi, jid_eq, jid_eq_refl, jid_eq→eq}
use whatsapp.Waid.Id.{IdError, ParsedMessageId, parse_message_id, parse_portal_id}
use whatsapp.Connector.Client.{Client}
use whatsapp.Connector.Send.ReadReceipts.{
  Groups, append_to, group_key, is_own, messages_to_read, add_parsed, MarkRead, ReadReceipt,
  mark_all, read_after, handle_matrix_read_receipt,
}

-- The IDs of a group; a group that is not there is empty.
abbrev pub ids_of : Jid → Groups → List Str
ids_of k [] = []
ids_of k ((j, ids) ∷ m) = let rest = ids_of k m in if jid_eq j k then ids else rest

module _ (api : JidApi) (wa : Client) where
  abbrev parsed_for : Jid → Outcome IdError ParsedMessageId → List Str
  parsed_for k (ok p) =
      if is_own api wa p then [] else if jid_eq (group_key api wa p) k then p.id ∷ [] else []
  parsed_for k _ = []

  -- The WhatsApp IDs of the messages of others, in order, that belong to a sender.
  abbrev pub ids_for : Jid → List Str → List Str
  ids_for k [] = []
  ids_for k (id ∷ ids) = parsed_for k (parse_message_id api id) ++ ids_for k ids

append-nil : (xs : List Str) → xs ++ [] ≡ xs
append-nil [] = refl
append-nil (x ∷ xs) = cc (append-nil xs)

append_assoc : (xs ys zs : List Str) → (xs ++ ys) ++ zs ≡ xs ++ (ys ++ zs)
append_assoc [] ys zs = refl
append_assoc (x ∷ xs) ys zs = cc (append_assoc xs ys zs)

jid_eq_trans : (a b c : Jid) → jid_eq a b ≡ true → jid_eq a c ≡ jid_eq b c
jid_eq_trans a b c e = rw (jid_eq→eq a b e)

-- No two groups have the same sender.
abbrev Distinct : Groups → Type 0
Distinct [] = Unit
Distinct ((k, ids) ∷ m) = All (λ p. jid_eq p.0 k ≡ false) m × Distinct m

-- What the first call for a sender marks.
abbrev pub calls_of : Jid → List MarkRead → List Str
calls_of k [] = []
calls_of k (c ∷ cs) = let rest = calls_of k cs in if jid_eq c.sender k then c.ids else rest

-- No two calls are for the same sender.
abbrev pub OneEach : List MarkRead → Type 0
OneEach [] = Unit
OneEach (c ∷ cs) = All (λ d. jid_eq d.sender c.sender ≡ false) cs × OneEach cs

append_to-All :
    (k key : Jid) (id : Str) (m : Groups)
    → jid_eq key k ≡ false
    → All (λ p. jid_eq p.0 k ≡ false) m
    → All (λ p. jid_eq p.0 k ≡ false) (append_to key id m)
unfolding append_to
append_to-All k key id [] n h = (n, tt)
append_to-All k key id ((j, ids) ∷ m) n h = elim (Bool-cases (jid_eq j key)) [
  | inl e ↦ rw e h
  | inr e ↦ rw e (h.0, append_to-All k key id m n h.1)
]

jid_eq_swap : (a b : Jid) → jid_eq a b ≡ false → jid_eq b a ≡ false
jid_eq_swap a b e = ground (arith, jid_eq→eq b a, jid_eq_refl a)

append_to-Distinct :
    (key : Jid) (id : Str) (m : Groups) → Distinct m → Distinct (append_to key id m)
unfolding append_to
append_to-Distinct key id [] d = (tt, tt)
append_to-Distinct key id ((j, ids) ∷ m) d = elim (Bool-cases (jid_eq j key)) [
  | inl e ↦ rw e d
  | inr e ↦
      rw e (append_to-All j key id m (jid_eq_swap j key e) d.0, append_to-Distinct key id m d.1)
]

other_key : (j k key : Jid) → jid_eq j k ≡ true → jid_eq j key ≡ false → jid_eq key k ≡ false
other_key j k key f e = ground (arith, jid_eq→eq key k, jid_eq→eq j k, jid_eq_refl j)

ids_of-append_to :
    (k key : Jid) (id : Str) (m : Groups)
    → ids_of k (append_to key id m) ≡ ids_of k m ++ (if jid_eq key k then id ∷ [] else [])
unfolding append_to
ids_of-append_to k key id [] = ground arith
ids_of-append_to k key id ((j, ids) ∷ m) = elim (Bool-cases (jid_eq j key)) [
  | inl e ↦ elim (Bool-cases (jid_eq key k)) [
    | inl f ↦ rw (e, jid_eq_trans j key k e, f)
    | inr f ↦ rw (e, jid_eq_trans j key k e, f) (sym (append-nil (ids_of k m)))
  ]
  | inr e ↦ elim (Bool-cases (jid_eq j k)) [
    | inl f ↦ rw (e, f, other_key j k key f e) (sym (append-nil ids))
    | inr f ↦ rw (e, f) (ids_of-append_to k key id m)
  ]
]

module _ (api : JidApi) (wa : Client) where
  ids_of-add_parsed :
      (k : Jid) (o : Outcome IdError ParsedMessageId) (m : Groups)
      → ids_of k (add_parsed api wa o m) ≡ ids_of k m ++ parsed_for api wa k o
  unfolding add_parsed
  ids_of-add_parsed k (ok p) m = elim (Bool-cases (is_own api wa p)) [
    | inl e ↦ rw e (sym (append-nil (ids_of k m)))
    | inr e ↦ rw e (ids_of-append_to k (group_key api wa p) p.id m)
  ]
  ids_of-add_parsed k (err e) m = sym (append-nil (ids_of k m))
  ids_of-add_parsed k panic m = sym (append-nil (ids_of k m))

  ids_of-messages_to_read :
      (k : Jid) (ids : List Str) (m : Groups)
      → ids_of k (messages_to_read api wa ids m) ≡ ids_of k m ++ ids_for api wa k ids
  unfolding messages_to_read
  ids_of-messages_to_read k [] m = sym (append-nil (ids_of k m))
  ids_of-messages_to_read k (id ∷ ids) m =
      ids_of-messages_to_read k ids (add_parsed api wa (parse_message_id api id) m)
      ∙ rw (ids_of-add_parsed k (parse_message_id api id) m)
          (append_assoc (ids_of k m) (parsed_for api wa k (parse_message_id api id)) _)

  messages_to_read-Distinct :
      (ids : List Str) (m : Groups) → Distinct m → Distinct (messages_to_read api wa ids m)
  unfolding messages_to_read add_parsed
  messages_to_read-Distinct [] m d = d
  messages_to_read-Distinct (id ∷ ids) m d =
      messages_to_read-Distinct ids (add_parsed api wa (parse_message_id api id) m)
        (step (parse_message_id api id))
    where
      step : (o : Outcome IdError ParsedMessageId) → Distinct (add_parsed api wa o m)
      step (ok p) = elim (Bool-cases (is_own api wa p)) [
        | inl e ↦ rw e d
        | inr e ↦ rw e (append_to-Distinct (group_key api wa p) p.id m d)
      ]
      step (err e) = d
      step panic = d

  calls_of-mark_all :
      (ts : ℕ) (chat k : Jid) (m : Groups) → calls_of k (mark_all api wa ts chat m) ≡ ids_of k m
  unfolding mark_all
  calls_of-mark_all ts chat k [] = refl
  calls_of-mark_all ts chat k ((j, ids) ∷ m) = rw (calls_of-mark_all ts chat k m)

  mark_all-OneEach :
      (ts : ℕ) (chat : Jid) (m : Groups) → Distinct m → OneEach (mark_all api wa ts chat m)
  unfolding mark_all
  mark_all-OneEach ts chat [] d = tt
  mark_all-OneEach ts chat ((k, ids) ∷ m) d = (others m d.0, mark_all-OneEach ts chat m d.1)
    where
      others :
          (n : Groups)
          → All (λ p. jid_eq p.0 k ≡ false) n
          → All (λ c. jid_eq c.sender k ≡ false) (mark_all api wa ts chat n)
      others [] h = tt
      others ((j, is) ∷ n) h = (h.0, others n h.1)

  -- A read receipt that moves the last read message forward, in a readable portal, marks the
  -- messages between the two by one call for each sender: the call for a sender has the IDs of that
  -- sender's messages, in order, without own messages and those whose ID is not read. In direct
  -- messages the call has a blank sender.
  pub marked_by_sender :
      (mark_read : MarkRead → Bool) (between : ℕ → ℕ → Option (List Str)) (r : ReadReceipt)
      (chat : Jid) (ids : List Str) (k : Jid)
      → ltb r.last_read r.read_up_to ≡ true
      → parse_portal_id api r.portal_id ≡ ok chat
      → between (read_after api wa mark_read r) r.read_up_to ≡ some ids
      → (calls_of k (handle_matrix_read_receipt api wa mark_read between r).actions
          ≡ ids_for api wa k ids)
        × OneEach (handle_matrix_read_receipt api wa mark_read between r).actions
  unfolding handle_matrix_read_receipt
  marked_by_sender mark_read between r chat ids k newer readable found =
      rw (newer, readable, found)
        (
          calls_of-mark_all r.timestamp chat k (messages_to_read api wa ids [])
              ∙ ids_of-messages_to_read k ids [],
          mark_all-OneEach r.timestamp chat _ (messages_to_read-Distinct ids [] tt),
        )
