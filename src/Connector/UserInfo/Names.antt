-- ===== src/Connector/UserInfo/Names.antt =====
-- pkg/connector/userinfo.go: the names of one person under both addresses.
use whatsapp.Common.{
  true, false, ◌&&◌, ◌||◌, none, some, [], ◌∷◌, ◌++◌, ◌≡◌, ◌≢◌, refl, sym, ap, ◌∙◌, arith,
  if◌then◌else◌,
}
use whatsapp.Common.Text.{Str, codes, str_eq, str_eq→eq}
use whatsapp.Waid.Jid.{default_user, hidden_user, Jid, JidApi, jid_eq, server_eq}
use whatsapp.Connector.UserInfo.{
  Contact, NamedJids, ContactStore, filled, agreed, merged_contact, contact_for, phone_for,
  named_contact, alt_jid, merged_by, merged_with, is_phone, phone_of_alt,
}

agreed-hidden : (own other : Str) → agreed false own other ≡ own
agreed-hidden own other = ground arith

agreed-phone : (l p : Str) → p ≢ [] → agreed true l p ≡ (if str_eq l [] then l else p)
agreed-phone l p h = ground (arith, str_eq→eq p [], str_eq→eq l p)

-- The name under the phone number, filled from the hidden address, is the name under the hidden
-- address, filled from the phone number and corrected by it.
names_agree : (p l : Str) → agreed false (filled p l) l ≡ agreed true (filled l p) p
names_agree [] [] = refl
names_agree [] (b ∷ l) = agreed-hidden (b ∷ l) (b ∷ l) ∙ refl
names_agree (a ∷ p) [] = agreed-hidden (a ∷ p) [] ∙ sym (agreed-phone (a ∷ p) (a ∷ p) (λ h. cc))
names_agree (a ∷ p) (b ∷ l) =
    agreed-hidden (a ∷ p) (b ∷ l) ∙ sym (agreed-phone (b ∷ l) (a ∷ p) (λ h. cc))

-- Names from a phone's address book stand under the phone number only.
abbrev pub HasNoBookNames : Contact → Type 0
HasNoBookNames c = (c.first_name ≡ []) × (c.full_name ≡ [])

same_contact :
    (f f' u u' p p' b b' : Str)
    → f ≡ f'
    → u ≡ u'
    → p ≡ p'
    → b ≡ b'
    → ◌≡◌ {A = Contact}
        (record { first_name = f; full_name = u; push_name = p; business_name = b })
        (record { first_name = f'; full_name = u'; push_name = p'; business_name = b' })
same_contact f f' u u' p p' b b' e1 e2 e3 e4 = rw (e1, e2, e3, e4) refl

merged-agree :
    (p l : Contact) → HasNoBookNames l → merged_contact false p l ≡ merged_contact true l p
unfolding merged_contact
merged-agree p l h =
    same_contact _ _ _ _ _ _ _ _ (sym (ap (λ x. filled x p.first_name) h.0))
      (sym (ap (λ x. filled x p.full_name) h.1)) (names_agree p.push_name l.push_name)
      (names_agree p.business_name l.business_name)

module _ (api : JidApi) (store : ContactStore) (names : NamedJids) where
  -- An address that has no name of its own.
  abbrev pub IsUnnamed : Jid → Type 0
  IsUnnamed j =
      (jid_eq j names.meta_ai ≡ false) × ((jid_eq j names.legacy_psa || jid_eq j names.psa) ≡ false)

  unnamed : (j : Jid) (c : Contact) → IsUnnamed j → named_contact names j c ≡ c
  unfolding named_contact
  unnamed j c h =
      let other : Contact =
        if jid_eq j names.legacy_psa || jid_eq j names.psa
        then record c { push_name = codes "WhatsApp" }
        else c in
      ap
        (λ b.
          if b && str_eq c.push_name j.user
          then record c { push_name = codes "Meta AI" }
          else other)
        h.0
      ∙ ap (λ b. if b then record c { push_name = codes "WhatsApp" } else c) h.1

  contact-alt :
      (j alt : Jid) (c extra : Contact)
      → IsUnnamed j
      → (is_phone j.server || server_eq j.server hidden_user) ≡ true
      → store.get_alt_jid j ≡ some alt
      → api.is_empty alt ≡ false
      → store.get_contact alt ≡ some extra
      → contact_for api store names j c ≡ merged_contact (is_phone alt.server) c extra
  unfolding contact_for alt_jid merged_by merged_with
  contact-alt j alt c extra u s a n e =
      ap (λ x. merged_by api store x (alt_jid api store j)) (unnamed j c u)
      ∙ ap (λ b. merged_by api store c (if b then store.get_alt_jid j else none)) s
      ∙ ap (λ o. merged_by api store c o) a
      ∙ ap (λ b. if b then c else merged_with (is_phone alt.server) c (store.get_contact alt)) n
      ∙ ap (λ o. merged_with (is_phone alt.server) c o) e

  -- Where a phone number and a hidden address are each the other's in the store, neither has a name
  -- of its own, and the hidden address has no names from an address book, the two get the same
  -- contact, out of which their display names are made, and the same phone.
  pub both_named_alike :
      (p l : Jid) (cp cl : Contact)
      → p.server ≡ default_user
      → l.server ≡ hidden_user
      → IsUnnamed p
      → IsUnnamed l
      → store.get_alt_jid p ≡ some l
      → store.get_alt_jid l ≡ some p
      → api.is_empty p ≡ false
      → api.is_empty l ≡ false
      → store.get_contact p ≡ some cp
      → store.get_contact l ≡ some cl
      → HasNoBookNames cl
      → (contact_for api store names p cp ≡ contact_for api store names l cl)
        × (phone_for api store p ≡ phone_for api store l)
  unfolding phone_for alt_jid phone_of_alt
  both_named_alike p l cp cl sp sl up ul ap_ al np nl gp gl nb = (
    contact-alt p l cp cl up (ap (λ s. is_phone s || server_eq s hidden_user) sp) ap_ nl gl
        ∙ ap (λ s. merged_contact (is_phone s) cp cl) sl
        ∙ merged-agree cp cl nb
        ∙ sym (ap (λ s. merged_contact (is_phone s) cl cp) sp)
        ∙ sym (
            contact-alt l p cl cp ul (ap (λ s. is_phone s || server_eq s hidden_user) sl) al np gp),
    ap
          (λ s.
            if is_phone s
            then codes "+" ++ p.user
            else phone_of_alt api store (alt_jid api store p))
          sp
        ∙ sym (
            ap
              (λ s.
                if is_phone s
                then codes "+" ++ l.user
                else phone_of_alt api store (alt_jid api store l))
              sl
            ∙ ap
                (λ s.
                  phone_of_alt api store
                    (if is_phone s || server_eq s hidden_user then store.get_alt_jid l else none))
                sl
            ∙ ap (λ o. phone_of_alt api store o) al
            ∙ ap (λ s. if is_phone s then codes "+" ++ p.user else []) sp),
  )
