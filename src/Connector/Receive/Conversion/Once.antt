-- ===== src/Connector/Receive/Conversion/Once.antt =====
-- pkg/connector/events.go: what happens once only, and which answers to retries lead to a download.
use whatsapp.Common.{bool_clash}
use whatsapp.Common.{
  Bool, true, false, ◌||◌, Option, none, some, List, [], ◌∷◌, ◌++◌, ok, err, ◌≡◌, inl, inr, refl,
  sym, ap, ◌∙◌, if_split, if_both, Bool-cases,
}
use whatsapp.Common.Text.{Str, str_eq, str_eq_refl}
use whatsapp.Waid.DbMeta.{MessageMetadata}
use whatsapp.Connector.Reroute.{MessageSource}
use whatsapp.Connector.Receive.Conversion.{
  edit_already_handled, MessageEvt, Edited, contains, convert_edit, handle_existing, edited_to,
  convert_undecryptable,
}

or-true : (b : Bool) → (b || true) ≡ true
or-true true = refl
or-true false = refl

contains-snoc :
    (x y : Str) (ys : List Str) → contains x ys ≡ true → contains x (ys ++ (y ∷ [])) ≡ true
contains-snoc x y [] h = absurd cc
contains-snoc x y (z ∷ ys) h = elim (Bool-cases (str_eq x z)) [
  | inl e ↦ rw e refl
  | inr e ↦ rw e (contains-snoc x y ys (sym (ap (λ b. b || contains x ys) e) ∙ h))
]

contains_last : (x : Str) (ys : List Str) → contains x (ys ++ (x ∷ [])) ≡ true
contains_last x [] = rw (str_eq_refl x) refl
contains_last x (y ∷ ys) = rw (contains_last x ys) (or-true (str_eq x y))

module _ {Msg Part : Type 0} (to_matrix : Msg → Option Part → List Part)
    (failed_media : Part → Option Str) where
  -- The metadata after message events were converted as edits, each with what the media edit cache has for it.
  abbrev pub after_edits : List (MessageEvt Msg × Option Part) → MessageMetadata → MessageMetadata
  after_edits [] meta = meta
  after_edits ((evt, cached) ∷ es) meta =
      after_edits es (convert_edit to_matrix failed_media evt cached meta).meta

  edit-grows :
      (id : Str) (evt : MessageEvt Msg) (cached : Option Part) (meta : MessageMetadata)
      → contains id meta.edits ≡ true
      → contains id (convert_edit to_matrix failed_media evt cached meta).meta.edits ≡ true
  unfolding convert_edit edited_to
  edit-grows id evt cached meta h =
      if_both {A = Edited Part} (λ e. contains id e.meta.edits ≡ true)
        evt.is_undecryptable_upsert_sub_event _ _ h
        (if_both {A = Edited Part} (λ e. contains id e.meta.edits ≡ true)
          (contains evt.id meta.edits) _ _ h (contains-snoc id evt.id meta.edits h))

  edits-grow :
      (id : Str) (es : List (MessageEvt Msg × Option Part)) (meta : MessageMetadata)
      → contains id meta.edits ≡ true
      → contains id (after_edits es meta).edits ≡ true
  edits-grow id [] meta h = h
  edits-grow id ((evt, cached) ∷ es) meta h =
      edits-grow id es (convert_edit to_matrix failed_media evt cached meta).meta
        (edit-grows id evt cached meta h)

  edit_recorded :
      (evt : MessageEvt Msg) (cached : Option Part) (meta : MessageMetadata)
      → evt.is_undecryptable_upsert_sub_event ≡ false
      → contains evt.id (convert_edit to_matrix failed_media evt cached meta).meta.edits ≡ true
  unfolding convert_edit edited_to
  edit_recorded evt cached meta n =
      if_split {A = Edited Part} (λ e. contains evt.id e.meta.edits ≡ true)
        evt.is_undecryptable_upsert_sub_event _ _ (λ s. absurd (bool_clash (sym n ∙ s)))
        (λ s.
          if_split {A = Edited Part} (λ e. contains evt.id e.meta.edits ≡ true)
            (contains evt.id meta.edits) _ _ (λ e. e) (λ e. contains_last evt.id meta.edits))

  refused :
      (evt : MessageEvt Msg) (cached : Option Part) (meta : MessageMetadata)
      → evt.is_undecryptable_upsert_sub_event ≡ false
      → contains evt.id meta.edits ≡ true
      → convert_edit to_matrix failed_media evt cached meta
        ≡ record { meta = meta; process_failed = false; result = err edit_already_handled }
  unfolding convert_edit
  refused evt cached meta n h =
      let P : Edited Part → Type 0 = λ e.
        e ≡ record { meta = meta; process_failed = false; result = err edit_already_handled } in
      if_split P evt.is_undecryptable_upsert_sub_event _ _ (λ s. absurd (bool_clash (sym n ∙ s)))
        (λ s.
          if_split P (contains evt.id meta.edits) _ _ (λ e. refl)
            (λ e. absurd (bool_clash (sym e ∙ h))))

  -- After an edit was converted, and after any other edits of the message after it, an edit with the
  -- same ID is ignored and changes nothing. Both are real edits, not decryptable versions.
  pub edit_handled_once :
      (evt again : MessageEvt Msg) (cached cached' : Option Part)
      (es : List (MessageEvt Msg × Option Part)) (meta : MessageMetadata)
      → evt.is_undecryptable_upsert_sub_event ≡ false
      → again.is_undecryptable_upsert_sub_event ≡ false
      → again.id ≡ evt.id
      → convert_edit to_matrix failed_media again cached' (after_edits ((evt, cached) ∷ es) meta)
        ≡ record {
          meta = after_edits ((evt, cached) ∷ es) meta;
          process_failed = false;
          result = err edit_already_handled;
        }
  edit_handled_once evt again cached cached' es meta n n' same =
      refused again cached' (after_edits ((evt, cached) ∷ es) meta) n' (
        ap (λ id. contains id (after_edits ((evt, cached) ∷ es) meta).edits) same
        ∙ edits-grow evt.id es (convert_edit to_matrix failed_media evt cached meta).meta
            (edit_recorded evt cached meta n))

  -- The decryptable version of a message whose notice was bridged becomes an edit to the first part
  -- that the message converts to, not shown as edited, whether or not it was converted before; it is no edit
  -- in the metadata.
  pub undecryptable_resolved :
      (broadcast view_once : Bool) (source : MessageSource) (evt : MessageEvt Msg)
      (cached : Option Part) (p : Part) (ps : List Part)
      → to_matrix evt.message none ≡ p ∷ ps
      → (sub : MessageEvt Msg) × (handle_existing to_matrix failed_media evt
            (convert_undecryptable broadcast view_once source).meta
          ≡ some sub)
        × ((convert_edit to_matrix failed_media sub cached
              (convert_undecryptable broadcast view_once source).meta).result
            ≡ ok (record { part = p; dont_render_edited = true }))
        × ((convert_edit to_matrix failed_media sub cached
              (convert_undecryptable broadcast view_once source).meta).meta
            ≡ (convert_undecryptable broadcast view_once source).meta)
  unfolding handle_existing convert_edit convert_undecryptable
  undecryptable_resolved broadcast view_once source evt cached p ps h =
      (record evt { is_undecryptable_upsert_sub_event = true }, refl, rw h refl, refl)
