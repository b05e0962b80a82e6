-- ===== src/Connector/Send/Steps.antt =====
-- The handlers of Matrix events as lists of actions with a result.
use whatsapp.Common.{ℕ, Option, none, some, List, [], ◌∷◌, Outcome, ok, err, panic}
use whatsapp.Waid.Id.{IdError}

-- Why a handler fails; the errors of the network are `failed`.
pub data SendError : Type 0 where
  bad_portal_id bad_message_id : IdError → SendError
  broadcast_send_disabled broadcast_reaction_unsupported : SendError
  bad_conversion bad_encryption failed : SendError
  bad_timer invite_to_dm name_of_dm topic_of_dm avatar_of_dm bad_avatar : SendError
  unknown_target no_participants no_last_message : SendError
  participant_refused : ℕ → SendError

-- What a handler of type `A` does, in order, and what it returns.
pub record Handled (Action A : Type 0) : Type 0 where
  pub actions : List Action
  pub result : Outcome SendError A

abbrev pub refuse : {Action A : Type 0} → SendError → Handled Action A
refuse e = record { actions = []; result = err e }

abbrev pub return : {Action A : Type 0} → A → Handled Action A
return a = record { actions = []; result = ok a }

-- `if err != nil { return fmt.Errorf(...) }` after an ID was parsed.
abbrev pub parsed :
    {Action A B : Type 0}
    → (IdError → SendError)
    → Outcome IdError B
    → (B → Handled Action A)
    → Handled Action A
parsed w (ok b) f = f b
parsed w (err e) f = refuse (w e)
parsed w panic f = record { actions = []; result = panic }

-- The same after a function of another package, which may fail.
abbrev pub given :
    {Action A B : Type 0} → SendError → Option B → (B → Handled Action A) → Handled Action A
given e none f = refuse e
given e (some b) f = f b

-- An action before the rest of the handler.
abbrev pub after : {Action A : Type 0} → Action → Handled Action A → Handled Action A
after a h = record { actions = a ∷ h.actions; result = h.result }
