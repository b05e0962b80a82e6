-- ===== src/Waid/Jid.antt =====
-- The WhatsApp address, `types.JID` of whatsmeow, with the fields that this repository reads. The
-- functions of that library are an interface, `JidApi`, with their documented behaviour apart.
use whatsapp.Common.{ℕ, ◌≡◌, refl, Bool, true, false, ◌&&◌, Option, [], arith, ◌==◌}
use whatsapp.Common.Text.{Str, str_eq, str_eq_refl, str_eq→eq}

-- A constructor for each server constant that the code names, and `other` for any other text.
pub data Server : Type 0 where
  default_user hidden_user bot group broadcast newsletter messenger : Server
  other : Str → Server

pub record Jid : Type 0 where
  pub user : Str
  pub server : Server
  pub device : ℕ  -- uint16

abbrev pub empty_jid : Jid
empty_jid = record { user = []; server = other []; device = 0 }

abbrev pub server_eq : Server → Server → Bool
server_eq default_user default_user = true
server_eq hidden_user hidden_user = true
server_eq bot bot = true
server_eq group group = true
server_eq broadcast broadcast = true
server_eq newsletter newsletter = true
server_eq messenger messenger = true
server_eq (other s) (other t) = str_eq s t
server_eq _ _ = false

-- Go's `==` on two values of the struct.
abbrev pub jid_eq : Jid → Jid → Bool
jid_eq a b = str_eq a.user b.user && server_eq a.server b.server && a.device == b.device

-- What the code takes from whatsmeow: `types.NewJID`, `JID.ToNonAD`, `JID.String`, `types.ParseJID`
-- (`none` stands for its error) and `JID.IsEmpty`.
pub record JidApi : Type 0 where
  pub new_jid : Str → Server → Jid
  pub to_non_ad : Jid → Jid
  pub to_string : Jid → Str
  pub parse_jid : Str → Option Jid
  pub is_empty : Jid → Bool

-- A JID with no device: what `ToNonAD` is documented to return.
abbrev pub non_ad : Jid → Jid
non_ad j = record j { device = 0 }

-- The documented behaviour of the constructors.
pub record IsJidApi (api : JidApi) : Type 0 where
  pub new_jid_lem :
      (u : Str) (s : Server) → api.new_jid u s ≡ record { user = u; server = s; device = 0 }
  pub to_non_ad_lem : (j : Jid) → api.to_non_ad j ≡ non_ad j

pub server_eq_refl : (s : Server) → server_eq s s ≡ true
server_eq_refl (other s) = str_eq_refl s
server_eq_refl default_user = refl
server_eq_refl hidden_user = refl
server_eq_refl bot = refl
server_eq_refl group = refl
server_eq_refl broadcast = refl
server_eq_refl newsletter = refl
server_eq_refl messenger = refl

pub server_eq→eq : (s t : Server) → server_eq s t ≡ true → s ≡ t
server_eq→eq (other s) (other t) h = cc (str_eq→eq s t h)
server_eq→eq default_user t h = ground arith
server_eq→eq _ t h = ground arith

pub jid_eq_refl : (j : Jid) → jid_eq j j ≡ true
jid_eq_refl j = ground (arith, str_eq_refl j.user, server_eq_refl j.server)

pub jid_eq→eq : (a b : Jid) → jid_eq a b ≡ true → a ≡ b
jid_eq→eq a b h = ground (arith, str_eq→eq a.user b.user, server_eq→eq a.server b.server)
