-- ===== src/Ui/Screens/Identity.antt =====
-- internal/ui/screens/identity_screen.go: `IdentityScreen`.
pub mod Presses
use go_p2p_messenger.Base.{Text, Bytes, Option, none, some}
use go_p2p_messenger.Identity.{Crypto, Disk}
use go_p2p_messenger.Api.Node.{NodeService, get_status, generate_new_identity}

-- The entry, the status that `Render` reads once, and the clipboard.
pub record IdentityScreen (c : Crypto) : Type 0 where
  pub service : NodeService c
  pub disk : Disk
  pub rendered_id : Text
  pub id_value : Text
  pub clipboard : Option Text

module _ (c : Crypto) where
  -- `Render`
  unfoldable pub render : NodeService c → Disk → IdentityScreen c
  unfolding get_status
  render service disk = record {
    service = service;
    disk = disk;
    rendered_id = (get_status c service).device_id;
    id_value = (get_status c service).device_id;
    clipboard = none;
  }

  -- The button `Copy ID`.
  unfoldable pub copy : IdentityScreen c → IdentityScreen c
  copy s = record s { clipboard = some s.rendered_id }

  -- The button `Generate New Identity`, which looks at no error.
  unfoldable pub generate : Bytes → IdentityScreen c → IdentityScreen c
  unfolding generate_new_identity get_status
  generate entropy s =
      let (r, (service, disk)) = generate_new_identity c entropy (s.service, s.disk) in
      record s { service = service; disk = disk; id_value = (get_status c service).device_id }

  -- Presses of the buttons, by the random bytes where an identity is generated.
  pub data Press : Type 0 where
    copies : Press
    generates : Bytes → Press

  unfoldable pub press : Press → IdentityScreen c → IdentityScreen c
  unfolding copy generate
  press copies s = copy s
  press (generates entropy) s = generate entropy s
