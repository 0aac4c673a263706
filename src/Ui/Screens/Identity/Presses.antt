-- ===== src/Ui/Screens/Identity/Presses.antt =====
-- internal/ui/screens/identity_screen.go: what the entry shows and what the button `Copy ID` copies.
use go_p2p_messenger.Base.{
  ◌≡◌, refl, ap, inl, inr, ◌⊎◌, Text, Bytes, none, some, List, [], ◌∷◌, Result, ok, err, arith,
  ok-injective,
}
use go_p2p_messenger.Identity.{Crypto, Identity, Disk, device_id}
use go_p2p_messenger.Identity
use go_p2p_messenger.Api.Node.{NodeService, get_status, generate_new_identity, adopt}
use go_p2p_messenger.Ui.Screens.Identity.{
  IdentityScreen, render, copy, generate, Press, copies, generates, press,
}

module _ (c : Crypto) where
  unfoldable pub press_all : List (Press c) → IdentityScreen c → IdentityScreen c
  press_all [] s = s
  press_all (p ∷ ps) s = press_all ps (press c p s)

  -- The entry shows the id of the service's identity; the clipboard has at most the id from the rendering.
  abbrev pub IsLabelled : Text → IdentityScreen c → Type 0
  IsLabelled first s =
      (s.id_value ≡ device_id c s.service.ident)
      × (s.rendered_id ≡ first)
      × ((s.clipboard ≡ none) ⊎ (s.clipboard ≡ some first))

  press-IsLabelled :
      (first : Text) (p : Press c) (s : IdentityScreen c)
      → IsLabelled first s
      → IsLabelled first (press c p s)
  unfolding press copy generate get_status
  press-IsLabelled first (copies) s (a, b, d) = (a, b, inr (ap (λ x. some x) b))
  press-IsLabelled first (generates entropy) s (a, b, d) = (refl, b, d)

  press_all-IsLabelled :
      (first : Text) (ps : List (Press c)) (s : IdentityScreen c)
      → IsLabelled first s
      → IsLabelled first (press_all ps s)
  unfolding press_all
  press_all-IsLabelled first [] s h = h
  press_all-IsLabelled first (p ∷ ps) s h =
      press_all-IsLabelled first ps (press c p s) (press-IsLabelled first p s h)

  adopted-ident :
      (r : Result (Identity.Identity c)) (service : NodeService c) (ident : Identity.Identity c)
      → r ≡ ok ident
      → (adopt c r service).1.ident ≡ ident
  unfolding adopt
  adopted-ident (ok x) service ident e = ok-injective e
  adopted-ident (err x) service ident e = absurd (ground (arith, e))

  -- Whatever the buttons are pressed: the entry shows the id of the service's identity, and the clipboard has
  -- nothing or the id that the service had when the screen was rendered. So after a new identity has been
  -- generated, the entry shows its id, and `Copy ID` copies the old one.
  pub presses-IsLabelled :
      (ps : List (Press c)) (entropy : Bytes) (service : NodeService c) (disk : Disk)
      (ident : Identity c)
      → (Identity.generate c entropy disk).0 ≡ ok ident
      → IsLabelled (device_id c service.ident) (press_all ps (render c service disk))
        × (let s = copy c (generate c entropy (render c service disk)) in
            (s.id_value ≡ device_id c ident) × (s.clipboard ≡ some (device_id c service.ident)))
  unfolding render copy generate get_status generate_new_identity
  presses-IsLabelled ps entropy service disk ident e = (
    press_all-IsLabelled (device_id c service.ident) ps (render c service disk)
        (refl, refl, inl refl),
    (ap (device_id c) (adopted-ident (Identity.generate c entropy disk).0 service ident e), refl),
  )
