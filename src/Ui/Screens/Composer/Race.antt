-- ===== src/Ui/Screens/Composer/Race.antt =====
-- internal/ui/screens/direct_chat_screen.go: to whom a chat sends, and the race between the goroutine of
-- `onSend` and the reset of the entry.
use go_p2p_messenger.Base.{
  Text, false, List, [], ◌∷◌, text_eq, text_eq_iff, arith, All, All-append, All-append_left,
  All-append_right, Result, ok, err, ◌≡◌, ◌≢◌, refl, subst, Bool-cases, inl, inr,
}
use go_p2p_messenger.Ui.Screens.Composer.{
  idle, clearing, Composer, new_composer, decoded, on_send, clear, edit, call, Step, edits, sends,
  clears, runs, Reachable, starts, steps,
}

-- The screen works for the peer of its chat alone, and for none whose id does not decode; while `onSend`
-- is before its last statement, the entry has a text.
pub record IsComposed (peer : Result Text) (c : Composer) : Type 0 where
  pub called : All (λ x. peer ≡ ok x.0) c.calls
  pub waits : All (λ p. peer ≡ ok p) c.waiting
  pub typed : c.thread ≡ clearing → c.input ≢ []

module _ (peer : Result Text) where
  decoded-IsComposed :
      (r : Result Text) (c : Composer)
      → peer ≡ r
      → c.input ≢ []
      → IsComposed peer c
      → IsComposed peer (decoded r c)
  unfolding decoded
  decoded-IsComposed (err e) c h n i = i
  decoded-IsComposed (ok p) c h n i = record {
    called = i.called;
    waits = All-append (λ p. peer ≡ ok p) c.waiting (p ∷ []) i.waits (h, tt);
    typed = λ e. n;
  }

  Step-IsComposed : (c c' : Composer) → Step peer c c' → IsComposed peer c → IsComposed peer c'
  unfolding edit clear call on_send
  Step-IsComposed x y (edits c text e) i = record {
    called = i.called;
    waits = i.waits;
    typed = λ f. absurd (ground (arith, e, f));
  }
  Step-IsComposed x y (sends c e) i = elim (Bool-cases (text_eq c.input [])) [
    | inl t ↦ rw (t, on_send) i
    | inr f ↦
        rw (f, on_send)
          (decoded-IsComposed peer c refl
            (λ h. absurd (ground (arith, text_eq_iff c.input [], f, h))) i)
  ]
  Step-IsComposed x y (clears c e) i = record {
    called = i.called;
    waits = i.waits;
    typed = λ f. absurd (ground (arith, f));
  }
  Step-IsComposed x y (runs c p before after e) i =
      let w = subst (All (λ p. peer ≡ ok p)) e i.waits in
      let back = All-append_right (λ p. peer ≡ ok p) before (p ∷ after) w in
      record {
        called = All-append (λ x. peer ≡ ok x.0) c.calls ((p, c.input) ∷ []) i.called (back.0, tt);
        waits =
            All-append (λ p. peer ≡ ok p) before after
              (All-append_left (λ p. peer ≡ ok p) before (p ∷ after) w) back.1;
        typed = i.typed;
      }

  -- Whatever is typed and sent, and whenever the goroutines run: every call of `SendMessage` is for the peer
  -- of the chat, there is none where its id does not decode, and while `onSend` is before its last
  -- statement the entry has a text.
  pub Reachable-IsComposed : (c : Composer) → Reachable peer c → IsComposed peer c
  unfolding new_composer
  Reachable-IsComposed x starts = record {
    called = tt;
    waits = tt;
    typed = λ e. absurd (ground (arith, e));
  }
  Reachable-IsComposed x (steps b c r s) = Step-IsComposed b c s (Reachable-IsComposed b r)

  -- A state in which nothing is left to run, with these calls of `SendMessage`.
  abbrev pub Ends : List (Text × Text) → Text → Type 0
  Ends calls left =
      (c : Composer) × Reachable peer c
      × (c.calls ≡ calls)
      × (c.waiting ≡ [])
      × (c.thread ≡ idle)
      × (c.input ≡ left)

  typed_state : Text → Composer
  unfolding edit new_composer
  typed_state text = edit text new_composer

  sent_state : Text → Text → Composer
  sent_state p text = record { input = text; thread = clearing; waiting = p ∷ []; calls = [] }

  sent_state-Reachable :
      (p text : Text) → peer ≡ ok p → text ≢ [] → Reachable peer (sent_state p text)
  unfolding sent_state edit new_composer on_send decoded
  sent_state-Reachable p text h n =
      let f : text_eq text [] ≡ false = ground (arith, text_eq_iff text [], n) in
      subst (Reachable peer) (rw (f, on_send, h, decoded) refl) (
        steps (edit text new_composer) (on_send peer (edit text new_composer))
          (steps new_composer (edit text new_composer) starts (edits new_composer text refl))
          (sends (edit text new_composer) refl))

  -- Whatever text is typed and sent once, and whatever is typed into the entry after that: the message that
  -- is sent may have the text as typed, and it may instead have what was typed afterwards, or no text at all.
  pub send-Ends :
      (p text later : Text)
      → peer ≡ ok p
      → text ≢ []
      → Ends ((p, text) ∷ []) [] × Ends ((p, later) ∷ []) later × Ends ((p, []) ∷ []) []
  unfolding sent_state edit clear call
  send-Ends p text later h n =
      let sent = sent_state p text in
      let r = sent_state-Reachable p text h n in
      let ran = call p [] sent in
      let cleared = clear sent in
      let r' = steps sent cleared r (clears sent refl) in
      let typed = edit later cleared in
      (
        (
          clear ran,
          steps ran (clear ran) (steps sent ran r (runs sent p [] [] refl)) (clears ran refl),
          refl,
          refl,
          refl,
          refl,
        ),
        (
          call p [] typed,
          steps typed (call p [] typed) (steps cleared typed r' (edits cleared later refl))
              (runs typed p [] [] refl),
          refl,
          refl,
          refl,
          refl,
        ),
        (
          call p [] cleared,
          steps cleared (call p [] cleared) r' (runs cleared p [] [] refl),
          refl,
          refl,
          refl,
          refl,
        ),
      )
