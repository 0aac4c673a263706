-- ===== src/Storage/Messages/Summary.antt =====
-- internal/storage/repository.go: which message stands for its conversation in `GetConversations`.
use go_p2p_messenger.Base.{
  ◌≡◌, refl, sym, ◌∙◌, ap, subst, inl, inr, ◌↔◌, Text, codes, text_eq, text_eq_iff, text_lt,
  text_lt_antisymm, Bool, true, false, Option, none, some, List, [], ◌∷◌, ◌++◌, Permᴰ, arith, any,
  select, In, In-select_inv, In-select, Bool-cases, order_by, order_by-perm, perm-In,
}
use mathlib.Core.List.Permᴰ
use go_p2p_messenger.Storage.{MessageRow}
use go_p2p_messenger.Storage.Database.{Engine}
use go_p2p_messenger.Storage.Messages.{max_id, is_max, is_last, latest_first, summary_rows}
use go_p2p_messenger.Storage.Messages.Greatest.{
  max_id-some, max_id_greatest, max_id_attained, same_row,
}
use go_p2p_messenger.Storage.Messages.Save.{IsKeyed}

any_found :
    {A : Type 0} (p : A → Bool) (xs : List A) → any p xs ≡ true → (x : A) × In x xs × (p x ≡ true)
unfolding any
any_found p [] h = ground arith
any_found p (x ∷ xs) h = elim (Bool-cases (p x)) [
  | inl t ↦ (x, inl refl, t)
  | inr f ↦ (let (y, i, q) = any_found p xs (ground arith) in (y, inr i, q))
]

any_of_In :
    {A : Type 0} (p : A → Bool) (x : A) (xs : List A) → In x xs → p x ≡ true → any p xs ≡ true
unfolding any
any_of_In p x [] i h = absurd i
any_of_In p x (y ∷ ys) (inl e) h = rw (subst (λ z. p z ≡ true) e h, any) refl
any_of_In p x (y ∷ ys) (inr i) h = ground (arith, any_of_In p x ys i h)

found_of :
    (id : Text) (o : Option Text)
    → (elim o [ none ↦ false | some m ↦ text_eq id m ]) ≡ true
    → o ≡ some id
found_of id none h = ground arith
found_of id (some m) h = ground (arith, text_eq_iff id m)

is_max_found :
    (r s : MessageRow) (rows : List MessageRow)
    → is_max r s rows ≡ true
    → max_id s.conversation_id rows ≡ some r.id
unfolding is_max
is_max_found r s rows h = found_of r.id (max_id s.conversation_id rows) h

-- No id of the row's conversation is greater than the row's.
abbrev pub IsGreatest : List MessageRow → MessageRow → Type 0
IsGreatest rows r =
    (s : MessageRow) → In s rows → s.conversation_id ≡ r.conversation_id → text_lt r.id s.id ≡ false

module _ (rows : List MessageRow) (r : MessageRow) (k : IsKeyed rows) (h : In r rows) where
  IsGreatest-of_is_last : is_last rows r ≡ true → IsGreatest rows r
  unfolding is_last
  IsGreatest-of_is_last l =
      let (s₀, i₀, q) = any_found (λ s. is_max r s rows) rows l in
      let e = is_max_found r s₀ rows q in
      let (r', i, c, n) = max_id_attained s₀.conversation_id rows r.id e in
      let same = same_row rows r r' k h i (sym n) in
      λ s j d.
        max_id_greatest s₀.conversation_id rows r.id s e j
          (d ∙ ap (λ (y : MessageRow). y.conversation_id) same ∙ c)

  is_last_of_greatest : IsGreatest rows r → is_last rows r ≡ true
  unfolding is_last is_max
  is_last_of_greatest g =
      let (m, e) = max_id-some r.conversation_id rows r h refl in
      let (r', i, c, n) = max_id_attained r.conversation_id rows m e in
      let same : r.id ≡ m =
        text_lt_antisymm r.id m (subst (λ t. text_lt r.id t ≡ false) n (g r' i c))
          (max_id_greatest r.conversation_id rows m r e h refl) in
      any_of_In (λ s. is_max r s rows) r rows h (rw (e, is_max) ((text_eq_iff r.id m).1 same))

ordered-perm :
    (engine : Engine) (rows : List MessageRow)
    → Permᴰ
        (order_by latest_first (engine.scan MessageRow (select (is_last rows) rows)))
        (select (is_last rows) rows)
ordered-perm engine rows =
    Permᴰ.trans (order_by-perm latest_first (engine.scan MessageRow (select (is_last rows) rows)))
      (engine.scan-perm MessageRow (select (is_last rows) rows))

-- On a table with unique ids, a row stands for its conversation exactly when no id of the conversation
-- is greater, byte by byte.
pub summary_rows_iff :
    (engine : Engine) (rows : List MessageRow) (r : MessageRow)
    → IsKeyed rows
    → In r (summary_rows engine rows) ↔ (In r rows × IsGreatest rows r)
unfolding summary_rows
summary_rows_iff engine rows r k = (
  λ h.
      let (i, l) = In-select_inv (is_last rows) r rows (perm-In r (ordered-perm engine rows) h) in
      (i, IsGreatest-of_is_last rows r k i l),
  λ h.
      perm-In r (Permᴰ.symm (ordered-perm engine rows))
        (In-select (is_last rows) r rows h.0 (is_last_of_greatest rows r k h.0 h.1)),
)

text_lt_in_msg : (x y : Text) → text_lt (codes "in_" ++ x) (codes "msg_" ++ y) ≡ true
unfolding text_lt
text_lt_in_msg x y = refl

-- Where a conversation holds an outgoing message, whose id begins with `msg_`, no incoming message, with
-- an id `in_…`, is shown as its last one, however late it came.
pub summary_hides_incoming :
    (engine : Engine) (rows : List MessageRow) (r s : MessageRow) (x y : Text)
    → IsKeyed rows
    → In s rows
    → s.conversation_id ≡ r.conversation_id
    → r.id ≡ codes "in_" ++ x
    → s.id ≡ codes "msg_" ++ y
    → ¬ In r (summary_rows engine rows)
summary_hides_incoming engine rows r s x y k i c a b h =
    let g = ((summary_rows_iff engine rows r k).0 h).1 s i c in
    let lt : text_lt r.id s.id ≡ true = rw (a, b) (text_lt_in_msg x y) in cc (g, lt)
