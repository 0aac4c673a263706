-- ===== src/Storage/Messages/Greatest.antt =====
-- internal/storage/repository.go: the `MAX(id)` of a conversation in `GetConversations`.
use go_p2p_messenger.Base.{
  ◌≡◌, refl, sym, ◌∙◌, ap, subst, inl, inr, ◌⊎◌, Text, text_eq, text_eq_iff, text_lt,
  text_lt_irrefl, text_lt-asymm, text_ge_trans, true, false, Option, none, some, List, [], ◌∷◌,
  arith, In, All-In, Bool-cases,
}
use mathlib.Core.Option.{some-injective}
use go_p2p_messenger.Storage.{MessageRow}
use go_p2p_messenger.Storage.Messages.{clash, greater, max_id}
use go_p2p_messenger.Storage.Messages.Save.{IsKeyed, Apart}

greater-ge : (below : Option Text) (id : Text) → text_lt (greater below id) id ≡ false
unfolding greater
greater-ge none id = text_lt_irrefl id
greater-ge (some m) id = ground (arith, text_lt_irrefl id, text_lt-asymm id m)

greater-ge_below : (m id : Text) → text_lt (greater (some m) id) m ≡ false
unfolding greater
greater-ge_below m id = ground (arith, text_lt_irrefl m)

pub max_id-some :
    (conversation : Text) (rows : List MessageRow) (r : MessageRow)
    → In r rows
    → r.conversation_id ≡ conversation
    → (m : Text) × (max_id conversation rows ≡ some m)
unfolding max_id
max_id-some c [] r h k = absurd h
max_id-some c (x ∷ rest) r (inl e) k =
    let t : text_eq x.conversation_id c ≡ true =
      (text_eq_iff x.conversation_id c).1
        (sym (ap (λ (y : MessageRow). y.conversation_id) e) ∙ k) in
    (greater (max_id c rest) x.id, rw (t, max_id) refl)
max_id-some c (x ∷ rest) r (inr i) k =
    let (m, e) = max_id-some c rest r i k in
    elim (Bool-cases (text_eq x.conversation_id c)) [
      | inl t ↦ (greater (max_id c rest) x.id, rw (t, max_id) refl)
      | inr f ↦ (m, rw (f, max_id) e)
    ]

-- The greatest id is an id of the conversation, and no id of it is greater.
pub max_id_greatest :
    (conversation : Text) (rows : List MessageRow) (m : Text) (s : MessageRow)
    → max_id conversation rows ≡ some m
    → In s rows
    → s.conversation_id ≡ conversation
    → text_lt m s.id ≡ false
unfolding max_id
max_id_greatest c [] m s e h k = absurd h
max_id_greatest c (r ∷ rest) m s e (inl i) k =
    let k' : r.conversation_id ≡ c = sym (ap (λ (y : MessageRow). y.conversation_id) i) ∙ k in
    subst (λ (y : MessageRow). text_lt m y.id ≡ false) (sym i)
      (ground (arith, text_eq_iff r.conversation_id c, greater-ge (max_id c rest) r.id))
max_id_greatest c (r ∷ rest) m s e (inr i) k =
    let (m', e') = max_id-some c rest s i k in
    text_ge_trans m m' s.id (ground (arith, text_lt_irrefl m', greater-ge_below m' r.id))
      (max_id_greatest c rest m' s e' i k)

greater-cases :
    (below : Option Text) (id : Text) → (greater below id ≡ id) ⊎ (below ≡ some (greater below id))
unfolding greater
greater-cases none id = inl refl
greater-cases (some m) id = ground arith

module _ (c : Text) (r : MessageRow) (rest : List MessageRow) where
  max_id_cons :
      text_eq r.conversation_id c ≡ true → max_id c (r ∷ rest) ≡ some (greater (max_id c rest) r.id)
  unfolding max_id
  max_id_cons t = rw (t, max_id) refl

  max_id_cons_other : text_eq r.conversation_id c ≡ false → max_id c (r ∷ rest) ≡ max_id c rest
  unfolding max_id
  max_id_cons_other f = rw (f, max_id) refl

pub max_id_attained :
    (conversation : Text) (rows : List MessageRow) (m : Text)
    → max_id conversation rows ≡ some m
    → (r : MessageRow) × In r rows × (r.conversation_id ≡ conversation) × (r.id ≡ m)
unfolding max_id
max_id_attained c [] m e = cc
max_id_attained c (r ∷ rest) m e = elim (Bool-cases (text_eq r.conversation_id c)) [
  | inl t ↦ elim (greater-cases (max_id c rest) r.id) [
    | inl g ↦ (
      r,
      inl refl,
      (text_eq_iff r.conversation_id c).0 t,
      sym g ∙ some-injective (greater (max_id c rest) r.id) m (sym (max_id_cons c r rest t) ∙ e),
    )
    | inr g ↦
        (let (x, i, k, n) = max_id_attained c rest (greater (max_id c rest) r.id) g in
          (
            x,
            inr i,
            k,
            n ∙ some-injective (greater (max_id c rest) r.id) m (sym (max_id_cons c r rest t) ∙ e),
          ))
  ]
  | inr f ↦
      (let (x, i, k, n) = max_id_attained c rest m (sym (max_id_cons_other c r rest f) ∙ e) in
        (x, inr i, k, n))
]

Apart-ids : (r s : MessageRow) → r.id ≡ s.id → ¬ Apart r s
unfolding clash
Apart-ids r s e a = ground (arith, text_eq_iff r.id s.id)

pub same_row :
    (rows : List MessageRow) (r s : MessageRow)
    → IsKeyed rows
    → In r rows
    → In s rows
    → r.id ≡ s.id
    → r ≡ s
same_row [] r s k h i e = absurd h
same_row (x ∷ rest) r s k (inl h) (inl i) e = h ∙ sym i
same_row (x ∷ rest) r s k (inl h) (inr i) e =
    let e' : x.id ≡ s.id = sym (ap (λ (y : MessageRow). y.id) h) ∙ e in
    absurd (Apart-ids x s e' (All-In (Apart x) s rest k.0 i))
same_row (x ∷ rest) r s k (inr h) (inl i) e =
    let e' : x.id ≡ r.id = sym (ap (λ (y : MessageRow). y.id) i) ∙ sym e in
    absurd (Apart-ids x r e' (All-In (Apart x) r rest k.0 h))
same_row (x ∷ rest) r s k (inr h) (inr i) e = same_row rest r s k.1 h i e
