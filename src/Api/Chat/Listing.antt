-- ===== src/Api/Chat/Listing.antt =====
-- internal/api/chat.go: which conversations `ListConversations` shows.
use go_p2p_messenger.Base.{
  ◌≡◌, ◌≢◌, refl, sym, ◌∙◌, ap, inl, inr, ◌⊎◌, Text, text_eq, text_eq_iff, true, false, Option,
  none, some, List, [], ◌∷◌, ◌++◌, map, any, arith, All, AllPairs, AllPairs-append, All-append,
  All-imp, All-of_In, In, In-append_left, In-append_right, if◌then◌else◌, Bool-cases,
}
use go_p2p_messenger.Storage.{Contact, ConversationSummary}
use go_p2p_messenger.Api.Chat.{
  ConversationDto, find_summary, summary_dto, contact_dto, is_listed, add_unlisted, conversations,
}
use go_p2p_messenger.Api.Chat.Entries.{
  Shows, IsContactEntry, summary_dto-Shows, summary_dto-id, find_summary-IsFound,
  contact_dto-IsContactEntry,
}

is_listed_iff :
    (id : Text) (dtos : List ConversationDto)
    → is_listed id dtos ≡ true
    → (d : ConversationDto) × In d dtos × (d.id ≡ id)
unfolding is_listed any
is_listed_iff id [] h = ground arith
is_listed_iff id (d ∷ rest) h = elim (Bool-cases (text_eq d.id id)) [
  | inl t ↦ (d, inl refl, ground (arith, text_eq_iff d.id id))
  | inr f ↦ let (x, i, e) = is_listed_iff id rest (ground arith) in (x, inr i, e)
]

unlisted :
    (id : Text) (dtos : List ConversationDto)
    → is_listed id dtos ≡ false
    → All (λ d. d.id ≢ id) dtos
unfolding is_listed any
unlisted id [] h = tt
unlisted id (d ∷ rest) h = (ground (arith, text_eq_iff d.id id), unlisted id rest (ground arith))

abbrev step : List ConversationDto → ConversationSummary → List ConversationDto
step dtos s = if is_listed s.conversation_id dtos then dtos else dtos ++ summary_dto s ∷ []

step-distinct :
    (dtos : List ConversationDto) (s : ConversationSummary)
    → AllPairs (λ a b. a.id ≢ b.id) dtos
    → AllPairs (λ a b. a.id ≢ b.id) (step dtos s)
unfolding summary_dto
step-distinct dtos s h = elim (Bool-cases (is_listed s.conversation_id dtos)) [
  | inl t ↦ rw t h
  | inr f ↦ rw f (
      AllPairs-append (λ a b. a.id ≢ b.id) dtos (summary_dto s ∷ []) h (tt, tt)
        (All-imp (λ d. d.id ≢ s.conversation_id) (λ d. All (λ b. d.id ≢ b.id) (summary_dto s ∷ []))
          (λ d n. (n, tt)) dtos (unlisted s.conversation_id dtos f)))
]

step-keeps :
    (dtos : List ConversationDto) (s : ConversationSummary) (d : ConversationDto)
    → In d dtos
    → In d (step dtos s)
step-keeps dtos s d i = elim (Bool-cases (is_listed s.conversation_id dtos)) [
  | inl t ↦ rw t i
  | inr f ↦ rw f (In-append_left d dtos (summary_dto s ∷ []) i)
]

step-lists :
    (dtos : List ConversationDto) (s : ConversationSummary)
    → (d : ConversationDto) × In d (step dtos s) × (d.id ≡ s.conversation_id)
unfolding summary_dto
step-lists dtos s = elim (Bool-cases (is_listed s.conversation_id dtos)) [
  | inl t ↦ rw t (is_listed_iff s.conversation_id dtos t)
  | inr f ↦
      rw f
        (summary_dto s, In-append_right (summary_dto s) dtos (summary_dto s ∷ []) (inl refl), refl)
]

add_unlisted-distinct :
    (dtos : List ConversationDto) (summaries : List ConversationSummary)
    → AllPairs (λ a b. a.id ≢ b.id) dtos
    → AllPairs (λ a b. a.id ≢ b.id) (add_unlisted dtos summaries)
unfolding add_unlisted
add_unlisted-distinct dtos [] h = h
add_unlisted-distinct dtos (s ∷ rest) h =
    add_unlisted-distinct (step dtos s) rest (step-distinct dtos s h)

add_unlisted-keeps :
    (dtos : List ConversationDto) (summaries : List ConversationSummary) (d : ConversationDto)
    → In d dtos
    → In d (add_unlisted dtos summaries)
unfolding add_unlisted
add_unlisted-keeps dtos [] d i = i
add_unlisted-keeps dtos (s ∷ rest) d i =
    add_unlisted-keeps (step dtos s) rest d (step-keeps dtos s d i)

add_unlisted-lists :
    (dtos : List ConversationDto) (summaries : List ConversationSummary)
    → All
        (λ s.
          (d : ConversationDto) × In d (add_unlisted dtos summaries) × (d.id ≡ s.conversation_id))
        summaries
unfolding add_unlisted
add_unlisted-lists dtos [] = tt
add_unlisted-lists dtos (s ∷ rest) = (
  (let (d, i, e) = step-lists dtos s in (d, add_unlisted-keeps (step dtos s) rest d i, e)),
  add_unlisted-lists (step dtos s) rest,
)

-- An entry is that of a contact, or of a summary without a contact.
abbrev pub IsEntry : List Contact → List ConversationSummary → ConversationDto → Type 0
IsEntry contacts summaries d =
    ((c : Contact) × In c contacts × IsContactEntry summaries c d)
    ⊎ ((s : ConversationSummary) × In s summaries × (d.id ≡ s.conversation_id) × Shows s d)

add_unlisted_sound :
    (P : ConversationDto → Type 0) (dtos : List ConversationDto)
    (summaries : List ConversationSummary)
    → All P dtos
    → All (λ s. P (summary_dto s)) summaries
    → All P (add_unlisted dtos summaries)
unfolding add_unlisted
add_unlisted_sound P dtos [] h k = h
add_unlisted_sound P dtos (s ∷ rest) h k =
    add_unlisted_sound P (step dtos s) rest
      (elim (Bool-cases (is_listed s.conversation_id dtos)) [
        | inl t ↦ rw t h
        | inr f ↦ rw f (All-append P dtos (summary_dto s ∷ []) h (k.0, tt))
      ])
      k.1

-- A list without two entries for one conversation, with one entry for every
-- contact, which shows the summary of that contact, and for every summary, and no others.
pub record IsListing (contacts : List Contact) (summaries : List ConversationSummary)
    (dtos : List ConversationDto) : Type 0 where
  pub distinct : AllPairs (λ a b. a.id ≢ b.id) dtos
  pub contacts_listed :
      All (λ c. (d : ConversationDto) × In d dtos × IsContactEntry summaries c d) contacts
  pub summaries_listed :
      All (λ s. (d : ConversationDto) × In d dtos × (d.id ≡ s.conversation_id)) summaries
  pub sound : All (IsEntry contacts summaries) dtos

module _ (contacts : List Contact) (summaries : List ConversationSummary) where
  abbrev entry : Contact → ConversationDto
  entry c = contact_dto c (find_summary c.peer_id summaries)

  contact_dto-id : (c : Contact) (o : Option ConversationSummary) → (contact_dto c o).id ≡ c.peer_id
  unfolding contact_dto
  contact_dto-id c none = refl
  contact_dto-id c (some s) = refl

  entries-distinct :
      (cs : List Contact)
      → AllPairs (λ a b. a.peer_id ≢ b.peer_id) cs
      → AllPairs (λ a b. a.id ≢ b.id) (map entry cs)
  entries-distinct [] h = tt
  entries-distinct (c ∷ cs) h = (others cs h.0, entries-distinct cs h.1)
    where
      others :
          (ds : List Contact)
          → All (λ b. c.peer_id ≢ b.peer_id) ds
          → All (λ b. (entry c).id ≢ b.id) (map entry ds)
      others [] k = tt
      others (d ∷ ds) k = (
        (λ e. k.0 (
            sym (contact_dto-id c (find_summary c.peer_id summaries))
            ∙ e
            ∙ contact_dto-id d (find_summary d.peer_id summaries))),
        others ds k.1,
      )

  In-map : (c : Contact) (cs : List Contact) → In c cs → In (entry c) (map entry cs)
  In-map c [] i = absurd i
  In-map c (x ∷ cs) (inl e) = inl (ap entry e)
  In-map c (x ∷ cs) (inr i) = inr (In-map c cs i)

  entry-IsContactEntry : (c : Contact) → IsContactEntry summaries c (entry c)
  entry-IsContactEntry c =
      contact_dto-IsContactEntry summaries c (find_summary c.peer_id summaries)
        (find_summary-IsFound c.peer_id summaries)

  entries_sound :
      (cs : List Contact)
      → ((c : Contact) → In c cs → In c contacts)
      → All (IsEntry contacts summaries) (map entry cs)
  entries_sound [] h = tt
  entries_sound (c ∷ cs) h =
      (inl (c, h c (inl refl), entry-IsContactEntry c), entries_sound cs (λ x i. h x (inr i)))

  -- For contacts with different peer ids, which the table's primary key gives: the list that
  -- `ListConversations` makes has no two entries for one conversation; it has an entry for every contact
  -- and for every summary, and no others. An entry of a contact shows the last message, its time and the
  -- unread count of a summary of the contact's conversation, or there is no such summary and it shows the
  -- time at which the contact was made and no unread messages; any other entry shows those of its summary.
  pub conversations-IsListing :
      AllPairs (λ a b. a.peer_id ≢ b.peer_id) contacts
      → IsListing contacts summaries (conversations contacts summaries)
  unfolding conversations
  conversations-IsListing h = record {
    distinct = add_unlisted-distinct (map entry contacts) summaries (entries-distinct contacts h);
    contacts_listed =
        All-of_In
          (λ c.
            (d : ConversationDto) × In d (add_unlisted (map entry contacts) summaries)
            × IsContactEntry summaries c d)
          contacts
          (λ c i. (
            entry c,
            add_unlisted-keeps (map entry contacts) summaries (entry c) (In-map c contacts i),
            entry-IsContactEntry c,
          ));
    summaries_listed = add_unlisted-lists (map entry contacts) summaries;
    sound =
        add_unlisted_sound (IsEntry contacts summaries) (map entry contacts) summaries
          (entries_sound contacts (λ c i. i))
          (All-of_In (λ s. IsEntry contacts summaries (summary_dto s)) summaries
            (λ s i. inr (s, i, summary_dto-id s, summary_dto-Shows s)));
  }
