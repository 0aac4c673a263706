-- ===== src/Transport/Pex/Laws.antt =====
-- internal/transport/pex.go: whom a peer exchange tells about.
use go_p2p_messenger.Base.{
  ◌≤◌, ◌<◌, ◌≡◌, ◌≢◌, refl, subst, inl, inr, ◌⊎◌, Text, Bytes, text_eq, text_eq_iff, text_eq_refl,
  Bool, true, false, ◌||◌, none, some, List, [], ◌∷◌, ◌++◌, any, length, length-append, arith, All,
  AllPairs, AllPairs-append, All-append, All-imp, In, In-append_left, In-append_right, Bool-cases,
}
use go_p2p_messenger.Transport.Pex.{AddrInfo, is_full, collect, handle_stream}

-- A list of peers that may be told: at most 50, without repetitions, none of them the one who asks, each
-- connected, with the addresses of the peerstore.
pub record IsExchange (peerstore : Text → List Bytes) (requester : Text) (conns : List Text)
    (peers : List AddrInfo) : Type 0 where
  pub bounded : length peers ≤ 50
  pub distinct : AllPairs (λ a b. a.id ≢ b.id) peers
  pub sound : All (λ a. (a.id ≢ requester) × In a.id conns × (a.addrs ≡ peerstore a.id)) peers
  pub complete :
      (p : Text)
      → In p conns
      → p ≢ requester
      → (length peers ≡ 50) ⊎ ((a : AddrInfo) × In a peers × (a.id ≡ p))

none_seen : (p : Text) → any (text_eq p) [] ≡ true → ⊥
unfolding any
none_seen p h = ground (arith, h)

is_full-length : (found : List AddrInfo) → is_full found ≡ true → 50 ≤ length found
unfolding is_full
is_full-length found h = ground arith

not_full-length : (found : List AddrInfo) → is_full found ≡ false → length found < 50
unfolding is_full
not_full-length found h = ground arith

module _ (peerstore : Text → List Bytes) (requester : Text) (conns : List Text) where
  -- The loop's invariant, after the connections before `rest`.
  record IsCollected (rest seen : List Text) (found : List AddrInfo) : Type 0 where
    bounded : length found < 50
    distinct : AllPairs (λ a b. a.id ≢ b.id) found
    sound : All (λ a. (a.id ≢ requester) × In a.id conns × (a.addrs ≡ peerstore a.id)) found
    known : All (λ a. any (text_eq a.id) seen ≡ true) found
    kept : (p : Text) → any (text_eq p) seen ≡ true → (a : AddrInfo) × In a found × (a.id ≡ p)
    done : (p : Text) → In p conns → p ≢ requester → In p rest ⊎ (any (text_eq p) seen ≡ true)
    within : (p : Text) → In p rest → In p conns

  module _ (p : Text) (rest seen : List Text) (found : List AddrInfo)
      (c : IsCollected (p ∷ rest) seen found) where
    abbrev entry : AddrInfo
    entry = record { id = p; addrs = peerstore p }

    skip : (text_eq p requester || any (text_eq p) seen) ≡ true → IsCollected rest seen found
    skip h = record {
      bounded = c.bounded;
      distinct = c.distinct;
      sound = c.sound;
      known = c.known;
      kept = c.kept;
      done = λ q i n. elim (c.done q i n) [
        | inl (inl e) ↦ inr (ground (arith, text_eq_iff p requester))
        | inl (inr j) ↦ inl j
        | inr k ↦ inr k
      ];
      within = λ q i. c.within q (inr i);
    }

    fresh-distinct :
        any (text_eq p) seen ≡ false → AllPairs (λ a b. a.id ≢ b.id) (found ++ entry ∷ [])
    fresh-distinct h =
        AllPairs-append (λ a b. a.id ≢ b.id) found (entry ∷ []) c.distinct (tt, tt)
          (All-imp (λ a. any (text_eq a.id) seen ≡ true) (λ a. All (λ b. a.id ≢ b.id) (entry ∷ []))
            (λ a k. ((λ e. ground (arith, subst (λ x. any (text_eq x) seen ≡ true) e k)), tt)) found
            c.known)

    fresh_sound :
        text_eq p requester ≡ false
        → All
            (λ a. (a.id ≢ requester) × In a.id conns × (a.addrs ≡ peerstore a.id))
            (found ++ entry ∷ [])
    fresh_sound h =
        All-append (λ a. (a.id ≢ requester) × In a.id conns × (a.addrs ≡ peerstore a.id)) found
          (entry ∷ []) c.sound
          ((ground (arith, text_eq_iff p requester), c.within p (inl refl), refl), tt)

    extend :
        text_eq p requester ≡ false
        → any (text_eq p) seen ≡ false
        → length (found ++ entry ∷ []) < 50
        → IsCollected rest (p ∷ seen) (found ++ entry ∷ [])
    unfolding any
    extend h k b = record {
      bounded = b;
      distinct = fresh-distinct k;
      sound = fresh_sound h;
      known =
          All-append (λ a. any (text_eq a.id) (p ∷ seen) ≡ true) found (entry ∷ [])
            (All-imp (λ a. any (text_eq a.id) seen ≡ true)
              (λ a. any (text_eq a.id) (p ∷ seen) ≡ true) (λ a x. ground (arith, x)) found c.known)
            (ground (arith, text_eq_refl p), tt);
      kept = λ q x. elim (Bool-cases (text_eq q p)) [
        | inl t ↦ (
          entry,
          In-append_right entry found (entry ∷ []) (inl refl),
          ground (arith, text_eq_iff q p),
        )
        | inr f ↦
            let (a, i, e) = c.kept q (ground (arith, x, f)) in
            (a, In-append_left a found (entry ∷ []) i, e)
      ];
      done = λ q i n. elim (c.done q i n) [
        | inl (inl e) ↦ inr (ground (arith, text_eq_iff q p))
        | inl (inr j) ↦ inl j
        | inr x ↦ inr (ground arith)
      ];
      within = λ q i. c.within q (inr i);
    }

    full :
        text_eq p requester ≡ false
        → any (text_eq p) seen ≡ false
        → 50 ≤ length (found ++ entry ∷ [])
        → IsExchange peerstore requester conns (found ++ entry ∷ [])
    full h k b = record {
      bounded = omega (arith, c.bounded, length-append found (entry ∷ []));
      distinct = fresh-distinct k;
      sound = fresh_sound h;
      complete = λ q i n. inl (omega (arith, b, c.bounded, length-append found (entry ∷ [])));
    }

  collect-IsExchange :
      (rest seen : List Text) (found : List AddrInfo)
      → IsCollected rest seen found
      → IsExchange peerstore requester conns (collect peerstore requester rest seen found)
  unfolding collect
  collect-IsExchange [] seen found c = record {
    bounded = omega (arith, c.bounded);
    distinct = c.distinct;
    sound = c.sound;
    complete = λ p i n. elim (c.done p i n) [ inl x ↦ absurd x | inr k ↦ inr (c.kept p k) ];
  }
  collect-IsExchange (p ∷ rest) seen found c =
      elim (Bool-cases (text_eq p requester || any (text_eq p) seen)) [
        | inl t ↦ rw t (collect-IsExchange rest seen found (skip p rest seen found c t))
        | inr f ↦ elim (Bool-cases (is_full (found ++ entry p rest seen found c ∷ []))) [
          | inl t ↦
              rw (f, t)
                (full p rest seen found c (ground (arith, f)) (ground (arith, f))
                  (is_full-length _ t))
          | inr g ↦
              rw (f, g)
                (collect-IsExchange rest (p ∷ seen) (found ++ entry p rest seen found c ∷ []) (
                  extend p rest seen found c (ground (arith, f)) (ground (arith, f))
                    (not_full-length _ g)))
        ]
      ]

  -- Whoever asks: an untrusted peer is told nothing, and a trusted one of at most 50 peers, without
  -- repetitions, itself not among them, each of them connected, with its addresses; and of all connected
  -- peers where these are fewer than 50.
  pub handle_stream-IsExchange :
      (is_trusted : Text → Bool)
      → ((is_trusted requester ≡ false)
          × (handle_stream is_trusted peerstore conns requester ≡ none))
        ⊎ ((is_trusted requester ≡ true)
            × ((peers : List AddrInfo) × (handle_stream is_trusted peerstore conns requester
                  ≡ some peers)
                × IsExchange peerstore requester conns peers))
  unfolding handle_stream
  handle_stream-IsExchange is_trusted = elim (Bool-cases (is_trusted requester)) [
    | inl t ↦ inr (
      t,
      (
        collect peerstore requester conns [] [],
        ground arith,
        collect-IsExchange conns [] [] (record {
          bounded = omega arith;
          distinct = tt;
          sound = tt;
          known = tt;
          kept = λ p h. absurd (none_seen p h);
          done = λ p i n. inl i;
          within = λ p i. i;
        }),
      ),
    )
    | inr f ↦ inl (f, ground arith)
  ]
