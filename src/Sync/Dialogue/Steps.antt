-- ===== src/Sync/Dialogue/Steps.antt =====
-- internal/sync/client.go and internal/sync/server.go: what one round of the
-- client has to do with the frames that the node reads and sends.
use go_p2p_messenger.Base.{
  ◌≡◌, refl, sym, ◌∙◌, ap, subst, Bool, List, [], ◌∷◌, ◌++◌, arith, Bytes, append_assoc, ok, Exec,
  ok-injective, subst₂,
}
use mathlib.Core.List.{append_cancel_left, head-eq_of_cons-eq, tail-eq_of_cons-eq}
use go_p2p_messenger.Storage.{MessageRow}
use go_p2p_messenger.Storage.Database.{Engine}
use go_p2p_messenger.Sync.Wire.{FetchRequest, FetchResponse, SyncMessage, Codec, CodecLaws}
use go_p2p_messenger.Sync.Client.{Session, fetch_all}
use go_p2p_messenger.Sync.Server.Fetch.{IsReply}
use go_p2p_messenger.Sync.Server.Trace.{Served, idle, replied}
use go_p2p_messenger.Sync.Dialogue.{acknowledged, Saves}
use go_p2p_messenger.Sync.Dialogue.Rounds.{IsAck, IsRound}

-- Frames, and the requests as which the node reads them.
abbrev pub Reads : Codec → List Bytes → List FetchRequest → Type 0
Reads codec [] [] = Unit {0}
Reads codec [] (q ∷ qs) = ⊥
Reads codec (f ∷ fs) [] = ⊥
Reads codec (f ∷ fs) (q ∷ qs) = (codec.fetch.decode f ≡ ok q) × Reads codec fs qs

module _ (codec : Codec) where
  Reads-append :
      (fs gs : List Bytes) (qs rs : List FetchRequest)
      → Reads codec fs qs
      → Reads codec gs rs
      → Reads codec (fs ++ gs) (qs ++ rs)
  Reads-append [] gs [] rs h k = k
  Reads-append [] gs (q ∷ qs) rs h k = absurd h
  Reads-append (f ∷ fs) gs [] rs h k = absurd h
  Reads-append (f ∷ fs) gs (q ∷ qs) rs h k = (h.0, Reads-append fs gs qs rs h.1 k)

first_of :
    (fs : List Bytes) (a : Bytes) → (f : Bytes) × (rest : List Bytes) × (fs ++ a ∷ [] ≡ f ∷ rest)
first_of [] a = (a, [], refl)
first_of (f ∷ fs) a = (f, fs ++ a ∷ [], refl)

module _ {S : Type 0} (codec : Codec) (save_batch : List SyncMessage → Exec S (Unit {0})) where
  module _ (engine : Engine) (rows : List MessageRow) (laws : CodecLaws codec) where
    abbrev Answered : List Bytes → Bytes → List Bytes → Type 0
    Answered read answer rest =
        (request : Bytes) × (read' : List Bytes) × (req : FetchRequest) × (resp : FetchResponse)
        × (read ≡ request ∷ read')
        × (codec.fetch.decode request ≡ ok req)
        × IsReply rows req resp
        × (codec.fetched.encode resp ≡ ok answer)
        × Served engine codec rows read' rest

    Served-inv :
        (read sent : List Bytes) (answer : Bytes) (rest : List Bytes)
        → Served engine codec rows read sent
        → sent ≡ answer ∷ rest
        → Answered read answer rest
    Served-inv read sent answer rest idle e = ground arith
    Served-inv read sent answer rest (replied request reply req resp read' sent' d q w v) e = (
      request,
      read',
      req,
      resp,
      refl,
      d,
      q,
      w ∙ ap (λ x. ok x) (head-eq_of_cons-eq e),
      subst (λ x. Served engine codec rows read' x) (tail-eq_of_cons-eq e) v,
    )

    Reads-acks :
        (resp : FetchResponse) (ms : List SyncMessage) (acks : List Bytes)
        → IsAck codec save_batch resp.max_seq ms acks
        → Reads codec acks (acknowledged resp ms)
    unfolding acknowledged
    Reads-acks resp [] acks h = subst (λ x. Reads codec x []) (sym h) tt
    Reads-acks resp (m ∷ ms) acks h =
        subst (λ x. Reads codec x (record { after_seq = resp.max_seq; limit = 0 } ∷ [])) (sym h.2)
          (laws.ack_by_number (record { acked_seq = resp.max_seq }) h.0 h.1, tt)

    -- What one round has to do with the node: `out` are all frames that the client sends in the end, of
    -- which the node reads `read`.
    pub record Step (l l' : Session S) (more : Bool) (qs : List FetchRequest)
        (base extra out : List Bytes) : Type 0 where
      pub req : FetchRequest
      pub requests : List FetchRequest
      pub resp : FetchResponse
      pub oldest : qs ++ fetch_all ∷ [] ≡ req ∷ requests
      pub is_reply : IsReply rows req resp
      pub saves : Saves save_batch resp.messages l.store l'.store
      pub has_more : resp.has_more ≡ more
      pub frame : Bytes
      pub pending : List Bytes
      pub reads : Reads codec pending (requests ++ acknowledged resp resp.messages)
      pub outbox : l'.stream.outbox ≡ (base ++ frame ∷ []) ++ pending
      pub read : List Bytes
      pub served : Served engine codec rows read l'.stream.inbox
      pub closed : out ≡ (base ++ frame ∷ []) ++ (read ++ extra)

    -- The oldest frame that the node has not read, of those that the client has sent.
    abbrev Oldest : List Bytes → List FetchRequest → Type 0
    Oldest fs qs =
        (frame : Bytes) × (rest : List Bytes) × (req : FetchRequest) × (requests : List
          FetchRequest)
        × (fs ≡ frame ∷ rest)
        × (qs ≡ req ∷ requests)
        × (codec.fetch.decode frame ≡ ok req)
        × Reads codec rest requests

    Oldest-of :
        (fs : List Bytes) (qs : List FetchRequest) (a : Bytes)
        → Reads codec fs qs
        → codec.fetch.encode fetch_all ≡ ok a
        → Oldest (fs ++ a ∷ []) (qs ++ fetch_all ∷ [])
    Oldest-of [] [] a h e = (a, [], fetch_all, [], refl, refl, laws.fetch fetch_all a e, tt)
    Oldest-of [] (q ∷ qs) a h e = absurd h
    Oldest-of (f ∷ fs) [] a h e = absurd h
    Oldest-of (f ∷ fs) (q ∷ qs) a h e = (
      f,
      fs ++ a ∷ [],
      q,
      qs ++ fetch_all ∷ [],
      refl,
      refl,
      h.0,
      Reads-append codec fs (a ∷ []) qs (fetch_all ∷ []) h.1 (laws.fetch fetch_all a e, tt),
    )

    same_head :
        (base fs rest : List Bytes) (a frame request : Bytes) (acks w tail out : List Bytes)
        → fs ++ a ∷ [] ≡ frame ∷ rest
        → out ≡ (base ++ (fs ++ a ∷ acks)) ++ w
        → out ≡ base ++ (request ∷ tail)
        → request ≡ frame
    same_head base fs rest a frame request acks w tail out e p q = head-eq_of_cons-eq (
        append_cancel_left base (request ∷ tail) (frame ∷ (rest ++ (acks ++ w))) (
          sym q
          ∙ p
          ∙ append_assoc base (fs ++ a ∷ acks) w
          ∙ ap (λ x. base ++ (x ++ w)) (sym (append_assoc fs (a ∷ []) acks))
          ∙ ap (λ x. base ++ ((x ++ acks) ++ w)) e
          ∙ ap (λ x. base ++ frame ∷ x) (append_assoc rest acks w)))

    pub step :
        (l l' : Session S) (more : Bool) (fs : List Bytes) (qs : List FetchRequest)
        (base read extra w out : List Bytes)
        → IsRound codec save_batch l l' more
        → Reads codec fs qs
        → l.stream.outbox ≡ base ++ fs
        → Served engine codec rows read l.stream.inbox
        → out ≡ l'.stream.outbox ++ w
        → out ≡ base ++ (read ++ extra)
        → Step l l' more qs base extra out
    step l l' more fs qs base read extra w out r h o v p c =
        let (request, read', q, resp, er, d, is, en, v') =
          Served-inv read l.stream.inbox r.answer l'.stream.inbox v r.inbox in
        let (frame, rest, req, requests, ef, eq, d', hs) = Oldest-of fs qs r.asked h r.asks in
        let o' : l'.stream.outbox ≡ base ++ (fs ++ r.asked ∷ r.acks) =
          r.outbox ∙ ap (λ x. x ++ r.asked ∷ r.acks) o ∙ append_assoc base fs (r.asked ∷ r.acks) in
        let c' : out ≡ base ++ (request ∷ (read' ++ extra)) =
          c ∙ ap (λ x. base ++ (x ++ extra)) er in
        let same : request ≡ frame =
          same_head base fs rest r.asked frame request r.acks w (read' ++ extra) out ef
            (p ∙ ap (λ x. x ++ w) o') c' in
        let req_same : q ≡ req = ok-injective (sym d ∙ ap codec.fetch.decode same ∙ d') in
        let resp_same : resp ≡ r.resp =
          ok-injective (sym (laws.fetched resp r.answer en) ∙ r.answers) in
        record {
          req = req;
          requests = requests;
          resp = r.resp;
          oldest = eq;
          is_reply = subst₂ (λ x y. IsReply rows x y) req_same resp_same is;
          saves = r.saves;
          has_more = r.has_more;
          frame = frame;
          pending = rest ++ r.acks;
          reads =
              Reads-append codec rest r.acks requests (acknowledged r.resp r.resp.messages) hs
                (Reads-acks r.resp r.resp.messages r.acks r.is_ack);
          outbox =
              o'
              ∙ ap (λ x. base ++ x)
                  (sym (append_assoc fs (r.asked ∷ []) r.acks) ∙ ap (λ x. x ++ r.acks) ef)
              ∙ sym (append_assoc base (frame ∷ []) (rest ++ r.acks));
          read = read';
          served = v';
          closed =
              c'
              ∙ ap (λ x. base ++ (x ∷ (read' ++ extra))) same
              ∙ sym (append_assoc base (frame ∷ []) (read' ++ extra));
        }
