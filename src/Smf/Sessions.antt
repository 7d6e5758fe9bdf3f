-- ===== src/Smf/Sessions.antt =====
-- The endpoint of the SMF (smf/main.go) and the UPF (upf/pkg/upf/upf.go) together: the sessions that the
-- requests to the endpoint leave in the UPF.
use openmvn.Common.{
  ℕ, zero, suc, ◌≤◌, ◌<◌, ◌≡◌, refl, sym, ap, ◌∙◌, Bool, true, false, Option, some, List, [], ◌∷◌,
  ◌++◌, String, ◌⊎◌, inl, inr, nat_key, arith, take, length, length-append, Bool-cases,
  Option-cases,
}
use mathlib.Core.Path.{subst}
use openmvn.Common.Map.{insert}
use openmvn.Common.Clock.{Time}
use openmvn.Events.{Bus}
use openmvn.Pfcp.{Message}
use openmvn.Upf.{
  Session, Sessions, Upf, get_session_count, serve_pfcp, handle_pfcp, dispatch, new_session,
  send_pfcp, handle_session_establishment_request,
}
use openmvn.Smf.{
  Bytes, Libraries, Socket, Outcome, read_reply, create_session, establishment_request, only_seid,
  Field, missing, invalid, value, GtpRequest, Smf, finish, Outside, handle_request,
}
use openmvn.Smf.Attach.{received_by, upf_reads}

-- A request to the endpoint, and the circumstances at the SMF and at the UPF.
pub record Attach : Type 0 where
  pub request : GtpRequest
  pub outside : Outside
  pub smf_addr : String
  pub write_ok : Bool
  pub now : ℕ → Time

pub record Core : Type 0 where
  pub smf : Smf
  pub upf : Upf

-- The datagrams that have been written after the first so many.
abbrev pub behind : ℕ → List Bytes → List Bytes
behind zero l = l
behind (suc n) [] = []
behind (suc n) (x ∷ xs) = behind n xs

-- The UPF reads datagrams.
abbrev pub reads_all : Libraries → Attach → List Bytes → Upf → Upf
reads_all lib a [] u = u
reads_all lib a (d ∷ ds) u = reads_all lib a ds (upf_reads lib d a.smf_addr a.write_ok a.now u)

-- The endpoint handles the request, and the UPF reads the datagrams that it has written meanwhile.
abbrev pub attach : Libraries → Attach → Core → Core
attach lib a w =
    let after = (handle_request lib a.outside a.request w.smf).0 in
    record {
      smf = after;
      upf = reads_all lib a (behind (length w.smf.socket.written) after.socket.written) w.upf;
    }

abbrev pub attach_all : Libraries → List Attach → Core → Core
attach_all lib [] w = w
attach_all lib (a ∷ rest) w = attach_all lib rest (attach lib a w)

-- The PFCP library decodes the first 1500 bytes of an establishment request that it has encoded to that
-- request.
abbrev pub CarriesRequests : Libraries → Type 0
CarriesRequests lib =
    (seid : ℕ) (ue_ip : Bytes) (teid : ℕ) (b : Bytes)
    → lib.marshal (establishment_request seid (lib.show_ip ue_ip) teid) ≡ some b
    → lib.parse (take 1500 b) ≡ some (establishment_request seid (lib.show_ip ue_ip) teid)

-- A datagram with an establishment request for the one SEID.
abbrev IsRequest : Libraries → Bytes → Type 0
IsRequest lib b =
    (ue_ip : Bytes) × (teid : ℕ) × (lib.marshal
        (establishment_request only_seid (lib.show_ip ue_ip) teid)
      ≡ some b)

-- What has been written, before and after: the same, or one request more.
abbrev Writes : Libraries → List Bytes → List Bytes → Type 0
Writes lib l m = (m ≡ l) ⊎ ((b : Bytes) × IsRequest lib b × (m ≡ l ++ b ∷ []))

read_reply-written : (lib : Libraries) (s : Socket) → (read_reply lib s).0.written ≡ s.written
unfolding read_reply
read_reply-written lib s = of_inbox s.inbox s.written
  where
    of_inbox :
        (i l : List Bytes) → (read_reply lib (record { inbox = i; written = l })).0.written ≡ l
    of_inbox [] l = refl
    of_inbox (d ∷ ds) l = refl

module _ (lib : Libraries) where
  create_session-Writes :
      (ue_ip : Bytes) (teid : ℕ) (writes : Bool) (arrivals : List Bytes) (s : Socket)
      → Writes lib s.written (create_session lib only_seid ue_ip teid writes arrivals s).0.written
  unfolding create_session
  create_session-Writes ue_ip teid writes arrivals s =
      elim (Option-cases (lib.marshal (establishment_request only_seid (lib.show_ip ue_ip) teid))) [
        | inl e ↦ inl (rw (create_session, e) refl)
        | inr (b, e) ↦ elim (Bool-cases writes) [
          | inl good ↦
              inr (b, (ue_ip, teid, e), rw (create_session, e, good) (read_reply-written lib _))
          | inr fails ↦ inl (rw (create_session, e, fails) refl)
        ]
      ]

  finish-socket :
      (req : GtpRequest) (ue_ip : Bytes) (teid : ℕ) (encodes : Bool) (now : Time)
      (p : Socket × Outcome) (bus : Bus)
      → (finish lib req ue_ip teid encodes now p bus).0.socket ≡ p.0
  unfolding finish
  finish-socket req ue_ip teid encodes now (socket, outcome) bus = ground arith

  handle_request-Writes :
      (out : Outside) (req : GtpRequest) (s : Smf)
      → Writes lib s.socket.written (handle_request lib out req s).0.socket.written
  unfolding handle_request
  handle_request-Writes out req s = by_fields req.paa req.sender_teid refl refl
    where
      by_fields :
          (paa : Field Bytes) (teid : Field ℕ)
          → req.paa ≡ paa
          → req.sender_teid ≡ teid
          → Writes lib s.socket.written (handle_request lib out req s).0.socket.written
      by_fields missing t e f = inl (rw (handle_request, e) refl)
      by_fields invalid t e f = inl (rw (handle_request, e) refl)
      by_fields (value ue_ip) missing e f = inl (rw (handle_request, e, f) refl)
      by_fields (value ue_ip) invalid e f = inl (rw (handle_request, e, f) refl)
      by_fields (value ue_ip) (value teid) e f =
          rw (handle_request, e, f)
            (subst (λ x. Writes lib s.socket.written x.written)
              (sym (finish-socket req ue_ip teid out.encodes out.now _ s.bus))
              (create_session-Writes ue_ip teid out.writes out.arrivals s.socket))

behind_all : (l : List Bytes) → behind (length l) l ≡ []
behind_all [] = refl
behind_all (x ∷ xs) = behind_all xs

behind-append : (l m : List Bytes) → behind (length l) (l ++ m) ≡ m
behind-append [] m = refl
behind-append (x ∷ xs) m = behind-append xs m

abbrev IsShared : Sessions → Type 0
IsShared s = (session : Session) × (s ≡ (only_seid, session) ∷ [])

-- The UPF before and after the requests: it has no session and nothing has been written, or it has one
-- session and something has been written.
abbrev Kept : List Bytes → Core → Type 0
Kept l w =
    ((w.upf.sessions ≡ []) × (w.smf.socket.written ≡ l))
    ⊎ (IsShared w.upf.sessions × (length l < length w.smf.socket.written))

establish :
    (now : ℕ → Time) (s : Sessions)
    → (s ≡ []) ⊎ IsShared s
    → IsShared (insert only_seid (new_session only_seid now) s)
unfolding insert
establish now s (inl e) = (new_session only_seid now, rw e refl)
establish now s (inr (old, e)) = (new_session only_seid now, rw e refl)

module _ (lib : Libraries) (carries : CarriesRequests lib) where
  told :
      (m : Option Message) (ue_ip : String) (teid : ℕ) (addr : String) (write_ok : Bool)
      (now : ℕ → Time) (u : Upf)
      → m ≡ some (establishment_request only_seid ue_ip teid)
      → (serve_pfcp (received_by m addr write_ok now ∷ []) u).sessions
        ≡ insert only_seid (new_session only_seid now) u.sessions
  unfolding serve_pfcp handle_pfcp dispatch handle_session_establishment_request send_pfcp
  told m ue_ip teid addr true now u e =
      ap (λ o. (serve_pfcp (received_by o addr true now ∷ []) u).sessions) e
  told m ue_ip teid addr false now u e =
      ap (λ o. (serve_pfcp (received_by o addr false now ∷ []) u).sessions) e

  request_read :
      (a : Attach) (b : Bytes) (u : Upf)
      → IsRequest lib b
      → (u.sessions ≡ []) ⊎ IsShared u.sessions
      → IsShared (reads_all lib a (b ∷ []) u).sessions
  request_read a b u (ue_ip, teid, e) before =
      subst IsShared
        (sym (
          told _ (lib.show_ip ue_ip) teid a.smf_addr a.write_ok a.now u
            (carries only_seid ue_ip teid b e)))
        (establish a.now u.sessions before)

  before_of :
      {l : List Bytes} (w : Core) → Kept l w → (w.upf.sessions ≡ []) ⊎ IsShared w.upf.sessions
  before_of w (inl (e, _)) = inl e
  before_of w (inr (shared, _)) = inr shared

  at_least : {l : List Bytes} (w : Core) → Kept l w → length l ≤ length w.smf.socket.written
  at_least w (inl (_, e)) = rw e (omega arith)
  at_least w (inr (_, more)) = omega arith

  attach-Kept : (l : List Bytes) (a : Attach) (w : Core) → Kept l w → Kept l (attach lib a w)
  attach-Kept l a w h =
      let old = w.smf.socket.written in
      let new = (handle_request lib a.outside a.request w.smf).0.socket.written in
      elim (handle_request-Writes lib a.outside a.request w.smf) [
        | inl same ↦ rw (same, behind_all old) h
        | inr (b, req, e) ↦
            let one : behind (length old) new ≡ b ∷ [] =
              ap (behind (length old)) e ∙ behind-append old (b ∷ []) in
            inr (
              subst (λ ds. IsShared (reads_all lib a ds w.upf).sessions) (sym one)
                  (request_read a b w.upf req (before_of w h)),
              rw e (omega (arith, at_least w h, length-append old (b ∷ []))),
            )
      ]

  attach_all-Kept :
      (l : List Bytes) (calls : List Attach) (w : Core) → Kept l w → Kept l (attach_all lib calls w)
  attach_all-Kept l [] w h = h
  attach_all-Kept l (a ∷ rest) w h = attach_all-Kept l rest (attach lib a w) (attach-Kept l a w h)

  -- However many requests the endpoint handles, whatever their UEs and TEIDs and whatever fails, at a UPF
  -- without sessions that gets what the endpoint sends: the UPF ends up with one session if the endpoint
  -- has sent anything, and with none otherwise. The PFCP library is to decode the establishment requests
  -- that it has encoded.
  pub attach_all-count :
      (calls : List Attach) (w : Core)
      → w.upf.sessions ≡ []
      → let after = attach_all lib calls w in
        ((get_session_count after.upf ≡ 0) × (after.smf.socket.written ≡ w.smf.socket.written))
        ⊎ ((get_session_count after.upf ≡ 1)
            × (length w.smf.socket.written < length after.smf.socket.written))
  unfolding get_session_count
  attach_all-count calls w e = elim (attach_all-Kept w.smf.socket.written calls w (inl (e, refl))) [
    | inl (none_yet, same) ↦ inl (rw (get_session_count, none_yet) refl, same)
    | inr ((session, shared), more) ↦ inr (rw (get_session_count, shared) refl, more)
  ]
