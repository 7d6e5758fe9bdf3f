-- ===== src/Upf/Widths.antt =====
-- The numbers of the UPF (upf/pkg/upf/upf.go) and of the requests of the SMF (smf/main.go) stand for Go's
-- uint8, uint16, uint32 and uint64: they stay within these types.
use openmvn.Common.{
  ℕ, ◌<◌, ◌^◌, ◌%◌, ◌≡◌, refl, Bool, true, false, Option, none, some, List, [], ◌∷◌, String, arith,
  nat_key, Option-cases, inl, inr, All, All-append,
}
use openmvn.Common.Map.{lookup, Entries, insert-Entries, delete-Entries, lookup-Entries}
use openmvn.Common.Clock.{Time}
use openmvn.Pfcp.{
  Header, Ie, node_id, f_seid, cause_request_accepted, recovery_time_stamp, create_pdr, create_far,
  Message, heartbeat_request, heartbeat_response, association_setup_request,
  association_setup_response, session_establishment_request, session_establishment_response,
  session_modification_request, session_modification_response, session_deletion_request,
  session_deletion_response, other,
}
use openmvn.Upf.{
  Session, Sessions, Upf, response_header, new_session, dispatch,
  handle_session_modification_request, send_pfcp, handle_pfcp, Received, read_error, parse_error,
  message, serve_pfcp,
}
use openmvn.Smf.{establishment_request}

-- A number fits into a word of so many bits.
abbrev pub Fits : ℕ → ℕ → Type 0
Fits bits n = n < 2 ^ bits

abbrev pub HeaderFits : Header → Type 0
HeaderFits h =
    Fits 8 h.mp
    × Fits 8 h.fo
    × Fits 64 h.seid
    × Fits 32 h.sequence_number
    × Fits 8 h.message_priority

abbrev pub IeFits : Ie → Type 0
IeFits (node_id n) = Unit
IeFits (f_seid seid ip) = Fits 64 seid
IeFits cause_request_accepted = Unit
IeFits (recovery_time_stamp t) = Unit
IeFits (create_pdr p) =
    Fits 16 p.pdr_id × Fits 32 p.precedence × Fits 32 p.teid × Fits 8 p.outer_header_removal
IeFits (create_far f) = Fits 32 f.far_id × Fits 8 f.apply_action

abbrev pub MessageFits : Message → Type 0
MessageFits (heartbeat_request seq) = Fits 32 seq
MessageFits (heartbeat_response seq ies) = Fits 32 seq × All IeFits ies
MessageFits (association_setup_request seq) = Fits 32 seq
MessageFits (association_setup_response seq ies) = Fits 32 seq × All IeFits ies
MessageFits (session_establishment_request h ies) = HeaderFits h × All IeFits ies
MessageFits (session_establishment_response h ies) = HeaderFits h × All IeFits ies
MessageFits (session_modification_request h ies) = HeaderFits h × All IeFits ies
MessageFits (session_modification_response h ies) = HeaderFits h × All IeFits ies
MessageFits (session_deletion_request h ies) = HeaderFits h × All IeFits ies
MessageFits (session_deletion_response h ies) = HeaderFits h × All IeFits ies
MessageFits other = Unit

-- A session stands under its own SEID.
abbrev pub SessionFits : ℕ → Session → Type 0
SessionFits k s = Fits 64 k × (s.seid ≡ k) × Fits 32 s.teid

abbrev pub SentFits : String × Message → Type 0
SentFits p = MessageFits p.1

abbrev pub UpfFits : Upf → Type 0
UpfFits u = Entries SessionFits u.sessions × All SentFits u.sent

abbrev pub ReceivedFits : Received → Type 0
ReceivedFits read_error = Unit
ReceivedFits parse_error = Unit
ReceivedFits (message msg addr write_ok now) = MessageFits msg

abbrev AnswerFits : Option Message → Type 0
AnswerFits none = Unit
AnswerFits (some m) = MessageFits m

byte-Fits : (n : ℕ) → Fits 8 (n % 256)
byte-Fits n = omega arith

response_header-Fits : (h : Header) → HeaderFits h → HeaderFits (response_header h)
response_header-Fits h (_, _, seid, seq, pri) = (
  byte-Fits h.sequence_number,
  byte-Fits h.message_priority,
  seid,
  seq,
  byte-Fits h.message_priority,
)

modification-Fits :
    (req : Header) (now : ℕ → Time) (s : Sessions)
    → HeaderFits req
    → Entries SessionFits s
    → let (after, answer) = handle_session_modification_request req now s in
      Entries SessionFits after × AnswerFits answer
unfolding handle_session_modification_request
modification-Fits req now s h fits = elim (Option-cases (lookup req.seid s)) [
  | inl absent ↦ rw (handle_session_modification_request, absent) (fits, tt)
  | inr (old, e) ↦
      rw (handle_session_modification_request, e)
        (
          insert-Entries SessionFits req.seid (record old { updated_at = now 0 }) s
              (lookup-Entries SessionFits req.seid s fits e) fits,
          (response_header-Fits req h, (tt, (tt, tt))),
        )
]

dispatch-Fits :
    (msg : Message) (now : ℕ → Time) (s : Sessions)
    → MessageFits msg
    → Entries SessionFits s
    → let (after, answer) = dispatch msg now s in Entries SessionFits after × AnswerFits answer
unfolding dispatch
dispatch-Fits (heartbeat_request seq) now s h fits = (fits, (h, (tt, tt)))
dispatch-Fits (association_setup_request seq) now s h fits = (fits, (h, (tt, (tt, (tt, tt)))))
dispatch-Fits (session_establishment_request req ies) now s (h, _) fits = (
  insert-Entries SessionFits req.seid (new_session req.seid now) s (h.2, refl, omega arith) fits,
  (response_header-Fits req h, (tt, (tt, (tt, (h.2, tt))))),
)
dispatch-Fits (session_modification_request req ies) now s (h, _) fits =
    modification-Fits req now s h fits
dispatch-Fits (session_deletion_request req ies) now s (h, _) fits =
    (delete-Entries SessionFits req.seid s fits, (response_header-Fits req h, (tt, (tt, tt))))
dispatch-Fits _ now s h fits = (fits, tt)

send_pfcp-Fits :
    (addr : String) (write_ok : Bool) (answer : Option Message) (sent : List (String × Message))
    → AnswerFits answer
    → All SentFits sent
    → All SentFits (send_pfcp addr write_ok answer sent)
unfolding send_pfcp
send_pfcp-Fits addr write_ok none sent _ fits = fits
send_pfcp-Fits addr true (some m) sent h fits =
    All-append SentFits sent ((addr, m) ∷ []) fits (h, tt)
send_pfcp-Fits addr false (some m) sent h fits = fits

handle_pfcp-Fits :
    (msg : Message) (addr : String) (write_ok : Bool) (now : ℕ → Time) (u : Upf)
    → MessageFits msg
    → UpfFits u
    → UpfFits (handle_pfcp msg addr write_ok now u)
unfolding handle_pfcp
handle_pfcp-Fits msg addr write_ok now u h (sessions, sent) =
    let (after, answer) = dispatch-Fits msg now u.sessions h sessions in
    (after, send_pfcp-Fits addr write_ok (dispatch msg now u.sessions).1 u.sent answer sent)

-- The UPF stays within the types of its source: where the numbers of the messages that it reads fit
-- into their Go types, so do, whatever writes fail, those of all sessions that it keeps, each of
-- them under its own SEID, and of all responses that it sends.
pub serve_pfcp-Fits :
    (reads : List Received) (u : Upf)
    → All ReceivedFits reads
    → UpfFits u
    → UpfFits (serve_pfcp reads u)
unfolding serve_pfcp
serve_pfcp-Fits [] u _ fits = fits
serve_pfcp-Fits (read_error ∷ rest) u (_, hs) fits = serve_pfcp-Fits rest u hs fits
serve_pfcp-Fits (parse_error ∷ rest) u (_, hs) fits = serve_pfcp-Fits rest u hs fits
serve_pfcp-Fits (message msg addr write_ok now ∷ rest) u (h, hs) fits =
    serve_pfcp-Fits rest _ hs (handle_pfcp-Fits msg addr write_ok now u h fits)

-- The request of the SMF is one that the UPF can read so.
pub establishment_request-Fits :
    (seid : ℕ) (ue_ip : String) (teid : ℕ)
    → Fits 64 seid
    → Fits 32 teid
    → MessageFits (establishment_request seid ue_ip teid)
establishment_request-Fits seid ue_ip teid h t = (
  (omega arith, omega arith, h, omega arith, omega arith),
  (tt, (h, ((omega arith, omega arith, t, omega arith), ((omega arith, omega arith), tt)))),
)
