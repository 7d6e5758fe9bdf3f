-- ===== src/Smf/Attach.antt =====
-- One attach: the PFCP client of the SMF (smf/main.go) asks the UPF (upf/pkg/upf/upf.go), and reads what
-- the UPF sends.
use openmvn.Common.{
  ℕ, ◌≡◌, refl, ap, ◌∙◌, Bool, true, Option, none, some, [], ◌∷◌, ◌++◌, String, take, nat_key,
}
use openmvn.Common.Map.{lookup, insert, lookup-insert_self}
use openmvn.Common.Clock.{Time}
use openmvn.Pfcp.{
  Message, node_id, cause_request_accepted, recovery_time_stamp, f_seid,
  session_establishment_response,
}
use openmvn.Upf.{
  Upf, Received, parse_error, message, serve_pfcp, handle_pfcp, dispatch, send_pfcp, new_session,
  handle_session_establishment_request,
}
use openmvn.Smf.{Bytes, Libraries, Socket, ok, create_session, establishment_request}
use openmvn.Smf.Client.{create_session-ok_iff}

-- What the UPF makes of a datagram of the SMF.
abbrev pub received_by : Option Message → String → Bool → (ℕ → Time) → Received
received_by none addr write_ok now = parse_error
received_by (some msg) addr write_ok now = message msg addr write_ok now

-- The UPF after it has read a datagram.
abbrev pub upf_reads : Libraries → Bytes → String → Bool → (ℕ → Time) → Upf → Upf
upf_reads lib datagram addr write_ok now u =
    serve_pfcp (received_by (lib.parse (take 1500 datagram)) addr write_ok now ∷ []) u

-- The response of the UPF, by the arguments that the handler of the establishment passes.
abbrev pub establishment_answer : ℕ → (ℕ → Time) → Message
establishment_answer seid now =
    session_establishment_response
      (record { mp = 1; fo = 0; seid = seid; sequence_number = 1; message_priority = 0 })
      (node_id "upf.local"
        ∷ cause_request_accepted
        ∷ recovery_time_stamp (now 2)
        ∷ f_seid seid "127.0.0.1"
        ∷ [])

-- The PFCP library decodes the first 1500 bytes of a message that it has encoded to that message.
abbrev pub Carries : Libraries → Message → Bytes → Type 0
Carries lib m b = (lib.marshal m ≡ some b) × (lib.parse (take 1500 b) ≡ some m)

serving :
    (lib : Libraries) (seid : ℕ) (ue_ip : Bytes) (teid : ℕ) (addr : String) (now : ℕ → Time)
    (u : Upf) (request : Bytes)
    → lib.parse (take 1500 request) ≡ some (establishment_request seid (lib.show_ip ue_ip) teid)
    → upf_reads lib request addr true now u ≡ record {
      sessions = insert seid (new_session seid now) u.sessions;
      sent = u.sent ++ (addr, establishment_answer seid now) ∷ [];
    }
unfolding serve_pfcp handle_pfcp dispatch handle_session_establishment_request send_pfcp
serving lib seid ue_ip teid addr now u request heard =
    ap (λ o. serve_pfcp (received_by o addr true now ∷ []) u) heard

-- Where the PFCP library carries the request and the response, an attach with an empty inbox works,
-- whatever sessions the UPF has: on the request it adds the response, and nothing else, to what it sends,
-- the call that gets the response for its answer succeeds, and the UPF has a new session under the
-- SEID of the call.
pub attach-succeeds :
    (lib : Libraries) (seid : ℕ) (ue_ip : Bytes) (teid : ℕ) (addr : String) (now : ℕ → Time)
    (u : Upf) (s : Socket) (request reply : Bytes)
    → s.inbox ≡ []
    → Carries lib (establishment_request seid (lib.show_ip ue_ip) teid) request
    → Carries lib (establishment_answer seid now) reply
    → let after = upf_reads lib request addr true now u in
      (after.sent ≡ u.sent ++ (addr, establishment_answer seid now) ∷ [])
      × ((create_session lib seid ue_ip teid true (reply ∷ []) s).1 ≡ ok)
      × (lookup seid after.sessions ≡ some (new_session seid now))
attach-succeeds lib seid ue_ip teid addr now u s request reply empty (sends, heard)
      (answers, understood) =
    let told = serving lib seid ue_ip teid addr now u request heard in
    (
      ap (λ x. x.sent) told,
      (create_session-ok_iff lib seid ue_ip teid true (reply ∷ []) s).1 (
        request,
        reply,
        [],
        sends,
        refl,
        ap (λ l. l ++ reply ∷ []) empty,
        (establishment_answer seid now, understood, refl),
      ),
      ap (λ x. lookup seid x.sessions) told
          ∙ lookup-insert_self seid (new_session seid now) u.sessions,
    )
