-- ===== src/Smf/Endpoint.antt =====
-- What the HTTP endpoint of the SMF (smf/main.go) answers, sends and publishes.
use openmvn.Common.{ℕ, ◌≡◌, refl, true, false, arith, ◌⊎◌, inl, inr, Bool-cases}
use openmvn.Common.Decimal.{print_uint}
use openmvn.Common.Http.{octets, status_ok, status_bad_request, status_internal_server_error}
use openmvn.Events.{publish_pfcp_created}
use openmvn.Smf.{
  Bytes, Libraries, Socket, Outcome, ok, marshal_error, write_error, no_response, parse_failed,
  unexpected, is_ok, create_session, Field, missing, invalid, value, GtpRequest, Input, unreadable,
  malformed, create_session_request, other_message, Smf, only_seid, finish, Outside, recovered,
  handle_request, serve,
}

-- The PFCP exchange of a request.
abbrev pub exchange : Libraries → Outside → Bytes → ℕ → Smf → Socket × Outcome
exchange lib out ue_ip teid s =
    create_session lib only_seid ue_ip teid out.writes out.arrivals s.socket

-- The request is answered with 200: it has an address and a TEID, the UPF's answer was accepted, the
-- response can be encoded, and one event is published, with the TEID as its session id, the address as
-- its TEID, and no address.
abbrev pub Accepted : Libraries → Outside → Input → Smf → Type 0
Accepted lib out input s =
    (req : GtpRequest) × (ue_ip : Bytes) × (teid : ℕ) × (input ≡ create_session_request req)
    × (req.paa ≡ value ue_ip)
    × (req.sender_teid ≡ value teid)
    × ((exchange lib out ue_ip teid s).1 ≡ ok)
    × (out.encodes ≡ true)
    × (serve lib out input s ≡ (
      record {
        socket = (exchange lib out ue_ip teid s).0;
        bus =
            publish_pfcp_created lib.event_json (print_uint teid) (lib.show_ip ue_ip) "" out.now
              s.bus;
      },
      record {
        status = status_ok;
        body = octets (record { teid = req.sequence; sequence = req.teid });
      },
    ))

-- A request is refused that cannot be read, is another message, or has an address or a TEID with an error.
abbrev pub Invalid : Input → Type 0
Invalid unreadable = Unit
Invalid malformed = Unit
Invalid other_message = Unit
Invalid (create_session_request req) =
    (req.paa ≡ invalid) ⊎ ((ue_ip : Bytes) × (req.paa ≡ value ue_ip) × (req.sender_teid ≡ invalid))

-- The request is refused with 400, and neither has anything been sent to the UPF nor published.
abbrev pub Refused : Libraries → Outside → Input → Smf → Type 0
Refused lib out input s =
    Invalid input
    × ((serve lib out input s).0 ≡ s)
    × ((serve lib out input s).1.status ≡ status_bad_request)

-- A request without an address, or with one and without a TEID.
abbrev pub Lacks : Input → Type 0
Lacks unreadable = ⊥
Lacks malformed = ⊥
Lacks other_message = ⊥
Lacks (create_session_request req) =
    (req.paa ≡ missing) ⊎ ((ue_ip : Bytes) × (req.paa ≡ value ue_ip) × (req.sender_teid ≡ missing))

-- The handler panics and the request is answered with 500, and neither has anything been sent to the UPF
-- nor published.
abbrev pub Panicked : Libraries → Outside → Input → Smf → Type 0
Panicked lib out input s = Lacks input × (serve lib out input s ≡ (s, recovered))

-- The request fails with 500, after the exchange with the UPF, because that failed or the response
-- could not be encoded: the socket is as the exchange left it, and nothing is published.
abbrev pub Failed : Libraries → Outside → Input → Smf → Type 0
Failed lib out input s =
    (req : GtpRequest) × (ue_ip : Bytes) × (teid : ℕ) × (input ≡ create_session_request req)
    × (req.paa ≡ value ue_ip)
    × (req.sender_teid ≡ value teid)
    × ((is_ok (exchange lib out ue_ip teid s).1 ≡ false) ⊎ (out.encodes ≡ false))
    × ((serve lib out input s).0
        ≡ record { socket = (exchange lib out ue_ip teid s).0; bus = s.bus })
    × ((serve lib out input s).1.status ≡ status_internal_server_error)

is_ok→ok : (o : Outcome) → is_ok o ≡ true → o ≡ ok
is_ok→ok ok h = refl
is_ok→ok marshal_error h = ground arith
is_ok→ok write_error h = ground arith
is_ok→ok no_response h = ground arith
is_ok→ok parse_failed h = ground arith
is_ok→ok unexpected h = ground arith

finished :
    (lib : Libraries) (out : Outside) (req : GtpRequest) (s : Smf) (ue_ip : Bytes) (teid : ℕ)
    → req.paa ≡ value ue_ip
    → req.sender_teid ≡ value teid
    → serve lib out (create_session_request req) s
      ≡ finish lib req ue_ip teid out.encodes out.now (exchange lib out ue_ip teid s) s.bus
unfolding serve handle_request
finished lib out req s ue_ip teid named marked = rw (serve, handle_request, named, marked) refl

abbrev Ends : Libraries → Outside → Input → Smf → Type 0
Ends lib out input s =
    Accepted lib out input s
    ⊎ Refused lib out input s
    ⊎ Panicked lib out input s
    ⊎ Failed lib out input s

Field-cases :
    {A : Type 0} (f : Field A) → (f ≡ missing) ⊎ ((f ≡ invalid) ⊎ ((a : A) × (f ≡ value a)))
Field-cases missing = inl refl
Field-cases invalid = inr (inl refl)
Field-cases (value a) = inr (inr (a, refl))

ended :
    (lib : Libraries) (out : Outside) (req : GtpRequest) (s : Smf) (ue_ip : Bytes) (teid : ℕ)
    → req.paa ≡ value ue_ip
    → req.sender_teid ≡ value teid
    → Ends lib out (create_session_request req) s
unfolding finish
ended lib out req s ue_ip teid named marked =
    let same = finished lib out req s ue_ip teid named marked in
    let p = exchange lib out ue_ip teid s in
    elim (Bool-cases (is_ok p.1)) [
      | inr bad ↦ inr (
          inr (
            inr (
              req,
              ue_ip,
              teid,
              refl,
              named,
              marked,
              inl bad,
              rw (same, bad) refl,
              rw (same, bad) refl,
            )))
      | inl good ↦ elim (Bool-cases out.encodes) [
        | inr bad ↦ inr (
            inr (
              inr (
                req,
                ue_ip,
                teid,
                refl,
                named,
                marked,
                inr bad,
                rw (same, good, bad) refl,
                rw (same, good, bad) refl,
              )))
        | inl encodes ↦ inl (
          req,
          ue_ip,
          teid,
          refl,
          named,
          marked,
          is_ok→ok p.1 good,
          encodes,
          rw (same, good, encodes) refl,
        )
      ]
    ]

-- Every request ends in one of four ways. With an address, a TEID, a successful exchange with the UPF
-- and a response that can be encoded it is answered 200, and one event is published, which has the TEID
-- as its session id, the address as its TEID and no address. If it cannot be read, is another message, or
-- its address or TEID has an error, it is answered 400, and if it has no address or no TEID the handler
-- panics and it is answered 500; nothing is done then. If the exchange or the encoding fails it is
-- answered 500 and nothing is published.
pub serve_branches :
    (lib : Libraries) (out : Outside) (input : Input) (s : Smf)
    → Accepted lib out input s
      ⊎ Refused lib out input s
      ⊎ Panicked lib out input s
      ⊎ Failed lib out input s
unfolding serve handle_request
serve_branches lib out unreadable s = inr (inl (tt, refl, refl))
serve_branches lib out malformed s = inr (inl (tt, refl, refl))
serve_branches lib out other_message s = inr (inl (tt, refl, refl))
serve_branches lib out (create_session_request req) s = elim (Field-cases req.paa) [
  | inl e ↦ inr (inr (inl (inl e, rw (serve, handle_request, e) refl)))
  | inr (inl e) ↦
      inr (inl (inl e, rw (serve, handle_request, e) refl, rw (serve, handle_request, e) refl))
  | inr (inr (ue_ip, named)) ↦ elim (Field-cases req.sender_teid) [
    | inl e ↦ inr (inr (inl (inr (ue_ip, named, e), rw (serve, handle_request, named, e) refl)))
    | inr (inl e) ↦ inr (
        inl (
          inr (ue_ip, named, e),
          rw (serve, handle_request, named, e) refl,
          rw (serve, handle_request, named, e) refl,
        ))
    | inr (inr (teid, marked)) ↦ ended lib out req s ue_ip teid named marked
  ]
]
