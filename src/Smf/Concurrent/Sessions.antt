-- ===== src/Smf/Concurrent/Sessions.antt =====
-- What the success of a call of `CreateSession` (smf/main.go) says of the UPF (upf/pkg/upf/upf.go), with
-- calls that run at once.
use openmvn.Common.{
  ℕ, ◌≤◌, ◌≡◌, refl, sym, ◌∙◌, Bool, some, [], ◌∷◌, String, arith, ◌⊎◌, inl, inr, All, All-append,
  All-split, taken≢nil, take, nat_key,
}
use mathlib.Core.Path.{subst}
use mathlib.Core.Option.{some-injective}
use openmvn.Common.Clock.{Time}
use openmvn.Common.Map.{lookup, lookup-insert_self}
use openmvn.Upf.{Session, Upf, new_session, handle_pfcp}
use openmvn.Smf.{
  Bytes, Libraries, Socket, Outcome, marshal_error, write_error, no_response, is_ok, read_reply,
  only_seid,
}
use openmvn.Smf.Concurrent.{
  Job, World, Step, request_of, writes, cannot_marshal, cannot_write, handles, loses_request,
  arrives, loses_reply, reads, times_out, Reach, here, next, has_failed, one_if, successes, idle,
}

abbrev pub HasSession : Upf → Type 0
HasSession u = (s : Session) × (lookup only_seid u.sessions ≡ some s)

-- No answer is under way, and no call has succeeded.
abbrev IsQuiet : World → Type 0
IsQuiet w = (successes w.ended ≡ 0) × (w.replies ≡ []) × (w.socket.inbox ≡ [])

module _ (lib : Libraries) (smf : String) where
  -- The datagram is a request that a call has encoded.
  abbrev pub IsRequest : Bytes → Type 0
  IsRequest d = (j : Job) × (lib.marshal (request_of lib smf j) ≡ some d)

  -- The library decodes what it has encoded of a request.
  abbrev pub CarriesRequests : Type 0
  CarriesRequests =
      (j : Job) (d : Bytes)
      → lib.marshal (request_of lib smf j) ≡ some d
      → lib.parse (take 1500 d) ≡ some (request_of lib smf j)

  record IsServed (w : World) : Type 0 where
    requests : All IsRequest w.requests
    session : HasSession w.upf ⊎ IsQuiet w

  failing :
      (j : Job) (o : Outcome) (w : World)
      → one_if (is_ok o) ≡ 0
      → HasSession w.upf ⊎ IsQuiet w
      → HasSession w.upf ⊎ IsQuiet (has_failed lib smf j o w)
  failing j o w fails (inl has) = inl has
  failing j o w fails (inr (none_yet, silent, empty)) =
      inr (omega (arith, fails, none_yet), silent, empty)

  handle_pfcp-session :
      (j : Job) (write_ok : Bool) (now : ℕ → Time) (u : Upf)
      → HasSession (handle_pfcp (request_of lib smf j) smf write_ok now u)
  unfolding handle_pfcp
  handle_pfcp-session j write_ok now u = (
    new_session only_seid now,
    lookup-insert_self only_seid (new_session only_seid now) u.sessions,
  )

  read_reply-quiet :
      (s : Socket)
      → s.inbox ≡ []
      → let (after, o) = read_reply lib s in (one_if (is_ok o) ≡ 0) × (after.inbox ≡ [])
  unfolding read_reply
  read_reply-quiet s e = rw (read_reply, e) (refl, e)

  Step-IsServed : CarriesRequests → {w v : World} → IsServed w → Step lib smf w v → IsServed v
  Step-IsServed carries {w} h (writes j b e) = record {
    requests = All-append IsRequest w.requests (b ∷ []) h.requests ((j, e), tt);
    session = h.session;
  }
  Step-IsServed carries {w} h (cannot_marshal j e) = record {
    requests = h.requests;
    session = failing j marshal_error w refl h.session;
  }
  Step-IsServed carries {w} h (cannot_write j b e) = record {
    requests = h.requests;
    session = failing j write_error w refl h.session;
  }
  Step-IsServed carries {w} h (handles xs ys d msg write_ok now e heard) =
      let ((j, made), rest) = All-split IsRequest xs ys d (subst (All IsRequest) e h.requests) in
      record {
        requests = rest;
        session = inl (
            subst (λ m. HasSession (handle_pfcp m smf write_ok now w.upf))
              (some-injective _ _ (sym (carries j d made) ∙ heard))
              (handle_pfcp-session j write_ok now w.upf));
      }
  Step-IsServed carries {w} h (loses_request xs ys d e) = record {
    requests = (All-split IsRequest xs ys d (subst (All IsRequest) e h.requests)).1;
    session = h.session;
  }
  Step-IsServed carries {w} h (arrives xs ys to msg b e sent) = record {
    requests = h.requests;
    session = elim h.session [
      | inl has ↦ inl has
      | inr (_, silent, _) ↦ absurd (taken≢nil xs ys (to, msg) (sym silent ∙ e))
    ];
  }
  Step-IsServed carries {w} h (loses_reply xs ys p e) = record {
    requests = h.requests;
    session = elim h.session [
      | inl has ↦ inl has
      | inr (_, silent, _) ↦ absurd (taken≢nil xs ys p (sym silent ∙ e))
    ];
  }
  Step-IsServed carries {w} h (reads xs ys j e) = record {
    requests = h.requests;
    session = elim h.session [
      | inl has ↦ inl has
      | inr (failing, silent, empty) ↦
          let (fails, still) = read_reply-quiet w.socket empty in
          inr (omega (arith, fails, failing), silent, still)
    ];
  }
  Step-IsServed carries {w} h (times_out xs ys j e) = record {
    requests = h.requests;
    session = failing j no_response w refl h.session;
  }

  Reach-IsServed : CarriesRequests → (u : Upf) (w : World) → Reach lib smf (idle u) w → IsServed w
  Reach-IsServed carries u w here = record { requests = tt; session = inr (refl, refl, refl) }
  Reach-IsServed carries u w (next {t} path step) =
      Step-IsServed carries (Reach-IsServed carries u t path) step

  -- Where the library decodes what it has encoded of a request, and the UPF has no peer but this
  -- client: however many calls run at once, and whatever the network loses and delays, once a call
  -- has succeeded the UPF has the session of the SEID that the calls ask for.
  pub Reach-session :
      (u : Upf) (w : World)
      → CarriesRequests
      → Reach lib smf (idle u) w
      → 1 ≤ successes w.ended
      → HasSession w.upf
  Reach-session u w carries path some_ok = elim (Reach-IsServed carries u w path).session [
    | inl has ↦ has
    | inr (failing, _, _) ↦ absurd (omega (arith, failing, some_ok))
  ]
