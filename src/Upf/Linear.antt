-- ===== src/Upf/Linear.antt =====
-- The handler goroutines of the UPF (upf/pkg/upf/upf.go) against a loop that handles one message after another,
-- in the order in which the goroutines have taken the lock.
use openmvn.Common.{
  Permᴰ-path, Permᴰ-moved, Permᴰ-moved_far, ℕ, ◌≡◌, refl, sym, ap, ◌∙◌, Bool, true, false, Option,
  none, some, List, [], ◌∷◌, ◌++◌, String,
}
use mathlib.Core.List.{Permᴰ, append-nil}
use mathlib.Core.List.Permᴰ
use openmvn.Common.Clock.{Time}
use openmvn.Pfcp.{Message}
use openmvn.Upf.{Upf, dispatch, send_pfcp, handle_pfcp, Received, message, serve_pfcp}
use openmvn.Upf.Orders.{answers, handle_pfcp-sent}
use openmvn.Upf.Interleaving.{World, respond_to, receive, handle, write, Reach, here, next}

-- A message that has been handled: where it came from, and the clock of its handler.
pub record Handled : Type 0 where
  pub msg : Message
  pub addr : String
  pub now : ℕ → Time

abbrev pub sources : List Handled → List (Message × String)
sources [] = []
sources (h ∷ hs) = (h.msg, h.addr) ∷ sources hs

-- The same messages for the loop of `servePFCP`, with writes that succeed.
abbrev pub as_received : List Handled → List Received
as_received [] = []
as_received (h ∷ hs) = message h.msg h.addr true h.now ∷ as_received hs

sources-snoc :
    (hs : List Handled) (h : Handled) → sources (hs ++ h ∷ []) ≡ sources hs ++ (h.msg, h.addr) ∷ []
sources-snoc [] h = refl
sources-snoc (x ∷ hs) h = ap (λ l. (x.msg, x.addr) ∷ l) (sources-snoc hs h)

serve_pfcp-snoc :
    (hs : List Handled) (h : Handled) (u : Upf)
    → serve_pfcp (as_received (hs ++ h ∷ [])) u
      ≡ handle_pfcp h.msg h.addr true h.now (serve_pfcp (as_received hs) u)
unfolding serve_pfcp
serve_pfcp-snoc [] h u = refl
serve_pfcp-snoc (x ∷ hs) h u = serve_pfcp-snoc hs h (handle_pfcp x.msg x.addr true x.now u)

-- The world is that of the loop: the same sessions; every message that was received waits or has
-- been handled; and the responses to write, written, and lost by writes that failed are the loop's.
pub record IsLinear (u : Upf) (w : World) (hs : List Handled) (lost : List (String × Message))
    : Type 0 where
  pub sessions : w.sessions ≡ (serve_pfcp (as_received hs) u).sessions
  pub received : Permᴰ w.received (w.waiting ++ sources hs)
  pub responses : Permᴰ ((w.outgoing ++ w.sent) ++ lost) (serve_pfcp (as_received hs) u).sent

abbrev Linear : Upf → World → Type 0
Linear u w = (hs : List Handled) × (lost : List (String × Message)) × IsLinear u w hs lost

responds :
    (addr : String) (res : Option Message) (out sent lost after : List (String × Message))
    → Permᴰ ((out ++ sent) ++ lost) after
    → Permᴰ ((respond_to addr res out ++ sent) ++ lost) (after ++ send_pfcp addr true res [])
unfolding send_pfcp
responds addr none out sent lost after h = Permᴰ.trans h (Permᴰ-path (sym (append-nil after)))
responds addr (some res) out sent lost after h =
    Permᴰ.trans (Permᴰ.cons refl h) (Permᴰ.append_comm ((addr, res) ∷ []) after)

handled-Linear :
    (u : Upf) (w : World) (xs ys : List (Message × String)) (msg : Message) (addr : String)
    (now : ℕ → Time)
    → w.waiting ≡ xs ++ (msg, addr) ∷ ys
    → Linear u w
    → Linear u (record w {
      waiting = xs ++ ys;
      sessions = (dispatch msg now w.sessions).0;
      outgoing = respond_to addr (dispatch msg now w.sessions).1 w.outgoing;
    })
unfolding handle_pfcp
handled-Linear u w xs ys msg addr now e (hs, lost, h) =
    let new : Handled = record { msg = msg; addr = addr; now = now } in
    let before = serve_pfcp (as_received hs) u in
    let after = serve_pfcp-snoc hs new u in
    (
      hs ++ new ∷ [],
      lost,
      record {
        sessions = ap (λ s. (dispatch msg now s).0) h.sessions ∙ sym (ap (λ x. x.sessions) after);
        received = Permᴰ.trans h.received (
            Permᴰ.trans (Permᴰ-path (ap (λ l. l ++ sources hs) e)) (
              Permᴰ.trans (Permᴰ-moved xs ys (sources hs) (msg, addr))
                (Permᴰ-path (ap (λ l. (xs ++ ys) ++ l) (sym (sources-snoc hs new))))));
        responses =
            Permᴰ.trans
              (responds addr (dispatch msg now w.sessions).1 w.outgoing w.sent lost before.sent
                h.responses)
              (Permᴰ-path (
                ap (λ s. before.sent ++ answers msg addr true now s) h.sessions
                ∙ sym (handle_pfcp-sent msg addr true now before)
                ∙ sym (ap (λ x. x.sent) after)));
      },
    )

written-Linear :
    (u : Upf) (w : World) (xs ys : List (String × Message)) (addr : String) (res : Message)
    (write_ok : Bool)
    → w.outgoing ≡ xs ++ (addr, res) ∷ ys
    → Linear u w
    → Linear u (record w { outgoing = xs ++ ys; sent = send_pfcp addr write_ok (some res) w.sent })
unfolding send_pfcp
written-Linear u w xs ys addr res true e (hs, lost, h) = (
  hs,
  lost,
  record {
    sessions = h.sessions;
    received = h.received;
    responses =
        Permᴰ.trans
          (Permᴰ.symm (
            Permᴰ.append_right lost (
              Permᴰ.trans (Permᴰ-path (ap (λ l. l ++ w.sent) e))
                (Permᴰ-moved xs ys w.sent (addr, res)))))
          h.responses;
  },
)
written-Linear u w xs ys addr res false e (hs, lost, h) = (
  hs,
  lost ++ (addr, res) ∷ [],
  record {
    sessions = h.sessions;
    received = h.received;
    responses =
        Permᴰ.trans
          (Permᴰ.symm (
            Permᴰ.trans (Permᴰ-path (ap (λ l. (l ++ w.sent) ++ lost) e))
              (Permᴰ-moved_far xs ys w.sent lost (addr, res))))
          h.responses;
  },
)

-- However the goroutines interleave, the world is that of a loop that handles, one after another, the
-- messages whose goroutines have taken the lock: it has the same sessions, each message received
-- waits or is one of them, and the responses that are to be written, written, and lost by a failed
-- write are, up to order, those of the loop.
pub Reach-IsLinear :
    (u : Upf) {w : World}
    → Reach
        (record {
          received = [];
          waiting = [];
          sessions = u.sessions;
          outgoing = [];
          sent = u.sent;
        })
        w
    → (hs : List Handled) × (lost : List (String × Message)) × IsLinear u w hs lost
unfolding serve_pfcp
Reach-IsLinear u here = (
  [],
  [],
  record { sessions = refl; received = Permᴰ.refl []; responses = Permᴰ-path (append-nil u.sent) },
)
Reach-IsLinear u (next path (receive msg addr)) =
    let (hs, lost, h) = Reach-IsLinear u path in
    (
      hs,
      lost,
      record {
        sessions = h.sessions;
        received = Permᴰ.cons refl h.received;
        responses = h.responses;
      },
    )
Reach-IsLinear u (next {t} path (handle xs ys msg addr now e)) =
    handled-Linear u t xs ys msg addr now e (Reach-IsLinear u path)
Reach-IsLinear u (next {t} path (write xs ys addr res write_ok e)) =
    written-Linear u t xs ys addr res write_ok e (Reach-IsLinear u path)
