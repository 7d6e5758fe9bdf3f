-- ===== src/Upf/UserPlane.antt =====
-- The user plane of the UPF (upf/pkg/upf/upf.go): its creation, and the GTP-U server beside the PFCP
-- server. The parsers of the GTP and logging libraries are parameters.
use openmvn.Common.{
  ◌≡◌, refl, sym, ap, ◌∙◌, Option, none, some, List, [], ◌∷◌, String, Option-cases, inl, inr,
}
use openmvn.Events.{Bytes}
use openmvn.Upf.{Upf, Received, read_error, parse_error, message, serve_pfcp, get_session_count}

-- A new UPF with the level of its logger.
pub record Instance (L : Type 0) : Type 0 where
  pub upf : Upf
  pub level : L

-- `logrus.ParseLevel` of the configured level; `info` where it is none.
abbrev level_of : {L : Type 0} → L → Option L → L
level_of info none = info
level_of info (some level) = level

unfoldable pub new_upf :
    {L : Type 0} → (parse_level : String → Option L) → (info : L) → String → Instance L
new_upf parse_level info log_level = record {
  upf = record { sessions = []; sent = [] };
  level = level_of info (parse_level log_level);
}

-- `handleGTP` logs the message.
unfoldable pub handle_gtp : {M : Type 0} → M → String → Upf → Upf
handle_gtp msg addr u = u

-- What `serveGTP` reads: an error, or bytes and the address of their sender.
pub data Datagram : Type 0 where
  gtp_read_error : Datagram
  datagram : Bytes → String → Datagram

gtp_parsed : {M : Type 0} → Option M → String → Upf → Upf
unfolding handle_gtp
gtp_parsed none addr u = u
gtp_parsed (some msg) addr u = handle_gtp msg addr u

-- One round of `serveGTP`.
unfoldable pub receive_gtp : {M : Type 0} → (parse : Bytes → Option M) → Datagram → Upf → Upf
unfolding gtp_parsed
receive_gtp parse gtp_read_error u = u
receive_gtp parse (datagram bytes addr) u = gtp_parsed (parse bytes) addr u

-- The loop of `serveGTP`.
unfoldable pub serve_gtp : {M : Type 0} → (parse : Bytes → Option M) → List Datagram → Upf → Upf
unfolding receive_gtp
serve_gtp parse [] u = u
serve_gtp parse (d ∷ rest) u = serve_gtp parse rest (receive_gtp parse d u)

-- What the two servers receive, in the order in which their handlers run.
pub data Traffic : Type 0 where
  control : Received → Traffic
  user : Datagram → Traffic

unfoldable pub serve : {M : Type 0} → (parse : Bytes → Option M) → List Traffic → Upf → Upf
unfolding serve_pfcp serve_gtp
serve parse [] u = u
serve parse (control r ∷ rest) u = serve parse rest (serve_pfcp (r ∷ []) u)
serve parse (user d ∷ rest) u = serve parse rest (serve_gtp parse (d ∷ []) u)

abbrev pub controls : List Traffic → List Received
controls [] = []
controls (control r ∷ rest) = r ∷ controls rest
controls (user _ ∷ rest) = controls rest

receive_gtp-same :
    {M : Type 0} (parse : Bytes → Option M) (d : Datagram) (u : Upf) → receive_gtp parse d u ≡ u
unfolding receive_gtp gtp_parsed handle_gtp
receive_gtp-same parse gtp_read_error u = refl
receive_gtp-same parse (datagram bytes addr) u = elim (Option-cases (parse bytes)) [
  | inl e ↦ rw e refl
  | inr (msg, e) ↦ rw e refl
]

serve_pfcp-cons :
    (r : Received) (rs : List Received) (u : Upf)
    → serve_pfcp (r ∷ rs) u ≡ serve_pfcp rs (serve_pfcp (r ∷ []) u)
unfolding serve_pfcp
serve_pfcp-cons read_error rs u = refl
serve_pfcp-cons parse_error rs u = refl
serve_pfcp-cons (message msg addr write_ok now) rs u = refl

serve-controls :
    {M : Type 0} (parse : Bytes → Option M) (ts : List Traffic) (u : Upf)
    → serve parse ts u ≡ serve_pfcp (controls ts) u
unfolding serve serve_gtp
serve-controls parse [] u = refl
serve-controls parse (control r ∷ rest) u =
    serve-controls parse rest _ ∙ sym (serve_pfcp-cons r (controls rest) u)
serve-controls parse (user d ∷ rest) u =
    serve-controls parse rest _ ∙ ap (serve_pfcp (controls rest)) (receive_gtp-same parse d u)

serve_gtp-same :
    {M : Type 0} (parse : Bytes → Option M) (ds : List Datagram) (u : Upf)
    → serve_gtp parse ds u ≡ u
unfolding serve_gtp
serve_gtp-same parse [] u = refl
serve_gtp-same parse (d ∷ rest) u = serve_gtp-same parse rest _ ∙ receive_gtp-same parse d u

-- A new UPF treats its traffic as if no user plane packet were in it, whatever those packets are and
-- wherever they come between the PFCP messages: its sessions and its responses are those that the PFCP
-- messages alone lead to. With user plane packets only it has no session and sends nothing.
pub serve-new_upf :
    {L M : Type 0} (parse_level : String → Option L) (info : L) (log_level : String)
    (parse : Bytes → Option M) (ts : List Traffic) (ds : List Datagram)
    → let u = (new_upf parse_level info log_level).upf in
      (serve parse ts u ≡ serve_pfcp (controls ts) u)
      × (get_session_count (serve_gtp parse ds u) ≡ 0)
      × ((serve_gtp parse ds u).sent ≡ [])
unfolding new_upf get_session_count
serve-new_upf parse_level info log_level parse ts ds = (
  serve-controls parse ts _,
  ap get_session_count (serve_gtp-same parse ds _),
  ap (λ u. u.sent) (serve_gtp-same parse ds _),
)
