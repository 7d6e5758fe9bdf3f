-- ===== src/Upf/Lifecycle.antt =====
-- Starting and closing the UPF (upf/pkg/upf/upf.go). What the network package resolves and opens is
-- a parameter; a socket is a number. A failed `ListenUDP` leaves a nil connection.
use mathlib.Core.Path.{subst, sym}
use openmvn.Common.{
  ℕ, ◌≡◌, refl, ◌⊎◌, inl, inr, Bool, true, false, Option, none, some, List, [], ◌∷◌, String, arith,
  if◌then◌else◌, Option-cases, Bool-cases,
}

pub record Config : Type 0 where
  pub pfcp_addr : String
  pub gtp_addr : String
  pub enable_gtp : Bool
  pub enable_pfcp : Bool

-- `net.ResolveUDPAddr` and `net.ListenUDP`
pub record Net : Type 0 where
  pub resolve : String → Option String
  pub listen : String → Option ℕ

pub data Error : Type 0 where
  invalid_pfcp_address failed_to_listen_on_pfcp invalid_gtp_address failed_to_listen_on_gtp : Error

-- The connections of the UPF, the servers that run, and the sockets that were closed.
pub record Server : Type 0 where
  pub pfcp_conn : Option ℕ
  pub gtpu_conn : Option ℕ
  pub serving : List ℕ
  pub closed : List ℕ

abbrev pub new_server : Server
new_server = record { pfcp_conn = none; gtpu_conn = none; serving = []; closed = [] }

unfoldable pub start_pfcp : Net → Config → Server → Server × Option Error
start_pfcp net cfg u = elim (net.resolve cfg.pfcp_addr) [
  | none ↦ (u, some invalid_pfcp_address)
  | some addr ↦ elim (net.listen addr) [
    | none ↦ (record u { pfcp_conn = none }, some failed_to_listen_on_pfcp)
    | some conn ↦ (record u { pfcp_conn = some conn; serving = conn ∷ u.serving }, none)
  ]
]

unfoldable pub start_gtp : Net → Config → Server → Server × Option Error
start_gtp net cfg u = elim (net.resolve cfg.gtp_addr) [
  | none ↦ (u, some invalid_gtp_address)
  | some addr ↦ elim (net.listen addr) [
    | none ↦ (record u { gtpu_conn = none }, some failed_to_listen_on_gtp)
    | some conn ↦ (record u { gtpu_conn = some conn; serving = conn ∷ u.serving }, none)
  ]
]

-- The second half of `Run`.
run_gtp : Net → Config → Server → Server × Option Error
unfolding start_gtp
run_gtp net cfg u = if cfg.enable_gtp then start_gtp net cfg u else (u, none)

-- `Run` after the start of the PFCP server: an error is returned at once.
run_after : Net → Config → Server × Option Error → Server × Option Error
unfolding run_gtp
run_after net cfg (u, none) = run_gtp net cfg u
run_after net cfg (u, some e) = (u, some e)

unfoldable pub run : Net → Config → Server → Server × Option Error
unfolding start_pfcp run_after
run net cfg u =
    if cfg.enable_pfcp then run_after net cfg (start_pfcp net cfg u) else run_gtp net cfg u

abbrev close_conn : Option ℕ → List ℕ → List ℕ
close_conn none closed = closed
close_conn (some conn) closed = conn ∷ closed

-- `Close`: the connections stay in their fields.
unfoldable pub close : Server → Server
close u = record u { closed = close_conn u.gtpu_conn (close_conn u.pfcp_conn u.closed) }

-- What a start leaves: a socket for each server that is enabled, where it succeeds.
abbrev pub Started : Net → Config → Server × Option Error → Type 0
Started net cfg (u, none) =
    (cfg.enable_pfcp ≡ true → (c : ℕ) × (u.pfcp_conn ≡ some c))
    × (cfg.enable_gtp ≡ true → (c : ℕ) × (u.gtpu_conn ≡ some c))
    × (cfg.enable_pfcp ≡ false → u.pfcp_conn ≡ none)
    × (cfg.enable_gtp ≡ false → u.gtpu_conn ≡ none)
Started net cfg (u, some _) = u.gtpu_conn ≡ none

start_pfcp_cases :
    (net : Net) (cfg : Config) (u : Server)
    → ((e : Error) × (u' : Server) × (start_pfcp net cfg u ≡ (u', some e))
        × (u'.gtpu_conn ≡ u.gtpu_conn))
      ⊎ ((c : ℕ) × (start_pfcp net cfg u
            ≡ (record u { pfcp_conn = some c; serving = c ∷ u.serving }, none)))
unfolding start_pfcp
start_pfcp_cases net cfg u = elim (Option-cases (net.resolve cfg.pfcp_addr)) [
  | inl bad ↦ inl (invalid_pfcp_address, u, ground arith, refl)
  | inr (addr, r) ↦ elim (Option-cases (net.listen addr)) [
    | inl shut ↦ inl (failed_to_listen_on_pfcp, record u { pfcp_conn = none }, ground arith, refl)
    | inr (c, l) ↦ inr (c, ground arith)
  ]
]

start_gtp_cases :
    (net : Net) (cfg : Config) (u : Server)
    → u.gtpu_conn ≡ none
    → ((e : Error) × (u' : Server) × (start_gtp net cfg u ≡ (u', some e)) × (u'.gtpu_conn ≡ none))
      ⊎ ((c : ℕ) × (start_gtp net cfg u
            ≡ (record u { gtpu_conn = some c; serving = c ∷ u.serving }, none)))
unfolding start_gtp
start_gtp_cases net cfg u h = elim (Option-cases (net.resolve cfg.gtp_addr)) [
  | inl bad ↦ inl (invalid_gtp_address, u, ground arith, h)
  | inr (addr, r) ↦ elim (Option-cases (net.listen addr)) [
    | inl shut ↦ inl (failed_to_listen_on_gtp, record u { gtpu_conn = none }, ground arith, refl)
    | inr (c, l) ↦ inr (c, ground arith)
  ]
]

-- The PFCP half of `Started`, which `run_gtp` completes.
run_gtp-Started :
    (net : Net) (cfg : Config) (u : Server)
    → u.gtpu_conn ≡ none
    → (cfg.enable_pfcp ≡ true → (c : ℕ) × (u.pfcp_conn ≡ some c))
    → (cfg.enable_pfcp ≡ false → u.pfcp_conn ≡ none)
    → Started net cfg (run_gtp net cfg u)
unfolding run_gtp
run_gtp-Started net cfg u h on off = elim (Bool-cases cfg.enable_gtp) [
  | inr no_gtp ↦ rw no_gtp (on, λ q. cc, off, λ _. h)
  | inl gtp ↦ elim (start_gtp_cases net cfg u h) [
    | inl (e, u', q, r) ↦ rw (gtp, q) r
    | inr (c, q) ↦ rw (gtp, q) (on, λ _. (c, refl), off, λ x. cc)
  ]
]

run_disabled :
    (net : Net) (cfg : Config) (u : Server)
    → cfg.enable_pfcp ≡ false
    → run net cfg u ≡ run_gtp net cfg u
unfolding run
run_disabled net cfg u p = rw p refl

run_enabled :
    (net : Net) (cfg : Config) (u : Server)
    → cfg.enable_pfcp ≡ true
    → run net cfg u ≡ run_after net cfg (start_pfcp net cfg u)
unfolding run
run_enabled net cfg u p = rw p refl

-- Where `Run` succeeds, each enabled server has a connection, and a server that is not enabled has
-- none; where it fails, there is no GTP-U connection.
pub run-Started : (net : Net) (cfg : Config) → Started net cfg (run net cfg new_server)
unfolding run_after
run-Started net cfg = elim (Bool-cases cfg.enable_pfcp) [
  | inr no_pfcp ↦
      subst (Started net cfg) (sym (run_disabled net cfg new_server no_pfcp))
        (run_gtp-Started net cfg new_server refl (λ q. cc) (λ _. refl))
  | inl pfcp ↦ elim (start_pfcp_cases net cfg new_server) [
    | inl (e, u', q, r) ↦
        rw (run_enabled net cfg new_server pfcp)
          (subst (λ x. Started net cfg (run_after net cfg x)) (sym q) r)
    | inr (c, q) ↦ rw (run_enabled net cfg new_server pfcp) (
        subst (λ x. Started net cfg (run_after net cfg x)) (sym q)
          (run_gtp-Started net cfg (record new_server { pfcp_conn = some c; serving = c ∷ [] }) refl
            (λ _. (c, refl)) (λ x. cc)))
  ]
]

-- `Run` does not undo the start of the PFCP server where the GTP-U server cannot start: it returns an
-- error, and the PFCP connection is open and served; `Close` then closes exactly that connection.
pub run-leaves_pfcp :
    (net : Net) (cfg : Config) {addr : String} {conn : ℕ}
    → cfg.enable_pfcp ≡ true
    → cfg.enable_gtp ≡ true
    → net.resolve cfg.pfcp_addr ≡ some addr
    → net.listen addr ≡ some conn
    → net.resolve cfg.gtp_addr ≡ none
    → let (u, err) = run net cfg new_server in
      (err ≡ some invalid_gtp_address)
      × (u.pfcp_conn ≡ some conn)
      × (u.serving ≡ conn ∷ [])
      × (u.closed ≡ [])
      × ((close u).closed ≡ conn ∷ [])
unfolding run close
run-leaves_pfcp net cfg p g r l f = ground arith
