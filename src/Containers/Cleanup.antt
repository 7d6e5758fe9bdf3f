-- ===== src/Containers/Cleanup.antt =====
-- Which containers of the integration tests still run after `Cleanup`.
use openmvn.Common.{
  ℕ, ◌+◌, ◌≡◌, refl, ◌∙◌, Bool, true, false, ◌&&◌, ◌||◌, not, Option, none, some, List, [], ◌∷◌,
  ◌++◌, String, arith, ◌==◌, nat_key, string_key, Option-cases, ◌⊎◌, inl, inr,
}
use openmvn.Containers.{
  Service, amf, smf, ocs, bss, Manager, World, start, Docker, not_running, not_ready, ready, Error,
  not_started, no_host, no_port, launch, connect_infrastructure, start_infrastructure, service_of,
  start_known, start_service, remove, terminate, cleanup,
}

abbrev pub member : ℕ → List ℕ → Bool
member x [] = false
member x (c ∷ cs) = c == x || member x cs

abbrev pub holds : ℕ → Option ℕ → Bool
holds x none = false
holds x (some c) = c == x

-- The manager has the container in one of its fields.
abbrev pub recorded : ℕ → Manager → Bool
recorded x m =
    holds x m.redis_container
    || holds x m.nats_container
    || holds x m.amf_container
    || holds x m.smf_container
    || holds x m.ocs_container
    || holds x m.bss_container

member-remove : (x c : ℕ) (l : List ℕ) → member x (remove c l) ≡ (member x l && not (c == x))
member-remove x c [] = refl
member-remove x c (y ∷ ys) = ground (arith, member-remove x c ys)

member-terminate :
    (t : ℕ → Bool) (x : ℕ) (o : Option ℕ) (l : List ℕ)
    → member x (terminate t o l) ≡ (member x l && not (holds x o && t x))
member-terminate t x none l = ground arith
member-terminate t x (some c) l = ground (arith, member-remove x c l)

absorb : (a h s t : Bool) → ((a && not (h && t)) && not (s && t)) ≡ (a && not ((h || s) && t))
absorb a h s t = ground arith

-- `Cleanup` ends exactly the containers that the manager has recorded and that let themselves be ended.
pub cleanup-running :
    (t : ℕ → Bool) (x : ℕ) (w : World)
    → member x (cleanup t w).running ≡ (member x w.running && not (recorded x w.manager && t x))
unfolding cleanup
cleanup-running t x w = simp (member-terminate, absorb)

-- The containers that a call loses: one that runs and is not ready in time, one whose host or port is not
-- to be had, and one that another of the same service replaces.
abbrev pub contents : Service → Manager → Option ℕ
contents amf m = m.amf_container
contents smf m = m.smf_container
contents ocs m = m.ocs_container
contents bss m = m.bss_container

abbrev pub listed : Option ℕ → List ℕ
listed none = []
listed (some c) = c ∷ []

abbrev pub lost_by_known : Service → Docker → World → List ℕ
lost_by_known sv d w = elim d.creation [
  | not_running ↦ []
  | not_ready ↦ w.fresh ∷ []
  | ready ↦ elim d.host [
    | none ↦ w.fresh ∷ []
    | some _ ↦ elim d.port [ none ↦ w.fresh ∷ [] | some _ ↦ listed (contents sv w.manager) ]
  ]
]

-- What the infrastructure loses: the container of Redis or that of NATS, if it runs and is not ready in
-- time.
abbrev pub lost_by_infrastructure : Docker → Docker → World → List ℕ
lost_by_infrastructure r n w = elim r.creation [
  | not_running ↦ []
  | not_ready ↦ w.fresh ∷ []
  | ready ↦ elim n.creation [ not_running ↦ [] | not_ready ↦ (w.fresh + 1) ∷ [] | ready ↦ [] ]
]

-- Every container that runs is recorded or among the lost.
abbrev pub Covered : List ℕ → World → Type 0
Covered lost w =
    (x : ℕ) → member x w.running ≡ true → (recorded x w.manager || member x lost) ≡ true

start_known-Covered :
    (name : String) (sv : Service) (d : Docker) (w : World) (lost : List ℕ)
    → Covered lost w
    → Covered (lost_by_known sv d w ++ lost) (start_known name sv d w).0
unfolding start_known
start_known-Covered name amf d w lost h x r = ground (arith, h x)
start_known-Covered name smf d w lost h x r = ground (arith, h x)
start_known-Covered name ocs d w lost h x r = ground (arith, h x)
start_known-Covered name bss d w lost h x r = ground (arith, h x)

-- The tests: the infrastructure is started, and then services, in any order and however often.
abbrev pub start_services : List (String × Docker) → World → World
start_services [] w = w
start_services ((name, d) ∷ rest) w = start_services rest (start_service name d w).0

abbrev pub lost_by_service : Option Service → Docker → World → List ℕ
lost_by_service none d w = []
lost_by_service (some sv) d w = lost_by_known sv d w

abbrev pub lost_by : String → Docker → World → List ℕ
lost_by name d w = lost_by_service (service_of name) d w

abbrev pub lost_by_all : List (String × Docker) → World → List ℕ → List ℕ
lost_by_all [] w lost = lost
lost_by_all ((name, d) ∷ rest) w lost =
    lost_by_all rest (start_service name d w).0 (lost_by name d w ++ lost)

start_service-Covered :
    (name : String) (d : Docker) (w : World) (lost : List ℕ)
    → Covered lost w
    → Covered (lost_by name d w ++ lost) (start_service name d w).0
unfolding start_service
start_service-Covered name d w lost h = elim (Option-cases (service_of name)) [
  | inl unknown ↦ rw (start_service, lost_by, unknown) h
  | inr (sv, known) ↦ rw (start_service, lost_by, known) (start_known-Covered name sv d w lost h)
]

start_services-Covered :
    (calls : List (String × Docker)) (w : World) (lost : List ℕ)
    → Covered lost w
    → Covered (lost_by_all calls w lost) (start_services calls w)
start_services-Covered [] w lost h = h
start_services-Covered ((name, d) ∷ rest) w lost h =
    start_services-Covered rest _ _ (start_service-Covered name d w lost h)

start_infrastructure-Covered :
    (r n : Docker) → Covered (lost_by_infrastructure r n start) (start_infrastructure r n start).0
unfolding start_infrastructure connect_infrastructure
start_infrastructure-Covered r n x h = ground arith

-- The tests as a whole: the infrastructure, and then the services.
abbrev pub start_all : Docker → Docker → List (String × Docker) → World
start_all r n calls = start_services calls (start_infrastructure r n start).0

abbrev pub lost_in_all : Docker → Docker → List (String × Docker) → List ℕ
lost_in_all r n calls =
    lost_by_all calls (start_infrastructure r n start).0 (lost_by_infrastructure r n start)

-- After the infrastructure and any services have been started, whatever fails, and `Cleanup`, only such
-- containers still run as refused to be ended, or as one of the calls lost: it ran and was not ready in
-- time, its host or port was not to be had, or another of the same service replaced it.
pub cleanup-leaves :
    (t : ℕ → Bool) (r n : Docker) (calls : List (String × Docker)) (x : ℕ)
    → member x (cleanup t (start_all r n calls)).running ≡ true
    → (member x (lost_in_all r n calls) ≡ true)
      ⊎ ((recorded x (start_all r n calls).manager ≡ true) × (t x ≡ false))
cleanup-leaves t r n calls x h =
    let end = start_all r n calls in
    let split = cleanup-running t x end in
    let covered =
      start_services-Covered calls (start_infrastructure r n start).0
        (lost_by_infrastructure r n start) (start_infrastructure-Covered r n) x in
    ground (arith, split, covered)

-- A container that runs, and that is not ready in time or whose host or port is not to be had.
abbrev pub IsSilent : Docker → Type 0
IsSilent d = (d.creation ≡ not_ready) ⊎ ((d.creation ≡ ready) × ((d.host ≡ none) ⊎ (d.port ≡ none)))

start_known-loses :
    (name : String) (sv : Service) (d : Docker) (w : World)
    → IsSilent d
    → (e : Error) × (start_known name sv d w ≡ (launch w, some e))
unfolding start_known
start_known-loses name sv d w (inl late) = (not_started, rw late refl)
start_known-loses name sv d w (inr (starts, inl silent)) = (no_host, rw (starts, silent) refl)
start_known-loses name sv d w (inr (starts, inr silent)) = elim (Option-cases d.host) [
  | inl missing ↦ (no_host, rw (starts, missing) refl)
  | inr (host, e) ↦ (no_port, rw (starts, e, silent) refl)
]

-- Such a container is lost: the call fails, and the container still runs after `Cleanup`.
pub start_service-loses :
    (t : ℕ → Bool) (name : String) (sv : Service) (d : Docker) (w : World)
    → service_of name ≡ some sv
    → IsSilent d
    → recorded w.fresh w.manager ≡ false
    → ((e : Error) × ((start_service name d w).1 ≡ some e))
      × (member w.fresh (cleanup t (start_service name d w).0).running ≡ true)
unfolding start_service
start_service-loses t name sv d w known silent new =
    let (e, ends) = start_known-loses name sv d w silent in
    let split = cleanup-running t w.fresh (launch w) in
    rw (start_service, known, ends) ((e, refl), split ∙ rw new (ground arith))
