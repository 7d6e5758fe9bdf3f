-- ===== src/Amf/Ngap/History.antt =====
-- The AMF with a goroutine for each connection (amf/main.go) against its messages in three orders: that of their
-- registrations, that of their responses, and that of their events.
use openmvn.Common.{
  ℕ, ◌≡◌, refl, sym, ap, ◌∙◌, Option, none, some, List, [], ◌∷◌, ◌++◌, String, if◌then◌else◌, inl,
  inr, Bool-cases, nat_key, ◌==◌, Permᴰ-path, Permᴰ-moved, Permᴰ-handed,
}
use mathlib.Core.Path.{subst}
use mathlib.Core.List.{Permᴰ, append-nil, append_assoc}
use mathlib.Core.List.Permᴰ
use openmvn.Common.Map.{lookup, lookup-insert}
use openmvn.Common.Decimal.{print_uint}
use openmvn.Events.{Bytes, Bus, publish_ue_registered}
use openmvn.Amf.Store.{UeContext, register, seen}
use openmvn.Amf.Auth.{authenticate}
use openmvn.Amf.Ngap.{Codec, Amf, context_of, response_of, announce}
use openmvn.Amf.Ngap.Interleaving.{
  Job, World, register_context, write_response, give_up, publish_event, Reach, here, next, resting,
}

-- The context of a UE after registrations: that of the last message for it, whoever sent it.
abbrev pub last_context : ℕ → List Job → Option UeContext → Option UeContext
last_context k [] o = o
last_context k (job ∷ jobs) o =
    last_context k jobs (
      if job.msg.ueid == k
      then some (seen (job.now 2) (context_of job.peer job.msg job.now))
      else o)

abbrev pub addressed : String → Option Bytes → List (String × Bytes)
addressed peer none = []
addressed peer (some payload) = (peer, payload) ∷ []

module _ (c : Codec) where
  abbrev pub responses : List Job → List (String × Bytes)
  responses [] = []
  responses (job ∷ jobs) =
      addressed job.peer (c.encode (response_of job.msg job.now)) ++ responses jobs

  -- The bus after the event of a message whose UE has passed.
  abbrev pub announced : Job → Bus → Bus
  announced job bus =
      if authenticate job.msg.nas_msg.imsi job.msg.nas_msg.auth
      then publish_ue_registered c.marshal (print_uint job.msg.ueid) job.msg.nas_msg.imsi
          (job.now 4) bus
      else bus

  abbrev pub announced_all : List Job → Bus → Bus
  announced_all [] bus = bus
  announced_all (job ∷ jobs) bus = announced_all jobs (announced job bus)

-- The jobs in the order of their registration, those given up, those answered, and those announced.
pub record History : Type 0 where
  pub registered : List Job
  pub given_up : List Job
  pub answered : List Job
  pub announced : List Job

-- Every job registered waits for its response, has been given up or answered; every job answered waits
-- for its event or has been announced; and the AMF is what these orders make of the one at the start.
pub record IsHistory (c : Codec) (s : Amf) (w : World) (h : History) : Type 0 where
  pub contexts : (k : ℕ) → lookup k w.amf.store ≡ last_context k h.registered (lookup k s.store)
  pub sent : w.amf.sent ≡ s.sent ++ responses c h.answered
  pub bus : w.amf.bus ≡ announced_all c h.announced s.bus
  pub jobs : Permᴰ h.registered (w.registered ++ (h.given_up ++ h.answered))
  pub answers : Permᴰ h.answered (w.answered ++ h.announced)

last_context-snoc :
    (k : ℕ) (jobs : List Job) (job : Job) (o : Option UeContext)
    → last_context k (jobs ++ job ∷ []) o ≡ last_context k (job ∷ []) (last_context k jobs o)
last_context-snoc k [] job o = refl
last_context-snoc k (x ∷ jobs) job o = last_context-snoc k jobs job _

responses-snoc :
    (c : Codec) (jobs : List Job) (job : Job) (payload : Bytes)
    → c.encode (response_of job.msg job.now) ≡ some payload
    → responses c (jobs ++ job ∷ []) ≡ responses c jobs ++ (job.peer, payload) ∷ []
responses-snoc c [] job payload e = ap (λ o. addressed job.peer o ++ []) e
responses-snoc c (x ∷ jobs) job payload e =
    ap (λ l. addressed x.peer (c.encode (response_of x.msg x.now)) ++ l)
      (responses-snoc c jobs job payload e)
    ∙ sym (
        append_assoc (addressed x.peer (c.encode (response_of x.msg x.now))) (responses c jobs)
          ((job.peer, payload) ∷ []))

announced_all-snoc :
    (c : Codec) (jobs : List Job) (job : Job) (bus : Bus)
    → announced_all c (jobs ++ job ∷ []) bus ≡ announced c job (announced_all c jobs bus)
announced_all-snoc c [] job bus = refl
announced_all-snoc c (x ∷ jobs) job bus = announced_all-snoc c jobs job (announced c x bus)

announce_parts :
    (c : Codec) (job : Job) (amf : Amf)
    → let after = announce c job.msg job.now amf in
      (after.bus ≡ announced c job amf.bus) × (after.store ≡ amf.store) × (after.sent ≡ amf.sent)
unfolding announce
announce_parts c job amf =
    elim (Bool-cases (authenticate job.msg.nas_msg.imsi job.msg.nas_msg.auth)) [
      | inl passes ↦ rw passes (refl, refl, refl)
      | inr fails ↦ rw fails (refl, refl, refl)
    ]

abbrev WithHistory : Codec → Amf → World → Type 0
WithHistory c s w = (h : History) × IsHistory c s w h

registers :
    (c : Codec) (s : Amf) (w : World) (job : Job)
    → WithHistory c s w
    → WithHistory c s (record w {
      amf = record w.amf {
        store = register (context_of job.peer job.msg job.now) (job.now 2) w.amf.store;
      };
      registered = job ∷ w.registered;
    })
unfolding register
registers c s w job (h, p) = (
  record h { registered = h.registered ++ job ∷ [] },
  record {
    contexts = λ k.
        lookup-insert job.msg.ueid k (seen (job.now 2) (context_of job.peer job.msg job.now))
          w.amf.store
        ∙ ap (last_context k (job ∷ [])) (p.contexts k)
        ∙ sym (last_context-snoc k h.registered job (lookup k s.store));
    sent = p.sent;
    bus = p.bus;
    jobs = Permᴰ.trans (Permᴰ.append_comm h.registered (job ∷ [])) (Permᴰ.cons refl p.jobs);
    answers = p.answers;
  },
)

writes :
    (c : Codec) (s : Amf) (w : World) (xs ys : List Job) (job : Job) (payload : Bytes)
    → w.registered ≡ xs ++ job ∷ ys
    → c.encode (response_of job.msg job.now) ≡ some payload
    → WithHistory c s w
    → WithHistory c s (record w {
      amf = record w.amf { sent = w.amf.sent ++ (job.peer, payload) ∷ [] };
      registered = xs ++ ys;
      answered = job ∷ w.answered;
    })
writes c s w xs ys job payload e enc (h, p) = (
  record h { answered = h.answered ++ job ∷ [] },
  record {
    contexts = p.contexts;
    sent =
        ap (λ l. l ++ (job.peer, payload) ∷ []) p.sent
        ∙ append_assoc s.sent (responses c h.answered) ((job.peer, payload) ∷ [])
        ∙ ap (λ l. s.sent ++ l) (sym (responses-snoc c h.answered job payload enc));
    bus = p.bus;
    jobs =
        Permᴰ.trans (subst (λ l. Permᴰ h.registered (l ++ (h.given_up ++ h.answered))) e p.jobs) (
          Permᴰ.trans (Permᴰ-moved xs ys (h.given_up ++ h.answered) job) (
            Permᴰ-path
              (ap (λ l. (xs ++ ys) ++ l) (append_assoc h.given_up h.answered (job ∷ [])))));
    answers = Permᴰ.trans (Permᴰ.append_comm h.answered (job ∷ [])) (Permᴰ.cons refl p.answers);
  },
)

gives_up :
    (c : Codec) (s : Amf) (w : World) (xs ys : List Job) (job : Job)
    → w.registered ≡ xs ++ job ∷ ys
    → WithHistory c s w
    → WithHistory c s (record w { registered = xs ++ ys })
gives_up c s w xs ys job e (h, p) = (
  record h { given_up = job ∷ h.given_up },
  record {
    contexts = p.contexts;
    sent = p.sent;
    bus = p.bus;
    jobs =
        Permᴰ.trans (subst (λ l. Permᴰ h.registered (l ++ (h.given_up ++ h.answered))) e p.jobs)
          (Permᴰ-handed xs ys (h.given_up ++ h.answered) job);
    answers = p.answers;
  },
)

publishes :
    (c : Codec) (s : Amf) (w : World) (xs ys : List Job) (job : Job)
    → w.answered ≡ xs ++ job ∷ ys
    → WithHistory c s w
    → WithHistory c s (record w { amf = announce c job.msg job.now w.amf; answered = xs ++ ys })
publishes c s w xs ys job e (h, p) =
    let (bus, store, sent) = announce_parts c job w.amf in
    (
      record h { announced = h.announced ++ job ∷ [] },
      record {
        contexts = λ k. ap (lookup k) store ∙ p.contexts k;
        sent = sent ∙ p.sent;
        bus = bus ∙ ap (announced c job) p.bus ∙ sym (announced_all-snoc c h.announced job s.bus);
        jobs = p.jobs;
        answers =
            Permᴰ.trans (subst (λ l. Permᴰ h.answered (l ++ h.announced)) e p.answers)
              (Permᴰ-moved xs ys h.announced job);
      },
    )

-- However the goroutines of the connections interleave, from an AMF without jobs on: there is an order
-- of the registrations, of the responses and of the events, such that the context of every UE is that of the
-- last registration for it, the responses sent are those of the jobs answered, the events are those of
-- the jobs announced whose UE has passed; and each job registered waits for its response, has been
-- given up or answered, and each one answered waits for its event or has been announced.
pub Reach-IsHistory :
    (c : Codec) (s : Amf) {w : World} → Reach c (resting s) w → (h : History) × IsHistory c s w h
Reach-IsHistory c s here = (
  record { registered = []; given_up = []; answered = []; announced = [] },
  record {
    contexts = λ k. refl;
    sent = sym (append-nil s.sent);
    bus = refl;
    jobs = Permᴰ.refl [];
    answers = Permᴰ.refl [];
  },
)
Reach-IsHistory c s (next {t} path (register_context job)) =
    registers c s t job (Reach-IsHistory c s path)
Reach-IsHistory c s (next {t} path (write_response xs ys job payload e enc)) =
    writes c s t xs ys job payload e enc (Reach-IsHistory c s path)
Reach-IsHistory c s (next {t} path (give_up xs ys job e)) =
    gives_up c s t xs ys job e (Reach-IsHistory c s path)
Reach-IsHistory c s (next {t} path (publish_event xs ys job e)) =
    publishes c s t xs ys job e (Reach-IsHistory c s path)
