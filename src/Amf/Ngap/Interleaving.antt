-- ===== src/Amf/Ngap/Interleaving.antt =====
-- The AMF with a goroutine for each connection (amf/main.go): the rounds of the loops of `handleNGAP`
-- interleave between the registration, the response and the event.
use openmvn.Common.{
  Option-cases, Bool, length-taken, ℕ, ◌+◌, ◌≤◌, ◌≡◌, refl, ap, inl, inr, some, List, [], ◌∷◌, ◌++◌,
  String, arith, Bool-cases, All, length, length-append, nat_key,
}
use openmvn.Common.Map.{IsUnique, insert-IsUnique, Entries, insert-Entries}
use openmvn.Common.Clock.{Time}
use openmvn.Events.{Bytes}
use openmvn.Amf.Store.{register, seen}
use openmvn.Amf.Auth.{authenticate}
use openmvn.Amf.Ngap.{
  NgapMessage, Codec, Amf, context_of, response_of, announce, respond, handle_message,
}
use openmvn.Amf.Ngap.Safety.{
  IsContext, IsRegistration, known, context_of-IsContext, publish_ue_registered_bound,
}

-- A message of a peer on its way through the loop, with the clock of its round.
pub record Job : Type 0 where
  pub peer : String
  pub msg : NgapMessage
  pub now : ℕ → Time

-- The AMF, the jobs that wait for their response, and those whose response has been written.
pub record World : Type 0 where
  pub amf : Amf
  pub registered : List Job
  pub answered : List Job

-- One goroutine moves on: it registers the context of a message that it has read, writes the response, or
-- gives the message up where the response cannot be encoded or written, or publishes the event. A
-- connection has one job at a time; here it may have several, which allows more.
pub data Step (c : Codec) (w : World) : World → Type 0 where
  register_context :
      (job : Job)
      → Step c w (record w {
        amf = record w.amf {
          store = register (context_of job.peer job.msg job.now) (job.now 2) w.amf.store;
        };
        registered = job ∷ w.registered;
      })
  write_response :
      (xs ys : List Job) (job : Job) (payload : Bytes)
      → w.registered ≡ xs ++ job ∷ ys
      → c.encode (response_of job.msg job.now) ≡ some payload
      → Step c w (record w {
        amf = record w.amf { sent = w.amf.sent ++ (job.peer, payload) ∷ [] };
        registered = xs ++ ys;
        answered = job ∷ w.answered;
      })
  give_up :
      (xs ys : List Job) (job : Job)
      → w.registered ≡ xs ++ job ∷ ys
      → Step c w (record w { registered = xs ++ ys })
  publish_event :
      (xs ys : List Job) (job : Job)
      → w.answered ≡ xs ++ job ∷ ys
      → Step c w (record w { amf = announce c job.msg job.now w.amf; answered = xs ++ ys })

pub data Reach (c : Codec) (s : World) : World → Type 0 where
  here : Reach c s s
  next : {t u : World} → Reach c s t → Step c t u → Reach c s u

-- The AMF is sound, and every response of an unpublished job is still free for an event.
pub record IsSoundWorld (c : Codec) (w : World) : Type 0 where
  pub unique : IsUnique w.amf.store
  pub contexts : Entries IsContext w.amf.store
  pub published : All (IsRegistration c.marshal) w.amf.bus
  pub answered : length w.amf.bus + length w.answered ≤ length w.amf.sent

announce_sound :
    (c : Codec) (job : Job) (amf : Amf)
    → All (IsRegistration c.marshal) amf.bus
    → let after = announce c job.msg job.now amf in
      All (IsRegistration c.marshal) after.bus
      × (length after.bus ≤ length amf.bus + 1)
      × (after.store ≡ amf.store)
      × (after.sent ≡ amf.sent)
unfolding announce
announce_sound c job amf h =
    elim (Bool-cases (authenticate job.msg.nas_msg.imsi job.msg.nas_msg.auth)) [
      | inr fails ↦ rw fails (h, omega arith, refl, refl)
      | inl passes ↦
          let (regs, few) =
            publish_ue_registered_bound c.marshal job.msg.ueid job.msg.nas_msg.imsi (job.now 4)
              amf.bus (known job.msg.nas_msg.imsi job.msg.nas_msg.auth passes) h in
          rw passes (regs, few, refl, refl)
    ]

Step-IsSoundWorld : {c : Codec} {w u : World} → Step c w u → IsSoundWorld c w → IsSoundWorld c u
unfolding register
Step-IsSoundWorld {c} {w} (register_context job) h =
    let ue = seen (job.now 2) (context_of job.peer job.msg job.now) in
    record {
      unique = insert-IsUnique job.msg.ueid ue w.amf.store h.unique;
      contexts =
          insert-Entries IsContext job.msg.ueid ue w.amf.store
            (context_of-IsContext job.peer job.msg job.now) h.contexts;
      published = h.published;
      answered = h.answered;
    }
Step-IsSoundWorld {c} {w} (write_response xs ys job payload e enc) h = record {
  unique = h.unique;
  contexts = h.contexts;
  published = h.published;
  answered = omega (arith, h.answered, length-append w.amf.sent ((job.peer, payload) ∷ []));
}
Step-IsSoundWorld (give_up xs ys job e) h = record {
  unique = h.unique;
  contexts = h.contexts;
  published = h.published;
  answered = h.answered;
}
Step-IsSoundWorld {c} {w} (publish_event xs ys job e) h =
    let (regs, few, store, sent) = announce_sound c job w.amf h.published in
    record {
      unique = rw store h.unique;
      contexts = rw store h.contexts;
      published = regs;
      answered =
          omega (arith, few, h.answered, length-taken w.answered xs ys job e, ap length sent);
    }

-- However the goroutines of the connections interleave: the store, its contexts and the published events
-- stay sound, and there are never more events than responses.
pub Reach-IsSoundWorld :
    {c : Codec} {s w : World} → IsSoundWorld c s → Reach c s w → IsSoundWorld c w
Reach-IsSoundWorld h here = h
Reach-IsSoundWorld h (next r st) = Step-IsSoundWorld st (Reach-IsSoundWorld h r)

-- The AMF without a job under way.
abbrev pub resting : Amf → World
resting amf = record { amf = amf; registered = []; answered = [] }

-- Without other connections in between, the steps of a job are a round of the loop.
resting-handle_message :
    (c : Codec) (peer : String) (msg : NgapMessage) (write_ok : Bool) (now : ℕ → Time) (amf : Amf)
    → Reach c (resting amf) (resting (handle_message c peer msg write_ok now amf))
unfolding handle_message
resting-handle_message c peer msg write_ok now amf =
    let job : Job = record { peer = peer; msg = msg; now = now } in
    let after_register : Amf = record amf {
      store = register (context_of peer msg now) (now 2) amf.store;
    } in
    let registered : Reach c (resting amf)
        (record { amf = after_register; registered = job ∷ []; answered = [] }) =
      next here (register_context job) in
    let given_up : Reach c (resting amf) (resting after_register) =
      next registered (give_up [] [] job refl) in
    elim (Option-cases (c.encode (response_of msg now))) [
      | inl fails ↦ rw (handle_message, respond, fails) given_up
      | inr (payload, e) ↦ elim (Bool-cases write_ok) [
        | inr fails ↦ rw (handle_message, respond, e, fails) given_up
        | inl writes ↦
            rw (handle_message, respond, e, writes)
              (next (next registered (write_response [] [] job payload refl e))
                (publish_event [] [] job refl))
      ]
    ]
