-- ===== src/ImsiSwitch/Answers.antt =====
-- What the receiver answers after an event and a response.
use openmvn.Common.{
  ℕ, ◌≡◌, ◌≢◌, refl, sym, ap, ◌∙◌, ◌⊎◌, true, false, Option, none, some, [], ◌∷◌, String, arith,
  length, get_elem?, Option-cases, inl, inr, string_key,
}
use openmvn.Common.Map.{
  lookup, delete, lookup-insert_self, lookup-insert_ne, lookup-delete_self, lookup-Entries,
}
use openmvn.Common.Http.{nothing, json, Response, http_error}
use openmvn.ImsiSwitch.{
  SwitchDecision, Receiver, on_switch, find_switch, show_switch, get_switch, respond, is_final,
  decide,
}
use openmvn.ImsiSwitch.Invariant.{
  IsPending, IsValid, get_elem?-last, get_elem?-append, set_status_self,
}

show_found :
    (r : Receiver) (p : ℕ) {d : SwitchDecision}
    → get_elem? r.heap p ≡ some d
    → show_switch (some p) r ≡ record { status = 200; body = json d }
unfolding show_switch
show_found r p f = ground arith

-- A `GET` for a device whose entry points at a decision.
get_switch_found :
    (device : String) (r : Receiver) (p : ℕ) (d : SwitchDecision)
    → lookup device r.pending ≡ some p
    → get_elem? r.heap p ≡ some d
    → get_switch device r ≡ record { status = 200; body = json d }
unfolding get_switch
get_switch_found device r p d e f = ground arith

get_switch_absent :
    (device : String) (r : Receiver)
    → lookup device r.pending ≡ none
    → get_switch device r ≡ http_error "No pending switch found" 404
unfolding get_switch
get_switch_absent device r e = ground arith

-- An event is what the next `GET` of its device gives, also where an earlier decision was pending;
-- what a `GET` of any other device gives stays the same.
pub on_switch-get :
    (event : SwitchDecision) (r : Receiver)
    → IsValid r
    → (get_switch event.device_id (on_switch (some event) r)
        ≡ record { status = 200; body = json event })
      × ((k : String)
          → event.device_id ≢ k
          → get_switch k (on_switch (some event) r) ≡ get_switch k r)
unfolding on_switch
on_switch-get event r h = (
  get_switch_found event.device_id (on_switch (some event) r) (length r.heap) event
      (lookup-insert_self event.device_id (length r.heap) r.pending) (get_elem?-last r.heap event),
  λ k ne. other k ne (Option-cases (lookup k r.pending)),
)
  where
    other :
        (k : String)
        → event.device_id ≢ k
        → (lookup k r.pending ≡ none) ⊎ ((p : ℕ) × (lookup k r.pending ≡ some p))
        → get_switch k (on_switch (some event) r) ≡ get_switch k r
    other k ne (inl absent) =
        get_switch_absent k (on_switch (some event) r)
          (lookup-insert_ne event.device_id k (length r.heap) r.pending ne ∙ absent)
        ∙ sym (get_switch_absent k r absent)
    other k ne (inr (p, e)) =
        let (d, f, _) = lookup-Entries (IsPending r.heap) k r.pending h.pointers e in
        get_switch_found k (on_switch (some event) r) p d
          (lookup-insert_ne event.device_id k (length r.heap) r.pending ne ∙ e)
          (get_elem?-append r.heap (event ∷ []) p f)
        ∙ sym (get_switch_found k r p d e f)

respond_found :
    (device status : String) (r : Receiver) (p : ℕ)
    → lookup device r.pending ≡ some p
    → respond device (some status) r
      ≡ (decide device status p r, record { status = 200; body = nothing })
unfolding respond
respond_found device status r p e = rw (e, respond)

decide-final :
    (device status : String) (p : ℕ) (r : Receiver)
    → is_final status ≡ true
    → (decide device status p r).pending ≡ delete device r.pending
unfolding decide
decide-final device status p r f = rw f refl

decide-open :
    (device status : String) (p : ℕ) (r : Receiver)
    → is_final status ≡ false
    → (decide device status p r).pending ≡ r.pending
unfolding decide
decide-open device status p r f = rw f refl

decide-heap :
    (device status : String) (p : ℕ) (r : Receiver) {d : SwitchDecision}
    → get_elem? r.heap p ≡ some d
    → get_elem? (decide device status p r).heap p ≡ some (record d { status = status })
unfolding decide
decide-heap device status p r f = set_status_self r.heap p status f

-- The answers to a response. Where a decision is pending: 200; a final status, "accepted" or
-- "rejected", ends the wait of the device, and any other text is stored in the pending decision.
abbrev pub RespondAnswers :
    String → Option String → Receiver → Receiver × Response (Unit {0}) → Type 0
RespondAnswers device body r (r', ans) =
    ((body ≡ none) × (r' ≡ r) × (ans.status ≡ 400))
    ⊎ ((body ≢ none) × (lookup device r.pending ≡ none) × (r' ≡ r) × (ans.status ≡ 404))
    ⊎ ((status : String) × (d : SwitchDecision) × (body ≡ some status)
        × (get_switch device r ≡ record { status = 200; body = json d })
        × (ans.status ≡ 200)
        × (is_final status ≡ true → get_switch device r' ≡ http_error "No pending switch found" 404)
        × (is_final status ≡ false
            → get_switch device r'
              ≡ record { status = 200; body = json (record d { status = status }) }))

-- A response to a pending decision answers 200: with a final status the device has nothing pending
-- afterwards, with any other text the decision stays pending and carries that text. It answers 404
-- where nothing is pending and 400 where the body does not decode, and then changes nothing.
pub respond-answers :
    (device : String) (body : Option String) (r : Receiver)
    → IsValid r
    → RespondAnswers device body r (respond device body r)
respond-answers device none r h = inl (refl, unfold respond in refl, unfold respond in refl)
respond-answers device (some status) r h = elim (Option-cases (lookup device r.pending)) [
  | inl absent ↦ inr (
      inl (
        λ q. cc,
        absent,
        unfold respond in rw (absent, respond) refl,
        unfold respond in rw (absent, respond) refl,
      ))
  | inr (p, e) ↦
      let (d, f, _) = lookup-Entries (IsPending r.heap) device r.pending h.pointers e in
      rw (respond_found device status r p e) (
        inr (
          inr (
            status,
            d,
            refl,
            get_switch_found device r p d e f,
            refl,
            λ final. get_switch_absent device (decide device status p r) (
                ap (lookup device) (decide-final device status p r final)
                ∙ lookup-delete_self device r.pending),
            λ open_status.
                get_switch_found device (decide device status p r) p (record d { status = status })
                  (ap (lookup device) (decide-open device status p r open_status) ∙ e)
                  (decide-heap device status p r f),
          )))
]

-- A `GET` reads its decision after it has released the lock. If a final response comes between the
-- two, that `GET` still answers 200 and shows the decision with the status of the response, while a
-- `GET` that starts afterwards answers 404.
pub get_switch-race :
    (device status : String) (r : Receiver) {p : ℕ}
    → IsValid r
    → find_switch device r ≡ some p
    → is_final status ≡ true
    → let r' = (respond device (some status) r).0 in
      ((d : SwitchDecision) × (show_switch (find_switch device r) r'
          ≡ record { status = 200; body = json d })
        × (d.status ≡ status)
        × (d.device_id ≡ device))
      × (get_switch device r' ≡ http_error "No pending switch found" 404)
unfolding find_switch
get_switch-race device status r {p} h e final =
    let (d, f, same) = lookup-Entries (IsPending r.heap) device r.pending h.pointers e in
    rw (respond_found device status r p e, e)
      (
        (
          record d { status = status },
          show_found (decide device status p r) p (decide-heap device status p r f),
          refl,
          same,
        ),
        get_switch_absent device (decide device status p r) (
            ap (lookup device) (decide-final device status p r final)
            ∙ lookup-delete_self device r.pending),
      )
