-- ===== src/Upf/Orders/Exchange.antt =====
-- Exchanges of messages to the UPF (upf/pkg/upf/upf.go) that are about different sessions.
use openmvn.Common.{
  tests, ℕ, ◌≡◌, refl, sym, ap, ◌∙◌, Bool, true, false, Option, none, some, List, [], ◌∷◌, ◌++◌,
  String, arith, nat_key, Bool-cases, inl, inr,
}
use mathlib.Core.Path.{ap₂, subst}
use mathlib.Core.List.{append_assoc}
use mathlib.Core.List.Permᴰ
use openmvn.Common.Map.{lookup}
use openmvn.Common.Clock.{Time}
use openmvn.Pfcp.{Message}
use openmvn.Upf.{Session, Upf, handle_pfcp, Received, read_error, parse_error, message, serve_pfcp}
use openmvn.Upf.Sessions.{effect}
use openmvn.Upf.Orders.{
  concern, differ, concern_of, Reordered, same, exchange, both, view, Same, view-Same, effect_apart,
  answers, answers-eq, handle_pfcp-sent, handle_pfcp-lookup, handle_pfcp-Same,
}

differ_sym : (o p : Option ℕ) → differ o p ≡ true → differ p o ≡ true
differ_sym none none h = refl
differ_sym none (some j) h = refl
differ_sym (some k) none h = refl
differ_sym (some k) (some j) h = grind tests

differ_about :
    (o p : Option ℕ) (k : ℕ)
    → differ o (some k) ≡ false
    → differ o p ≡ true
    → differ p (some k) ≡ true
differ_about o none k about apart = refl
differ_about none (some j) k about apart = ground arith
differ_about (some i) (some j) k about apart = grind tests

effect_comm :
    (k : ℕ) (a b : Message) (a_now b_now : ℕ → Time) (o : Option Session)
    → differ (concern a) (concern b) ≡ true
    → effect k b b_now (effect k a a_now o) ≡ effect k a a_now (effect k b b_now o)
effect_comm k a b a_now b_now o apart = elim (Bool-cases (differ (concern a) (some k))) [
  | inl a_apart ↦
      ap (effect k b b_now) (effect_apart k a a_now o a_apart)
      ∙ sym (effect_apart k a a_now (effect k b b_now o) a_apart)
  | inr a_about ↦
      let b_apart = differ_about (concern a) (concern b) k a_about apart in
      effect_apart k b b_now (effect k a a_now o) b_apart
      ∙ ap (effect k a a_now) (sym (effect_apart k b b_now o b_apart))
]

-- What is answered to a message after one that is about another session.
answers-after :
    (a b : Message) (a_addr b_addr : String) (a_ok b_ok : Bool) (a_now b_now : ℕ → Time) (u : Upf)
    → differ (concern a) (concern b) ≡ true
    → answers b b_addr b_ok b_now (handle_pfcp a a_addr a_ok a_now u).sessions
      ≡ answers b b_addr b_ok b_now u.sessions
answers-after a b a_addr b_addr a_ok b_ok a_now b_now u apart =
    answers-eq b b_addr b_ok b_now (handle_pfcp a a_addr a_ok a_now u).sessions u.sessions
      (λ k about.
        handle_pfcp-lookup a a_addr a_ok a_now k u
        ∙ effect_apart k a a_now (lookup k u.sessions)
            (subst (λ o. differ (concern a) o ≡ true) about apart))

exchanged :
    (a b : Message) (a_addr b_addr : String) (a_ok b_ok : Bool) (a_now b_now : ℕ → Time) (u : Upf)
    → differ (concern a) (concern b) ≡ true
    → Same
        (handle_pfcp b b_addr b_ok b_now (handle_pfcp a a_addr a_ok a_now u))
        (handle_pfcp a a_addr a_ok a_now (handle_pfcp b b_addr b_ok b_now u))
exchanged a b a_addr b_addr a_ok b_ok a_now b_now u apart =
    let after_a = handle_pfcp a a_addr a_ok a_now u in
    let after_b = handle_pfcp b b_addr b_ok b_now u in
    let ra = answers a a_addr a_ok a_now u.sessions in
    let rb = answers b b_addr b_ok b_now u.sessions in
    let a_first : (handle_pfcp b b_addr b_ok b_now after_a).sent ≡ u.sent ++ (ra ++ rb) =
      handle_pfcp-sent b b_addr b_ok b_now after_a
      ∙ ap₂ (λ l r. l ++ r) (handle_pfcp-sent a a_addr a_ok a_now u)
          (answers-after a b a_addr b_addr a_ok b_ok a_now b_now u apart)
      ∙ append_assoc u.sent ra rb in
    let b_first : (handle_pfcp a a_addr a_ok a_now after_b).sent ≡ u.sent ++ (rb ++ ra) =
      handle_pfcp-sent a a_addr a_ok a_now after_b
      ∙ ap₂ (λ l r. l ++ r) (handle_pfcp-sent b b_addr b_ok b_now u)
          (answers-after b a b_addr a_addr b_ok a_ok b_now a_now u
            (differ_sym (concern a) (concern b) apart))
      ∙ append_assoc u.sent rb ra in
    record {
      sessions = λ k.
          handle_pfcp-lookup b b_addr b_ok b_now k after_a
          ∙ ap (effect k b b_now) (handle_pfcp-lookup a a_addr a_ok a_now k u)
          ∙ effect_comm k a b a_now b_now (lookup k u.sessions) apart
          ∙ sym (
              handle_pfcp-lookup a a_addr a_ok a_now k after_b
              ∙ ap (effect k a a_now) (handle_pfcp-lookup b b_addr b_ok b_now k u));
      sent = rw (a_first, b_first) (Permᴰ.append_left u.sent (Permᴰ.append_comm ra rb));
    }

serve_pfcp-Same :
    (rs : List Received) (u v : Upf) → Same u v → Same (serve_pfcp rs u) (serve_pfcp rs v)
unfolding serve_pfcp
serve_pfcp-Same [] u v h = h
serve_pfcp-Same (read_error ∷ rest) u v h = serve_pfcp-Same rest u v h
serve_pfcp-Same (parse_error ∷ rest) u v h = serve_pfcp-Same rest u v h
serve_pfcp-Same (message msg addr write_ok now ∷ rest) u v h =
    serve_pfcp-Same rest (handle_pfcp msg addr write_ok now u) (handle_pfcp msg addr write_ok now v)
      (handle_pfcp-Same msg addr write_ok now u v h)

Same-refl : (u : Upf) → Same u u
Same-refl u = record { sessions = λ k. refl; sent = Permᴰ.refl u.sent }

serve_pfcp-exchange :
    (xs ys : List Received) (a b : Received) (u : Upf)
    → differ (concern_of a) (concern_of b) ≡ true
    → Same (serve_pfcp (xs ++ a ∷ b ∷ ys) u) (serve_pfcp (xs ++ b ∷ a ∷ ys) u)
unfolding serve_pfcp
serve_pfcp-exchange [] ys read_error read_error u apart = Same-refl _
serve_pfcp-exchange [] ys read_error parse_error u apart = Same-refl _
serve_pfcp-exchange [] ys read_error (message m addr w now) u apart = Same-refl _
serve_pfcp-exchange [] ys parse_error read_error u apart = Same-refl _
serve_pfcp-exchange [] ys parse_error parse_error u apart = Same-refl _
serve_pfcp-exchange [] ys parse_error (message m addr w now) u apart = Same-refl _
serve_pfcp-exchange [] ys (message m addr w now) read_error u apart = Same-refl _
serve_pfcp-exchange [] ys (message m addr w now) parse_error u apart = Same-refl _
serve_pfcp-exchange [] ys (message a a_addr a_ok a_now) (message b b_addr b_ok b_now) u apart =
    serve_pfcp-Same ys _ _ (exchanged a b a_addr b_addr a_ok b_ok a_now b_now u apart)
serve_pfcp-exchange (read_error ∷ xs) ys a b u apart = serve_pfcp-exchange xs ys a b u apart
serve_pfcp-exchange (parse_error ∷ xs) ys a b u apart = serve_pfcp-exchange xs ys a b u apart
serve_pfcp-exchange (message m addr w now ∷ xs) ys a b u apart =
    serve_pfcp-exchange xs ys a b (handle_pfcp m addr w now u) apart

-- Messages about different sessions may be handled in any order: as long as those about one session
-- keep their order, every SEID ends up with the same session, and the same responses are sent to
-- the same addresses, each as often.
pub serve_pfcp-Reordered :
    (rs ss : List Received) (u : Upf)
    → Reordered rs ss
    → view (serve_pfcp rs u) ≡ view (serve_pfcp ss u)
serve_pfcp-Reordered rs ss u (same _) = refl
serve_pfcp-Reordered rs ss u (exchange xs ys a b apart) =
    view-Same _ _ (serve_pfcp-exchange xs ys a b u apart)
serve_pfcp-Reordered rs ts u (both {ss = ss} first second) =
    serve_pfcp-Reordered rs ss u first ∙ serve_pfcp-Reordered ss ts u second
