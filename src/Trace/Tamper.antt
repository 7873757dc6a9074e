-- ===== src/Trace/Tamper.antt =====
-- adapters/evidence/jsonl_store.py: a trace that verifies is bound to its head hash.
use mathlib.Core.List.{reverse, reverse_aux, reverse-reverse}
use agent_trust_runtime.Base.{
  ℕ, suc, String, ◌≡◌, ◌≢◌, refl, sym, ap, ◌∙◌, subst, ◌⊎◌, inl, inr, true, Option, none, some,
  List, [], ◌∷◌, map, ◌==◌, eq_iff, arith, Bool-cases, Error, type_error, Result, ok, raised,
}
use agent_trust_runtime.Value.{Value, text, Fields, opt_text, get_or_none, without, same}
use agent_trust_runtime.Value.Laws.{get-without}
use agent_trust_runtime.Host.{Host}
use agent_trust_runtime.Protocol.{as_text}
use agent_trust_runtime.Trace.{
  valid, invalid, Verdict, linked, broken, event_hash, compare_hash, check_event, verify_from,
  verify_events,
}

pub same-opt_text : (v : Value) (o : Option String) → same v (opt_text o) ≡ true → as_text v ≡ o
unfolding same
same-opt_text (text a) (some t) h = ap some ((eq_iff a t).0 h)
same-opt_text (text a) none h = cc
same-opt_text v none h = ground arith
same-opt_text v (some t) h = cc

String-dec : (a b : String) → Dec (a ≡ b)
String-dec a b = elim (Bool-cases (a == b)) [
  | inl e ↦ yes ((eq_iff a b).0 e)
  | inr e ↦ no (λ p. cc ((eq_iff a b).1 p))
]

map-reverse_aux :
    (f : Fields → Option String) (xs ys : List Fields)
    → map f (reverse_aux xs ys) ≡ reverse_aux (map f xs) (map f ys)
map-reverse_aux f [] ys = refl
map-reverse_aux f (x ∷ xs) ys = map-reverse_aux f xs (x ∷ ys)

some-hash : (a b : String) → ◌≡◌ {A = Option String} (some a) (some b) → a ≡ b
some-hash a b h = cc

previous_hash-without :
    (d : Fields)
    → get_or_none "previous_hash" (without "event_hash" d) ≡ get_or_none "previous_hash" d
unfolding get_or_none
previous_hash-without d = rw (get-without "event_hash" "previous_hash" d, get_or_none)

module _ (host : Host) where
  -- The events of a verified chain, the newest first, with the hash of the newest.
  pub data Chain : List Fields → Option String → Type 0 where
    start : Chain [] none
    link :
        {events : List Fields} {previous : Option String} {event : Fields} {hash : String}
        → Chain events previous
        → check_event host previous event ≡ ok (linked hash)
        → Chain (event ∷ events) (some hash)

  -- One step of the loop, where the event is linked.
  pub verify_from-linked :
      (checked : ℕ) (previous : Option String) (event : Fields) (rest : List Fields) (hash : String)
      → check_event host previous event ≡ ok (linked hash)
      → verify_from host checked previous (event ∷ rest)
        ≡ verify_from host (suc checked) (some hash) rest
  unfolding verify_from
  verify_from-linked checked previous event rest hash h = rw (h, verify_from)

  verify_from-raised :
      (checked : ℕ) (previous : Option String) (event : Fields) (rest : List Fields) (e : Error)
      → check_event host previous event ≡ raised e
      → verify_from host checked previous (event ∷ rest) ≡ raised e
  unfolding verify_from
  verify_from-raised checked previous event rest e h = rw (h, verify_from)

  verify_from-broken :
      (checked : ℕ) (previous : Option String) (event : Fields) (rest : List Fields)
      (reason : String)
      → check_event host previous event ≡ ok (broken reason)
      → verify_from host checked previous (event ∷ rest) ≡ ok (invalid (suc checked) reason)
  unfolding verify_from
  verify_from-broken checked previous event rest reason h = rw (h, verify_from)

  -- The first event of a trace that verifies is linked.
  pub verify_from-cons :
      (checked n : ℕ) (previous head : Option String) (event : Fields) (rest : List Fields)
      → verify_from host checked previous (event ∷ rest) ≡ ok (valid n head)
      → (hash : String) × (check_event host previous event ≡ ok (linked hash))
        × (verify_from host (suc checked) (some hash) rest ≡ ok (valid n head))
  verify_from-cons checked n previous head event rest h = go (check_event host previous event) refl
    where
      go :
          (r : Result Verdict)
          → check_event host previous event ≡ r
          → (hash : String) × (check_event host previous event ≡ ok (linked hash))
            × (verify_from host (suc checked) (some hash) rest ≡ ok (valid n head))
      go (ok (linked hash)) e =
          (hash, e, sym (verify_from-linked checked previous event rest hash e) ∙ h)
      go (ok (broken reason)) e = cc (verify_from-broken checked previous event rest reason e)
      go (raised x) e = cc (verify_from-raised checked previous event rest x e)

  pub verify_from-nil :
      (checked n : ℕ) (previous head : Option String)
      → verify_from host checked previous [] ≡ ok (valid n head)
      → (previous ≡ head) × (checked ≡ n)
  unfolding verify_from
  verify_from-nil checked n previous head h = ground arith

  -- A chain that goes on verifying from what was seen before.
  verify_from-Chain :
      (events seen : List Fields) (checked n : ℕ) (previous head : Option String)
      → Chain seen previous
      → verify_from host checked previous events ≡ ok (valid n head)
      → Chain (reverse_aux events seen) head
  verify_from-Chain [] seen checked n previous head c h =
      subst (Chain seen) (verify_from-nil checked n previous head h).0 c
  verify_from-Chain (event ∷ events) seen checked n previous head c h =
      let (hash, e, rest) = verify_from-cons checked n previous head event events h in
      verify_from-Chain events (event ∷ seen) (suc checked) n (some hash) head (link c e) rest

  -- The text whose hash an event records: `None` where it cannot be written.
  abbrev pub canonical : Fields → Option String
  canonical event = host.dumps true (without "event_hash" event)

  -- Two texts with one digest.
  abbrev pub Collision : Type 0
  Collision = (a b : String) × (a ≢ b) × (host.sha256 a ≡ host.sha256 b)

  linked-previous :
      (previous : Option String) (event : Fields) (hash : String)
      → check_event host previous event ≡ ok (linked hash)
      → same (get_or_none "previous_hash" event) (opt_text previous) ≡ true
  unfolding check_event
  linked-previous previous event hash h = ground arith

  compare_hash-linked :
      (r : Result String) (actual hash : String)
      → compare_hash host r actual ≡ ok (linked hash)
      → r ≡ ok hash
  unfolding compare_hash
  compare_hash-linked (raised e) actual hash h = cc
  compare_hash-linked (ok computed) actual hash h = ground (arith, eq_iff computed actual)

  linked-event_hash :
      (previous : Option String) (event : Fields) (hash : String)
      → check_event host previous event ≡ ok (linked hash)
      → event_hash host event ≡ ok hash
  unfolding check_event
  linked-event_hash previous event hash h = go (as_text (get_or_none "event_hash" event)) refl
    where
      go :
          (o : Option String)
          → as_text (get_or_none "event_hash" event) ≡ o
          → event_hash host event ≡ ok hash
      go none e = ground arith
      go (some actual) e = compare_hash-linked (event_hash host event) actual hash (ground arith)

  event_hash-none :
      (event : Fields)
      → canonical event ≡ none
      → event_hash host event ≡ raised (type_error "not JSON serializable")
  unfolding event_hash
  event_hash-none event e = rw (e, event_hash)

  event_hash-some :
      (event : Fields) (t : String)
      → canonical event ≡ some t
      → event_hash host event ≡ ok (host.sha256 t)
  unfolding event_hash
  event_hash-some event t e = rw (e, event_hash)

  event_hash-canonical :
      (event : Fields) (hash : String)
      → event_hash host event ≡ ok hash
      → (t : String) × (canonical event ≡ some t) × (host.sha256 t ≡ hash)
  event_hash-canonical event hash h = go (canonical event) refl
    where
      go :
          (o : Option String)
          → canonical event ≡ o
          → (t : String) × (canonical event ≡ some t) × (host.sha256 t ≡ hash)
      go none e = absurd (cc (event_hash-none event e))
      go (some t) e = (t, e, cc (event_hash-some event t e))

  -- What a linked event has: the previous hash, and the hash of its canonical text.
  linked-parts :
      (previous : Option String) (event : Fields) (hash : String)
      → check_event host previous event ≡ ok (linked hash)
      → (as_text (get_or_none "previous_hash" event) ≡ previous)
        × ((t : String) × (canonical event ≡ some t) × (host.sha256 t ≡ hash))
  linked-parts previous event hash h = (
    same-opt_text (get_or_none "previous_hash" event) previous
        (linked-previous previous event hash h),
    event_hash-canonical event hash (linked-event_hash previous event hash h),
  )

  -- The serialization tells texts apart: what is a string at a key can be read off the JSON text.
  abbrev pub TellsTexts : Type 0
  TellsTexts =
      (a b : Fields) (t k : String)
      → host.dumps true a ≡ some t
      → host.dumps true b ≡ some t
      → as_text (get_or_none k a) ≡ as_text (get_or_none k b)

  same_previous :
      TellsTexts
      → (a b : Fields) (t : String) → canonical a ≡ some t
      → canonical b ≡ some t
      → as_text (get_or_none "previous_hash" a) ≡ as_text (get_or_none "previous_hash" b)
  same_previous tells a b t p q =
      sym (ap as_text (previous_hash-without a))
      ∙ tells (without "event_hash" a) (without "event_hash" b) t "previous_hash" p q
      ∙ ap as_text (previous_hash-without b)

  linked_flat :
      (previous : Option String) (event : Fields) (hash : String)
      → check_event host previous event ≡ ok (linked hash)
      → (as_text (get_or_none "previous_hash" event) ≡ previous)
        × (t : String) × (canonical event ≡ some t)
        × (host.sha256 t ≡ hash)
  linked_flat previous event hash h =
      let (p, rest) = linked-parts previous event hash h in (p, rest.0, rest.1, rest.2)

  joined :
      (x y : Fields) (xs ys : List Fields)
      → canonical x ≡ canonical y
      → Collision ⊎ (map canonical xs ≡ map canonical ys)
      → Collision ⊎ (map canonical (x ∷ xs) ≡ map canonical (y ∷ ys))
  joined x y xs ys e (inl c) = inl c
  joined x y xs ys e (inr r) = inr (cc)

  -- Two chains with one head are chains of the same canonical texts, or show a collision.
  Chain-unique :
      TellsTexts
      → {xs ys : List Fields} {p q : Option String} → Chain xs p
      → Chain ys q
      → p ≡ q
      → Collision ⊎ (map canonical xs ≡ map canonical ys)
  Chain-unique tells start start e = inr refl
  Chain-unique tells start (link c h) e = cc
  Chain-unique tells (link c h) start e = cc
  Chain-unique tells (link {events = xs} {previous = p} {event = x} {hash = a} c h)
        (link {events = ys} {previous = q} {event = y} {hash = b} d g) e =
      let (px, t, tx, ta) = linked_flat p x a h in
      let (qy, u, uy, ub) = linked_flat q y b g in
      elim (String-dec t u) [
        | no differ ↦ inl (t, u, differ, ta ∙ some-hash a b e ∙ sym ub)
        | yes agree ↦ joined x y xs ys (tx ∙ ap some agree ∙ sym uy) (
            Chain-unique tells c d
              (sym px ∙ same_previous tells x y u (tx ∙ ap some agree) uy ∙ qy))
      ]

  unreverse :
      (xs ys : List Fields)
      → Collision ⊎ (map canonical (reverse xs) ≡ map canonical (reverse ys))
      → Collision ⊎ (map canonical xs ≡ map canonical ys)
  unreverse xs ys (inl c) = inl c
  unreverse xs ys (inr e) = inr (
      sym (reverse-reverse (map canonical xs))
      ∙ ap reverse (sym (map-reverse_aux canonical xs []) ∙ e ∙ map-reverse_aux canonical ys [])
      ∙ reverse-reverse (map canonical ys))

  -- Two traces that verify with the same head hash hold, event by event, the same canonical text,
  -- unless the traces exhibit two texts with the same digest. The serialization is assumed to tell
  -- the strings of a dict apart.
  pub head_binds_trace :
      (xs ys : List Fields) (n m : ℕ) (head : Option String)
      → TellsTexts
      → verify_events host xs ≡ ok (valid n head)
      → verify_events host ys ≡ ok (valid m head)
      → Collision ⊎ (map canonical xs ≡ map canonical ys)
  unfolding verify_events
  head_binds_trace xs ys n m head tells hx hy = unreverse xs ys (
      Chain-unique tells (verify_from-Chain xs [] 0 n none head start hx)
        (verify_from-Chain ys [] 0 m none head start hy) refl)
