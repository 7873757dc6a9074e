-- ===== src/Trace/Recorder/Writes.antt =====
-- adapters/evidence/jsonl_store.py: the write of an event to a sound store, in each of its endings.
use agent_trust_runtime.Base.{
  ℕ, suc, ◌+◌, ◌<◌, String, ◌≡◌, refl, sym, ap, ◌∙◌, subst, true, Option, none, some, List, [], ◌∷◌,
  ◌++◌, arith, ◌⊎◌, inl, inr, Bool, false, if◌then◌else◌, Result, ok, raised,
}
use agent_trust_runtime.Value.{Value, null, text, Fields, opt_text, number, get, get_or_none, same}
use agent_trust_runtime.Host.{Host}
use agent_trust_runtime.Protocol.{as_text}
use agent_trust_runtime.Trace.{
  Verdict, broken, compare_hash, linked, event_hash, check_event, verify_events,
}
use agent_trust_runtime.Trace.Tamper.{same-opt_text}
use agent_trust_runtime.Trace.Recorder.{
  Head, Trace, Store, Ending, written, unopened, unsynced, unsaved, same_stat, current_head,
  is_checkpoint, with_line, last_event_matches, head_matches_trace, Moment, write_event, events_of,
}
use agent_trust_runtime.Trace.Recorder.Appends.{
  verify_from-append, verify_from-one, read_last_event-append,
}
use agent_trust_runtime.Trace.Recorder.Loads.{size_of, CacheFits, same_stat-size, IsSound}

some-inj : {A : Type 0} {a b : A} → ◌≡◌ {A = Option A} (some a) (some b) → a ≡ b
some-inj {a = a} e = ap (λ o. elim o [ none ↦ a | some x ↦ x ]) e

same-number : (a b : ℕ) → same (number a) (number b) ≡ true → a ≡ b
unfolding same
same-number a b h = ground arith

last_event_matches-fits :
    (head : Head) (event : Fields) (n : ℕ) (hash : String)
    → get "event_hash" event ≡ some (text hash)
    → get "event_sequence" event ≡ some (number n)
    → last_event_matches head (some event) ≡ true
    → (head.event_count ≡ n) × (head.head_hash ≡ some hash)
unfolding last_event_matches get_or_none
last_event_matches-fits head event n hash h k m =
    let a : same (text hash) (opt_text head.head_hash) ≡ true = ground arith in
    let b : same (number n) (number head.event_count) ≡ true = ground arith in
    (sym (same-number n head.event_count b), sym (same-opt_text (text hash) head.head_hash a))

-- The head after a write is the only one that matches the new trace.
written_head :
    (m : Moment) (events : List Fields) (event : Fields) (n : ℕ) (hash : String) (head : Head)
    → 0 < m.stat.size
    → get "event_hash" event ≡ some (text hash)
    → get "event_sequence" event ≡ some (number n)
    → head_matches_trace head (record { events = events ++ event ∷ []; stat = m.stat }) ≡ true
    → (head.event_count ≡ n) × (head.head_hash ≡ some hash)
unfolding head_matches_trace
written_head m events event n hash head p h k f =
    last_event_matches-fits head event n hash h k
      (ground (arith, read_last_event-append events event))

module _ (host : Host) where
  -- A store with one line more, whose cached head, if it is for the new file, is right.
  added-IsSound :
      (m : Moment) (line : Fields) (s t : Store) (n : ℕ) (q : Option String) (hash : String)
      → IsSound host s n q
      → t.trace ≡ some (record { events = events_of s.trace ++ line ∷ []; stat = m.stat })
      → ((head : Head)
          → t.cache ≡ some head
          → same_stat head m.stat ≡ true
          → (head.event_count ≡ suc n) × (head.head_hash ≡ some hash))
      → 0 < m.stat.size
      → get "event_hash" line ≡ some (text hash)
      → get "event_sequence" line ≡ some (number (suc n))
      → check_event host q line ≡ ok (linked hash)
      → IsSound host t (suc n) (some hash)
  unfolding verify_events
  added-IsSound m line s t n q hash sound now right p h k l = record {
    verifies =
        ap (λ o. verify_events host (events_of o)) now
        ∙ verify_from-append host (events_of s.trace) (line ∷ []) 0 n none q sound.verifies
        ∙ verify_from-one host n q line hash l;
    told = λ trace x e f.
        written_head m (events_of s.trace) line (suc n) hash x p h k
          (subst (λ y. head_matches_trace x y ≡ true) (some-inj (sym e ∙ now)) f);
    cached = λ trace x e c f.
        right x c (subst (λ (y : Trace). same_stat x y.stat ≡ true) (some-inj (sym e ∙ now)) f);
  }

  -- What the program relies on where it writes an event as a line of JSON: that the line reads back as
  -- a dict with the same hash, sequence and link, and the same canonical text.
  abbrev pub IsReloaded : (Fields → Fields) → Fields → Type 0
  IsReloaded reload event =
      (get "event_hash" (reload event) ≡ get "event_hash" event)
      × (get "event_sequence" (reload event) ≡ get "event_sequence" event)
      × (get "previous_hash" (reload event) ≡ get "previous_hash" event)
      × (event_hash host (reload event) ≡ event_hash host event)

  check_event-reloaded :
      (reload : Fields → Fields) (event : Fields) (q : Option String)
      → IsReloaded reload event
      → check_event host q (reload event) ≡ check_event host q event
  unfolding check_event get_or_none
  check_event-reloaded reload event q (a, b, c, d) =
      ap (λ o. checked q o (get "event_hash" (reload event)) (event_hash host (reload event))) c
      ∙ ap (λ o. checked q (get "previous_hash" event) o (event_hash host (reload event))) a
      ∙ ap (checked q (get "previous_hash" event) (get "event_hash" event)) d
    where
      checked : Option String → Option Value → Option Value → Result String → Result Verdict
      checked q previous actual computed =
          if same (elim previous [ none ↦ null | some v ↦ v ]) (opt_text q)
          then elim (as_text (elim actual [ none ↦ null | some v ↦ v ])) [
            | none ↦ ok (broken "event_hash_mismatch")
            | some hash ↦ compare_hash host computed hash
          ]
          else ok (broken "previous_hash_mismatch")

  -- The trace of `t` is that of `s` and one line, which links to `q`; `t` is sound.
  abbrev pub Adds : Fields → (t s : Store) → ℕ → Option String → Type 0
  Adds line t s n q =
      (hash : String) × (events_of t.trace ≡ events_of s.trace ++ line ∷ [])
      × (check_event host q line ≡ ok (linked hash))
      × IsSound host t (suc n) (some hash)

  -- The line was written and flushed to the disk.
  abbrev pub IsDurable : Ending → Type 0
  IsDurable (unopened e) = ⊥
  IsDurable (unsynced e) = ⊥
  IsDurable ending = Unit

  -- What an append gives: an event, whose line is on the disk and links to the last hash, or an
  -- error, which leaves the trace as it was or with such a line.
  abbrev pub IsAppended :
      (Fields → Fields) → Ending → Result Fields × Store → Store → ℕ → Option String → Type 0
  IsAppended reload ending (raised e, t) s n q =
      ((t.trace ≡ s.trace) × IsSound host t n q) ⊎ ((event : Fields) × Adds (reload event) t s n q)
  IsAppended reload ending (ok event, t) s n q = IsDurable ending × Adds (reload event) t s n q

  IsAppended-if :
      (reload : Fields → Fields) (ending : Ending) (b : Bool) (x y : Result Fields × Store)
      (s : Store) (n : ℕ) (q : Option String)
      → IsAppended reload ending x s n q
      → IsAppended reload ending y s n q
      → IsAppended reload ending (if b then x else y) s n q
  IsAppended-if reload ending true x y s n q f g = f
  IsAppended-if reload ending false x y s n q f g = g

  module _ (reload : Fields → Fields) where
    pub write_event-IsAppended :
        (m : Moment) (event : Fields) (head : Head) (s : Store) (n : ℕ) (q : Option String)
        (hash : String)
        → IsSound host s n q
        → CacheFits s
        → head.event_count ≡ n
        → size_of s.trace < m.stat.size
        → get "event_hash" event ≡ some (text hash)
        → get "event_sequence" event ≡ some (number (suc n))
        → check_event host q event ≡ ok (linked hash)
        → IsReloaded reload event
        → IsAppended reload m.ending (write_event reload m event head s) s n q
    unfolding write_event get_or_none
    write_event-IsAppended m event head s n q hash sound fits c p h k l kept = go m.ending refl
      where
        next : Head
        next = current_head (head.event_count + 1) (as_text (get_or_none "event_hash" event)) m.stat

        added : Store
        added = with_line (reload event) m.stat s

        put : Store
        put = record added { cache = some next }

        stored : Store
        stored = record put {
          stored_head = if is_checkpoint (head.event_count + 1) then some next else s.stored_head;
        }

        adds :
            (t : Store)
            → t.trace
              ≡ some (record { events = events_of s.trace ++ reload event ∷ []; stat = m.stat })
            → ((x : Head)
                → t.cache ≡ some x
                → same_stat x m.stat ≡ true
                → (x.event_count ≡ suc n) × (x.head_hash ≡ some hash))
            → Adds (reload event) t s n q
        adds t now right =
            let linked_line = check_event-reloaded reload event q kept ∙ l in
            (
              hash,
              ap events_of now,
              linked_line,
              added-IsSound m (reload event) s t n q hash sound now right (omega (arith, p))
                  (kept.0 ∙ h) (kept.1 ∙ k) linked_line,
            )

        cached :
            (t : Store)
            → t.cache ≡ some next
            → (x : Head) → t.cache ≡ some x
            → same_stat x m.stat ≡ true
            → (x.event_count ≡ suc n) × (x.head_hash ≡ some hash)
        cached t e x d f =
            let same_head = some-inj (sym e ∙ d) in
            let counted : head.event_count + 1 ≡ suc n = omega (arith, c) in
            (
              sym (ap (λ y. y.event_count) same_head) ∙ counted,
              sym (ap (λ y. y.head_hash) same_head) ∙ rw (h, get_or_none) refl,
            )

        stale :
            (x : Head)
            → s.cache ≡ some x
            → same_stat x m.stat ≡ true
            → (x.event_count ≡ suc n) × (x.head_hash ≡ some hash)
        stale x d f = absurd (omega (arith, fits x d, same_stat-size x m.stat f, p))

        go :
            (ending : Ending)
            → m.ending ≡ ending
            → IsAppended reload ending (write_event reload m event head s) s n q
        go (unopened e) w = rw (w, write_event) (inl (refl, sound))
        go (unsynced e) w = rw (w, write_event) (inr (event, adds added refl stale))
        go (unsaved e) w =
            rw (w, write_event)
              (IsAppended-if reload (unsaved e) (is_checkpoint (head.event_count + 1))
                (raised e, put) (ok event, put) s n q (inr (event, adds put refl (cached put refl)))
                (tt, adds put refl (cached put refl)))
        go written w = rw (w, write_event) (tt, adds stored refl (cached stored refl))

  -- What an append gives is told of the trace alone.
  pub same_trace :
      (reload : Fields → Fields) (ending : Ending) (r : Result Fields × Store) (s t : Store) (n : ℕ)
      (q : Option String)
      → t.trace ≡ s.trace
      → IsAppended reload ending r t n q
      → IsAppended reload ending r s n q
  same_trace reload ending (raised e, u) s t n q kept (inl (a, sound)) = inl (a ∙ kept, sound)
  same_trace reload ending (raised e, u) s t n q kept (inr (event, (hash, a, b, c))) =
      inr (event, (hash, a ∙ ap (λ o. events_of o ++ reload event ∷ []) kept, b, c))
  same_trace reload ending (ok event, u) s t n q kept (d, (hash, a, b, c)) =
      (d, (hash, a ∙ ap (λ o. events_of o ++ reload event ∷ []) kept, b, c))
