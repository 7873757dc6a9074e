-- ===== src/Trace/Recorder/Sound.antt =====
-- adapters/evidence/jsonl_store.py: an append to a sound store.
use agent_trust_runtime.Base.{
  ℕ, suc, ◌+◌, ◌<◌, String, ◌≡◌, refl, sym, ap, ◌∙◌, subst, Option, some, arith, inl, Result, ok,
  raised,
}
use agent_trust_runtime.Exec.{lift, continue, ◌>>=◌}
use agent_trust_runtime.Value.{text, Fields, number, get}
use agent_trust_runtime.Host.{Host}
use agent_trust_runtime.Trace.{linked, check_event}
use agent_trust_runtime.Trace.Recorder.{
  Head, Store, Moment, new_event, seal_event, envelope, load_verified_head, write_event,
  append_event,
}
use agent_trust_runtime.Trace.Recorder.Appends.{envelope-links, seal_event-linked}
use agent_trust_runtime.Trace.Recorder.Loads.{
  size_of, IsSound, IsLoaded, load_verified_head-IsLoaded,
}
use agent_trust_runtime.Trace.Recorder.Writes.{
  IsReloaded, IsAppended, same_trace, write_event-IsAppended,
}

module _ (host : Host) where
  module _ (run_name : String) (bound : Fields) where
    new_event-linked :
        (m : Moment) (event_type : String) (payload event : Fields) (head : Head)
        → new_event host run_name bound m event_type payload head ≡ ok event
        → (hash : String) × (get "event_hash" event ≡ some (text hash))
          × (get "event_sequence" event ≡ some (number (head.event_count + 1)))
          × (check_event host head.head_hash event ≡ ok (linked hash))
    unfolding new_event
    new_event-linked m event_type payload event head h =
        go
          (envelope run_name bound m.now m.event_id event_type payload head.event_count
            head.head_hash)
          refl
      where
        go :
            (r : Result Fields)
            → envelope run_name bound m.now m.event_id event_type payload head.event_count
                head.head_hash
              ≡ r
            → (hash : String) × (get "event_hash" event ≡ some (text hash))
              × (get "event_sequence" event ≡ some (number (head.event_count + 1)))
              × (check_event host head.head_hash event ≡ ok (linked hash))
        go (ok body) e =
            let links =
              envelope-links run_name bound m.now m.event_id event_type payload body
                head.event_count head.head_hash e in
            seal_event-linked host body event head.head_hash (number (head.event_count + 1)) links.0
              links.1 (sym (ap (seal_event host) e) ∙ h)
        go (raised x) e = absurd (ground arith)

    made-IsAppended :
        (reload : Fields → Fields) (m : Moment) (event_type : String) (payload : Fields)
        (s t : Store) (head : Head) (n : ℕ) (q : Option String) (r : Result Fields)
        → new_event host run_name bound m event_type payload head ≡ r
        → IsLoaded host (ok head, t) s n q
        → size_of s.trace < m.stat.size
        → ((event : Fields) → r ≡ ok event → IsReloaded host reload event)
        → IsAppended host reload m.ending
            (continue (λ event. write_event reload m event head) (r, t))
            s
            n
            q
    made-IsAppended reload m event_type payload s t head n q (raised e) h (_, _, kept, sound, _) p
          json =
        inl (kept, sound)
    made-IsAppended reload m event_type payload s t head n q (ok event) h
          (counted, hashed, kept, sound, fits) p json =
        let (hash, a, b, c) = new_event-linked m event_type payload event head h in
        let l = subst (λ o. check_event host o event ≡ ok (linked hash)) hashed c in
        let place : head.event_count + 1 ≡ suc n = omega (arith, counted) in
        let k = b ∙ ap (λ i. some (number i)) place in
        same_trace host reload m.ending (write_event reload m event head t) s t n q kept (
          write_event-IsAppended host reload m event head t n q hash sound fits counted
            (subst (λ o. size_of o < m.stat.size) (sym kept) p) a k l (json event refl))

    -- An append to a sound store of `n` events with the last hash `q`, in which the trace's file grows
    -- and the new event, if one is made, survives being written as JSON and read back. If it returns,
    -- the file was opened and flushed, the trace has one line more, the event's, which links to `q`,
    -- and the store is sound with one event more and the line's hash. If it raises, before the write,
    -- from the opening of the file, after the line is written, or from the storing of the head, the
    -- store is sound and the trace unchanged, or sound with one such line more.
    pub append_event-IsSound :
        (reload : Fields → Fields) (m : Moment) (event_type : String) (payload : Fields) (s : Store)
        (n : ℕ) (q : Option String)
        → IsSound host s n q
        → size_of s.trace < m.stat.size
        → ((head : Head) (event : Fields)
            → new_event host run_name bound m event_type payload head ≡ ok event
            → IsReloaded host reload event)
        → IsAppended host reload m.ending
            (append_event host run_name bound reload m event_type payload s)
            s
            n
            q
    unfolding append_event ◌>>=◌ lift
    append_event-IsSound reload m event_type payload s n q sound p json =
        go (load_verified_head host s) (load_verified_head-IsLoaded host s n q sound)
      where
        go :
            (r : Result Head × Store)
            → IsLoaded host r s n q
            → IsAppended host reload m.ending
                (continue
                  (λ head.
                    lift (new_event host run_name bound m event_type payload head) >>= λ event.
                    write_event reload m event head)
                  r)
                s
                n
                q
        go (ok head, t) loaded =
            made-IsAppended reload m event_type payload s t head n q
              (new_event host run_name bound m event_type payload head) refl loaded p (json head)
        go (raised _, t) loaded = absurd loaded
