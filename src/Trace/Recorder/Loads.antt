-- ===== src/Trace/Recorder/Loads.antt =====
-- adapters/evidence/jsonl_store.py: the head that an append starts from, in a sound store.
use agent_trust_runtime.Base.{
  ℕ, String, ◌≡◌, refl, sym, ap, ◌∙◌, subst, Bool, true, false, Option, none, some, arith,
  if◌then◌else◌, Result, ok, raised,
}
use agent_trust_runtime.Host.{Host}
use agent_trust_runtime.Trace.{valid, verify_from, verify_events}
use agent_trust_runtime.Trace.Recorder.{
  Stat, Head, Trace, Store, same_stat, head_matches_trace, current_head, rebuild_head,
  stored_or_rebuilt, head_of_trace, load_from, load_verified_head, events_of,
}

-- The size of a trace's file.
abbrev pub size_of : Option Trace → ℕ
size_of none = 0
size_of (some trace) = trace.stat.size

abbrev pub CacheFits : Store → Type 0
CacheFits s = (head : Head) → s.cache ≡ some head → head.trace_size ≡ size_of s.trace

pub same_stat-size :
    (head : Head) (stat : Stat) → same_stat head stat ≡ true → head.trace_size ≡ stat.size
same_stat-size head stat h = ground arith

cached-CacheFits :
    (s : Store) (trace : Trace) (head : Head)
    → s.trace ≡ some trace
    → s.cache ≡ some head
    → head.trace_size ≡ trace.stat.size
    → CacheFits s
cached-CacheFits s trace head e c h other d =
    let p : head ≡ other = cc in sym (ap (λ x. x.trace_size) p) ∙ h ∙ sym (ap size_of e)

head_matches_trace-size :
    (head : Head) (trace : Trace)
    → head_matches_trace head trace ≡ true
    → head.trace_size ≡ trace.stat.size
unfolding head_matches_trace
head_matches_trace-size head trace h = ground arith

module _ (host : Host) where
  -- A store that records `n` events, the last with the hash `q`: the trace verifies, and a head
  -- that matches it, or that is cached for its file, says so too. The stored head is any.
  pub record IsSound (s : Store) (n : ℕ) (q : Option String) : Type 0 where
    pub verifies : verify_events host (events_of s.trace) ≡ ok (valid n q)
    pub told :
        (trace : Trace) (head : Head)
        → s.trace ≡ some trace
        → head_matches_trace head trace ≡ true
        → (head.event_count ≡ n) × (head.head_hash ≡ q)
    pub cached :
        (trace : Trace) (head : Head)
        → s.trace ≡ some trace
        → s.cache ≡ some head
        → same_stat head trace.stat ≡ true
        → (head.event_count ≡ n) × (head.head_hash ≡ q)

  -- What a load gives: the verified head, and a store as sound with the same trace, whose cached
  -- head is for the file of its size.
  abbrev pub IsLoaded : Result Head × Store → Store → ℕ → Option String → Type 0
  IsLoaded (ok head, t) s n q =
      (head.event_count ≡ n)
      × (head.head_hash ≡ q)
      × (t.trace ≡ s.trace)
      × IsSound t n q
      × CacheFits t
  IsLoaded (raised e, t) s n q = ⊥

  IsLoaded-if :
      (b : Bool) (x y : Result Head × Store) (s : Store) (n : ℕ) (q : Option String)
      → (b ≡ true → IsLoaded x s n q)
      → IsLoaded y s n q
      → IsLoaded (if b then x else y) s n q
  IsLoaded-if true x y s n q f g = f refl
  IsLoaded-if false x y s n q f g = g

  with_heads :
      (s t : Store) (head : Head) (n : ℕ) (q : Option String)
      → IsSound s n q
      → t.trace ≡ s.trace
      → t.cache ≡ some head
      → (head.event_count ≡ n) × (head.head_hash ≡ q)
      → IsSound t n q
  with_heads s t head n q sound same_trace now_cached fits = record {
    verifies = ap (λ o. verify_events host (events_of o)) same_trace ∙ sound.verifies;
    told = λ trace h e m. sound.told trace h (sym same_trace ∙ e) m;
    cached = λ trace h e c m.
        let p : head ≡ h = cc in
        (subst (λ x. x.event_count ≡ n) p fits.0, subst (λ x. x.head_hash ≡ q) p fits.1);
  }

  rebuild_head-valid :
      (trace : Trace) (s : Store) (n : ℕ) (q : Option String)
      → verify_events host trace.events ≡ ok (valid n q)
      → let head = current_head n q trace.stat in
        rebuild_head host trace s
        ≡ (ok head, record s { stored_head = some head; cache = some head })
  unfolding rebuild_head
  rebuild_head-valid trace s n q v = rw (v, rebuild_head)

  rebuild_head-IsLoaded :
      (trace : Trace) (s : Store) (n : ℕ) (q : Option String)
      → IsSound s n q
      → s.trace ≡ some trace
      → IsLoaded (rebuild_head host trace s) s n q
  rebuild_head-IsLoaded trace s n q sound e =
      let head = current_head n q trace.stat in
      let t : Store = record s { stored_head = some head; cache = some head } in
      let v = sym (ap (λ o. verify_events host (events_of o)) e) ∙ sound.verifies in
      subst (λ r. IsLoaded r s n q) (sym (rebuild_head-valid trace s n q v))
        (
          refl,
          refl,
          refl,
          with_heads s t head n q sound refl refl (refl, refl),
          cached-CacheFits t trace head e refl refl,
        )

  -- A head that is right is cached.
  cached-IsLoaded :
      (head : Head) (trace : Trace) (s : Store) (n : ℕ) (q : Option String)
      → IsSound s n q
      → s.trace ≡ some trace
      → head.trace_size ≡ trace.stat.size
      → (head.event_count ≡ n) × (head.head_hash ≡ q)
      → IsLoaded (ok head, record s { cache = some head }) s n q
  cached-IsLoaded head trace s n q sound e h fits =
      let t : Store = record s { cache = some head } in
      (
        fits.0,
        fits.1,
        refl,
        with_heads s t head n q sound refl refl fits,
        cached-CacheFits t trace head e refl h,
      )

  stored_or_rebuilt-IsLoaded :
      (stored : Option Head) (trace : Trace) (s : Store) (n : ℕ) (q : Option String)
      → IsSound s n q
      → s.trace ≡ some trace
      → IsLoaded (stored_or_rebuilt host stored trace s) s n q
  unfolding stored_or_rebuilt
  stored_or_rebuilt-IsLoaded none trace s n q sound e = rebuild_head-IsLoaded trace s n q sound e
  stored_or_rebuilt-IsLoaded (some head) trace s n q sound e =
      IsLoaded-if (head_matches_trace head trace) (ok head, record s { cache = some head })
        (rebuild_head host trace s) s n q
        (λ m.
          cached-IsLoaded head trace s n q sound e (head_matches_trace-size head trace m)
            (sound.told trace head e m))
        (rebuild_head-IsLoaded trace s n q sound e)

  head_of_trace-IsLoaded :
      (cache : Option Head) (trace : Trace) (s : Store) (n : ℕ) (q : Option String)
      → IsSound s n q
      → s.trace ≡ some trace
      → s.cache ≡ cache
      → IsLoaded (head_of_trace host cache trace s) s n q
  unfolding head_of_trace
  head_of_trace-IsLoaded none trace s n q sound e c =
      stored_or_rebuilt-IsLoaded s.stored_head trace s n q sound e
  head_of_trace-IsLoaded (some head) trace s n q sound e c =
      IsLoaded-if (same_stat head trace.stat) (ok head, s)
        (stored_or_rebuilt host s.stored_head trace s) s n q
        (λ m.
          let fits = sound.cached trace head e c m in
          (
            fits.0,
            fits.1,
            refl,
            sound,
            cached-CacheFits s trace head e c (same_stat-size head trace.stat m),
          ))
        (stored_or_rebuilt-IsLoaded s.stored_head trace s n q sound e)

  no_trace :
      (s : Store) (n : ℕ) (q : Option String)
      → IsSound s n q
      → s.trace ≡ none
      → (0 ≡ n) × (none ≡ q)
  unfolding verify_events verify_from
  no_trace s n q sound e =
      let v = sym (ap (λ o. verify_events host (events_of o)) e) ∙ sound.verifies in
      (ground (arith, v), cc)

  pub load_verified_head-IsLoaded :
      (s : Store) (n : ℕ) (q : Option String)
      → IsSound s n q
      → IsLoaded (load_verified_head host s) s n q
  unfolding load_verified_head load_from
  load_verified_head-IsLoaded s n q sound = go s.trace refl
    where
      go : (o : Option Trace) → s.trace ≡ o → IsLoaded (load_from host o s) s n q
      go none e =
          let fits = no_trace s n q sound e in
          (
            fits.0,
            fits.1,
            refl,
            record {
              verifies = sound.verifies;
              told = λ trace h e m. sound.told trace h e m;
              cached = λ trace h f c m. absurd (cc);
            },
            λ head c. absurd (cc),
          )
      go (some trace) e = head_of_trace-IsLoaded s.cache trace s n q sound e refl
