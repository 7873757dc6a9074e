-- ===== src/Policy/Argv/Patterns.antt =====
-- domain/policy.py: `_argv_pattern_matches` decides a relation between patterns and argument vectors.
use agent_trust_runtime.Base.{
  String, Bool, true, false, ◌≡◌, refl, ◌↔◌, inl, inr, List, [], ◌∷◌, map, ◌==◌, ◌&&◌, arith,
  Bool-cases,
}
use agent_trust_runtime.Host.{Host}
use agent_trust_runtime.Policy.Argv.{any_suffix, match_from, argv_pattern_matches}

-- `**` stands for any number of tokens, and any other token of the pattern for one.
pub data Matches (host : Host) : List String → List String → Type 0 where
  stop : Matches host [] []
  skip_none :
      {p : String} {pattern argv : List String}
      → (p == "**") ≡ true
      → Matches host pattern argv
      → Matches host (p ∷ pattern) argv
  skip_one :
      {p a : String} {pattern argv : List String}
      → (p == "**") ≡ true
      → Matches host (p ∷ pattern) argv
      → Matches host (p ∷ pattern) (a ∷ argv)
  token :
      {p a : String} {pattern argv : List String}
      → (p == "**") ≡ false
      → host.fnmatch a p ≡ true
      → Matches host pattern argv
      → Matches host (p ∷ pattern) (a ∷ argv)

any_suffix_self :
    (f : List String → Bool) (argv : List String) → f argv ≡ true → any_suffix f argv ≡ true
any_suffix_self f [] h = h
any_suffix_self f (a ∷ argv) h = rw h

any_suffix-cons :
    (f : List String → Bool) (a : String) (argv : List String)
    → any_suffix f argv ≡ true
    → any_suffix f (a ∷ argv) ≡ true
any_suffix-cons f a argv h = ground arith

module _ (host : Host) where
  any_suffix-Matches :
      (p : String) (pattern : List String) (f : List String → Bool)
      → (p == "**") ≡ true
      → ((argv : List String) → f argv ≡ true → Matches host pattern argv)
      → (argv : List String) → any_suffix f argv ≡ true
      → Matches host (p ∷ pattern) argv
  any_suffix-Matches p pattern f e sound [] h = skip_none e (sound [] h)
  any_suffix-Matches p pattern f e sound (a ∷ argv) h = elim (Bool-cases (f (a ∷ argv))) [
    | inl here ↦ skip_none e (sound (a ∷ argv) here)
    | inr not_here ↦ skip_one e (any_suffix-Matches p pattern f e sound argv (ground arith))
  ]

  match_from-star :
      (p : String) (pattern argv : List String)
      → (p == "**") ≡ true
      → match_from host (p ∷ pattern) argv ≡ any_suffix (match_from host pattern) argv
  unfolding match_from
  match_from-star p pattern argv star = rw (star, match_from)

  match_from-word :
      (p a : String) (pattern argv : List String)
      → (p == "**") ≡ false
      → match_from host (p ∷ pattern) (a ∷ argv)
        ≡ (host.fnmatch a p && match_from host pattern argv)
  unfolding match_from
  match_from-word p a pattern argv word = rw (word, match_from)

  match_from-word_end :
      (p : String) (pattern : List String)
      → (p == "**") ≡ false
      → match_from host (p ∷ pattern) [] ≡ false
  unfolding match_from
  match_from-word_end p pattern word = rw (word, match_from)

  match_from-nil_cons : (a : String) (argv : List String) → match_from host [] (a ∷ argv) ≡ false
  unfolding match_from
  match_from-nil_cons a argv = refl

  match_from-Matches :
      (pattern argv : List String) → match_from host pattern argv ≡ true → Matches host pattern argv
  match_from-Matches [] [] h = stop
  match_from-Matches [] (a ∷ argv) h = cc (match_from-nil_cons a argv)
  match_from-Matches (p ∷ pattern) [] h = elim (Bool-cases (p == "**")) [
    | inl star ↦
        skip_none star (match_from-Matches pattern [] (rw (match_from-star p pattern [] star) at h))
    | inr word ↦ cc (match_from-word_end p pattern word)
  ]
  match_from-Matches (p ∷ pattern) (a ∷ argv) h = elim (Bool-cases (p == "**")) [
    | inl star ↦
        any_suffix-Matches p pattern (match_from host pattern) star (match_from-Matches pattern)
          (a ∷ argv) (rw (match_from-star p pattern (a ∷ argv) star) at h)
    | inr word ↦
        let both : (host.fnmatch a p ≡ true) × (match_from host pattern argv ≡ true) =
          ground (arith, match_from-word p a pattern argv word) in
        token word both.0 (match_from-Matches pattern argv both.1)
  ]

  Matches-match_from :
      {pattern argv : List String} → Matches host pattern argv → match_from host pattern argv ≡ true
  Matches-match_from stop = unfold match_from in refl
  Matches-match_from (skip_none {p = p} {pattern = pattern} {argv = argv} star m) =
      rw (match_from-star p pattern argv star)
        (any_suffix_self (match_from host pattern) argv (Matches-match_from m))
  Matches-match_from (skip_one {p = p} {a = a} {pattern = pattern} {argv = argv} star m) =
      rw (match_from-star p pattern (a ∷ argv) star) (
        any_suffix-cons (match_from host pattern) a argv
          (rw (match_from-star p pattern argv star) at (Matches-match_from m)))
  Matches-match_from (token {p = p} {a = a} {pattern = pattern} {argv = argv} word fits m) =
      ground (arith, match_from-word p a pattern argv word, Matches-match_from m)

  -- The matcher accepts an argument vector exactly when the pattern, in lower case, matches it.
  pub argv_pattern_matches_iff :
      (argv pattern : List String)
      → (argv_pattern_matches host argv pattern ≡ true) ↔ Matches host (map host.lower pattern) argv
  unfolding argv_pattern_matches
  argv_pattern_matches_iff argv pattern =
      (match_from-Matches (map host.lower pattern) argv, λ m. Matches-match_from m)
