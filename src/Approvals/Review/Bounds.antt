-- ===== src/Approvals/Review/Bounds.antt =====
-- domain/approvals.py: how long a preview of a text can be.
use Prim.Native.String.append
use Prim.Native.String.{◌++◌}
use agent_trust_runtime.Base.{
  ℕ, zero, suc, ◌+◌, ◌≤◌, ◌<◌, String, ◌≡◌, refl, ap, ◌∙◌, true, false, ◌⊎◌, Bool-cases, inl, inr,
  leb, arith,
}
use agent_trust_runtime.Host.{Host}
use agent_trust_runtime.Approvals.Review.{count, take, preview_text}

-- What stands behind the first `n` characters.
unfoldable rest_of : ℕ → String → String
rest_of zero s = s
rest_of (suc n) String.[] = ""
rest_of (suc n) (String.◌∷◌ c s) = rest_of n s

count-append : (s t : String) → count (s ++ t) ≡ count s + count t
unfolding count
count-append String.[] t = omega (arith, ap count (append.nil t))
count-append (String.◌∷◌ c s) t = omega (arith, ap count (append.cons c s t), count-append s t)

-- A text that is long enough is cut at `n` characters.
count-take :
    (n : ℕ) (s : String) → n ≤ count s → (count (take n s) ≡ n) × (take n s ++ rest_of n s ≡ s)
unfolding count take rest_of
count-take zero s h = (refl, append.nil s)
count-take (suc n) String.[] h = absurd (omega (arith, h))
count-take (suc n) (String.◌∷◌ c s) h =
    let (length, joined) = count-take n s (omega (arith, h)) in
    (ap suc length, append.cons c (take n s) (rest_of n s) ∙ ap (λ t. String.◌∷◌ c t) joined)

-- The text itself where it has at most 240 characters, else its first 240 characters and three dots.
abbrev pub IsPreviewOf : String → String → Type 0
IsPreviewOf t preview =
    ((count t ≤ 240) × (preview ≡ t))
    ⊎ ((240 < count t)
        × (kept : String) × (dropped : String) × (kept ++ dropped ≡ t)
        × (preview ≡ kept ++ "...")
        × (count kept ≡ 240))

-- A preview has at most 243 characters: it is the redacted text where that has at most 240, and else
-- the first 240 characters of the redacted text and then three dots.
pub preview_text_bounded :
    (host : Host) (value : String)
    → (count (preview_text host value) ≤ 243)
      × IsPreviewOf (host.redact_text value) (preview_text host value)
unfolding preview_text count
preview_text_bounded host value = go (Bool-cases (leb (count t) 240))
  where
    t : String
    t = host.redact_text value

    go :
        (leb (count t) 240 ≡ true) ⊎ (leb (count t) 240 ≡ false)
        → (count (preview_text host value) ≤ 243) × IsPreviewOf t (preview_text host value)
    go (inl e) =
        let short : count t ≤ 240 = ground (arith, e) in
        rw (preview_text, e) (omega (arith, short), inl (short, refl))
    go (inr e) =
        let long : 240 < count t = ground (arith, e) in
        let (length, joined) = count-take 240 t (omega (arith, long)) in
        rw (preview_text, e)
          (
            omega (arith, length, count-append (take 240 t) "..."),
            inr (long, take 240 t, rest_of 240 t, joined, refl, length),
          )
