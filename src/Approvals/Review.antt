-- ===== src/Approvals/Review.antt =====
-- domain/approvals.py: `reviewable_arguments`, the bounded and redacted view of the arguments.
pub mod Redaction
pub mod Bounds
use Prim.Native.String.{◌++◌, len}
use agent_trust_runtime.Base.{ℕ, zero, suc, String, ◌==◌, leb, if◌then◌else◌}
use agent_trust_runtime.Value.{
  Value, text, array, tuple, object, opaque, Values, nil, cons, Fields, end, field, set, number,
}
use agent_trust_runtime.Host.{Host}

-- `len(text)`.
unfoldable pub count : String → ℕ
count String.[] = 0
count (String.◌∷◌ c s) = suc (count s)

-- `text[:n]`.
unfoldable pub take : ℕ → String → String
take zero s = ""
take (suc n) String.[] = ""
take (suc n) (String.◌∷◌ c s) = String.◌∷◌ c (take n s)

abbrev pub preview_limit : ℕ
preview_limit = 240

module _ (host : Host) where
  unfoldable pub preview_text : String → String
  unfolding count take
  preview_text value =
      let redacted = host.redact_text value in
      if leb (count redacted) preview_limit then redacted else take preview_limit redacted ++ "..."

  -- The entries for a key that is not sensitive; `viewed` is the view of the value.
  unfoldable pub review_item : String → Value → Value → Fields → Fields
  unfolding preview_text set
  review_item key (text value) viewed review =
      if key == "content"
      then set "content_preview" (text (preview_text value)) (
          set "content_sha256" (text (host.sha256 value))
            (set "content_bytes" (number (len value)) review))
      else set key viewed review
  review_item key value viewed review = set key viewed review

  unfoldable mutual
    unfolding preview_text review_item set

    -- `_review_mapping`: the items still to come, and the dict built so far.
    pub review_mapping : Fields → Fields → Fields
    review_mapping end review = review
    review_mapping (field key value rest) review = review_mapping rest (
        if host.sensitive_key key
        then set key (text "[REDACTED]") review
        else review_item key value (review_value value) review)

    pub review_value : Value → Value
    review_value (object fields) = object (review_mapping fields end)
    review_value (array items) = array (review_items items)
    review_value (tuple items) = array (review_items items)
    review_value (text value) = text (preview_text value)
    review_value (opaque name) = text ("<" ++ name ++ ">")
    review_value value = value

    pub review_items : Values → Values
    review_items nil = nil
    review_items (cons item rest) = cons (review_value item) (review_items rest)

  unfoldable pub reviewable_arguments : Fields → Fields
  unfolding review_mapping
  reviewable_arguments arguments = review_mapping arguments end
