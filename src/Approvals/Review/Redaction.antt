-- ===== src/Approvals/Review/Redaction.antt =====
-- domain/approvals.py: the view of the arguments shows nothing of a value under a sensitive key.
use agent_trust_runtime.Base.{String, ◌≡◌, refl, ap, Bool-cases, inl, inr, if◌then◌else◌}
use agent_trust_runtime.Value.{
  Value, null, text, array, tuple, object, Values, nil, cons, Fields, end, field, set,
}
use agent_trust_runtime.Host.{Host}
use agent_trust_runtime.Approvals.Review.{
  review_item, review_mapping, review_value, review_items, reviewable_arguments,
}

module _ (host : Host) where
  -- The value with `None` in place of each value under a sensitive key, at any depth.
  unfoldable mutual
    pub mask : Fields → Fields
    mask end = end
    mask (field key value rest) =
        let hidden = mask_value value in
        field key (if host.sensitive_key key then null else hidden) (mask rest)

    pub mask_value : Value → Value
    mask_value (object fields) = object (mask fields)
    mask_value (array items) = array (mask_items items)
    mask_value (tuple items) = tuple (mask_items items)
    mask_value value = value

    pub mask_items : Values → Values
    mask_items nil = nil
    mask_items (cons item rest) = cons (mask_value item) (mask_items rest)

  -- The items of a key that is not sensitive do not tell the masked value from the value.
  review_item-mask :
      (key : String) (value view : Value) (review : Fields)
      → review_item host key (mask_value value) view review ≡ review_item host key value view review
  unfolding review_item mask
  review_item-mask key (text t) view review = refl
  review_item-mask key value view review = refl

  mutual
    unfolding review_mapping mask

    review_mapping-mask :
        (d review : Fields) → review_mapping host (mask d) review ≡ review_mapping host d review
    review_mapping-mask end review = refl
    review_mapping-mask (field key value rest) review = elim (Bool-cases (host.sensitive_key key)) [
      | inl e ↦ rw e (review_mapping-mask rest (set key (text "[REDACTED]") review))
      | inr e ↦
          rw
            (
              e,
              review_value-mask value,
              review_item-mask key value (review_value host value) review,
            )
            (review_mapping-mask rest (review_item host key value (review_value host value) review))
    ]

    review_value-mask : (v : Value) → review_value host (mask_value v) ≡ review_value host v
    review_value-mask (object fields) = ap object (review_mapping-mask fields end)
    review_value-mask (array items) = ap array (review_items-mask items)
    review_value-mask (tuple items) = ap array (review_items-mask items)
    review_value-mask v = refl

    review_items-mask : (vs : Values) → review_items host (mask_items vs) ≡ review_items host vs
    review_items-mask nil = refl
    review_items-mask (cons v vs) = rw (review_value-mask v, review_items-mask vs)

  -- The view of the arguments is the same when every value under a sensitive key, at any depth, is
  -- replaced by `None`: it shows nothing of those values.
  pub reviewable_arguments-mask :
      (arguments : Fields)
      → reviewable_arguments host (mask arguments) ≡ reviewable_arguments host arguments
  unfolding reviewable_arguments
  reviewable_arguments-mask arguments = review_mapping-mask arguments end
