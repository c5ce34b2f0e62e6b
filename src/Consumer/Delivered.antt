-- ===== src/Consumer/Delivered.antt =====
-- src/consumer.rs: what `delivery_bytes` delivers.
use wezterm_attention.Prelude.{
  ℕ, ◌≡◌, ◌≤◌, ◌<◌, ◌⊎◌, inl, inr, true, false, String, List, Option, none, some, ltb, length,
  if_each, option_each, arith,
}
use wezterm_attention.Protocol.{ok, Manifest}
use wezterm_attention.Consumer.{
  HookPersistence, HookContent, NotDispatchedReason, HookOutcome, HookDelivery, Delivery,
  Delivery.bytes, Delivery.withheld, is_confirmed, unsettled, cut_delivery, delivery_of,
  delivery_bytes,
}

-- Nothing that the hook had to write failed or is in doubt.
unfoldable pub Settled : HookPersistence → Type 0
Settled p =
    (is_confirmed p.native_state ≡ true)
    × (is_confirmed p.activity ≡ true)
    × (is_confirmed p.lifecycle ≡ true)

unsettled-Settled : (p : HookPersistence) → unsettled p ≡ none → Settled p
unfolding unsettled Settled
unsettled-Settled p h = ground arith

module _ {Admitted : Type 0} (m : Manifest) (to_vec : HookDelivery Admitted → Option (List ℕ)) where
  -- The bytes are those of the delivery, or of the delivery with its texts cut where it is too large.
  unfoldable pub Written : HookDelivery Admitted → List ℕ → Type 0
  Written d written =
      (to_vec d ≡ some written)
      ⊎ ((full : List ℕ) × (to_vec d ≡ some full)
          × (m.limits.max_json_bytes < length full)
          × (to_vec (cut_delivery d) ≡ some written))

  -- What is delivered of an outcome.
  unfoldable pub Delivers :
      HookOutcome Admitted → String → HookContent → HookContent → Delivery → Type 0
  Delivers outcome delivery_id reply prompt (bytes written) =
      (source : Admitted) × (outcome.admission ≡ some source)
      × Settled outcome.persistence
      × (length written ≤ m.limits.max_json_bytes)
      × Written (delivery_of outcome source delivery_id reply prompt) written
  Delivers outcome delivery_id reply prompt (withheld reason) = Unit

  withheld-Delivers :
      (outcome : HookOutcome Admitted) (delivery_id : String) (reply prompt : HookContent)
      (reason : NotDispatchedReason)
      → Delivers outcome delivery_id reply prompt (withheld reason)
  unfolding Delivers
  withheld-Delivers outcome delivery_id reply prompt reason = tt

  bytes-Delivers :
      (outcome : HookOutcome Admitted) (delivery_id : String) (reply prompt : HookContent)
      (source : Admitted) (written : List ℕ)
      → outcome.admission ≡ some source
      → unsettled outcome.persistence ≡ none
      → Written (delivery_of outcome source delivery_id reply prompt) written
      → ltb m.limits.max_json_bytes (length written) ≡ false
      → Delivers outcome delivery_id reply prompt (bytes written)
  unfolding Delivers
  bytes-Delivers outcome delivery_id reply prompt source written admitted settled h fits =
      (source, admitted, unsettled-Settled _ settled, ground arith, h)

  whole-Written :
      (d : HookDelivery Admitted) (written : List ℕ) → to_vec d ≡ some written → Written d written
  unfolding Written
  whole-Written d written h = inl h

  cut-Written :
      (d : HookDelivery Admitted) (full written : List ℕ)
      → to_vec d ≡ some full
      → ltb m.limits.max_json_bytes (length full) ≡ true
      → to_vec (cut_delivery d) ≡ some written
      → Written d written
  unfolding Written
  cut-Written d full written h large k = inr (full, h, ground arith, k)

  -- What is delivered is of an admitted hook of which nothing that it had to write failed or is in doubt,
  -- is within the limit, and is what the delivery is written as, or, where that is too large, the
  -- delivery with its texts cut.
  pub delivery_bytes-Delivers :
      (outcome : HookOutcome Admitted) (delivery_id : String) (reply prompt : HookContent)
      → Delivers outcome delivery_id reply prompt
          (delivery_bytes (ok m) to_vec outcome delivery_id reply prompt)
  unfolding delivery_bytes
  delivery_bytes-Delivers outcome delivery_id reply prompt =
      let P = Delivers outcome delivery_id reply prompt in
      let refuses = withheld-Delivers outcome delivery_id reply prompt in
      let delivers = bytes-Delivers outcome delivery_id reply prompt in
      let maximum = m.limits.max_json_bytes in
      option_each P outcome.admission _ _ (λ _. refuses _)
        (λ source admitted.
          option_each P (unsettled outcome.persistence) _ _
            (λ settled.
              let d = delivery_of outcome source delivery_id reply prompt in
              option_each P (to_vec d) _ _ (λ _. refuses _)
                (λ full whole.
                  if_each P (ltb maximum (length full)) _ _
                    (λ large.
                      option_each P (to_vec (cut_delivery d)) _ _ (λ _. refuses _)
                        (λ written cut.
                          if_each P (ltb maximum (length written)) _ _ (λ _. refuses _)
                            (delivers source written admitted settled
                              (cut-Written d full written whole large cut))))
                    (delivers source full admitted settled (whole-Written d full whole))))
            (λ reason _. refuses reason))
