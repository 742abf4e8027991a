-- ===== src/Protocol/Framing/Premises.antt =====
-- Which framing vectors hold a whole frame.
use weavegate.Prelude.{
  elem-All, ◌-◌, ◌<◌, ◌≡◌, ◌⊎◌, inl, inr, refl, ap, ◌∙◌, arith, String, true, false, List, [], ◌∷◌,
  elem, length, string_eq, nat_eq, list_eq, list_beq_iff, Bool-cases,
}
use weavegate.Prelude.Result.{Result, Check, ok, err, ◌>>=◌, >>=-eq-ok, need-eq-ok}
use weavegate.Prelude.Text.{Text, codes}
use weavegate.Protocol.Framing.{
  Bytes, header, payload, framed, from_hex, Json, Vector, premise, fragmented_check, trailing_check,
  unknown_field_check, control_check, control_of, negative_check, validate_framing, or_empty,
}

-- The vectors whose bytes stop short of a frame, or promise another length.
abbrev pub cut_short : List String
cut_short = "oversized_length" ∷ "partial_header_eof" ∷ "partial_payload_eof" ∷ "stdout_banner" ∷ []

abbrev pub mismatch : Result Bytes
mismatch = err "framing length mismatch"

framed-oversized : (raw : Bytes) → length raw ≡ 4 → 1048576 < header raw → framed raw ≡ mismatch
unfolding framed
framed-oversized raw l h = ground arith

framed-short : (raw : Bytes) → length raw < 4 → framed raw ≡ mismatch
unfolding framed
framed-short raw h = ground arith

framed-partial : (raw : Bytes) → length raw - 4 < header raw → framed raw ≡ mismatch
unfolding framed
framed-partial raw h = ground arith

framed-banner : framed (codes "Spring Boot\n") ≡ mismatch
unfolding framed header
framed-banner = refl

framed-zero : framed (0 ∷ 0 ∷ 0 ∷ 0 ∷ []) ≡ ok []
unfolding framed header payload
framed-zero = refl

framed-payload : (raw p : Bytes) → framed raw ≡ ok p → framed raw ≡ ok (payload raw)
unfolding framed
framed-payload raw p h = ground arith

module _ (json : Json) (v : Vector) (raw : Bytes) where
  whole : (check : Bytes → Check) → (framed raw >>= check) ≡ ok tt → framed raw ≡ ok (payload raw)
  whole check h = let (p, e, _) = >>=-eq-ok (framed raw) check h in framed-payload raw p e

  fragmented-whole : fragmented_check json v raw ≡ ok tt → framed raw ≡ ok (payload raw)
  unfolding fragmented_check
  fragmented-whole h = whole _ h

  trailing-whole : trailing_check json raw ≡ ok tt → framed raw ≡ ok (payload raw)
  unfolding trailing_check
  trailing-whole h = whole _ h

  unknown_field-whole : unknown_field_check json raw ≡ ok tt → framed raw ≡ ok (payload raw)
  unfolding unknown_field_check
  unknown_field-whole h = whole _ h

  zero-whole : raw ≡ 0 ∷ 0 ∷ 0 ∷ 0 ∷ [] → framed raw ≡ ok (payload raw)
  zero-whole e = framed-payload raw [] (ap framed e ∙ framed-zero)

  control-whole :
      (name : String) (control : Text)
      → control_check json name raw control ≡ ok tt
      → framed raw ≡ ok (payload raw)
  unfolding control_check negative_check
  control-whole name control h =
      let (document, _, rest) = >>=-eq-ok (control_of json control) _ h in whole _ rest

  premise-whole :
      (name : String)
      → premise json name v raw ≡ ok tt
      → elem name cut_short ≡ false
      → framed raw ≡ ok (payload raw)
  unfolding premise
  premise-whole name h uncut = ground (
    arith,
    fragmented-whole,
    trailing-whole,
    unknown_field-whole,
    zero-whole,
    list_beq_iff raw (0 ∷ 0 ∷ 0 ∷ 0 ∷ []),
    control-whole name (or_empty v.control_hex),
  )

  oversized-cut : premise json "oversized_length" v raw ≡ ok tt → framed raw ≡ mismatch
  unfolding premise
  oversized-cut h = ground (arith, framed-oversized raw)

  header-cut : premise json "partial_header_eof" v raw ≡ ok tt → framed raw ≡ mismatch
  unfolding premise
  header-cut h = ground (arith, framed-short raw)

  payload-cut : premise json "partial_payload_eof" v raw ≡ ok tt → framed raw ≡ mismatch
  unfolding premise
  payload-cut h = ground (arith, framed-partial raw)

  banner-cut : premise json "stdout_banner" v raw ≡ ok tt → framed raw ≡ mismatch
  unfolding premise
  banner-cut h =
      ap framed ((list_beq_iff raw (codes "Spring Boot\n")).0 (need-eq-ok _ _ h)) ∙ framed-banner

  premise-cut :
      (name : String)
      → premise json name v raw ≡ ok tt
      → elem name cut_short ≡ true
      → framed raw ≡ mismatch
  premise-cut name h cut =
      elem-All (λ n. premise json n v raw ≡ ok tt → framed raw ≡ mismatch) cut_short
        (oversized-cut, (header-cut, (payload-cut, (banner-cut, tt)))) name cut h

module _ (json : Json) (v : Vector) where
  accepted-premise :
      validate_framing json v ≡ ok tt → premise json v.id v (from_hex v.input_hex) ≡ ok tt
  unfolding validate_framing
  accepted-premise h = ground arith

  -- The vectors that `validate_framing` accepts are those that its cases claim: the bytes of the
  -- oversized, partial and banner vectors are refused by `framed` for their length, and those of
  -- all other vectors are a whole frame.
  pub validate_framing-Framed :
      validate_framing json v ≡ ok tt
      → (elem v.id cut_short ≡ true) × (framed (from_hex v.input_hex) ≡ mismatch)
        ⊎ (elem v.id cut_short ≡ false)
          × (framed (from_hex v.input_hex) ≡ ok (payload (from_hex v.input_hex)))
  validate_framing-Framed h =
      let raw = from_hex v.input_hex in
      elim (Bool-cases (elem v.id cut_short)) [
        | inl cut ↦ inl (cut, premise-cut json v raw v.id (accepted-premise h) cut)
        | inr uncut ↦ inr (uncut, premise-whole json v raw v.id (accepted-premise h) uncut)
      ]
