-- ===== src/Gate/Fence.antt =====
-- The literal block that a comment shows the report in, and the comment's size.
use weavegate.Prelude.{
  ℕ, zero, suc, ◌+◌, ◌≤◌, ◌<◌, max, String, true, false, Option, some, [], ◌∷◌, ◌++◌, ◌≡◌, ◌↔◌,
  refl, ap, arith, leb→le, le→leb, ◌⊎◌, inl, inr, nat_eq,
}
use weavegate.Prelude.Text.{Text, utf8_length}
use weavegate.Gate.Names.{Url}
use weavegate.Gate.Step.{Status}
use weavegate.Gate.Comment.{
  Report, too_large, undecodable, decoded, Context, longest_run, repeated, fence, obstacle_of,
  head_of, tail_of, embedding, comment_body, comment_limit,
}

longest_run-kept : (run longest : ℕ) (t : Text) → max longest run ≤ longest_run run longest t
unfolding longest_run
longest_run-kept run longest [] = ground arith
longest_run-kept run longest (c ∷ t) =
    ground (arith, longest_run-kept (suc run) longest t, longest_run-kept 0 (max longest run) t)

longest_run-repeated :
    (n run longest : ℕ) (t : Text) → run + n ≤ longest_run run longest (repeated 0x60 n ++ t)
unfolding longest_run repeated
longest_run-repeated zero run longest t = ground (arith, longest_run-kept run longest t)
longest_run-repeated (suc n) run longest t =
    ground (arith, longest_run-repeated n (suc run) longest t)

longest_run-within :
    (before : Text) (n run longest : ℕ) (t : Text)
    → n ≤ longest_run run longest (before ++ repeated 0x60 n ++ t)
unfolding longest_run
longest_run-within [] n run longest t = ground (arith, longest_run-repeated n run longest t)
longest_run-within (c ∷ before) n run longest t = ground (
  arith,
  longest_run-within before n (suc run) longest t,
  longest_run-within before n 0 (max longest run) t,
)

-- A run of backticks anywhere in a text is shorter than the fence for that text, which has at
-- least four: nothing in a report closes the block that shows it.
pub fence-longer :
    (text before after : Text) (n : ℕ)
    → text ≡ before ++ repeated 0x60 n ++ after
    → (n < fence text) × (4 ≤ fence text)
unfolding fence
fence-longer text before after n e =
    ground (arith, ap (longest_run 0 0) e, longest_run-within before n 0 0 after)

module _ (split_url : String → Option Url) (status : Status) (size : ℕ) (context : Context) where
  whole : Text → Text
  whole text =
      head_of split_url status context
      ++ embedding split_url text
      ++ tail_of split_url status context

  decoded-embedded :
      (text body : Text)
      → comment_body split_url status (decoded text) size context ≡ (body, true)
      → (obstacle_of (some text) ≡ false) × (utf8_length body ≤ 65536) × (body ≡ whole text)
  unfolding comment_body comment_limit whole
  decoded-embedded text body h = ground (arith, leb→le (utf8_length body) 65536)

  decoded-embeds :
      (text body : Text)
      → obstacle_of (some text) ≡ false
      → utf8_length body ≤ 65536
      → body ≡ whole text
      → comment_body split_url status (decoded text) size context ≡ (body, true)
  unfolding comment_body comment_limit whole
  decoded-embeds text body o b e = ground (arith, le→leb (utf8_length body) 65536)

  refused-not :
      (report : Report) (body : Text)
      → (report ≡ too_large) ⊎ (report ≡ undecodable)
      → comment_body split_url status report size context ≡ (body, true)
      → ⊥
  unfolding comment_body
  refused-not too_large body r h = ground arith
  refused-not undecodable body r h = ground arith
  refused-not (decoded text) body (inl r) h = cc
  refused-not (decoded text) body (inr r) h = cc

  embedded :
      (report : Report) (body : Text)
      → comment_body split_url status report size context ≡ (body, true)
      → (text : Text) × (report ≡ decoded text)
        × (obstacle_of (some text) ≡ false)
        × (utf8_length body ≤ 65536)
        × (body ≡ whole text)
  embedded too_large body h = elim (refused-not too_large body (inl refl) h) [ ]
  embedded undecodable body h = elim (refused-not undecodable body (inr refl) h) [ ]
  embedded (decoded text) body h =
      let (o, b, e) = decoded-embedded text body h in (text, refl, o, b, e)

  pub comment_body-embeds :
      (report : Report) (body : Text)
      → (comment_body split_url status report size context ≡ (body, true)) ↔ (
          (text : Text) × (report ≡ decoded text)
          × (obstacle_of (some text) ≡ false)
          × (utf8_length body ≤ 65536)
          × (body
              ≡ head_of split_url status context
                ++ embedding split_url text
                ++ tail_of split_url status context))
  unfolding whole
  comment_body-embeds report body =
      (embedded report body, λ (text, e, o, b, w). rw e (decoded-embeds text body o b w))
