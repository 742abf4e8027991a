-- ===== src/Protocol/Cases.antt =====
-- How a received frame ends: it is dropped, or it is the next frame of its sequence.
use weavegate.Prelude.{
  ℕ, ◌+◌, List, length, String, ◌≡◌, refl, sym, ap, ◌∙◌, none, ◌⊎◌, inl, inr, ◌||◌, arith, nat_eq,
  string_eq,
}
use weavegate.Prelude.Dict
use weavegate.Prelude.Dict.{is_some, is_some-false}
use weavegate.Prelude.Result.{ok}
use weavegate.Protocol.Message.{Peer, go, java, Frame}
use weavegate.Protocol.Shape.{frame_shape}
use weavegate.Protocol.State.{Case, Step, Delivery, History}
use weavegate.Protocol.Receive.{
  deliver, fresh_step, sequenced_step, bound_step, receive_step, see, note_start, bind, is_fatal,
  seen_by, act, history_step,
}

-- The state in which a fresh frame is delivered.
abbrev pub noted : Peer → Frame → History → History
noted p f s = record (see p f.seq f.payload s) {
  fatal_seen = is_fatal f.body || s.fatal_seen;
  start = note_start f.body s.start;
}

pub fresh_step-deliver :
    (c : Case) (p : Peer) (f : Frame) (d : Delivery) (effects : List String) (s s' : History)
    → fresh_step c p f d effects s ≡ ok s'
    → deliver c f.body d effects (noted p f s) ≡ ok s'
unfolding fresh_step
fresh_step-deliver c p f d effects s s' h = ground arith

-- The state in which a frame of the session is sequenced.
abbrev pub joined : Frame → History → History
joined f s = record s { binding = bind s.binding f.run f.session }

module _ (c : Case) (p : Peer) (f : Frame) (d : Delivery) (effects : List String)
    (s s' : History) where
  pub sequenced_step-cases :
      sequenced_step c p f d effects s ≡ ok s'
      → (s' ≡ s)
        ⊎ ((f.seq ≡ length (seen_by p s) + 1)
            × (Dict.get f.seq (seen_by p s) ≡ none)
            × (fresh_step c p f d effects s ≡ ok s'))
  unfolding sequenced_step
  sequenced_step-cases h = ground (arith, is_some-false (Dict.get f.seq (seen_by p s)))

  pub bound_step-cases :
      bound_step c p f d effects s ≡ ok s'
      → (s' ≡ s) ⊎ (sequenced_step c p f d effects (joined f s) ≡ ok s')
  unfolding bound_step
  bound_step-cases h = ground arith

  pub receive_step-cases :
      receive_step c p f d effects s ≡ ok s'
      → (frame_shape f ≡ ok tt) × ((s' ≡ s) ⊎ (bound_step c p f d effects s ≡ ok s'))
  unfolding receive_step
  receive_step-cases h = ground arith

pub seen_by-joined : (p : Peer) (f : Frame) (s : History) → seen_by p (joined f s) ≡ seen_by p s
seen_by-joined go f s = refl
seen_by-joined java f s = refl

-- The three ways in which a received frame is accepted.
pub data Outcome (c : Case) (p : Peer) (f : Frame) (d : Delivery) (effects : List String)
    (s s' : History) : Type 0 where
  dropped : s' ≡ s → Outcome c p f d effects s s'
  stale : s' ≡ joined f s → Outcome c p f d effects s s'
  fresh :
      f.seq ≡ length (seen_by p s) + 1
      → Dict.get f.seq (seen_by p s) ≡ none
      → fresh_step c p f d effects (joined f s) ≡ ok s'
      → Outcome c p f d effects s s'

module _ (c : Case) (p : Peer) (f : Frame) (d : Delivery) (effects : List String)
    (s s' : History) where
  sequenced_step-Outcome :
      sequenced_step c p f d effects (joined f s) ≡ ok s' → Outcome c p f d effects s s'
  sequenced_step-Outcome h = elim (sequenced_step-cases c p f d effects (joined f s) s' h) [
    | inl e ↦ stale e
    | inr (next, unseen, g) ↦
        let same = seen_by-joined p f s in
        fresh (next ∙ ap (λ d. length d + 1) same) (ap (Dict.get f.seq) (sym same) ∙ unseen) g
  ]

  bound_step-Outcome : bound_step c p f d effects s ≡ ok s' → Outcome c p f d effects s s'
  bound_step-Outcome h = elim (bound_step-cases c p f d effects s s' h) [
    | inl e ↦ dropped e
    | inr g ↦ sequenced_step-Outcome g
  ]

  pub receive_step-Outcome :
      receive_step c p f d effects s ≡ ok s'
      → (frame_shape f ≡ ok tt) × Outcome c p f d effects s s'
  receive_step-Outcome h =
      let (shape, step) = receive_step-cases c p f d effects s s' h in
      (shape, elim step [ inl e ↦ dropped e | inr g ↦ bound_step-Outcome g ])

module _ (sha256 : List ℕ → String) (c : Case) where
  pub history_step-act :
      (step : Step) (s s' : History)
      → history_step sha256 c step s ≡ ok s'
      → act sha256 c step step.action s ≡ ok s'
  unfolding history_step
  history_step-act step s s' h = ground arith
