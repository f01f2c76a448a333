-- ===== src/Indexer/Dispatching.antt =====
-- Which handler a log reaches: the one of the event whose signature hashes to its first topic.
use oyster_monorepo.Base.{
  ℕ, ◌≡◌, refl, ◌⊎◌, inl, inr, Bool, true, false, Option, some, List, [], ◌∷◌, arith, ◌==◌,
  if◌then◌else◌, ==_iff,
}
use oyster_monorepo.Chain.{Codec}
use oyster_monorepo.Indexer.Dispatch.{Event, event_topic}
use oyster_monorepo.Indexer.Parse.{first_match, event_of, events}

-- keccak256 does not collide on the signatures of the events.
abbrev pub IsCollisionFree : Codec → Type 0
IsCollisionFree c = (e e' : Event) → event_topic c e ≡ event_topic c e' → e ≡ e'

abbrev In : Event → List Event → Type 0
In e [] = ⊥
In e (x ∷ xs) = (e ≡ x) ⊎ In e xs

module _ (c : Codec) (free : IsCollisionFree c) where
  first_match-topic :
      (e : Event) (es : List Event) → In e es → first_match c (event_topic c e) es ≡ some e
  first_match-topic e [] i = absurd i
  first_match-topic e (x ∷ es) i = ground (arith, free e x, first_match-topic e es)

  -- Every event has its place in the chain of tests.
  events_complete : (e : Event) → In e events
  events_complete Event.provider_added = inl refl
  events_complete _ = ground arith

  -- Where keccak does not collide on the signatures, a log whose first topic is the hash of an
  -- event's signature is taken for that event.
  pub event_of-topic : (e : Event) → event_of c (event_topic c e) ≡ some e
  unfolding event_of
  event_of-topic e = first_match-topic e events (events_complete e)

taken :
    (b : Bool) (x e : Event) (o : Option Event)
    → (if b then some x else o) ≡ some e
    → ((b ≡ true) × (x ≡ e)) ⊎ (o ≡ some e)
taken true x e o h = inl (refl, cc)
taken false x e o h = inr h

first_match_sound :
    (c : Codec) (t : ℕ) (es : List Event) (e : Event)
    → first_match c t es ≡ some e
    → t ≡ event_topic c e
first_match_sound c t [] e h = cc
first_match_sound c t (x ∷ es) e h =
    elim (taken (t == event_topic c x) x e (first_match c t es) h) [
      | inl (q, p) ↦ rw (← p) ((==_iff t (event_topic c x)).0 q)
      | inr later ↦ first_match_sound c t es e later
    ]

-- A log is taken for an event only by its topic.
pub event_of_sound : (c : Codec) (t : ℕ) (e : Event) → event_of c t ≡ some e → t ≡ event_topic c e
unfolding event_of
event_of_sound c t e h = first_match_sound c t events e h
